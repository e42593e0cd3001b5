-- ===== src/Api.antt =====
-- apps/control_plane/api/routes.py and api/schemas.py: the HTTP routes over `CrewService`.
pub mod Replies
pub mod Stream
use Prim.Native.String
use agentic_crew.Prelude.{
  ℕ, String, Bool, true, false, ◌&&◌, List, [], ◌∷◌, map, Option, some, none, leb, ltb, ◌<>◌,
  if◌then◌else◌,
}
use agentic_crew.Exec.{
  Exec, Error, Result, ok, err, pure, cap_exceeded, key_error, value_error, naming_error, ◌>>=◌,
  ◌>>◌,
}
use agentic_crew.Caps.{AgentRole, Refusal, role_value}
use agentic_crew.Project.{Project, status_value, is_named, max_name_length}
use agentic_crew.Contract.Value.{ℤ, Payload}
use agentic_crew.Contract.Events.{Event, kind_value}
use agentic_crew.Store.{Store}
use agentic_crew.Runtime.{Runtime}
use agentic_crew.Bus.{Bus}
use agentic_crew.Service
use agentic_crew.Service.World.{Host, World}
use agentic_crew.Service.{SpawnResult, RosterRow}

-- What a route answers: a body with its status code, an `HTTPException`, or an exception that no
-- route handles.
pub data Detail : Type 0 where
  message : String → Detail
  refusal : Refusal → Detail
  invalid : Detail

pub data Reply (A : Type 0) : Type 0 where
  replied : ℕ → A → Reply A
  failed : ℕ → Detail → Reply A
  crashed : Error → Reply A

-- `ProjectView.of`; the moment is not yet written as a text.
pub record ProjectView : Type 0 where
  pub id : String
  pub name : String
  pub status : String
  pub is_named : Bool
  pub created_at : ℕ

unfoldable pub view_of : Project → ProjectView
view_of project = record {
  id = project.id;
  name = project.name;
  status = status_value project.status;
  is_named = is_named project;
  created_at = project.created_at;
}

-- `EventView.of`
pub record EventView : Type 0 where
  pub kind : String
  pub source : String
  pub payload : Payload
  pub at : ℕ

unfoldable pub event_view_of : Event → EventView
event_view_of event = record {
  kind = kind_value event.kind;
  source = event.source;
  payload = event.payload;
  at = event.at;
}

pub record AgentReply : Type 0 where
  pub agent : String
  pub role : String

abbrev pub not_found : {A : Type 0} → String → Reply A
not_found project_id = failed 404 (message ("no project " <> project_id))

-- `except KeyError`, with every other exception going on.
unfoldable pub on_key_error : {A : Type 0} → String → Error → Reply A
on_key_error project_id (key_error _) = not_found project_id
on_key_error project_id e = crashed e

-- `except CapExceeded`
unfoldable pub on_cap_exceeded : {A : Type 0} → Error → Reply A
on_cap_exceeded (cap_exceeded r) = failed 409 (refusal r)
on_cap_exceeded e = crashed e

-- `except KeyError` and `except CapExceeded`
unfoldable pub on_spawn_error : {A : Type 0} → String → Error → Reply A
on_spawn_error project_id (key_error _) = not_found project_id
on_spawn_error project_id (cap_exceeded r) = failed 409 (refusal r)
on_spawn_error project_id e = crashed e

-- `except KeyError` and `except ValueError`, of which `NamingError` is one
unfoldable pub on_rename_error : {A : Type 0} → String → Error → Reply A
on_rename_error project_id (key_error _) = not_found project_id
on_rename_error project_id (value_error reason) = failed 422 (message reason)
on_rename_error project_id (naming_error reason) = failed 422 (message reason)
on_rename_error project_id e = crashed e

abbrev pub reply_of : {A B : Type 0} → ℕ → (A → B) → (Error → Reply B) → Result A → Reply B
reply_of code view handler (ok a) = replied code (view a)
reply_of code view handler (err e) = handler e

-- `Field(min_length=1)`
abbrev pub is_given : String → Bool
is_given s = leb 1 (String.count s)

abbrev pub Route : Type 0 → Type 0 → Type 0
Route S A = S → Reply A × S

-- A route runs a method, and makes its answer or what is raised a reply.
abbrev pub serve : {S A B : Type 0} → ℕ → (A → B) → (Error → Reply B) → Exec S A → Route S B
serve code view handler m w = (reply_of code view handler (m w).0, (m w).1)

-- A body that its schema refuses does not reach the route.
abbrev pub validated : {S B : Type 0} → Bool → Route S B → Route S B
validated valid route w = if valid then route w else (failed 422 invalid, w)

module _ {st : Store} {rt : Runtime} {bus : Bus} where
  unfoldable pub list_projects : Route (World st rt bus) (List ProjectView)
  list_projects = serve 200 (map view_of) crashed Service.list_active

  unfoldable pub get_project : String → Route (World st rt bus) ProjectView
  get_project project_id =
      serve 200 view_of (on_key_error project_id) (Service.get_project project_id)

  unfoldable pub close_project : String → Route (World st rt bus) ProjectView
  close_project project_id =
      serve 200 view_of (on_key_error project_id) (Service.finish_project project_id true)

  unfoldable pub list_agents : String → Route (World st rt bus) (List RosterRow)
  list_agents project_id =
      serve 200 (λ rows. rows) (on_key_error project_id)
        (Service.get_project project_id >> Service.roster project_id)

  unfoldable pub project_history : String → ℤ → Route (World st rt bus) (List EventView)
  project_history project_id limit =
      serve 200 (map event_view_of) (on_key_error project_id)
        (Service.get_project project_id >> Service.history project_id limit)

module _ {st : Store} {rt : Runtime} {bus : Bus} (host : Host) where
  unfoldable pub open_project : String → Route (World st rt bus) ProjectView
  open_project request =
      validated (is_given request)
        (serve 201 view_of on_cap_exceeded (Service.open_project host request))

  -- `Field(min_length=1, max_length=MAX_NAME_LENGTH)`
  unfoldable pub rename_project : String → String → Route (World st rt bus) ProjectView
  rename_project project_id name =
      validated (is_given name && leb (String.count name) max_name_length) (
        serve 200 view_of (on_rename_error project_id)
          (Service.rename_project host project_id name))

  unfoldable pub spawn_agent :
      String → AgentRole → String → Bool → Route (World st rt bus) AgentReply
  spawn_agent project_id role assignment override =
      serve 201
        (λ result. record { agent = result.handle.name; role = role_value result.handle.role })
        (on_spawn_error project_id) (Service.spawn host project_id role assignment override)

  unfoldable pub post_message : String → String → Route (World st rt bus) Bool
  post_message project_id text = validated (is_given text) (
      serve 202 (λ _. true) (on_key_error project_id)
        (Service.get_project project_id >> Service.founder_says host project_id text))

  unfoldable pub delegate : String → String → AgentRole → String → Route (World st rt bus) Bool
  delegate project_id sender to_role text = validated (is_given text) (
      serve 202 (λ delivered. delivered) (on_key_error project_id)
        (Service.get_project project_id >> Service.deliver host project_id sender to_role text))

  unfoldable pub escalate : String → String → String → List String → Route (World st rt bus) Bool
  escalate project_id question context options = validated (is_given question) (
      serve 202 (λ _. true) (on_key_error project_id)
        (Service.get_project project_id
          >> Service.escalate host project_id question context (some options)))
