-- ===== src/Service/Projects.antt =====
-- The methods of `CrewService` about projects: opening, naming, closing, and what is asked of them.
use agentic_crew.Prelude.{◌+◌, String, Bool, false, Option, none, some, List, [], ◌∷◌, length, ◌<>◌}
use agentic_crew.Exec.{Exec, Result, ok, err, raise, pure, cap_exceeded, ◌>>=◌, ◌>>◌}
use agentic_crew.Caps.{Refusal, check_new_project, role_value}
use agentic_crew.Project.{Project, new_project, rename, finish}
use agentic_crew.Contract.Value.{ℤ, str, arr, texts}
use agentic_crew.Contract.Events.{Event, founder_message, project_renamed, escalation}
use agentic_crew.Store.{Store}
use agentic_crew.Runtime.{Runtime}
use agentic_crew.Bus.{Bus}
use agentic_crew.Service.World.{Host, World, in_store, now, fresh_token, emit, require}
use agentic_crew.Service.Agents.{first_role, spawn}

abbrev or_empty : Option (List String) → List String
or_empty none = []
or_empty (some options) = options

module _ {st : Store} {rt : Runtime} {bus : Bus} where
  unfoldable pub get_project : String → Exec (World st rt bus) Project
  get_project project_id = require project_id

  unfoldable pub list_active : Exec (World st rt bus) (List Project)
  list_active = in_store st.list_active

  unfoldable pub finish_project : String → Bool → Exec (World st rt bus) Project
  finish_project project_id is_cancelled = do
    project ← require project_id
    in_store (st.save (finish project is_cancelled))

  unfoldable pub history : String → ℤ → Exec (World st rt bus) (List Event)
  history project_id limit = in_store (st.history project_id limit)

module _ {st : Store} {rt : Runtime} {bus : Bus} (host : Host) where
  abbrev pub refuse_if : Option Refusal → Exec (World st rt bus) (Unit {0})
  refuse_if none = pure tt
  refuse_if (some refusal) = raise (cap_exceeded refusal)

  unfoldable pub open_project : String → Exec (World st rt bus) Project
  open_project request = do
    active ← in_store st.list_active
    refuse_if (check_new_project (length active))
    token ← fresh_token host
    created_at ← now host
    project ← in_store (st.create (new_project ("proj-" <> token) created_at))
    emit host project.id founder_message "founder" (("text", str request) ∷ []) ""
    result ← spawn host project.id first_role request false
    pure result.project

  -- `project.rename(name)` reads the clock only where the name is accepted.
  abbrev pub after_rename : Result Project → Exec (World st rt bus) Project
  after_rename (ok renamed) w = (ok renamed, record w { reads = w.reads + 1 })
  after_rename (err e) w = (err e, w)

  abbrev pub rename_now : Project → String → Exec (World st rt bus) Project
  rename_now project name w = after_rename (rename project name (host.clock w.reads)) w

  unfoldable pub rename_project : String → String → Exec (World st rt bus) Project
  rename_project project_id name = do
    project ← require project_id
    proposed ← rename_now project name
    renamed ← in_store (st.save proposed)
    emit host project_id project_renamed (role_value first_role) (("name", str renamed.name) ∷ [])
        ""
    pure renamed

  unfoldable pub escalate :
      String → String → String → Option (List String) → Exec (World st rt bus) (Unit {0})
  escalate project_id question context options =
      emit host project_id escalation "control-plane"
        (("question", str question)
          ∷ ("context", str context)
          ∷ ("options", arr (texts (or_empty options)))
          ∷ [])
        ""
