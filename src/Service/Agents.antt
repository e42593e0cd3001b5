-- ===== src/Service/Agents.antt =====
-- The methods of `CrewService` about agents: `spawn`, `roster`, and handing messages over.
use agentic_crew.Prelude.{
  String, Bool, false, true, Option, none, some, List, [], ◌∷◌, ◌++◌, ◌==◌, ◌<>◌, if◌then◌else◌,
}
use agentic_crew.Exec.{Exec, raise, pure, cap_exceeded, ◌>>=◌, ◌>>◌}
use agentic_crew.Caps.{
  AgentRole, engineering_manager, role_value, all_roles, Census, Refusal, check_spawn,
}
use agentic_crew.Project.{Project, ProjectStatus, scoping, start}
use agentic_crew.Contract.Value.{str, int, pos, Payload}
use agentic_crew.Contract.Events.{EventKind, founder_message, agent_spawned, spawn_refused}
use agentic_crew.Store.{Store}
use agentic_crew.Runtime.{Runtime, AgentSpec, AgentHandle, AgentStatus, state_value, is_stuck}
use agentic_crew.Bus.{Bus}
use agentic_crew.Service.World.{Host, World, in_store, in_runtime, emit, require}
use agentic_crew.Exec.{lift}

abbrev pub first_role : AgentRole
first_role = engineering_manager

pub record SpawnResult : Type 0 where
  pub handle : AgentHandle
  pub project : Project

abbrev pub refused_payload : AgentRole → Refusal → Payload
refused_payload role refusal =
    ("role", str (role_value role))
    ∷ ("scope", str refusal.scope)
    ∷ ("limit", int (pos refusal.limit))
    ∷ ("message", str refusal.message)
    ∷ []

abbrev pub spawned_payload : AgentRole → AgentHandle → Payload
spawned_payload role handle = ("role", str (role_value role)) ∷ ("agent", str handle.name) ∷ []

-- `status is ProjectStatus.SCOPING`
unfoldable pub is_scoping : ProjectStatus → Bool
is_scoping scoping = true
is_scoping _ = false

pub record RosterRow : Type 0 where
  pub name : String
  pub role : String
  pub state : String
  pub reason : String
  pub stuck : Bool

abbrev pub roster_row : AgentRole → AgentHandle → AgentStatus → RosterRow
roster_row role handle status = record {
  name = handle.name;
  role = role_value role;
  state = state_value status.state;
  reason = status.reason;
  stuck = is_stuck status;
}

-- `f"{role.value}/{handles[0].name}" if handles else ""`
abbrev pub first_address : AgentRole → List AgentHandle → String
first_address role [] = ""
first_address role (handle ∷ _) = role_value role <> ("/" <> handle.name)

module _ {st : Store} {rt : Runtime} {bus : Bus} where
  -- A project with someone working on it is no longer being scoped.
  unfoldable pub leave_scoping : Project → Exec (World st rt bus) Project
  leave_scoping project =
      if is_scoping project.status
      then (do started ← lift (start project); in_store (st.save started))
      else pure project

  -- The rows of the agents of one role, and then of every role.
  unfoldable pub rows_of : AgentRole → List AgentHandle → Exec (World st rt bus) (List RosterRow)
  rows_of role [] = pure []
  rows_of role (handle ∷ handles) = do
    status ← in_runtime (rt.status handle)
    rows ← rows_of role handles
    pure (roster_row role handle status ∷ rows)

  unfoldable pub roster_from : List AgentRole → String → Exec (World st rt bus) (List RosterRow)
  roster_from [] project_id = pure []
  roster_from (role ∷ roles) project_id = do
    handles ← in_runtime (rt.handles role project_id)
    rows ← rows_of role handles
    rest ← roster_from roles project_id
    pure (rows ++ rest)

  unfoldable pub roster : String → Exec (World st rt bus) (List RosterRow)
  roster project_id = roster_from all_roles project_id

  -- `_role_address`
  unfoldable pub role_address : String → AgentRole → Exec (World st rt bus) String
  role_address project_id role = do
    handles ← in_runtime (rt.handles role project_id)
    pure (first_address role handles)

module _ {st : Store} {rt : Runtime} {bus : Bus} (host : Host) where
  -- What `spawn` does with the answer of the caps.
  unfoldable pub act_on : Option Refusal → Project → AgentSpec → Exec (World st rt bus) SpawnResult
  act_on (some refusal) project spec = do
    emit host spec.project_id spawn_refused "control-plane" (refused_payload spec.role refusal) ""
    raise (cap_exceeded refusal)
  act_on none project spec = do
    handle ← in_runtime (rt.launch spec)
    emit host spec.project_id agent_spawned "control-plane" (spawned_payload spec.role handle) ""
    project' ← leave_scoping project
    pure (record { handle = handle; project = project' })

  unfoldable pub spawn : String → AgentRole → String → Bool → Exec (World st rt bus) SpawnResult
  spawn project_id role assignment override = do
    project ← require project_id
    in_project ← in_runtime (rt.census role (some project_id))
    everywhere ← in_runtime (rt.census role none)
    let census : Census = record { role = role; in_project = in_project; everywhere = everywhere }
    act_on (check_spawn census override) project
        (record { role = role; project_id = project_id; assignment = assignment })

  unfoldable pub founder_says : String → String → Exec (World st rt bus) (Unit {0})
  founder_says project_id text = do
    em ← role_address project_id first_role
    emit host project_id founder_message "founder" (("text", str text) ∷ []) em

  unfoldable pub deliver : String → String → AgentRole → String → Exec (World st rt bus) Bool
  deliver project_id sender to_role text = do
    address ← role_address project_id to_role
    if address == "" then pure false else do
      emit host project_id EventKind.assignment sender (("text", str text) ∷ []) address
      pure true
