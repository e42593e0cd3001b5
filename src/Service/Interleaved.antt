-- ===== src/Service/Interleaved.antt =====
-- apps/control_plane/service.py: `open_project` and `spawn` between their awaits, where other requests
-- of the same process take their turn.

mod Awaits
mod Starts
pub mod Alone
pub mod Launching
pub mod Crowd
mod Progress
pub mod Races
pub mod Overwriting
pub mod Escaping
use agentic_crew.Prelude.{
  ℕ, zero, suc, ◌<◌, String, Bool, false, Option, none, some, List, [], ◌∷◌, ◌++◌, length, keep,
  ◌<>◌, ◌≡◌, if◌then◌else◌,
}
use agentic_crew.Exec.{Result, ok, err, cap_exceeded, lift, ◌>>=◌}
use agentic_crew.Caps.{AgentRole, Census, Refusal, check_spawn, check_new_project}
use agentic_crew.Project.{Project, new_project, start}
use agentic_crew.Contract.Value.{str}
use agentic_crew.Contract.Events.{founder_message, agent_spawned, spawn_refused}
use agentic_crew.Store.{Store}
use agentic_crew.Runtime.{Runtime, AgentSpec, AgentHandle}
use agentic_crew.Bus.{Bus}
use agentic_crew.Service.World.{Host, World, in_store, in_runtime, emit, require, now, fresh_token}
use agentic_crew.Service.Agents.{
  SpawnResult, first_role, is_scoping, refused_payload, spawned_payload,
}
use agentic_crew.Service.Calls.{Call, step}
use agentic_crew.Service.Steps.{Ports, Crew, live}

-- The arguments of a call of `spawn`.
pub record Request : Type 0 where
  pub project_id : String
  pub role : AgentRole
  pub assignment : String
  pub override : Bool

abbrev pub spec : Request → AgentSpec
spec r = record { role = r.role; project_id = r.project_id; assignment = r.assignment }

-- The await at which a call stands, with the local variables that are read after it. The first three
-- are those of `open_project`, which then awaits its `spawn`.
pub data Task : Type 0 where
  lists : String → Task
  creates : String → Task
  greets : String → Project → Task
  requires : Request → Task
  counts_project : Request → Project → Task
  counts_all : Request → Project → ℕ → Task
  refuses : Request → Refusal → Task
  launches : Request → Project → Task
  announces : Request → Project → AgentHandle → Task
  saves : Project → AgentHandle → Task
  ended : Result SpawnResult → Task

-- An exception ends the call; a value is taken on to the next await.
abbrev pub resume : {W A : Type 0} → Result A × W → (A → Task) → Task × W
resume (ok a, w) next = (next a, w)
resume (err e, w) next = (ended (err e), w)

-- What `open_project` goes on to when it has counted the projects.
abbrev pub admit_if : String → Option Refusal → Task
admit_if text (some refusal) = ended (err (cap_exceeded refusal))
admit_if text none = creates text

abbrev pub admit : String → List Project → Task
admit text active = admit_if text (check_new_project (length active))

-- What `spawn` goes on to when it has counted the agents.
abbrev pub launch_if : Request → Project → Option Refusal → Task
launch_if r project (some refusal) = refuses r refusal
launch_if r project none = launches r project

abbrev pub weigh : Request → Project → ℕ → ℕ → Task
weigh r project in_project everywhere = launch_if r project (
    check_spawn (record { role = r.role; in_project = in_project; everywhere = everywhere })
      r.override)

abbrev pub result_of : AgentHandle → Project → SpawnResult
result_of handle project = record { handle = handle; project = project }

-- What `spawn` goes on to when it has announced the agent.
abbrev pub settle : Project → AgentHandle → Task
settle project handle =
    if is_scoping project.status
    then saves project handle
    else ended (ok (result_of handle project))

-- The request with which `open_project` calls `spawn`.
abbrev pub first_request : String → Project → Request
first_request text project = record {
  project_id = project.id;
  role = first_role;
  assignment = text;
  override = false;
}

module _ {st : Store} {rt : Runtime} {bus : Bus} (host : Host) where
  -- The awaited call is made, and the method runs on to its next await.
  unfoldable pub advance : Task → World st rt bus → Task × World st rt bus
  advance (lists text) w = resume (in_store st.list_active w) (admit text)
  advance (creates text) w =
      resume
        ((do
          token ← fresh_token host
          created_at ← now host
          in_store (st.create (new_project ("proj-" <> token) created_at)))
          w)
        (greets text)
  advance (greets text project) w =
      resume (emit host project.id founder_message "founder" (("text", str text) ∷ []) "" w)
        (λ _. requires (first_request text project))
  advance (requires r) w = resume (require r.project_id w) (counts_project r)
  advance (counts_project r project) w =
      resume (in_runtime (rt.census r.role (some r.project_id)) w) (counts_all r project)
  advance (counts_all r project in_project) w =
      resume (in_runtime (rt.census r.role none) w) (weigh r project in_project)
  advance (refuses r refusal) w =
      resume
        (emit host r.project_id spawn_refused "control-plane" (refused_payload r.role refusal) "" w)
        (λ _. ended (err (cap_exceeded refusal)))
  advance (launches r project) w = resume (in_runtime (rt.launch (spec r)) w) (announces r project)
  advance (announces r project handle) w =
      resume
        (emit host r.project_id agent_spawned "control-plane" (spawned_payload r.role handle) "" w)
        (λ _. settle project handle)
  advance (saves project handle) w =
      resume ((do started ← lift (start project); in_store (st.save started)) w)
        (λ saved. ended (ok (result_of handle saved)))
  advance (ended r) w = (ended r, w)

  -- A call that is left alone.
  unfoldable pub run_alone : ℕ → Task → World st rt bus → Task × World st rt bus
  run_alone zero t w = (t, w)
  run_alone (suc n) t w = let (t', w') = advance t w in run_alone n t' w'

module _ (ports : Ports) (host : Host) where
  open ports use {rt, is_runtime}

  -- The process: its state, and the calls that are in progress.
  pub record Process : Type 0 where
    pub world : Crew ports
    pub tasks : List Task

  -- One turn of the event loop, where no more than `crowd` calls are in progress at once. A call
  -- that no other interrupts is a call of the sequential model.
  pub data Turn (crowd : ℕ) (s : Process) : Process → Type 0 where
    opens :
        (text : String)
        → length s.tasks < crowd
        → Turn crowd s (record s { tasks = lists text ∷ s.tasks })
    spawns :
        (r : Request)
        → length s.tasks < crowd
        → Turn crowd s (record s { tasks = requires r ∷ s.tasks })
    moves :
        (before after : List Task) (t : Task)
        → s.tasks ≡ before ++ t ∷ after
        → Turn crowd s (record {
          world = (advance host t s.world).1;
          tasks = before ++ (advance host t s.world).0 ∷ after;
        })
    leaves :
        (before after : List Task) (r : Result SpawnResult)
        → s.tasks ≡ before ++ ended r ∷ after
        → Turn crowd s (record s { tasks = before ++ after })
    calls :
        (c : Call)
        → length s.tasks < crowd
        → Turn crowd s (record s { world = step ports host c s.world })
    agents_end :
        (runtime : rt.State) (stays : AgentHandle → Bool)
        → is_runtime.IsSound runtime
        → is_runtime.live runtime ≡ keep stays (live ports s.world)
        → Turn crowd s (record s { world = record s.world { runtime = runtime } })

  pub data Turns (crowd : ℕ) (s : Process) : Process → Type 0 where
    stop : Turns crowd s s
    further : {t u : Process} → Turns crowd s t → Turn crowd t u → Turns crowd s u
