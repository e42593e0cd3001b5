-- ===== src/Service/Spawn.antt =====
-- `CrewService.spawn`: what it does when the caps allow it, and when they refuse.
use agentic_crew.Prelude.{
  ◌+◌, String, Bool, ◌≡◌, refl, ap, ◌∙◌, none, some, [], ◌∷◌, ◌++◌, length, keep, ◌==◌,
  if◌then◌else◌,
}
use agentic_crew.Exec.{ok, err, cap_exceeded, key_error, bind_ok, bind_err}
use agentic_crew.Caps.{AgentRole, Census, Refusal, check_spawn}
use agentic_crew.Caps.Bounds.{HasRoom, check_spawn-none_iff}
use agentic_crew.Project.{Project}
use agentic_crew.Contract.Events.{EventKind, agent_spawned}
use agentic_crew.Runtime.{AgentSpec, is_wanted}
use agentic_crew.Service.World.{Host, in_runtime, in_runtime_lem, emit, require}
use agentic_crew.Service.Agents.{
  SpawnResult, refused_payload, spawned_payload, leave_scoping, act_on, spawn,
}
use agentic_crew.Service.Steps.{
  Ports, Crew, IsSound, find, active, log, live, published, event_at, emit_lem, require_found,
  require_missing,
}
use agentic_crew.Service.Leaving.{entered, entered-id, leave_scoping_lem}

abbrev pub spec_of : AgentRole → String → String → AgentSpec
spec_of role id assignment = record { role = role; project_id = id; assignment = assignment }

module _ (ports : Ports) where
  -- The census that the runtime's own view of the live agents gives.
  abbrev pub census_of : Crew ports → AgentRole → String → Census
  census_of w role id = record {
    role = role;
    in_project = length (keep (is_wanted role (some id)) (live ports w));
    everywhere = length (keep (is_wanted role none) (live ports w));
  }

module _ (ports : Ports) (host : Host) where
  open ports use {st, rt, bus, is_store, is_runtime, is_bus}

  spawn_head :
      (w : Crew ports) (id : String) (role : AgentRole) (assignment : String) (override : Bool)
      (p : Project)
      → IsSound ports w
      → find ports w id ≡ some p
      → spawn host id role assignment override w
        ≡ act_on host
            (check_spawn (census_of ports w role id) override)
            p
            (spec_of role id assignment)
            w
  unfolding spawn
  spawn_head w id role assignment override p sound h =
      bind_ok (require id) _ w (require_found ports w id p sound h)
      ∙ bind_ok (in_runtime (rt.census role (some id))) _ w (
          in_runtime_lem (rt.census role (some id)) w
            (is_runtime.census_lem w.runtime role (some id) sound.1))
      ∙ bind_ok (in_runtime (rt.census role none)) _ w (
          in_runtime_lem (rt.census role none) w
            (is_runtime.census_lem w.runtime role none sound.1))

  -- What a spawn that is let through has done.
  pub record Spawned (w : Crew ports) (p : Project) (spec : AgentSpec) (r : SpawnResult)
      (w' : Crew ports) : Type 0 where
    pub handle_role : r.handle.role ≡ spec.role
    pub handle_project : r.handle.project_id ≡ spec.project_id
    pub project : r.project ≡ entered p
    pub sound : IsSound ports w'
    pub projects :
        (j : String) → find ports w' j ≡ (if p.id == j then some (entered p) else find ports w j)
    pub as_many : active ports w' ≡ active ports w
    pub logs : (j : String) → log ports w' j ≡ log ports w j
    pub agents : live ports w' ≡ live ports w ++ r.handle ∷ []
    pub announced :
        published ports w'
        ≡ published ports w
          ++ event_at ports host w spec.project_id agent_spawned "control-plane"
              (spawned_payload spec.role r.handle)
              ""
            ∷ []
    pub same_spend : w'.spend ≡ w.spend
    pub same_stopped : w'.stopped ≡ w.stopped

  act_on_allowed :
      (w : Crew ports) (p : Project) (spec : AgentSpec)
      → IsSound ports w
      → find ports w p.id ≡ some p
      → (r : SpawnResult) × (w' : Crew ports) × (act_on host none p spec w ≡ (ok r, w'))
        × Spawned w p spec r w'
  unfolding act_on
  act_on_allowed w p spec sound h =
      let (handle, s, launched, sound', role, project, agents) =
        is_runtime.launch_lem w.runtime spec sound.1 in
      let w1 : Crew ports = record w { runtime = s } in
      let payload = spawned_payload spec.role handle in
      let (bus', sent, more) =
        emit_lem ports host w1 spec.project_id agent_spawned "control-plane" payload "" in
      let w2 : Crew ports = record w1 { events = bus'; reads = w.reads + 1 } in
      let (store', left, kept) = leave_scoping_lem ports host w2 p (sound.0, sound') h in
      (
        record { handle = handle; project = entered p },
        record w2 { store = store' },
        bind_ok (in_runtime (rt.launch spec)) _ w (in_runtime_lem (rt.launch spec) w launched)
            ∙ bind_ok (emit host spec.project_id agent_spawned "control-plane" payload "") _ w1 sent
            ∙ bind_ok (leave_scoping p) _ w2 left,
        record {
          handle_role = role;
          handle_project = project;
          project = refl;
          sound = (kept.sound, sound');
          projects = λ j. rw (entered-id p) at (kept.projects j);
          as_many = kept.as_many;
          logs = kept.logs;
          agents = agents;
          announced = more;
          same_spend = refl;
          same_stopped = refl;
        },
      )

  -- What a refused spawn has done: the refusal is announced, and nothing else has changed.
  pub record Refused (w : Crew ports) (spec : AgentSpec) (refusal : Refusal) (w' : Crew ports)
      : Type 0 where
    pub same_store : w'.store ≡ w.store
    pub same_runtime : w'.runtime ≡ w.runtime
    pub announced :
        published ports w'
        ≡ published ports w
          ++ event_at ports host w spec.project_id EventKind.spawn_refused "control-plane"
              (refused_payload spec.role refusal)
              ""
            ∷ []
    pub same_spend : w'.spend ≡ w.spend
    pub same_stopped : w'.stopped ≡ w.stopped

  act_on_refused :
      (w : Crew ports) (p : Project) (spec : AgentSpec) (refusal : Refusal)
      → (w' : Crew ports) × (act_on host (some refusal) p spec w ≡ (err (cap_exceeded refusal), w'))
        × Refused w spec refusal w'
  unfolding act_on
  act_on_refused w p spec refusal =
      let payload = refused_payload spec.role refusal in
      let (bus', sent, more) =
        emit_lem ports host w spec.project_id EventKind.spawn_refused "control-plane" payload "" in
      (
        record w { events = bus'; reads = w.reads + 1 },
        bind_ok (emit host spec.project_id EventKind.spawn_refused "control-plane" payload "") _ w
            sent,
        record {
          same_store = refl;
          same_runtime = refl;
          announced = more;
          same_spend = refl;
          same_stopped = refl;
        },
      )

  -- A spawn that the caps allow succeeds: exactly one agent more is alive, it has the role and
  -- the project asked for, its launch is announced on the bus, a project that was being scoped is
  -- running, and no other project, log or bill has changed.
  pub spawn_allowed :
      (w : Crew ports) (id : String) (role : AgentRole) (assignment : String) (override : Bool)
      (p : Project)
      → IsSound ports w
      → find ports w id ≡ some p
      → HasRoom (census_of ports w role id) override
      → (r : SpawnResult) × (w' : Crew ports) × (spawn host id role assignment override w
          ≡ (ok r, w'))
        × Spawned w p (spec_of role id assignment) r w'
  spawn_allowed w id role assignment override p sound h room =
      let own = is_store.find_id w.store id p sound.0 h in
      let allowed = (check_spawn-none_iff (census_of ports w role id) override).1 room in
      let (r, w', acted, spawned) =
        act_on_allowed w p (spec_of role id assignment) sound (ap (find ports w) own ∙ h) in
      (
        r,
        w',
        spawn_head w id role assignment override p sound h
            ∙ ap (λ a. act_on host a p (spec_of role id assignment) w) allowed
            ∙ acted,
        spawned,
      )

  -- A spawn that the caps refuse raises `CapExceeded` with the refusal of `check_spawn`, which is
  -- announced on the bus; the projects and the agents are what they were.
  pub spawn_refused :
      (w : Crew ports) (id : String) (role : AgentRole) (assignment : String) (override : Bool)
      (p : Project) (refusal : Refusal)
      → IsSound ports w
      → find ports w id ≡ some p
      → check_spawn (census_of ports w role id) override ≡ some refusal
      → (w' : Crew ports) × (spawn host id role assignment override w
          ≡ (err (cap_exceeded refusal), w'))
        × Refused w (spec_of role id assignment) refusal w'
  spawn_refused w id role assignment override p refusal sound h full =
      let (w', acted, refused) = act_on_refused w p (spec_of role id assignment) refusal in
      (
        w',
        spawn_head w id role assignment override p sound h
            ∙ ap (λ a. act_on host a p (spec_of role id assignment) w) full
            ∙ acted,
        refused,
      )

  -- A spawn on a project that the store does not have is a `KeyError`, and changes nothing.
  pub spawn_missing :
      (w : Crew ports) (id : String) (role : AgentRole) (assignment : String) (override : Bool)
      → IsSound ports w
      → find ports w id ≡ none
      → spawn host id role assignment override w ≡ (err (key_error id), w)
  unfolding spawn
  spawn_missing w id role assignment override sound h =
      bind_err (require id) _ w (require_missing ports w id sound h)
