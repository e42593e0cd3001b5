-- ===== src/Runtime/Fake.antt =====
-- apps/control_plane/adapters/fake_runtime.py: the in-memory AgentRuntime.
pub mod Names
pub mod Live
pub mod Laws
use agentic_crew.Prelude.{
  ℕ, ◌+◌, String, Bool, false, ◌&&◌, Option, none, some, List, [], ◌∷◌, ◌++◌, map, length, Dict,
  lookup, insert, erase, get_or, ◌==◌, ◌<>◌, show_nat, if◌then◌else◌,
}
use agentic_crew.Exec.{Exec, Result, ok, err, key_error}
use agentic_crew.Caps.{AgentRole, same_role, role_value}
use agentic_crew.Runtime.{
  AgentState, AgentStatus, plain_status, AgentSpec, AgentHandle, Runtime, running, succeeded,
  failed, is_over, on_project,
}

pub record Fake : Type 0 where
  pub counter : ℕ
  pub launched : List AgentSpec
  pub states : Dict AgentStatus
  pub specs : Dict AgentSpec
  pub texts : Dict String

abbrev pub empty : Fake
empty = record { counter = 1; launched = []; states = []; specs = []; texts = [] }

abbrev pub agent_name : AgentRole → ℕ → String
agent_name role n = role_value role <> ("-" <> show_nat n)

unfoldable pub launch : AgentSpec → Exec Fake AgentHandle
launch spec s =
    let name = agent_name spec.role s.counter in
    (
      ok (record { id = name; name = name; role = spec.role; project_id = spec.project_id }),
      record s {
        counter = s.counter + 1;
        launched = s.launched ++ spec ∷ [];
        specs = insert name spec s.specs;
        states = insert name (plain_status running) s.states;
      },
    )

-- `[n for n, spec in self._specs.items() if spec.project_id == project_id]`
doomed : String → Dict AgentSpec → List String
doomed project_id [] = []
doomed project_id ((name, spec) ∷ d) =
    if spec.project_id == project_id then name ∷ doomed project_id d else doomed project_id d

-- The loop that ends each agent and forgets it.
end_all : List String → Fake → Fake
end_all [] s = s
end_all (name ∷ names) s = end_all names (record s {
  states = insert name (plain_status succeeded) s.states;
  specs = erase name s.specs;
})

unfoldable pub stop_project : String → Exec Fake ℕ
unfolding doomed end_all
stop_project project_id s =
    let names = doomed project_id s.specs in (ok (length names), end_all names s)

unfoldable pub status : AgentHandle → Exec Fake AgentStatus
status handle s = (ok (get_or handle.name (plain_status succeeded) s.states), s)

cons_name : String → Result (List String) → Result (List String)
cons_name name (ok names) = ok (name ∷ names)
cons_name name (err e) = err e

-- `_live`: a name with no state is a `KeyError`, raised where the loop reaches it.
pub live_names :
    AgentRole → Option String → Dict AgentStatus → Dict AgentSpec → Result (List String)
unfolding cons_name
live_names role project_id states [] = ok []
live_names role project_id states ((name, spec) ∷ d) =
    let rest = live_names role project_id states d in
    if same_role spec.role role && on_project project_id spec.project_id
    then (elim (lookup name states) [
      | none ↦ err (key_error name)
      | some st ↦ if is_over st.state then rest else cons_name name rest
    ])
    else rest

-- `len` of a list that may have failed to be built, and a handle for each name of it.
abbrev on_names {ℓ} : {A : Type ℓ} → (List String → A) → Result (List String) → Result A
on_names f (ok names) = ok (f names)
on_names f (err e) = err e

unfoldable pub census : AgentRole → Option String → Exec Fake ℕ
unfolding live_names
census role project_id s = (on_names length (live_names role project_id s.states s.specs), s)

pub handle_of : AgentRole → String → String → AgentHandle
handle_of role project_id name = record {
  id = name;
  name = name;
  role = role;
  project_id = project_id;
}

unfoldable pub handles : AgentRole → String → Exec Fake (List AgentHandle)
unfolding live_names handle_of
handles role project_id s = (
  on_names (map (handle_of role project_id)) (live_names role (some project_id) s.states s.specs),
  s,
)

-- `logs`, and the controls that tests drive the agents by.
unfoldable pub logs : AgentHandle → Exec Fake String
logs handle s = (ok (get_or handle.name "" s.texts), s)

unfoldable pub finish : AgentHandle → Bool → Fake → Fake
finish handle has_failed s = record s {
  states = insert handle.name (plain_status (if has_failed then failed else succeeded)) s.states;
}

unfoldable pub emit : AgentHandle → String → Fake → Fake
emit handle text s = record s { texts = insert handle.name text s.texts }

abbrev pub fake_runtime : Runtime
fake_runtime = record {
  State = Fake;
  launch = launch;
  status = status;
  census = census;
  handles = handles;
  stop_project = stop_project;
}
