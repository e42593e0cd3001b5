-- ===== src/Runtime/Fake/Live.antt =====
-- The agents that are alive in the in-memory runtime, and what a launch adds to them.
use agentic_crew.Prelude.{
  ℕ, ◌+◌, ◌<◌, ◌&&◌, String, false, ◌≡◌, refl, ap, inl, inr, Option, none, some, List, [], ◌∷◌,
  ◌++◌, map, keep, Dict, lookup, insert, lookup-insert, arith, ◌==◌, eq_iff, eq_refl, if◌then◌else◌,
  Bool-cases,
}
use agentic_crew.Exec.{ok}
use agentic_crew.Caps.{AgentRole, same_role-eq}
use agentic_crew.Runtime.{
  AgentStatus, plain_status, AgentSpec, AgentHandle, running, is_over, is_wanted,
}
use agentic_crew.Runtime.Fake.{live_names, handle_of}
use agentic_crew.Runtime.Fake.Names.{number_of}

abbrev pub entry_handle : String → AgentSpec → AgentHandle
entry_handle name spec = record {
  id = name;
  name = name;
  role = spec.role;
  project_id = spec.project_id;
}

-- The agents whose state is not terminal, in the order of the dictionary.
abbrev pub live_of : Dict AgentStatus → Dict AgentSpec → List AgentHandle
live_of states [] = []
live_of states ((name, spec) ∷ d) = elim (lookup name states) [
  | none ↦ live_of states d
  | some st ↦
      if is_over st.state then live_of states d else entry_handle name spec ∷ live_of states d
]

-- How many agents of a project are still in the dictionary though their state is terminal.
abbrev pub ended_of : Dict AgentStatus → String → Dict AgentSpec → ℕ
ended_of states id [] = 0
ended_of states id ((name, spec) ∷ d) =
    let rest = ended_of states id d in
    elim (lookup name states) [
      | none ↦ rest
      | some st ↦ if is_over st.state && spec.project_id == id then rest + 1 else rest
    ]

-- Every agent has a state, a name of its own, and a number below the counter.
abbrev pub Known : Dict AgentStatus → ℕ → Dict AgentSpec → Type 0
Known states c [] = Unit {0}
Known states c ((name, spec) ∷ d) =
    (lookup name d ≡ none)
    × (number_of name < c)
    × ((st : AgentStatus) × (lookup name states ≡ some st))
    × Known states c d

pub live_names-live_of :
    (role : AgentRole) (wanted : Option String) (states : Dict AgentStatus) (c : ℕ)
    (d : Dict AgentSpec)
    → Known states c d
    → live_names role wanted states d
      ≡ ok (map (λ h. h.name) (keep (is_wanted role wanted) (live_of states d)))
unfolding live_names
live_names-live_of role wanted states c [] k = refl
live_names-live_of role wanted states c ((name, spec) ∷ d) (_, _, (st, e), k) =
    ground (arith, e, live_names-live_of role wanted states c d k)

-- A live agent is known by its name, and a wanted one has the role and the project asked for.
pub handles_of_names :
    (role : AgentRole) (id : String) (states : Dict AgentStatus) (d : Dict AgentSpec)
    → map
        (handle_of role id)
        (map (λ h. h.name) (keep (is_wanted role (some id)) (live_of states d)))
      ≡ keep (is_wanted role (some id)) (live_of states d)
unfolding handle_of
handles_of_names role id states [] = refl
handles_of_names role id states ((name, spec) ∷ d) = ground (
  arith,
  same_role-eq spec.role role,
  eq_iff spec.project_id id,
  handles_of_names role id states d,
)

-- A name with the next number is new.
pub lookup_above :
    (states : Dict AgentStatus) (c : ℕ) (name : String) (d : Dict AgentSpec)
    → number_of name ≡ c
    → Known states c d
    → lookup name d ≡ none
unfolding lookup
lookup_above states c name [] e k = refl
lookup_above states c name ((j, spec) ∷ d) e (_, lt, _, k) =
    ground (arith, eq_iff j name, ap number_of, lookup_above states c name d e k)

-- A launch: one more state, under the new name.
module _ (states after : Dict AgentStatus) (name : String) (spec : AgentSpec)
    (written : (j : String)
      → lookup j after ≡ (if name == j then some (plain_status running) else lookup j states)) where
  pub live_of-launch :
      (d : Dict AgentSpec)
      → lookup name d ≡ none
      → live_of after (insert name spec d) ≡ live_of states d ++ entry_handle name spec ∷ []
  unfolding lookup insert is_over
  live_of-launch [] h = ground (arith, written name, eq_refl name)
  live_of-launch ((j, x) ∷ d) h =
      ground (arith, written j, eq_iff j name, eq_iff name j, live_of-launch d)

  pub lookup-insert_ne_none :
      (j : String) (d : Dict AgentSpec)
      → (j == name) ≡ false
      → lookup j d ≡ none
      → lookup j (insert name spec d) ≡ none
  lookup-insert_ne_none j d ne h =
      ground (arith, lookup-insert name j spec d, eq_iff name j, eq_iff j name)

  pub Known-launch :
      (c : ℕ) (d : Dict AgentSpec)
      → number_of name ≡ c
      → lookup name d ≡ none
      → Known states c d
      → Known after (c + 1) (insert name spec d)
  unfolding insert lookup
  Known-launch c [] e h k =
      (refl, omega arith, (plain_status running, ground (arith, written name, eq_refl name)), tt)
  Known-launch c ((j, x) ∷ d) e h (fresh, lt, (st, found), k) = elim (Bool-cases (j == name)) [
    | inl same ↦ absurd (ground (arith))
    | inr other ↦ rw other (
      lookup-insert_ne_none j d other fresh,
      omega arith,
      (st, ground (arith, written j, eq_iff j name, eq_iff name j)),
      Known-launch c d e (ground arith) k,
    )
  ]
