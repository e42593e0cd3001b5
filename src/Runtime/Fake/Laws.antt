-- ===== src/Runtime/Fake/Laws.antt =====
-- The in-memory runtime against the laws of the AgentRuntime port: stopping a project, and all of it.
use agentic_crew.Prelude.{
  ℕ, ◌+◌, String, Bool, true, false, not, ◌≡◌, refl, sym, ap, ◌∙◌, inl, inr, none, some, List, [],
  ◌∷◌, length, keep, Dict, lookup, erase, contains, lookup-insert, arith, ◌==◌, eq_iff, eq_refl,
  if◌then◌else◌, Bool-cases, length-map, get_or, subst,
}
use agentic_crew.Exec.{ok}
use agentic_crew.Runtime.{
  AgentStatus, plain_status, AgentSpec, AgentHandle, IsAmong, is_over, IsRuntime, running,
  succeeded, is_wanted,
}
use agentic_crew.Runtime.Fake.{
  Fake, agent_name, launch, stop_project, status, census, handles, doomed, end_all, fake_runtime,
}
use agentic_crew.Runtime.Fake.Names.{number_of-agent_name}
use agentic_crew.Runtime.Fake.Live.{
  entry_handle, live_of, ended_of, Known, live_names-live_of, handles_of_names, lookup_above,
  live_of-launch, Known-launch,
}

-- Stopping a project: `doomed` names are ended and forgotten.
erase_all : List String → Dict AgentSpec → Dict AgentSpec
erase_all [] d = d
erase_all (name ∷ names) d = erase_all names (erase name d)

specs-end_all : (names : List String) (s : Fake) → (end_all names s).specs ≡ erase_all names s.specs
unfolding end_all erase_all
specs-end_all [] s = refl
specs-end_all (name ∷ names) s = specs-end_all names _

counter-end_all : (names : List String) (s : Fake) → (end_all names s).counter ≡ s.counter
unfolding end_all
counter-end_all [] s = refl
counter-end_all (name ∷ names) s = counter-end_all names _

states-end_all :
    (names : List String) (s : Fake) (j : String)
    → lookup j (end_all names s).states
      ≡ (if contains j names then some (plain_status succeeded) else lookup j s.states)
unfolding end_all contains
states-end_all [] s j = refl
states-end_all (name ∷ names) s j =
    states-end_all names _ j
    ∙ ground (arith, lookup-insert name j (plain_status succeeded) s.states)

erase_all-skip :
    (names : List String) (j : String) (x : AgentSpec) (d : Dict AgentSpec)
    → contains j names ≡ false
    → erase_all names ((j, x) ∷ d) ≡ (j, x) ∷ erase_all names d
unfolding erase_all erase contains
erase_all-skip [] j x d h = refl
erase_all-skip (name ∷ names) j x d h =
    ground (arith, eq_iff name j, eq_iff j name, erase_all-skip names j x (erase name d))

module _ (id : String) where
  abbrev spared : String × AgentSpec → Bool
  spared e = not (e.1.project_id == id)

  contains-doomed :
      (j : String) (d : Dict AgentSpec) → lookup j d ≡ none → contains j (doomed id d) ≡ false
  unfolding lookup contains doomed
  contains-doomed j [] h = refl
  contains-doomed j ((k, x) ∷ d) h = ground (arith, contains-doomed j d)

  erase_all-doomed :
      (states : Dict AgentStatus) (c : ℕ) (d : Dict AgentSpec)
      → Known states c d
      → erase_all (doomed id d) d ≡ keep spared d
  unfolding erase_all erase doomed
  erase_all-doomed states c [] k = refl
  erase_all-doomed states c ((j, x) ∷ d) (fresh, _, _, k) = ground (
    arith,
    eq_refl j,
    contains-doomed j d fresh,
    erase_all-skip (doomed id d) j x d,
    erase_all-doomed states c d k,
  )

  lookup-keep-none :
      (j : String) (d : Dict AgentSpec) → lookup j d ≡ none → lookup j (keep spared d) ≡ none
  unfolding lookup
  lookup-keep-none j [] h = refl
  lookup-keep-none j ((k, x) ∷ d) h = ground (arith, lookup-keep-none j d)

  -- The agents that stay are not among the names.
  abbrev Apart : List String → Dict AgentSpec → Type 0
  Apart names [] = Unit {0}
  Apart names ((j, x) ∷ d) =
      ((x.project_id == id) ≡ false → contains j names ≡ false) × Apart names d

  Apart-cons :
      (name : String) (names : List String) (d : Dict AgentSpec)
      → lookup name d ≡ none
      → Apart names d
      → Apart (name ∷ names) d
  unfolding lookup contains
  Apart-cons name names [] h a = tt
  Apart-cons name names ((j, x) ∷ d) h a = (
    λ other. ground (arith, a.0 other, eq_iff j name, eq_iff name j),
    Apart-cons name names d (ground arith) a.1,
  )

  doomed_mine :
      (j : String) (x : AgentSpec) (d : Dict AgentSpec)
      → (x.project_id == id) ≡ true
      → doomed id ((j, x) ∷ d) ≡ j ∷ doomed id d
  unfolding doomed
  doomed_mine j x d h = rw h

  doomed_other :
      (j : String) (x : AgentSpec) (d : Dict AgentSpec)
      → (x.project_id == id) ≡ false
      → doomed id ((j, x) ∷ d) ≡ doomed id d
  unfolding doomed
  doomed_other j x d h = rw h

  Apart-doomed :
      (states : Dict AgentStatus) (c : ℕ) (d : Dict AgentSpec)
      → Known states c d
      → Apart (doomed id d) d
  Apart-doomed states c [] k = tt
  Apart-doomed states c ((j, x) ∷ d) (fresh, _, _, k) = elim (Bool-cases (x.project_id == id)) [
    | inl mine ↦
        subst (λ names. Apart names ((j, x) ∷ d)) (sym (doomed_mine j x d mine))
          (
            λ other. cc (mine, other),
            Apart-cons j (doomed id d) d fresh (Apart-doomed states c d k),
          )
    | inr other ↦
        subst (λ names. Apart names ((j, x) ∷ d)) (sym (doomed_other j x d other))
          (λ _. contains-doomed j d fresh, Apart-doomed states c d k)
  ]

  module _ (names : List String) (states after : Dict AgentStatus)
      (written : (j : String)
        → lookup j after
          ≡ (if contains j names then some (plain_status succeeded) else lookup j states)) where
    live_of-stop :
        (d : Dict AgentSpec)
        → Apart names d
        → live_of after (keep spared d) ≡ keep (λ h. not (h.project_id == id)) (live_of states d)
    live_of-stop [] a = refl
    live_of-stop ((j, x) ∷ d) a = ground (arith, a.0, written j, live_of-stop d a.1)

    Known-stop : (c : ℕ) (d : Dict AgentSpec) → Known states c d → Known after c (keep spared d)
    Known-stop c [] k = tt
    Known-stop c ((j, x) ∷ d) (fresh, lt, (st, found), k) = elim (Bool-cases (x.project_id == id)) [
      | inl mine ↦ rw mine (Known-stop c d k)
      | inr other ↦ rw other (
        lookup-keep-none j d fresh,
        lt,
        elim (Bool-cases (contains j names)) [
          | inl ended ↦ (plain_status succeeded, ground (arith, written j))
          | inr going ↦ (st, ground (arith, written j))
        ],
        Known-stop c d k,
      )
    ]

  ended_of-spared :
      (states : Dict AgentStatus) (d : Dict AgentSpec) → ended_of states id (keep spared d) ≡ 0
  ended_of-spared states [] = refl
  ended_of-spared states ((j, x) ∷ d) = ground (arith, ended_of-spared states d)

  length-doomed :
      (states : Dict AgentStatus) (c : ℕ) (d : Dict AgentSpec)
      → Known states c d
      → length (doomed id d)
        ≡ length (keep (λ h. h.project_id == id) (live_of states d)) + ended_of states id d
  unfolding doomed
  length-doomed states c [] k = refl
  length-doomed states c ((j, x) ∷ d) (_, _, (st, found), k) =
      ground (arith, found, length-doomed states c d k)

-- An agent that is alive has a state that is not terminal.
live-states :
    (states : Dict AgentStatus) (c : ℕ) (h : AgentHandle) (d : Dict AgentSpec)
    → Known states c d
    → IsAmong h (live_of states d)
    → is_over (get_or h.name (plain_status succeeded) states).state ≡ false
live-states states c h [] k among = absurd (among tt)
live-states states c h ((j, x) ∷ d) (_, _, (st, found), k) among =
    elim (Bool-cases (is_over st.state)) [
      | inl over ↦
          let skipped : live_of states ((j, x) ∷ d) ≡ live_of states d =
            ground (arith, found, over) in
          live-states states c h d k (subst (IsAmong h) skipped among)
      | inr alive ↦
          let listed : live_of states ((j, x) ∷ d) ≡ entry_handle j x ∷ live_of states d =
            ground (arith, found, alive) in
          elim (subst (IsAmong h) listed among) [
            | inl same ↦
                subst
                  (λ (a : AgentHandle).
                    is_over (get_or a.name (plain_status succeeded) states).state ≡ false)
                  same (ground (arith, found, alive))
            | inr more ↦ live-states states c h d k more
          ]
    ]

fake_laws : IsRuntime fake_runtime
unfolding launch stop_project status census handles
fake_laws = record {
  IsSound = λ s. Known s.states s.counter s.specs;
  live = λ s. live_of s.states s.specs;
  census_lem = λ s role wanted k.
      let listed = live_names-live_of role wanted s.states s.counter s.specs k in
      let wanted_agents = keep (is_wanted role wanted) (live_of s.states s.specs) in
      rw listed (ap (λ (n : ℕ). (ok n, s)) (length-map wanted_agents (λ h. h.name)));
  handles_lem = λ s role id k.
      let listed = live_names-live_of role (some id) s.states s.counter s.specs k in
      rw listed
        (ap (λ (hs : List AgentHandle). (ok hs, s)) (handles_of_names role id s.states s.specs));
  ended = λ s id. ended_of s.states id s.specs;
  status_lem = λ s h k. (
    get_or h.name (plain_status succeeded) s.states,
    refl,
    live-states s.states s.counter h s.specs k,
  );
  launch_lem = λ s spec k.
      let name = agent_name spec.role s.counter in
      let numbered = number_of-agent_name spec.role s.counter in
      let fresh = lookup_above s.states s.counter name s.specs numbered k in
      let written = λ (j : String). lookup-insert name j (plain_status running) s.states in
      (
        entry_handle name spec,
        (launch spec s).1,
        refl,
        Known-launch s.states _ name spec written s.counter s.specs numbered fresh k,
        refl,
        refl,
        live_of-launch s.states _ name spec written s.specs fresh,
      );
  stop_project_lem = λ s id k.
      let names = doomed id s.specs in
      let after = end_all names s in
      let kept = specs-end_all names s ∙ erase_all-doomed id s.states s.counter s.specs k in
      let written = states-end_all names s in
      let apart = Apart-doomed id s.states s.counter s.specs k in
      (
        length names,
        after,
        refl,
        length-doomed id s.states s.counter s.specs k,
        rw kept (ended_of-spared id after.states s.specs),
        rw (kept, counter-end_all names s)
            (Known-stop id names s.states after.states written s.counter s.specs k),
        rw kept (live_of-stop id names s.states after.states written s.specs apart),
      );
}

pub fake_runtime-IsRuntime :
    (laws : IsRuntime fake_runtime) × ((s : Fake)
      → Known s.states s.counter s.specs
      → laws.IsSound s)
    × ((s : Fake) → laws.live s ≡ live_of s.states s.specs)
    × ((s : Fake) (id : String) → laws.ended s id ≡ ended_of s.states id s.specs)
unfolding fake_laws
fake_runtime-IsRuntime = (fake_laws, λ s k. k, λ s. refl, λ s id. refl)
