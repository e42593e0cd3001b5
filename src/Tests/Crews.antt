-- ===== src/Tests/Crews.antt =====
-- The theorems on spawning, on limits, on the bill and on the recorder, for a small crew.
use agentic_crew.Prelude.{
  String, Bool, ◌||◌, ap, some, none, if◌then◌else◌, ◌≤◌, true, false, ◌≡◌, refl, sym, subst, inl,
  [], ◌∷◌, ◌++◌, length, keep, lookup, contains, last_n, arith, ◌==◌,
}
use agentic_crew.Exec.{ok, err, cap_exceeded}
use agentic_crew.Caps.{qa_engineer, backend_engineer, per_project_limit, global_limit, same_role}
use agentic_crew.Caps.Bounds.{HasRoom}
use agentic_crew.Contract.Value.{ℤ, pos, int, ◌+ℤ◌, to_int}
use agentic_crew.Contract.Events.{Event, EventKind}
use agentic_crew.Store.{max_history}
use agentic_crew.Store.Memory.Laws.{memory_store-IsStore}
use agentic_crew.Service.{SpawnResult, spawn, charge, record_all, is_usage}
use agentic_crew.Service.Steps.{Crew, log, live}
use agentic_crew.Service.Calls.{step, is_permitted, start, more, call, spawns}
use agentic_crew.Service.Spawn.{census_of, spec_of, Spawned, Refused, spawn_allowed, spawn_refused}
use agentic_crew.Service.Ceilings.{WithinGlobal, WithinProject, Run-WithinGlobal, Run-WithinProject}
use agentic_crew.Service.Billing.{Reports, CutOff, bill, charge_over_budget}
use agentic_crew.Service.Recording.{record_all_log}
use agentic_crew.Service.Totals.Sums.{total}
use agentic_crew.Service.Totals.{record_all-total}
use agentic_crew.Contract.Value.{below}
use agentic_crew.Tests.Crew.{
  ports, host, site, crew, crew-IsSound, crew-find, crew-live, told, builder-WithinGlobal,
  builder-WithinProject, full, crew-full,
}

qa-HasRoom : HasRoom (census_of ports crew qa_engineer "proj-1") false
unfolding per_project_limit global_limit same_role
qa-HasRoom =
    subst (λ hs. HasRoom (told qa_engineer "proj-1" hs) false) (sym crew-live)
      (omega arith, omega arith, inl (omega arith))

Run-WithinGlobal_example :
    WithinGlobal (live ports (step ports host (spawns "proj-1" qa_engineer "test" true) crew))
unfolding is_permitted
Run-WithinGlobal_example =
    Run-WithinGlobal ports host crew
      (step ports host (spawns "proj-1" qa_engineer "test" true) crew) crew-IsSound
      (subst WithinGlobal (sym crew-live) builder-WithinGlobal)
      (more start (call (spawns "proj-1" qa_engineer "test" true) refl))

Run-WithinProject_example :
    WithinProject
      (live ports (step ports host (spawns "proj-1" backend_engineer "more" false) crew))
unfolding is_permitted
Run-WithinProject_example =
    Run-WithinProject ports host crew
      (step ports host (spawns "proj-1" backend_engineer "more" false) crew) crew-IsSound
      (subst WithinProject (sym crew-live) builder-WithinProject)
      (more start (call (spawns "proj-1" backend_engineer "more" false) refl))

spawn_allowed_example :
    (r : SpawnResult) × (w' : Crew ports) × (spawn host "proj-1" qa_engineer "test" false crew
      ≡ (ok r, w'))
    × Spawned ports host crew site (spec_of qa_engineer "proj-1" "test") r w'
spawn_allowed_example =
    spawn_allowed ports host crew "proj-1" qa_engineer "test" false site crew-IsSound crew-find
      qa-HasRoom

spawn_refused_example :
    (w' : Crew ports) × (spawn host "proj-1" backend_engineer "more" false crew
      ≡ (err (cap_exceeded full), w'))
    × Refused ports host crew (spec_of backend_engineer "proj-1" "more") full w'
spawn_refused_example =
    spawn_refused ports host crew "proj-1" backend_engineer "more" false site full crew-IsSound
      crew-find crew-full

abbrev turn : ℤ → Event
turn tokens = record {
  project_id = "proj-1";
  kind = EventKind.usage;
  source = "backend_engineer/backend_engineer-1";
  payload = ("input_tokens", int tokens) ∷ ("output_tokens", int (pos 10)) ∷ [];
  at = 9;
  to = "";
}

turn-Reports : (tokens : ℤ) → Reports (turn tokens) tokens (pos 10)
unfolding is_usage lookup to_int
turn-Reports tokens = (refl, refl, refl)

charge_over_budget_example :
    (w' : Crew ports) × (charge host (turn (pos 90)) crew ≡ (ok tt, w'))
    × CutOff ports host crew
        (turn (pos 90))
        site
        (bill ports crew "proj-1" +ℤ (pos 90 +ℤ pos 10))
        w'
unfolding lookup ◌+ℤ◌ contains
charge_over_budget_example =
    charge_over_budget ports host crew (turn (pos 90)) site (pos 90) (pos 10) crew-IsSound crew-find
      (turn-Reports (pos 90)) refl refl

record_all_log_example :
    log ports (record_all host (turn (pos 5) ∷ []) crew) "proj-1"
    ≡ last_n max_history
        (log ports crew "proj-1" ++ keep (λ e. e.project_id == "proj-1") (turn (pos 5) ∷ []))
unfolding lookup
record_all_log_example = record_all_log ports host (turn (pos 5) ∷ []) crew "proj-1" crew-IsSound (
    subst (λ l. length l ≤ max_history) (sym (memory_store-IsStore.4 crew.store "proj-1"))
      (omega arith))

-- The bill of a project whose id is the crew's or another, by the test of the two ids.
crew_affords :
    (same : Bool)
    → below (elim (if same then some (pos 400) else none) [ none ↦ pos 0 | some spent ↦ spent ]) 500
      ≡ true
crew_affords true = refl
crew_affords false = refl

crew-Enforced :
    (j : String)
    → (below (bill ports crew j) host.max_project_tokens || contains j crew.stopped) ≡ true
unfolding lookup
crew-Enforced j = ap (λ b. b || contains j []) (crew_affords ("proj-1" == j))

record_all-total_example :
    let spent =
      total
        (bill ports crew "proj-1")
        (keep (λ e. e.project_id == "proj-1") (turn (pos 5) ∷ turn (pos 90) ∷ turn (pos 5) ∷ [])) in
    let w' = record_all host (turn (pos 5) ∷ turn (pos 90) ∷ turn (pos 5) ∷ []) crew in
    (bill ports w' "proj-1" ≡ spent)
    × ((below spent host.max_project_tokens || contains "proj-1" w'.stopped) ≡ true)
record_all-total_example =
    record_all-total ports host (turn (pos 5) ∷ turn (pos 90) ∷ turn (pos 5) ∷ []) crew crew-IsSound
      crew-Enforced "proj-1"

total_is : total (pos 60) (turn (pos 5) ∷ []) ≡ pos 75
unfolding total is_usage lookup to_int ◌+ℤ◌
total_is = refl
