-- ===== src/Tests/Interleavings.antt =====
-- The theorems on interleaved requests, for a small crew.
use agentic_crew.Prelude.{
  ◌+◌, ◌-◌, ◌≤◌, true, false, ◌≡◌, refl, sym, subst, inl, some, [], ◌∷◌, ◌++◌, lookup, insert,
  show_nat, show_from, digit_text, arith,
}
use agentic_crew.Caps.{qa_engineer, per_project_limit, global_limit, same_role}
use agentic_crew.Caps.Bounds.{HasRoom}
use agentic_crew.Project.{Project, ProjectStatus, finish}
use agentic_crew.Store.Memory.Laws.{memory_store-IsStore}
use agentic_crew.Runtime.{AgentHandle}
use agentic_crew.Runtime.Fake.Laws.{fake_runtime-IsRuntime}
use agentic_crew.Service.{finish_project, is_scoping}
use agentic_crew.Service.Calls.{Call, step, finishes}
use agentic_crew.Exec.{◌>>=◌}
use agentic_crew.Service.World.{require, in_store, in_runtime, emit}
use agentic_crew.Caps.{check_spawn, role_value}
use agentic_crew.Store.Memory.{get, save}
use agentic_crew.Runtime.{is_over}
use agentic_crew.Runtime.Fake.{launch, census}
use agentic_crew.Service.Ceilings.{WithinGlobal}
use agentic_crew.Service.Steps.{Crew, IsSound, find, live}
use agentic_crew.Service.Spawn.{census_of}
use agentic_crew.Service.Interleaved.{
  Request, requires, advance, run_alone, Process, Turns, stop, further, spawns, moves,
}
use agentic_crew.Service.Interleaved.Launching.{count}
use agentic_crew.Service.Interleaved.Crowd.{Turns-count}
use agentic_crew.Service.Interleaved.Races.{both_launch}
use agentic_crew.Service.Interleaved.Overwriting.{overwrites}
use agentic_crew.Prelude.{map, keep, not, ◌==◌, contains}
use agentic_crew.Contract.Value.{pos, int, to_int, ◌+ℤ◌}
use agentic_crew.Contract.Events.{Event, EventKind}
use agentic_crew.Service.{charge, record_all, is_usage}
use agentic_crew.Service.Billing.{Reports, cut_off}
use agentic_crew.Service.Interleaved.{announces}
use agentic_crew.Service.Interleaved.Escaping.{outlives}
use agentic_crew.Tests.Crew.{
  ports, host, site, crew, busy, busy-Known, crew-IsSound, crew-find, crew-live,
  builder-WithinGlobal, told,
}

abbrev tester : Request
tester = record { project_id = "proj-1"; role = qa_engineer; assignment = "test"; override = false }

-- A spawn that has come to its second await.
abbrev begun : Process ports host
begun = record {
  world = (advance host (requires tester) crew).1;
  tasks = (advance host (requires tester) crew).0 ∷ [];
}

Turns-count_example : count ports host qa_engineer begun.world ≤ global_limit qa_engineer + (2 - 1)
Turns-count_example =
    Turns-count ports host 2 crew begun qa_engineer crew-IsSound
      (subst WithinGlobal (sym crew-live) builder-WithinGlobal)
      (further (further stop (spawns tester (omega arith))) (moves [] [] (requires tester) refl))

tester-HasRoom : HasRoom (census_of ports crew qa_engineer "proj-1") false
unfolding per_project_limit global_limit same_role
tester-HasRoom =
    subst (λ hs. HasRoom (told qa_engineer "proj-1" hs) false) (sym crew-live)
      (omega arith, omega arith, inl (omega arith))

both_launch_example :
    (u : Process ports host) × (h k : AgentHandle) × Turns ports host 2
      (record { world = crew; tasks = requires tester ∷ requires tester ∷ [] })
      u
    × (h.role ≡ qa_engineer)
    × (k.role ≡ qa_engineer)
    × (live ports u.world ≡ live ports crew ++ h ∷ k ∷ [])
both_launch_example =
    both_launch ports host tester tester site site crew crew-IsSound crew-find crew-find
      tester-HasRoom tester-HasRoom

abbrev new_site : Project
new_site = record site { status = ProjectStatus.scoping }

abbrev new_crew : Crew ports
new_crew = record crew { store = record { projects = ("proj-1", new_site) ∷ []; events = [] } }

new_crew-IsSound : IsSound ports new_crew
unfolding lookup
new_crew-IsSound = (
  memory_store-IsStore.1 new_crew.store (refl, refl, tt),
  fake_runtime-IsRuntime.1 busy busy-Known,
)

new_crew-find : find ports new_crew "proj-1" ≡ some new_site
unfolding lookup
new_crew-find = memory_store-IsStore.2 new_crew.store "proj-1"

new_crew-HasRoom : HasRoom (census_of ports new_crew qa_engineer "proj-1") false
new_crew-HasRoom = tester-HasRoom

abbrev cancels : Call
cancels = finishes "proj-1" true

cancelled-find :
    (q : Project) × (find ports
        (step ports host cancels (run_alone host 5 (requires tester) new_crew).1)
        "proj-1"
      ≡ some q)
unfolding step finish_project require in_store in_runtime emit ◌>>=◌ run_alone advance lookup insert
    get save census launch is_over check_spawn per_project_limit global_limit same_role is_scoping
    role_value show_nat show_from digit_text finish
cancelled-find = (
  _,
  memory_store-IsStore.2
      (step ports host cancels (run_alone host 5 (requires tester) new_crew).1).store "proj-1",
)

overwrites_example :
    find ports
      (advance host
        (run_alone host 5 (requires tester) new_crew).0
        (step ports host cancels (run_alone host 5 (requires tester) new_crew).1)).1
      "proj-1"
    ≡ some (record new_site { status = ProjectStatus.running })
unfolding is_scoping
overwrites_example =
    overwrites ports host tester new_site new_crew cancels cancelled-find.0 new_crew-IsSound
      new_crew-find new_crew-HasRoom refl cancelled-find.1

-- The turn with which the project spends what is left of its tokens.
abbrev last_turn : Event
last_turn = record {
  project_id = "proj-1";
  kind = EventKind.usage;
  source = "backend_engineer/backend_engineer-1";
  payload = ("input_tokens", int (pos 90)) ∷ ("output_tokens", int (pos 10)) ∷ [];
  at = 9;
  to = "";
}

last_turn-Reports : Reports last_turn (pos 90) (pos 10)
unfolding is_usage lookup to_int
last_turn-Reports = (refl, refl, refl)

outlives_example :
    let (t, w1) = run_alone host 3 (requires tester) crew in
    let w2 = (charge host last_turn w1).1 in
    let (t', w3) = advance host t w2 in
    (h : AgentHandle) × (t' ≡ announces tester site h)
    × (h.project_id ≡ "proj-1")
    × (find ports w3 "proj-1" ≡ some (cut_off site))
    × (live ports (
          record_all host
            (map (λ (l : Event). record l { project_id = "proj-1" }) (last_turn ∷ []))
            w3)
        ≡ keep (λ (a : AgentHandle). not (a.project_id == "proj-1")) (live ports crew) ++ h ∷ [])
unfolding lookup ◌+ℤ◌ contains
outlives_example =
    outlives ports host tester site crew last_turn (pos 90) (pos 10) (last_turn ∷ []) crew-IsSound
      crew-find tester-HasRoom refl last_turn-Reports refl refl
