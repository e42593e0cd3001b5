-- ===== src/Tests/Openings.antt =====
-- The theorems on opening a project and on the HTTP routes, for a small crew.
use agentic_crew.Prelude.{
  ◌+◌, false, ◌≡◌, ◌⊎◌, refl, sym, ap, subst, inl, none, some, List, [], ◌∷◌, ◌++◌, lookup, arith,
  show_nat, show_from, digit_text,
}
use agentic_crew.Exec.{ok, err, cap_exceeded}
use agentic_crew.Caps.{
  Refusal, qa_engineer, engineering_manager, role_value, check_spawn, per_project_limit,
  global_limit, global_full, same_role,
}
use agentic_crew.Caps.Bounds.{HasRoom}
use agentic_crew.Project.{Project}
use agentic_crew.Store.Memory.Laws.{memory_store-IsStore}
use agentic_crew.Runtime.{AgentHandle, AgentSpec, AgentStatus, plain_status, is_over, is_wanted}
use agentic_crew.Runtime.Fake.{Fake}
use agentic_crew.Runtime.Fake.Laws.{fake_runtime-IsRuntime}
use agentic_crew.Runtime.Fake.Live.{Known, entry_handle}
use agentic_crew.Runtime.Fake.Names.{number_of}
use agentic_crew.Prelude.Numerals.{read_digits}
use agentic_crew.Service.{open_project}
use agentic_crew.Service.Steps.{Crew, find, active, live}
use agentic_crew.Service.Spawn.{census_of, spec_of}
use agentic_crew.Service.Opening.{next_id, next_project, Opened, open_allowed, open_stranded}
use agentic_crew.Api
use agentic_crew.Api.{
  Reply, AgentReply, ProjectView, EventView, replied, failed, refusal, not_found, is_given,
}
use agentic_crew.Api.Replies.{spawn_agent-replies}
use agentic_crew.Tests.Crew.{
  ports, host, crew, idle, crew-IsSound, idle-IsSound, idle-live, idle-active, told,
}

manager-HasRoom : HasRoom (census_of ports idle engineering_manager (next_id ports host idle)) false
unfolding per_project_limit global_limit
manager-HasRoom =
    subst (λ hs. HasRoom (told engineering_manager (next_id ports host idle) hs) false)
      (sym idle-live) (omega arith, omega arith, inl (omega arith))

open_allowed_example :
    (p : Project) × (w' : Crew ports) × (open_project host "a site" idle ≡ (ok p, w'))
    × Opened ports host idle p w'
unfolding lookup
open_allowed_example =
    open_allowed ports host idle "a site" idle-IsSound (omega (arith, idle-active))
      (memory_store-IsStore.2 idle.store (next_id ports host idle)) manager-HasRoom

abbrev manager : AgentSpec
manager = spec_of engineering_manager "proj-0" "lead"

-- As many engineering managers as the cluster may have.
abbrev crowded : Fake
crowded = record {
  counter = 4;
  launched = [];
  states =
      ("engineering_manager-1", plain_status agentic_crew.Runtime.running)
      ∷ ("engineering_manager-2", plain_status agentic_crew.Runtime.running)
      ∷ ("engineering_manager-3", plain_status agentic_crew.Runtime.running)
      ∷ [];
  specs =
      ("engineering_manager-1", manager)
      ∷ ("engineering_manager-2", manager)
      ∷ ("engineering_manager-3", manager)
      ∷ [];
  texts = [];
}

crowded-Known : Known crowded.states crowded.counter crowded.specs
unfolding lookup number_of read_digits
crowded-Known =
    let up : (st : AgentStatus) × (some (plain_status agentic_crew.Runtime.running) ≡ some st) =
      (plain_status agentic_crew.Runtime.running, refl) in
    (refl, omega arith, up, (refl, omega arith, up, (refl, omega arith, up, tt)))

abbrev no_room : Crew ports
no_room = record idle { runtime = crowded }

abbrev managers : List AgentHandle
managers =
    entry_handle "engineering_manager-1" manager
    ∷ entry_handle "engineering_manager-2" manager
    ∷ entry_handle "engineering_manager-3" manager
    ∷ []

no_room-live : live ports no_room ≡ managers
unfolding lookup is_over
no_room-live = fake_runtime-IsRuntime.2 crowded

abbrev no_manager : Refusal
no_manager = global_full (record { role = engineering_manager; in_project = 0; everywhere = 3 })

no_room-full :
    check_spawn (census_of ports no_room engineering_manager (next_id ports host no_room)) false
    ≡ some no_manager
unfolding check_spawn per_project_limit global_limit same_role show_nat show_from digit_text
no_room-full =
    ap (λ hs. check_spawn (told engineering_manager (next_id ports host no_room) hs) false)
      no_room-live

open_stranded_example :
    (w' : Crew ports) × (open_project host "a site" no_room ≡ (err (cap_exceeded no_manager), w'))
    × (find ports w' (next_id ports host no_room) ≡ some (next_project ports host no_room))
    × (active ports w' ≡ active ports no_room + 1)
    × (live ports w' ≡ live ports no_room)
unfolding lookup
open_stranded_example =
    open_stranded ports host no_room "a site" no_manager
      (idle-IsSound.0, fake_runtime-IsRuntime.1 crowded crowded-Known) (omega (arith, idle-active))
      (memory_store-IsStore.2 idle.store (next_id ports host no_room)) no_room-full

spawn_agent-replies_example :
    let reply = Api.spawn_agent host "proj-1" qa_engineer "test" false crew in
    let answer = check_spawn (census_of ports crew qa_engineer "proj-1") false in
    ((find ports crew "proj-1" ≡ none) × (reply ≡ (not_found "proj-1", crew)))
    ⊎ ((r : Refusal) × (answer ≡ some r)
        × (reply.0 ≡ failed 409 (refusal r))
        × (live ports reply.1 ≡ live ports crew))
    ⊎ ((h : AgentHandle) × (HasRoom (census_of ports crew qa_engineer "proj-1") false)
        × (reply.0 ≡ replied 201 (record { agent = h.name; role = role_value qa_engineer }))
        × (live ports reply.1 ≡ live ports crew ++ h ∷ []))
spawn_agent-replies_example =
    spawn_agent-replies ports host crew "proj-1" qa_engineer "test" false crew-IsSound
