-- ===== src/Service/Interleaved/Progress.antt =====
-- How calls of `spawn` come through their awaits, on ports that keep their promises.
use agentic_crew.Prelude.{
  ℕ, zero, suc, ◌+◌, String, true, ◌≡◌, refl, ap, subst, ◌∙◌, none, some, List, [], ◌∷◌, ◌++◌,
  arith,
}
use agentic_crew.Exec.{ok}
use agentic_crew.Caps.Bounds.{HasRoom, check_spawn-none_iff}
use agentic_crew.Contract.Events.{agent_spawned}
use agentic_crew.Project.{Project}
use agentic_crew.Runtime.{AgentHandle}
use agentic_crew.Service.World.{Host, in_runtime_lem, emit}
use agentic_crew.Service.Agents.{is_scoping, spawned_payload}
use agentic_crew.Service.Steps.{Ports, Crew, IsSound, find, live, require_found}
use agentic_crew.Service.Spawn.{census_of}
use agentic_crew.Service.Interleaved.{
  Request, spec, Task, requires, launches, announces, saves, advance, run_alone, Process, moves,
  Turns, stop, further,
}

module _ (ports : Ports) (host : Host) where
  open ports use {st, rt, bus, is_store, is_runtime, is_bus}

  pub Turns-append :
      {crowd : ℕ} {s t u : Process ports host}
      → Turns ports host crowd s t
      → Turns ports host crowd t u
      → Turns ports host crowd s u
  Turns-append before stop = before
  Turns-append before (further turns turn) = further (Turns-append before turns) turn

  -- One call takes the next turns.
  Turns-run_alone :
      (crowd n : ℕ) (before after : List Task) (t : Task) (w : Crew ports)
      → let (t', w') = run_alone host n t w in
        Turns ports host crowd
          (record { world = w; tasks = before ++ t ∷ after })
          (record { world = w'; tasks = before ++ t' ∷ after })
  unfolding run_alone
  Turns-run_alone crowd zero before after t w = stop
  Turns-run_alone crowd (suc n) before after t w =
      Turns-append (further stop (moves before after t refl))
        (Turns-run_alone crowd n before after (advance host t w).0 (advance host t w).1)

  pub Turns-to :
      (crowd n : ℕ) (before after : List Task) (t : Task) (w : Crew ports) {t' : Task}
      {w' : Crew ports}
      → run_alone host n t w ≡ (t', w')
      → Turns ports host crowd
          (record { world = w; tasks = before ++ t ∷ after })
          (record { world = w'; tasks = before ++ t' ∷ after })
  Turns-to crowd n before after t w e =
      subst
        (λ (x : Task × Crew ports).
          Turns ports host crowd (record { world = w; tasks = before ++ t ∷ after })
            (record { world = x.1; tasks = before ++ x.0 ∷ after }))
        e (Turns-run_alone crowd n before after t w)

  -- A spawn that finds room stands at its launch after three awaits, with nothing changed.
  pub run_alone-launches :
      (r : Request) (p : Project) (w : Crew ports)
      → IsSound ports w
      → find ports w r.project_id ≡ some p
      → HasRoom (census_of ports w r.role r.project_id) r.override
      → run_alone host 3 (requires r) w ≡ (launches r p, w)
  unfolding run_alone advance
  run_alone-launches r p w sound here room =
      let allowed =
        (check_spawn-none_iff (census_of ports w r.role r.project_id) r.override).1 room in
      rw (require_found ports w r.project_id p sound here) (
        rw
          (in_runtime_lem (rt.census r.role (some r.project_id)) w
            (is_runtime.census_lem w.runtime r.role (some r.project_id) sound.1))
          (rw
            (in_runtime_lem (rt.census r.role none) w
              (is_runtime.census_lem w.runtime r.role none sound.1))
            (rw allowed)))

  -- The launch itself, which asks nobody.
  pub launch_lem :
      (r : Request) (p : Project) (w : Crew ports)
      → IsSound ports w
      → (handle : AgentHandle) × (w' : Crew ports) × (run_alone host 1 (launches r p) w
          ≡ (announces r p handle, w'))
        × IsSound ports w'
        × (handle.role ≡ r.role)
        × (live ports w' ≡ live ports w ++ handle ∷ [])
        × ((id : String) → find ports w' id ≡ find ports w id)
  unfolding run_alone advance
  launch_lem r p w sound =
      let (handle, s, launched, sound', same, project, agents) =
        is_runtime.launch_lem w.runtime (spec r) sound.1 in
      (
        handle,
        record w { runtime = s },
        rw (in_runtime_lem (rt.launch (spec r)) w launched),
        (sound.0, sound'),
        same,
        agents,
        λ id. refl,
      )

  pub run_alone-add :
      (n m : ℕ) (t : Task) (w : Crew ports) {t' : Task} {w' : Crew ports}
      → run_alone host n t w ≡ (t', w')
      → run_alone host (n + m) t w ≡ run_alone host m t' w'
  unfolding run_alone
  run_alone-add zero m t w e =
      let plain : 0 + m ≡ m = omega arith in
      ap (λ (k : ℕ). run_alone host k t w) plain
      ∙ ap (λ (x : Task × Crew ports). run_alone host m x.0 x.1) e
  run_alone-add (suc n) m t w e =
      let next : suc n + m ≡ suc (n + m) = omega arith in
      ap (λ (k : ℕ). run_alone host k t w) next
      ∙ run_alone-add n m (advance host t w).0 (advance host t w).1 e

  pub announce :
      (r : Request) (p : Project) (h : AgentHandle) (w : Crew ports) {s : bus.State}
      → is_scoping p.status ≡ true
      → emit host r.project_id agent_spawned "control-plane" (spawned_payload r.role h) "" w
        ≡ (ok tt, record w { events = s; reads = w.reads + 1 })
      → run_alone host 1 (announces r p h) w
        ≡ (saves p h, record w { events = s; reads = w.reads + 1 })
  unfolding run_alone advance
  announce r p h w new sent = rw sent (rw new)
