-- ===== src/Service/Interleaved/Overwriting.antt =====
-- What a spawn writes over when another request comes before its last await.
use agentic_crew.Prelude.{◌+◌, String, true, ◌≡◌, sym, ap, subst, ◌∙◌, some, List, eq_refl}
use agentic_crew.Exec.{lift, bind_ok}
use agentic_crew.Caps.Bounds.{HasRoom}
use agentic_crew.Contract.Events.{agent_spawned}
use agentic_crew.Project.{Project, running, start}
use agentic_crew.Runtime.{AgentHandle}
use agentic_crew.Service.World.{Host, in_store, in_store_lem}
use agentic_crew.Service.Agents.{is_scoping, spawned_payload}
use agentic_crew.Service.Calls.{Call, step, is_permitted_all}
use agentic_crew.Service.Steps.{Ports, Crew, IsSound, find, emit_lem}
use agentic_crew.Service.Spawn.{census_of}
use agentic_crew.Service.Kept.{IsKept}
use agentic_crew.Service.KeptCalls.{step-Holds}
use agentic_crew.Service.Leaving.{start-entered}
use agentic_crew.Service.Interleaved.{Request, Task, requires, launches, saves, advance, run_alone}
use agentic_crew.Service.Interleaved.Progress.{
  run_alone-launches, launch_lem, run_alone-add, announce,
}

module _ (ports : Ports) (host : Host) where
  open ports use {st, rt, bus, is_store, is_runtime, is_bus}

  abbrev Anything : List AgentHandle → Type 0
  Anything hs = Unit {0}

  IsKept-Anything : IsKept ports true Anything
  IsKept-Anything = record {
    fewer = λ stays hs k. tt;
    one_more = λ w role id override h may room same_r same_p k. tt;
  }

  -- A spawn of a project that is being scoped stands at its last await with the project as it first
  -- read it.
  stands_at_save :
      (r : Request) (p : Project) (w : Crew ports)
      → IsSound ports w
      → find ports w r.project_id ≡ some p
      → HasRoom (census_of ports w r.role r.project_id) r.override
      → is_scoping p.status ≡ true
      → (h : AgentHandle) × (w' : Crew ports) × (run_alone host 5 (requires r) w ≡ (saves p h, w'))
        × IsSound ports w'
  stands_at_save r p w sound here room new =
      let (h, w1, launched, sound1, role, agents, kept) = launch_lem ports host r p w sound in
      let (s, sent, more) =
        emit_lem ports host w1 r.project_id agent_spawned "control-plane" (spawned_payload r.role h)
          "" in
      (
        h,
        record w1 { events = s; reads = w1.reads + 1 },
        run_alone-add ports host 3 2 (requires r) w
              (run_alone-launches ports host r p w sound here room)
            ∙ run_alone-add ports host 1 1 (launches r p) w launched
            ∙ announce ports host r p h w1 new sent,
        sound1,
      )

  write_lem :
      (p q : Project) (h : AgentHandle) (w : Crew ports)
      → IsSound ports w
      → find ports w p.id ≡ some q
      → is_scoping p.status ≡ true
      → find ports (advance host (saves p h) w).1 p.id ≡ some (record p { status = running })
  unfolding advance
  write_lem p q h w sound there new =
      let p' : Project = record p { status = running } in
      let (s, saved, sound', projects, as_many, logs) =
        is_store.save_found w.store p' q sound.0 there in
      rw
        (bind_ok (lift (start p)) (λ started. in_store (st.save started)) w
            (ap (λ r. (r, w)) (start-entered p new))
          ∙ in_store_lem (st.save p') w saved)
        (projects p.id ∙ rw (eq_refl p.id))

  -- A spawn that finds room on a project that is still being scoped: whatever call comes between its
  -- launch and its last await, such as one that renames or cancels the project, the spawn then writes
  -- the project as it read it at its start, running. What the call had written is lost.
  pub overwrites :
      (r : Request) (p : Project) (w : Crew ports) (c : Call) (q : Project)
      → IsSound ports w
      → find ports w r.project_id ≡ some p
      → HasRoom (census_of ports w r.role r.project_id) r.override
      → is_scoping p.status ≡ true
      → let (t, w1) = run_alone host 5 (requires r) w in
        let w2 = step ports host c w1 in
        find ports w2 r.project_id ≡ some q
        → find ports (advance host t w2).1 r.project_id ≡ some (record p { status = running })
  overwrites r p w c q sound here room new there =
      let (h, w1, stands, sound1) = stands_at_save r p w sound here room new in
      let own = is_store.find_id w.store r.project_id p sound.0 here in
      subst
        (λ (x : Task × Crew ports).
          find ports (step ports host c x.1) r.project_id ≡ some q
          → find ports (advance host x.0 (step ports host c x.1)).1 r.project_id
            ≡ some (record p { status = running }))
        (sym stands)
        (λ found.
          subst
            (λ (id : String).
              find ports (advance host (saves p h) (step ports host c w1)).1 id
              ≡ some (record p { status = running }))
            own
            (write_lem p q h (step ports host c w1)
              (step-Holds ports host true Anything IsKept-Anything c w1 (is_permitted_all c)
                (sound1, tt)).0
              (ap (find ports (step ports host c w1)) own ∙ found) new))
        there
