-- ===== src/Service/Leaving.antt =====
-- `_leave_scoping` of `CrewService`: a project that has been given an agent is running.
use agentic_crew.Prelude.{
  String, true, ◌≡◌, refl, sym, ap, ◌∙◌, inl, inr, some, arith, ◌==◌, eq_iff, if◌then◌else◌,
  Bool-cases,
}
use agentic_crew.Exec.{ok, lift, bind_ok}
use agentic_crew.Project.{Project, running, start, is_terminal}
use agentic_crew.Store.{open_count}
use agentic_crew.Service.World.{Host, in_store_lem}
use agentic_crew.Service.Agents.{is_scoping, leave_scoping}
use agentic_crew.Service.Steps.{Ports, Crew, IsSound, find, active, log}

-- A project that has been given an agent: it is running if it was still being scoped.
abbrev pub entered : Project → Project
entered p = if is_scoping p.status then record p { status = running } else p

pub entered-id : (p : Project) → (entered p).id ≡ p.id
unfolding is_scoping
entered-id p = ground arith

pub start-entered :
    (p : Project) → is_scoping p.status ≡ true → start p ≡ ok (record p { status = running })
unfolding start is_scoping is_terminal
start-entered p h = ground arith

open_count-running :
    (p : Project)
    → is_scoping p.status ≡ true
    → open_count (record p { status = running }) ≡ open_count p
unfolding is_scoping is_terminal
open_count-running p h = ground arith

module _ (ports : Ports) (host : Host) where
  open ports use {st, rt, bus, is_store, is_runtime, is_bus}

  -- The store after a project has been written under its own id, still open or still closed.
  pub record Rewritten (w : Crew ports) (p : Project) (s : st.State) : Type 0 where
    pub sound : is_store.IsSound s
    pub projects : (j : String) → is_store.find s j ≡ (if p.id == j then some p else find ports w j)
    pub as_many : is_store.active s ≡ active ports w
    pub logs : (j : String) → is_store.log s j ≡ log ports w j

  Rewritten-refl :
      (w : Crew ports) (p : Project)
      → IsSound ports w
      → find ports w p.id ≡ some p
      → Rewritten w p w.store
  Rewritten-refl w p sound h = record {
    sound = sound.0;
    projects = λ j. elim (Bool-cases (p.id == j)) [
      | inl same ↦ rw same (ap (find ports w) (sym ((eq_iff p.id j).0 same)) ∙ h)
      | inr other ↦ rw other
    ];
    as_many = refl;
    logs = λ j. refl;
  }

  pub leave_scoping_lem :
      (w : Crew ports) (p : Project)
      → IsSound ports w
      → find ports w p.id ≡ some p
      → (s : st.State) × (leave_scoping p w ≡ (ok (entered p), record w { store = s }))
        × Rewritten w (entered p) s
  unfolding leave_scoping
  leave_scoping_lem w p sound h = elim (Bool-cases (is_scoping p.status)) [
    | inr old ↦ (w.store, rw old, rw old (Rewritten-refl w p sound h))
    | inl new ↦
        let q : Project = record p { status = running } in
        let (s, saved, sound', projects, as_many, logs) =
          is_store.save_found w.store q p sound.0 h in
        let started = start-entered p new in
        (
          s,
          rw new (
              bind_ok (lift (start p)) _ w (ap (λ r. (r, w)) started)
              ∙ in_store_lem (st.save q) w saved),
          rw new (record {
            sound = sound';
            projects = projects;
            as_many = omega (arith, as_many, open_count-running p new);
            logs = logs;
          }),
        )
  ]
