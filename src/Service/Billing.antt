-- ===== src/Service/Billing.antt =====
-- What `_charge` of `CrewService` does to a project that spends its tokens.
use agentic_crew.Prelude.{
  ℕ, ◌+◌, String, true, false, not, ◌≡◌, refl, ap, ◌∙◌, inl, inr, some, [], ◌∷◌, ◌++◌, keep, ◌==◌,
  if◌then◌else◌, Bool-cases, eq_iff, get_or, insert, contains,
}
use agentic_crew.Exec.{ok, lift, modify, bind_ok}
use agentic_crew.Project.{Project, is_terminal, finish}
use agentic_crew.Contract.Value.{ℤ, pos, ◌+ℤ◌, below, int, to_int}
use agentic_crew.Contract.Events.{Event, error}
use agentic_crew.Service.World.{Host}
use agentic_crew.Service.{
  in_store, in_runtime, in_store_lem, in_runtime_lem, emit, is_usage, cancel, stop_spender,
  add_to_bill, charge, over_budget_payload,
}
use agentic_crew.Service.Steps.{Ports, Crew, IsSound, find, live, published, event_at, emit_lem}

-- A project whose tokens are spent: closed as cancelled, unless it had been closed before.
abbrev pub cut_off : Project → Project
cut_off p = if is_terminal p.status then p else finish p true

-- The tokens that an event reports.
abbrev pub Reports : Event → ℤ → ℤ → Type 0
Reports e input output =
    (is_usage e.kind ≡ true)
    × (to_int (get_or "input_tokens" (int (pos 0)) e.payload) ≡ ok input)
    × (to_int (get_or "output_tokens" (int (pos 0)) e.payload) ≡ ok output)

module _ (ports : Ports) where
  abbrev pub bill : Crew ports → String → ℤ
  bill w id = get_or id (pos 0) w.spend

module _ (ports : Ports) (host : Host) where
  open ports use {st, rt, bus, is_store, is_runtime, is_bus}

  cancel_lem :
      (w : Crew ports) (id : String) (p : Project)
      → IsSound ports w
      → find ports w id ≡ some p
      → (s : st.State) × (cancel host (some p) w ≡ (ok tt, record w { store = s }))
        × is_store.IsSound s
        × (is_store.find s id ≡ some (cut_off p))
  unfolding finish
  cancel_lem w id p sound h = elim (Bool-cases (is_terminal p.status)) [
    | inl closed ↦ (w.store, rw closed, sound.0, rw closed h)
    | inr opened ↦
        let own = is_store.find_id w.store id p sound.0 h in
        let r =
          is_store.save_found w.store (finish p true) p sound.0
            (ap (is_store.find w.store) own ∙ h) in
        (
          r.0,
          rw opened (
              bind_ok (in_store (st.save (finish p true))) _ w
                (in_store_lem (st.save (finish p true)) w r.1)),
          r.2,
          rw opened (
              r.3 id
              ∙ ap (λ b. if b then some (finish p true) else is_store.find w.store id)
                  ((eq_iff p.id id).1 own)),
        )
  ]

  -- What a project that has just spent its budget leaves behind.
  pub record CutOff (w : Crew ports) (e : Event) (p : Project) (spent : ℤ) (w' : Crew ports)
      : Type 0 where
    pub sound : IsSound ports w'
    pub agents : live ports w' ≡ keep (λ h. not (h.project_id == e.project_id)) (live ports w)
    pub project : find ports w' e.project_id ≡ some (cut_off p)
    pub billed : w'.spend ≡ insert e.project_id spent w.spend
    pub once : w'.stopped ≡ e.project_id ∷ w.stopped
    pub announced :
        (n : ℕ) × (published ports w'
          ≡ published ports w
            ++ event_at ports host w e.project_id error "control-plane"
                (over_budget_payload host spent n)
                ""
              ∷ [])

  stop_spender_lem :
      (w : Crew ports) (e : Event) (p : Project) (spent : ℤ)
      → IsSound ports w
      → find ports w e.project_id ≡ some p
      → (w' : Crew ports) × (stop_spender host e.project_id spent
            (record w { spend = insert e.project_id spent w.spend })
          ≡ (ok tt, w'))
        × CutOff w e p spent w'
  unfolding stop_spender
  stop_spender_lem w e p spent sound h =
      let id = e.project_id in
      let w0 : Crew ports = record w { spend = insert id spent w.spend } in
      let w1 : Crew ports = record w0 { stopped = id ∷ w.stopped } in
      let (n, s, stopped, _, _, sound', left) = is_runtime.stop_project_lem w.runtime id sound.1 in
      let w2 : Crew ports = record w1 { runtime = s } in
      let payload = over_budget_payload host spent n in
      let (bus', sent, told) = emit_lem ports host w2 id error "control-plane" payload "" in
      let w3 : Crew ports = record w2 { events = bus'; reads = w.reads + 1 } in
      let (store', closed, sound'', found) = cancel_lem w3 id p (sound.0, sound') h in
      (
        record w3 { store = store' },
        bind_ok (modify {S = Crew ports} (λ v. record v { stopped = id ∷ v.stopped })) _ w0 refl
            ∙ bind_ok (in_runtime (rt.stop_project id)) _ w1
                (in_runtime_lem (rt.stop_project id) w1 stopped)
            ∙ bind_ok (emit host id error "control-plane" payload "") _ w2 sent
            ∙ bind_ok (in_store (st.get id)) _ w3
                (in_store_lem (st.get id) w3 (is_store.get_lem w.store id sound.0))
            ∙ ap (λ o. cancel host o w3) h
            ∙ closed,
        record {
          sound = (sound'', sound');
          agents = left;
          project = found;
          billed = refl;
          once = refl;
          announced = (n, told);
        },
      )

  -- A usage event with numbers in it is charged to the bill of its project.
  charge_head :
      (w : Crew ports) (e : Event) (input output : ℤ)
      → Reports e input output
      → charge host e w ≡ add_to_bill host e.project_id (input +ℤ output) w
  unfolding charge
  charge_head w e input output reports = rw reports.0 (
      bind_ok (lift (to_int (get_or "input_tokens" (int (pos 0)) e.payload))) _ w
        (ap (λ r. (r, w)) reports.1)
      ∙ bind_ok (lift (to_int (get_or "output_tokens" (int (pos 0)) e.payload))) _ w
          (ap (λ r. (r, w)) reports.2))

  -- The turn that brings the bill of a project to `MAX_PROJECT_TOKENS` or beyond, where the
  -- project had not been stopped before, ends every agent of the project and of no other, cancels
  -- the project if it was still open, announces one error with the bill, and marks the project as
  -- stopped; the charge itself does not raise.
  pub charge_over_budget :
      (w : Crew ports) (e : Event) (p : Project) (input output : ℤ)
      → IsSound ports w
      → find ports w e.project_id ≡ some p
      → Reports e input output
      → below (bill ports w e.project_id +ℤ (input +ℤ output)) host.max_project_tokens ≡ false
      → contains e.project_id w.stopped ≡ false
      → (w' : Crew ports) × (charge host e w ≡ (ok tt, w'))
        × CutOff w e p (bill ports w e.project_id +ℤ (input +ℤ output)) w'
  unfolding add_to_bill
  charge_over_budget w e p input output sound h reports over fresh =
      let (w', ran, cut) =
        stop_spender_lem w e p (bill ports w e.project_id +ℤ (input +ℤ output)) sound h in
      (w', charge_head w e input output reports ∙ rw (over, fresh) ran, cut)
