-- ===== src/Service/Interleaved/Escaping.antt =====
-- A spawn that is in progress while the recorder stops its project for having spent its tokens.
use agentic_crew.Prelude.{
  String, true, false, not, ◌||◌, ◌≡◌, refl, sym, ap, ◌∙◌, some, List, [], ◌∷◌, ◌++◌, keep, map,
  ◌==◌, contains, eq_refl, Bool-cases, inl, inr, get_or,
}
use agentic_crew.Exec.{Result, ok, err, lift, continue, ◌>>=◌}
use agentic_crew.Caps.Bounds.{HasRoom}
use agentic_crew.Project.{Project}
use agentic_crew.Contract.Value.{ℤ, pos, int, to_int, ◌+ℤ◌, below}
use agentic_crew.Contract.Events.{Event}
use agentic_crew.Runtime.{AgentHandle}
use agentic_crew.Service.World.{Host, in_store, in_runtime_lem}
use agentic_crew.Service.{charge, add_to_bill, record_one, record_all, is_usage}
use agentic_crew.Service.Steps.{Ports, Crew, IsSound, find, live}
use agentic_crew.Service.Spawn.{census_of}
use agentic_crew.Service.Billing.{Reports, bill, cut_off, charge_over_budget}
use agentic_crew.Service.Interleaved.{
  Request, spec, requires, launches, announces, advance, run_alone,
}
use agentic_crew.Service.Interleaved.Progress.{run_alone-launches}

module _ (ports : Ports) (host : Host) where
  open ports use {st, rt, bus, is_store, is_runtime, is_bus}

  -- What one event leaves as it was.
  abbrev Same : Crew ports → Crew ports → Type 0
  Same w w' = (w'.runtime ≡ w.runtime) × (w'.stopped ≡ w.stopped)

  add_to_bill-stopped :
      (id : String) (tokens : ℤ) (w : Crew ports)
      → contains id w.stopped ≡ true
      → Same w (add_to_bill host id tokens w).1
  unfolding add_to_bill
  add_to_bill-stopped id tokens w h =
      elim (Bool-cases (below (get_or id (pos 0) w.spend +ℤ tokens) host.max_project_tokens)) [
        | inl e ↦ rw e (refl, refl)
        | inr e ↦ rw (e, h) (refl, refl)
      ]

  -- Whatever an event reports, nothing is stopped for it where its project has been stopped already.
  charge-stopped :
      (e : Event) (w : Crew ports)
      → contains e.project_id w.stopped ≡ true
      → Same w (charge host e w).1
  unfolding charge ◌>>=◌
  charge-stopped e w h = elim (Bool-cases (is_usage e.kind)) [
    | inr other ↦ rw other (refl, refl)
    | inl turn ↦ rw turn (
        read (to_int (get_or "input_tokens" (int (pos 0)) e.payload))
          (to_int (get_or "output_tokens" (int (pos 0)) e.payload)))
  ]
    where
      read :
          (input output : Result ℤ)
          → Same w
              ((lift input >>= λ i. lift output >>= λ o. add_to_bill host e.project_id (i +ℤ o))
                w).1
      read (err _) output = (refl, refl)
      read (ok i) (err _) = (refl, refl)
      read (ok i) (ok o) = add_to_bill-stopped e.project_id (i +ℤ o) w h

  record_one-stopped :
      (e : Event) (w : Crew ports)
      → contains e.project_id w.stopped ≡ true
      → Same w (record_one host e w)
  unfolding record_one in_store ◌>>=◌
  record_one-stopped e w h = written (st.append_event e w.store)
    where
      written :
          (x : Result (Unit {0}) × st.State)
          → Same w (continue (x.0, record w { store = x.1 }) (λ _. charge host e)).1
      written (err _, s) = (refl, refl)
      written (ok _, s) = charge-stopped e (record w { store = s }) h

  record_all-stopped :
      (id : String) (events : List Event) (w : Crew ports)
      → contains id w.stopped ≡ true
      → (record_all host (map (λ (e : Event). record e { project_id = id }) events) w).runtime
        ≡ w.runtime
  unfolding record_all
  record_all-stopped id [] w h = refl
  record_all-stopped id (e ∷ events) w h =
      let e' : Event = record e { project_id = id } in
      let (same, still) = record_one-stopped e' w h in
      record_all-stopped id events (record_one host e' w) (ap (contains id) still ∙ h) ∙ same

  -- A spawn that has counted the agents and found room, and is about to launch when the recorder comes
  -- to the turn with which its project spends its tokens: the project is stopped, with its agents, and
  -- then the spawn launches its agent all the same, and that agent is alive, with no other of its
  -- project, whatever the recorder takes of the project after that, further turns of it included.
  pub outlives :
      (r : Request) (p : Project) (w : Crew ports) (e : Event) (input output : ℤ)
      (later : List Event)
      → IsSound ports w
      → find ports w r.project_id ≡ some p
      → HasRoom (census_of ports w r.role r.project_id) r.override
      → e.project_id ≡ r.project_id
      → Reports e input output
      → below (bill ports w e.project_id +ℤ (input +ℤ output)) host.max_project_tokens ≡ false
      → contains e.project_id w.stopped ≡ false
      → let (t, w1) = run_alone host 3 (requires r) w in
        let w2 = (charge host e w1).1 in
        let (t', w3) = advance host t w2 in
        (h : AgentHandle) × (t' ≡ announces r p h)
        × (h.project_id ≡ r.project_id)
        × (find ports w3 r.project_id ≡ some (cut_off p))
        × (live ports (
              record_all host
                (map (λ (l : Event). record l { project_id = r.project_id }) later)
                w3)
            ≡ keep (λ (a : AgentHandle). not (a.project_id == r.project_id)) (live ports w)
              ++ h ∷ [])
  unfolding advance contains
  outlives r p w e input output later sound here room same reports over fresh =
      let counted = run_alone-launches ports host r p w sound here room in
      let (w2, ran, cut) =
        charge_over_budget ports host w e p input output sound (ap (find ports w) same ∙ here)
          reports over fresh in
      let (h, s, launched, _, _, project, more) =
        is_runtime.launch_lem w2.runtime (spec r) cut.sound.1 in
      let w3 : Crew ports = record w2 { runtime = s } in
      let marked : contains r.project_id w2.stopped ≡ true =
        ap (contains r.project_id) cut.once
        ∙ ap (λ (id : String). (id == r.project_id) || contains r.project_id w.stopped) same
        ∙ rw (eq_refl r.project_id) refl in
      let starts : advance host (launches r p) w2 ≡ (announces r p h, w3) =
        rw (in_runtime_lem (rt.launch (spec r)) w2 launched) refl in
      let others =
        λ (id : String). keep (λ (a : AgentHandle). not (a.project_id == id)) (live ports w) in
      rw (counted, ran, starts)
        (
          h,
          refl,
          project,
          ap (find ports w2) (sym same) ∙ cut.project,
          ap is_runtime.live (record_all-stopped r.project_id later w3 marked)
              ∙ more
              ∙ ap (λ hs. hs ++ h ∷ []) (cut.agents ∙ ap others same),
        )
