-- ===== src/Service/Recording.antt =====
-- What the recorder of `CrewService` leaves in the logs of the projects.
use agentic_crew.Prelude.{
  ◌≤◌, String, ◌||◌, ◌≡◌, sym, ap, subst, ◌∙◌, inl, inr, Option, none, some, List, [], ◌∷◌, ◌++◌,
  length, keep, last_n, last_n-append, last_n-all, length-last_n-le, append_nil, append_assoc, ◌==◌,
  if◌then◌else◌, Bool-cases, Option-cases, contains, get_or, insert,
}
use agentic_crew.Exec.{Result, pure, bind_ok}
use agentic_crew.Exec.Keeps.{Keeps, Keeps-pure, Keeps-lift, Keeps-if, Keeps-bind, after}
use agentic_crew.Project.{Project}
use agentic_crew.Contract.Value.{ℤ, pos, ◌+ℤ◌, below}
use agentic_crew.Contract.Events.{Event}
use agentic_crew.Store.{max_history}
use agentic_crew.Service.World.{Host}
use agentic_crew.Service.{
  in_store, in_store_lem, in_runtime_lem, emit, cancel, stop_spender, add_to_bill, charge,
  record_one, record_all,
}
use agentic_crew.Service.Steps.{Ports, Crew, IsSound, log}

module _ (ports : Ports) (host : Host) where
  open ports use {st, rt, bus, is_store, is_runtime, is_bus}

  -- The state is sound, and the logs are the given ones.
  abbrev Logs : (String → List Event) → Crew ports → Type 0
  Logs logs w = IsSound ports w × ((j : String) → log ports w j ≡ logs j)

  Logs-save : (logs : String → List Event) (p : Project) → Keeps (Logs logs) (in_store (st.save p))
  Logs-save logs p = record {
    at = λ w k. elim (Option-cases (is_store.find w.store p.id)) [
      | inl gone ↦
          let (e, eq) = is_store.save_missing w.store p k.0.0 gone in
          after (Logs logs) (in_store_lem (st.save p) w eq) k
      | inr (q, here) ↦
          let r = is_store.save_found w.store p q k.0.0 here in
          after (Logs logs) (in_store_lem (st.save p) w r.1) ((r.2, k.0.1), λ j. r.5 j ∙ k.1 j)
    ];
  }

  Logs-cancel :
      (logs : String → List Event) (o : Option Project) → Keeps (Logs logs) (cancel host o)
  Logs-cancel logs none = Keeps-pure _
  Logs-cancel logs (some p) =
      Keeps-if _ _ _ (Keeps-pure _) (Keeps-bind _ _ (Logs-save logs _) (λ _. Keeps-pure _))

  Logs-stop_spender :
      (logs : String → List Event) (id : String) (spent : ℤ)
      → Keeps (Logs logs) (stop_spender host id spent)
  unfolding stop_spender emit
  Logs-stop_spender logs id spent =
      Keeps-bind _ _ (record { at = λ w k. k })
        (λ _.
          Keeps-bind _ _
            (record {
              at = λ w k.
                  let r = is_runtime.stop_project_lem w.runtime id k.0.1 in
                  after (Logs logs) (in_runtime_lem (rt.stop_project id) w r.2) ((k.0.0, r.5), k.1);
            })
            (λ n.
              Keeps-bind _ _ (record { at = λ w k. k })
                (λ _.
                  Keeps-bind _ _
                    (record {
                      at = λ w k.
                          after (Logs logs)
                            (in_store_lem (st.get id) w (is_store.get_lem w.store id k.0.0)) k;
                    })
                    (λ o. Logs-cancel logs o))))

  Logs-add_to_bill :
      (logs : String → List Event) (id : String) (tokens : ℤ)
      → Keeps (Logs logs) (add_to_bill host id tokens)
  unfolding add_to_bill
  Logs-add_to_bill logs id tokens = record {
    at = λ w k.
        let spent = get_or id (pos 0) w.spend +ℤ tokens in
        let billed : Crew ports = record w { spend = insert id spent w.spend } in
        (Keeps-if (below spent host.max_project_tokens || contains id w.stopped) (pure tt)
            (stop_spender host id spent) (Keeps-pure _) (Logs-stop_spender logs id spent)).at
          billed k;
  }

  Logs-charge : (logs : String → List Event) (e : Event) → Keeps (Logs logs) (charge host e)
  unfolding charge
  Logs-charge logs e =
      Keeps-if _ _ _
        (Keeps-bind _ _ (Keeps-lift _)
          (λ i. Keeps-bind _ _ (Keeps-lift _) (λ o. Logs-add_to_bill logs _ _)))
        (Keeps-pure _)

  -- One event is at the end of its project's log, whatever its charge does.
  abbrev with_event : Event → (String → List Event) → String → List Event
  with_event e logs j = if e.project_id == j then last_n max_history (logs j ++ e ∷ []) else logs j

  Logs-record_one :
      (e : Event) (w : Crew ports)
      → IsSound ports w
      → Logs (with_event e (log ports w)) (record_one host e w)
  unfolding record_one
  Logs-record_one e w sound =
      let r = is_store.append_event_lem w.store e sound.0 in
      let w1 : Crew ports = record w { store = r.0 } in
      let ran =
        bind_ok (in_store (st.append_event e)) (λ _. charge host e) w
          (in_store_lem (st.append_event e) w r.1) in
      subst (λ (x : Result (Unit {0}) × Crew ports). Logs (with_event e (log ports w)) x.1)
        (sym ran) ((Logs-charge (with_event e (log ports w)) e).at w1 ((r.2, sound.1), r.5))

  pub record_one-IsSound :
      (e : Event) (w : Crew ports) → IsSound ports w → IsSound ports (record_one host e w)
  record_one-IsSound e w sound = (Logs-record_one e w sound).0

  -- The recorder is given any events, of any projects, with any payloads. Afterwards the log of a
  -- project is the last 1000 of what it was and of the project's own events, in their order; no
  -- event is missing because one before it could not be charged.
  pub record_all_log :
      (es : List Event) (w : Crew ports) (j : String)
      → IsSound ports w
      → length (log ports w j) ≤ max_history
      → log ports (record_all host es w) j
        ≡ last_n max_history (log ports w j ++ keep (λ e. e.project_id == j) es)
  unfolding record_all
  record_all_log [] w j sound short = sym (
      ap (last_n max_history) (append_nil (log ports w j))
      ∙ last_n-all max_history (log ports w j) short)
  record_all_log (e ∷ es) w j sound short =
      let k = Logs-record_one e w sound in
      let v = record_one host e w in
      let rest = keep (λ (x : Event). x.project_id == j) es in
      elim (Bool-cases (e.project_id == j)) [
        | inl own ↦
            let now : log ports v j ≡ last_n max_history (log ports w j ++ e ∷ []) =
              k.1 j ∙ rw own in
            let fits =
              subst (λ l. length l ≤ max_history) (sym now)
                (length-last_n-le max_history (log ports w j ++ e ∷ [])) in
            record_all_log es v j k.0 fits
            ∙ ap (λ l. last_n max_history (l ++ rest)) now
            ∙ last_n-append max_history (log ports w j ++ e ∷ []) rest
            ∙ rw own (ap (last_n max_history) (append_assoc (log ports w j) (e ∷ []) rest))
        | inr other ↦
            let now : log ports v j ≡ log ports w j = k.1 j ∙ rw other in
            let fits = subst (λ l. length l ≤ max_history) (sym now) short in
            record_all_log es v j k.0 fits ∙ rw other (ap (λ l. last_n max_history (l ++ rest)) now)
      ]
