-- ===== src/Service/Totals.antt =====
-- What `_charge` of `CrewService` adds to the bills of the projects, over all that is recorded.
pub mod Sums
use agentic_crew.Prelude.{
  eq_iff, subst, String, Bool, true, false, ◌||◌, ◌≡◌, refl, sym, ap, ◌∙◌, inl, inr, Option, none,
  some, List, [], ◌∷◌, keep, ◌==◌, if◌then◌else◌, Bool-cases, Dict, contains, lookup, get_or,
  insert, lookup-insert,
}
use agentic_crew.Exec.{Exec, Result, ok, err, lift, bind_ok, ◌>>=◌}
use agentic_crew.Exec.Keeps.{Keeps, Keeps-pure, Keeps-if, Keeps-bind}
use agentic_crew.Project.{Project}
use agentic_crew.Contract.Value.{ℤ, pos, ◌+ℤ◌, below, int, to_int}
use agentic_crew.Contract.Events.{Event}
use agentic_crew.Service.World.{Host}
use agentic_crew.Service.{
  in_store, in_store_lem, in_runtime, emit, is_usage, cancel, stop_spender, add_to_bill, charge,
  record_one, record_all,
}
use agentic_crew.Service.Steps.{Ports, Crew, IsSound}
use agentic_crew.Service.Billing.{bill}
use agentic_crew.Service.Recording.{record_one-IsSound}
use agentic_crew.Service.Totals.Sums.{
  sum_of, tokens_of, total, or_mono, or_true, bill_in, bill-insert_own, bill-insert_other,
  with_tokens, bill-with_tokens_own, bill-with_tokens_other,
}

module _ (ports : Ports) (host : Host) where
  open ports use {st, rt, bus, is_store, is_runtime, is_bus}

  -- The bills and the stopped projects are the given ones.
  abbrev Books : Dict ℤ → List String → Crew ports → Type 0
  Books spend stopped w = (w.spend ≡ spend) × (w.stopped ≡ stopped)

  module _ (spend : Dict ℤ) (stopped : List String) where
    Books-in_store :
        {A : Type 0} (m : Exec st.State A)
        → Keeps (Books spend stopped) (in_store {rt = rt} {bus = bus} m)
    unfolding in_store
    Books-in_store m = record { at = λ w k. k }

    Books-in_runtime :
        {A : Type 0} (m : Exec rt.State A)
        → Keeps (Books spend stopped) (in_runtime {st = st} {bus = bus} m)
    unfolding in_runtime
    Books-in_runtime m = record { at = λ w k. k }

    Books-cancel : (o : Option Project) → Keeps (Books spend stopped) (cancel host o)
    Books-cancel none = Keeps-pure _
    Books-cancel (some p) =
        Keeps-if _ _ _ (Keeps-pure _) (Keeps-bind _ _ (Books-in_store _) (λ _. Keeps-pure _))

  -- Whatever the ports do, a project is marked as stopped and no bill is changed.
  stop_spender-Books :
      (id : String) (spent : ℤ) (w : Crew ports)
      → Books w.spend (id ∷ w.stopped) (stop_spender host id spent w).1
  unfolding stop_spender emit ◌>>=◌
  stop_spender-Books id spent w =
      (Keeps-bind _ _ (Books-in_runtime w.spend (id ∷ w.stopped) (rt.stop_project id)) (λ n.
          Keeps-bind _ _ (record { at = λ v k. k })
            (λ _.
              Keeps-bind _ _ (Books-in_store w.spend (id ∷ w.stopped) (st.get id))
                (λ o. Books-cancel w.spend (id ∷ w.stopped) o)))).at
        (record w { stopped = id ∷ w.stopped }) (refl, refl)

  -- The project has tokens left, or has been stopped.
  abbrev is_kept : Crew ports → String → Bool
  is_kept w j = below (bill ports w j) host.max_project_tokens || contains j w.stopped

  abbrev Enforced : Crew ports → Type 0
  Enforced w = (j : String) → is_kept w j ≡ true

  Enforced-insert :
      (id : String) (spent : ℤ) (w w' : Crew ports)
      → w'.spend ≡ insert id spent w.spend
      → ((j : String)
          → (id == j) ≡ true
          → (below spent host.max_project_tokens || contains j w'.stopped) ≡ true)
      → ((j : String) → contains j w.stopped ≡ true → contains j w'.stopped ≡ true)
      → Enforced w
      → Enforced w'
  Enforced-insert id spent w w' books own_kept grows held j =
      let now = ap (λ (d : Dict ℤ). bill_in d j) books in
      let stands = λ (b : ℤ). (below b host.max_project_tokens || contains j w'.stopped) ≡ true in
      elim (Bool-cases (id == j)) [
        | inl own ↦
            subst stands (sym (now ∙ bill-insert_own id j spent w.spend own)) (own_kept j own)
        | inr other ↦
            subst stands (sym (now ∙ bill-insert_other id j spent w.spend other))
              (or_mono _ _ _ (grows j) (held j))
      ]

  -- A charge adds to the bill of its project, and keeps each project within its budget or stopped.
  record Charges (id : String) (o : Option ℤ) (w w' : Crew ports) : Type 0 where
    spend : w'.spend ≡ with_tokens id o w.spend
    enforced : Enforced w → Enforced w'

  add_to_bill_lem :
      (id : String) (tokens : ℤ) (w : Crew ports)
      → Charges id (some tokens) w (add_to_bill host id tokens w).1
  unfolding add_to_bill contains
  add_to_bill_lem id tokens w =
      let spent = bill_in w.spend id +ℤ tokens in
      let billed : Crew ports = record w { spend = insert id spent w.spend } in
      let books = stop_spender-Books id spent billed in
      elim (Bool-cases (below spent host.max_project_tokens || contains id w.stopped)) [
        | inl quiet ↦ rw quiet (record {
          spend = refl;
          enforced =
              Enforced-insert id spent w billed refl
                (λ j own.
                  subst (λ k. (below spent host.max_project_tokens || contains k w.stopped) ≡ true)
                    ((eq_iff id j).0 own) quiet)
                (λ j h. h);
        })
        | inr over ↦ rw over (record {
          spend = books.0;
          enforced =
              Enforced-insert id spent w (stop_spender host id spent billed).1 books.0
                (λ j own.
                  or_true _ _ (ap (contains j) books.1 ∙ ap (λ b. b || contains j w.stopped) own))
                (λ j h. ap (contains j) books.1 ∙ or_true (id == j) (contains j w.stopped) h);
        })
      ]

  charge_read :
      (id : String) (input output : Result ℤ) (w : Crew ports)
      → Charges id
          (sum_of input output)
          w
          ((lift input >>= λ i. lift output >>= λ o. add_to_bill host id (i +ℤ o)) w).1
  unfolding ◌>>=◌
  charge_read id (ok input) (ok output) w = add_to_bill_lem id (input +ℤ output) w
  charge_read id (ok input) (err e) w = record { spend = refl; enforced = λ h. h }
  charge_read id (err e) output w = record { spend = refl; enforced = λ h. h }

  charge_lem :
      (e : Event) (w : Crew ports) → Charges e.project_id (tokens_of e) w (charge host e w).1
  unfolding charge
  charge_lem e w = elim (Bool-cases (is_usage e.kind)) [
    | inl spends ↦ rw spends (charge_read e.project_id _ _ w)
    | inr other ↦ rw other (record { spend = refl; enforced = λ h. h })
  ]

  record_one-Charges :
      (e : Event) (w : Crew ports)
      → IsSound ports w
      → Charges e.project_id (tokens_of e) w (record_one host e w)
  unfolding record_one
  record_one-Charges e w sound =
      let r = is_store.append_event_lem w.store e sound.0 in
      let ran =
        bind_ok (in_store (st.append_event e)) (λ _. charge host e) w
          (in_store_lem (st.append_event e) w r.1) in
      let charged = charge_lem e (record w { store = r.0 }) in
      subst (λ (x : Result (Unit {0}) × Crew ports). Charges e.project_id (tokens_of e) w x.1)
        (sym ran) (record { spend = charged.spend; enforced = charged.enforced })

  -- Where each project has tokens left or has been stopped, the recorder is given any events, of any
  -- projects, with any payloads. Afterwards the bill of a project is what it was and the tokens of the
  -- project's own events, where an event reports any that can be read, whichever projects have been
  -- stopped meanwhile; and each project still has tokens left or has been stopped.
  pub record_all-total :
      (es : List Event) (w : Crew ports)
      → IsSound ports w
      → ((j : String)
          → (below (bill ports w j) host.max_project_tokens || contains j w.stopped) ≡ true)
      → (j : String)
      → let spent = total (bill ports w j) (keep (λ e. e.project_id == j) es) in
        (bill ports (record_all host es w) j ≡ spent)
        × ((below spent host.max_project_tokens || contains j (record_all host es w).stopped)
            ≡ true)
  unfolding record_all total
  record_all-total [] w sound held j = (refl, held j)
  record_all-total (e ∷ es) w sound held j =
      let v = record_one host e w in
      let charged = record_one-Charges e w sound in
      let now = ap (λ (d : Dict ℤ). bill_in d j) charged.spend in
      let rest = keep (λ (x : Event). x.project_id == j) es in
      let claim = λ (xs : List Event) (b : ℤ).
        (bill ports (record_all host es v) j ≡ total b xs)
        × ((below (total b xs) host.max_project_tokens || contains j (record_all host es v).stopped)
            ≡ true) in
      let after =
        record_all-total es v (record_one-IsSound ports host e w sound) (charged.enforced held) j in
      elim (Bool-cases (e.project_id == j)) [
        | inl own ↦ rw own (
            subst (claim rest) (now ∙ bill-with_tokens_own e.project_id j (tokens_of e) w.spend own)
              after)
        | inr other ↦ rw other (
            subst (claim rest)
              (now ∙ bill-with_tokens_other e.project_id j (tokens_of e) w.spend other) after)
      ]
