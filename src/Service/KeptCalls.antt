-- ===== src/Service/KeptCalls.antt =====
-- The other methods of `CrewService`, and runs of all of them, against what is kept of the live agents.
use agentic_crew.Prelude.{
  String, Bool, true, false, not, ◌||◌, ◌≡◌, refl, sym, subst, Option, none, some, List, get_or,
  insert, contains,
}
use agentic_crew.Exec.{Exec, Result, ok, err, pure, ◌>>◌}
use agentic_crew.Exec.Keeps.{Keeps, Keeps-pure, Keeps-lift, Keeps-if, Keeps-bind}
use agentic_crew.Caps.{Refusal}
use agentic_crew.Project.{Project, new_project, rename, is_terminal}
use agentic_crew.Contract.Value.{ℤ, pos, ◌+ℤ◌, below}
use agentic_crew.Contract.Events.{Event}
use agentic_crew.Runtime.{AgentHandle}
use agentic_crew.Service.World.{Host}
use agentic_crew.Service.{
  in_store, open_project, refuse_if, after_rename, rename_now, rename_project, finish_project,
  get_project, list_active, escalate, history, roster, cancel, stop_spender, add_to_bill, charge,
  record_one,
}
use agentic_crew.Service.Steps.{Ports, Crew}
use agentic_crew.Service.Calls.{
  Call, step, Run, is_permitted, opens, gets, lists, renames, finishes, spawns, asks_roster, says,
  delivers, escalates, reads, records, call, ending, start, more,
}
use agentic_crew.Service.Kept.{IsKept}
use agentic_crew.Service.Steady.{Holds}
use agentic_crew.Service.Steady
use agentic_crew.Service.Kept

module _ (ports : Ports) (host : Host) (lifts : Bool) (Q : List AgentHandle → Type 0)
    (kept : IsKept ports lifts Q) where
  open ports use {st, rt, bus, is_store, is_runtime, is_bus}

  abbrev GoesOn : {A : Type 0} → Exec (Crew ports) A → Type 0
  GoesOn m = Keeps (Holds ports Q) m

  Keeps-refuse_if : (o : Option Refusal) → GoesOn (refuse_if host o)
  Keeps-refuse_if none = Keeps-pure _
  Keeps-refuse_if (some r) = Keeps-lift _

  Keeps-open_project : (request : String) → GoesOn (open_project host request)
  unfolding open_project new_project is_terminal
  Keeps-open_project request = Keeps-bind _ _ (Steady.Keeps-list_active ports Q) (λ ps.
      Keeps-bind _ _ (Keeps-refuse_if _) (λ _.
        Keeps-bind _ _ (record { at = λ w k. k })
          (λ token.
            Keeps-bind _ _ (record { at = λ w k. k })
              (λ at. Keeps-bind _ _ (Steady.Keeps-create ports Q _ refl) (λ p.
                Keeps-bind _ _ (Steady.Keeps-emit ports Q host _ _ _ _ _) (λ _.
                  Keeps-bind _ _
                    (Kept.Keeps-spawn ports host lifts Q kept _ _ _ _
                      (elim lifts as (λ b. (b || not false) ≡ true) [ true ↦ refl | false ↦ refl ]))
                    (λ _. Keeps-pure _)))))))

  Keeps-after_rename : (r : Result Project) → GoesOn (after_rename host r)
  Keeps-after_rename (ok p) = record { at = λ w k. k }
  Keeps-after_rename (err e) = record { at = λ w k. k }

  Keeps-rename_now : (p : Project) (name : String) → GoesOn (rename_now host p name)
  Keeps-rename_now p name = record {
    at = λ w k. (Keeps-after_rename (rename p name (host.clock w.reads))).at w k;
  }

  Keeps-rename_project : (id name : String) → GoesOn (rename_project host id name)
  unfolding rename_project
  Keeps-rename_project id name = Keeps-bind _ _ (Steady.Keeps-require ports Q id) (λ p.
      Keeps-bind _ _ (Keeps-rename_now p name) (λ q.
        Keeps-bind _ _ (Steady.Keeps-save ports Q q)
          (λ r. Keeps-bind _ _ (Steady.Keeps-emit ports Q host _ _ _ _ _) (λ _. Keeps-pure _))))

  Keeps-finish_project :
      (id : String) (is_cancelled : Bool) → GoesOn (finish_project id is_cancelled)
  unfolding finish_project
  Keeps-finish_project id is_cancelled =
      Keeps-bind _ _ (Steady.Keeps-require ports Q id) (λ p. Steady.Keeps-save ports Q _)

  Keeps-cancel : (o : Option Project) → GoesOn (cancel host o)
  Keeps-cancel none = Keeps-pure _
  Keeps-cancel (some p) =
      Keeps-if _ _ _ (Keeps-pure _)
        (Keeps-bind _ _ (Steady.Keeps-save ports Q _) (λ _. Keeps-pure _))

  Keeps-stop_spender : (id : String) (spent : ℤ) → GoesOn (stop_spender host id spent)
  unfolding stop_spender
  Keeps-stop_spender id spent =
      Keeps-bind _ _ (record { at = λ w k. k })
        (λ _. Keeps-bind _ _ (Kept.Keeps-stop_project ports host lifts Q kept id) (λ n.
          Keeps-bind _ _ (Steady.Keeps-emit ports Q host _ _ _ _ _)
            (λ _. Keeps-bind _ _ (Steady.Keeps-get ports Q id) (λ o. Keeps-cancel o))))

  Keeps-add_to_bill : (id : String) (tokens : ℤ) → GoesOn (add_to_bill host id tokens)
  unfolding add_to_bill
  Keeps-add_to_bill id tokens = record {
    at = λ w k.
        let spent = get_or id (pos 0) w.spend +ℤ tokens in
        let billed : Crew ports = record w { spend = insert id spent w.spend } in
        (Keeps-if (below spent host.max_project_tokens || contains id w.stopped) (pure tt)
            (stop_spender host id spent) (Keeps-pure _) (Keeps-stop_spender id spent)).at
          billed k;
  }

  Keeps-charge : (e : Event) → GoesOn (charge host e)
  unfolding charge
  Keeps-charge e =
      Keeps-if _ _ _
        (Keeps-bind _ _ (Keeps-lift _)
          (λ i. Keeps-bind _ _ (Keeps-lift _) (λ o. Keeps-add_to_bill _ _)))
        (Keeps-pure _)

  Keeps-record : (e : Event) → GoesOn (in_store (st.append_event e) >> charge host e)
  Keeps-record e = Keeps-bind _ _ (Steady.Keeps-append_event ports Q e) (λ _. Keeps-charge e)

  -- Whatever call is made, and whether it returns or raises, the invariant holds after it.
  pub step-Holds :
      (c : Call) (w : Crew ports)
      → is_permitted lifts c ≡ true
      → Holds ports Q w
      → Holds ports Q (step ports host c w)
  unfolding step is_permitted get_project list_active roster escalate history record_one
  step-Holds (opens request) w may k = (Keeps-open_project request).at w k
  step-Holds (gets id) w may k = (Steady.Keeps-require ports Q id).at w k
  step-Holds lists w may k = (Steady.Keeps-list_active ports Q).at w k
  step-Holds (renames id name) w may k = (Keeps-rename_project id name).at w k
  step-Holds (finishes id is_cancelled) w may k = (Keeps-finish_project id is_cancelled).at w k
  step-Holds (spawns id role assignment override) w may k =
      (Kept.Keeps-spawn ports host lifts Q kept id role assignment override may).at w k
  step-Holds (asks_roster id) w may k = (Kept.Keeps-roster_from ports host lifts Q kept _ id).at w k
  step-Holds (says id text) w may k =
      (Kept.Keeps-founder_says ports host lifts Q kept id text).at w k
  step-Holds (delivers id sender to_role text) w may k =
      (Kept.Keeps-deliver ports host lifts Q kept id sender to_role text).at w k
  step-Holds (escalates id question context options) w may k =
      (Steady.Keeps-emit ports Q host _ _ _ _ _).at w k
  step-Holds (reads id limit) w may k = (Steady.Keeps-history ports Q id limit).at w k
  step-Holds (records e) w may k = (Keeps-record e).at w k

  pub Run-Holds : {w v : Crew ports} → Run ports host lifts w v → Holds ports Q w → Holds ports Q v
  Run-Holds start k = k
  Run-Holds (more run (call c may)) k = step-Holds c _ may (Run-Holds run k)
  Run-Holds (more run (ending s stays sound left)) k =
      let before = Run-Holds run k in
      ((before.0.0, sound), subst Q (sym left) (kept.fewer stays _ before.1))
