-- ===== src/Service/Budget.antt =====
-- The recorder of `CrewService`, which writes every event down and charges the tokens of a turn.
use agentic_crew.Prelude.{
  ℕ, String, Bool, false, true, ◌||◌, Option, none, some, List, [], ◌∷◌, insert, get_or, contains,
  if◌then◌else◌,
}
use agentic_crew.Exec.{Exec, pure, lift, modify, ◌>>=◌, ◌>>◌}
use agentic_crew.Project.{Project, is_terminal, finish}
use agentic_crew.Contract.Value.{ℤ, pos, ◌+ℤ◌, below, int, str, Payload, to_int}
use agentic_crew.Contract.Events.{Event, EventKind, usage, error}
use agentic_crew.Store.{Store}
use agentic_crew.Runtime.{Runtime}
use agentic_crew.Bus.{Bus}
use agentic_crew.Service.World.{Host, World, in_store, in_runtime, emit}

-- `kind is EventKind.USAGE`
unfoldable pub is_usage : EventKind → Bool
is_usage usage = true
is_usage _ = false

abbrev pub over_budget_payload : Host → ℤ → ℕ → Payload
over_budget_payload host spent count =
    ("error", str "token budget exhausted")
    ∷ ("spent", int spent)
    ∷ ("limit", int (pos host.max_project_tokens))
    ∷ ("agents_stopped", int (pos count))
    ∷ []

module _ {st : Store} {rt : Runtime} {bus : Bus} (host : Host) where
  -- `project is not None and not project.status.is_terminal`
  abbrev pub cancel : Option Project → Exec (World st rt bus) (Unit {0})
  cancel none = pure tt
  cancel (some project) =
      if is_terminal project.status
      then pure tt
      else (do saved ← in_store (st.save (finish project true)); pure tt)

  -- What follows once a project has spent its budget.
  unfoldable pub stop_spender : String → ℤ → Exec (World st rt bus) (Unit {0})
  stop_spender project_id spent = do
    modify (λ w. record w { stopped = project_id ∷ w.stopped })
    count ← in_runtime (rt.stop_project project_id)
    emit host project_id error "control-plane" (over_budget_payload host spent count) ""
    project ← in_store (st.get project_id)
    cancel project

  -- The bill of the event's project is brought up, and the project stopped if it is spent.
  unfoldable pub add_to_bill : String → ℤ → Exec (World st rt bus) (Unit {0})
  add_to_bill project_id tokens w =
      let spent = get_or project_id (pos 0) w.spend +ℤ tokens in
      let w' : World st rt bus = record w { spend = insert project_id spent w.spend } in
      (if below spent host.max_project_tokens || contains project_id w.stopped
          then pure tt
          else stop_spender project_id spent)
        w'

  -- `_charge`
  unfoldable pub charge : Event → Exec (World st rt bus) (Unit {0})
  charge event =
      if is_usage event.kind
      then (do
        input ← lift (to_int (get_or "input_tokens" (int (pos 0)) event.payload))
        output ← lift (to_int (get_or "output_tokens" (int (pos 0)) event.payload))
        add_to_bill event.project_id (input +ℤ output))
      else pure tt

  -- One round of `record`: whatever is raised is logged, and the next event is taken.
  unfoldable pub record_one : Event → World st rt bus → World st rt bus
  record_one event w = ((in_store (st.append_event event) >> charge event) w).1

  unfoldable pub record_all : List Event → World st rt bus → World st rt bus
  record_all [] w = w
  record_all (event ∷ events) w = record_all events (record_one event w)
