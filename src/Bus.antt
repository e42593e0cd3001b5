-- ===== src/Bus.antt =====
-- apps/control_plane/ports/events.py: the EventBus port, as far as a publisher uses it.
use agentic_crew.Prelude.{◌≡◌, refl, List, [], ◌∷◌, ◌++◌}
use agentic_crew.Exec.{Exec, ok}
use agentic_crew.Contract.Events.{Event}

pub record Bus : Type 1 where
  pub State : Type 0
  pub publish : Event → Exec State (Unit {0})

-- What a bus promises a publisher: the event is the next one that a subscriber is given.
pub record IsBus (bus : Bus) : Type 1 where
  pub published : bus.State → List Event
  pub publish_lem :
      (s : bus.State) (e : Event)
      → (s' : bus.State) × (bus.publish e s ≡ (ok tt, s')) × (published s' ≡ published s ++ e ∷ [])

-- The bus of a test: it keeps what is published.
abbrev pub list_bus : Bus
list_bus = record { State = List Event; publish = λ e es. (ok tt, es ++ e ∷ []) }

pub list_bus-IsBus : IsBus list_bus
list_bus-IsBus = record { published = λ es. es; publish_lem = λ es e. (es ++ e ∷ [], refl, refl) }
