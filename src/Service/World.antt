-- ===== src/Service/World.antt =====
-- The state of `CrewService` with the states behind its ports, and what every method uses of it.
use agentic_crew.Prelude.{ℕ, ◌+◌, String, none, some, List, Dict, ◌≡◌, ap}
use agentic_crew.Exec.{Exec, Result, ok, raise, pure, key_error, ◌>>=◌}
use agentic_crew.Project.{Project}
use agentic_crew.Contract.Value.{ℤ, Payload}
use agentic_crew.Contract.Events.{Event, EventKind}
use agentic_crew.Store.{Store}
use agentic_crew.Runtime.{Runtime}
use agentic_crew.Bus.{Bus}

-- What the process is given: the n-th reading of the clock, in microseconds, the n-th random
-- token, and `MAX_PROJECT_TOKENS`.
pub record Host : Type 0 where
  pub clock : ℕ → ℕ
  pub token_hex : ℕ → String
  pub max_project_tokens : ℕ

-- `reads` counts the readings that were taken; `spend` and `stopped` are the budget's books.
pub record World (st : Store) (rt : Runtime) (bus : Bus) : Type 0 where
  pub store : st.State
  pub runtime : rt.State
  pub events : bus.State
  pub spend : Dict ℤ
  pub stopped : List String
  pub reads : ℕ

module _ {st : Store} {rt : Runtime} {bus : Bus} {A : Type 0} where
  -- A call through a port.
  unfoldable pub in_store : Exec st.State A → Exec (World st rt bus) A
  in_store m w = let (r, s) = m w.store in (r, record w { store = s })

  unfoldable pub in_runtime : Exec rt.State A → Exec (World st rt bus) A
  in_runtime m w = let (r, s) = m w.runtime in (r, record w { runtime = s })

  pub in_store_lem :
      (m : Exec st.State A) (w : World st rt bus) {r : Result A} {s : st.State}
      → m w.store ≡ (r, s)
      → in_store m w ≡ (r, record w { store = s })
  unfolding in_store
  in_store_lem m w h = ap (λ (x : Result A × st.State). (x.0, record w { store = x.1 })) h

  pub in_runtime_lem :
      (m : Exec rt.State A) (w : World st rt bus) {r : Result A} {s : rt.State}
      → m w.runtime ≡ (r, s)
      → in_runtime m w ≡ (r, record w { runtime = s })
  unfolding in_runtime
  in_runtime_lem m w h = ap (λ (x : Result A × rt.State). (x.0, record w { runtime = x.1 })) h

module _ {st : Store} {rt : Runtime} {bus : Bus} where
  -- `datetime.now(UTC)` and `time.time()`
  abbrev pub now : Host → Exec (World st rt bus) ℕ
  now host w = (ok (host.clock w.reads), record w { reads = w.reads + 1 })

  abbrev pub fresh_token : Host → Exec (World st rt bus) String
  fresh_token host w = (ok (host.token_hex w.reads), record w { reads = w.reads + 1 })

  -- `_emit(Event(...))`: the event takes its moment when it is made.
  unfoldable pub emit :
      Host → String → EventKind → String → Payload → String → Exec (World st rt bus) (Unit {0})
  emit host project_id kind source payload to w =
      let event : Event = record {
        project_id = project_id;
        kind = kind;
        source = source;
        payload = payload;
        at = host.clock w.reads;
        to = to;
      } in
      let (r, s) = bus.publish event w.events in (r, record w { events = s; reads = w.reads + 1 })

  -- `_require`
  unfoldable pub require : String → Exec (World st rt bus) Project
  require project_id = do
    found ← in_store (st.get project_id)
    elim found [ none ↦ raise (key_error project_id) | some project ↦ pure project ]
