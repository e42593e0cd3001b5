-- ===== src/Service/Steps.antt =====
-- What one call through a port does, for any store, runtime and bus that keep their promises.
use agentic_crew.Prelude.{ℕ, ◌+◌, String, ◌≡◌, ◌∙◌, Option, none, some, List, [], ◌∷◌, ◌++◌}
use agentic_crew.Exec.{ok, err, key_error, bind_ok}
use agentic_crew.Project.{Project}
use agentic_crew.Contract.Value.{Payload}
use agentic_crew.Contract.Events.{Event, EventKind}
use agentic_crew.Store.{Store, IsStore}
use agentic_crew.Runtime.{Runtime, IsRuntime, AgentHandle}
use agentic_crew.Bus.{Bus, IsBus}
use agentic_crew.Service.World.{Host, World, in_store, in_store_lem, emit, require}

-- The three ports of a service, with their promises.
pub record Ports : Type 1 where
  pub st : Store
  pub rt : Runtime
  pub bus : Bus
  pub is_store : IsStore st
  pub is_runtime : IsRuntime rt
  pub is_bus : IsBus bus

module _ (ports : Ports) where
  open ports use {st, rt, bus, is_store, is_runtime, is_bus}

  abbrev pub Crew : Type 0
  Crew = World st rt bus

  abbrev pub IsSound : Crew → Type 0
  IsSound w = is_store.IsSound w.store × is_runtime.IsSound w.runtime

  abbrev pub find : Crew → String → Option Project
  find w id = is_store.find w.store id

  abbrev pub active : Crew → ℕ
  active w = is_store.active w.store

  abbrev pub log : Crew → String → List Event
  log w id = is_store.log w.store id

  abbrev pub live : Crew → List AgentHandle
  live w = is_runtime.live w.runtime

  abbrev pub published : Crew → List Event
  published w = is_bus.published w.events

  abbrev pub event_at : Host → Crew → String → EventKind → String → Payload → String → Event
  event_at host w project_id kind source payload to = record {
    project_id = project_id;
    kind = kind;
    source = source;
    payload = payload;
    at = host.clock w.reads;
    to = to;
  }

  pub emit_lem :
      (host : Host) (w : Crew) (id : String) (kind : EventKind) (source : String)
      (payload : Payload) (to : String)
      → (s : bus.State) × (emit host id kind source payload to w
          ≡ (ok tt, record w { events = s; reads = w.reads + 1 }))
        × (is_bus.published s ≡ published w ++ event_at host w id kind source payload to ∷ [])
  unfolding emit
  emit_lem host w id kind source payload to =
      let (s, sent, more) =
        is_bus.publish_lem w.events (event_at host w id kind source payload to) in
      (s, rw sent, more)

  pub require_found :
      (w : Crew) (id : String) (p : Project)
      → IsSound w
      → find w id ≡ some p
      → require id w ≡ (ok p, w)
  unfolding require
  require_found w id p sound h =
      bind_ok (in_store (st.get id)) _ w
        (in_store_lem (st.get id) w (is_store.get_lem w.store id sound.0))
      ∙ rw h

  pub require_missing :
      (w : Crew) (id : String)
      → IsSound w
      → find w id ≡ none
      → require id w ≡ (err (key_error id), w)
  unfolding require
  require_missing w id sound h =
      bind_ok (in_store (st.get id)) _ w
        (in_store_lem (st.get id) w (is_store.get_lem w.store id sound.0))
      ∙ rw h
