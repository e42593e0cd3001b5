-- ===== src/Service/Steady.antt =====
-- What single calls of the ports by `CrewService` keep: a store and a runtime that are sound, and any
-- property of the live agents.
use agentic_crew.Prelude.{String, false, ◌≡◌, inl, inr, List, Option-cases}
use agentic_crew.Exec.{Exec, Result, ok}
use agentic_crew.Exec.Keeps.{Keeps, after}
use agentic_crew.Caps.{AgentRole}
use agentic_crew.Project.{Project, is_terminal}
use agentic_crew.Contract.Value.{ℤ, Payload}
use agentic_crew.Contract.Events.{Event, EventKind}
use agentic_crew.Runtime.{AgentHandle}
use agentic_crew.Service.World.{Host, in_store, in_runtime, in_runtime_lem, emit, require}
use agentic_crew.Service.Steps.{Ports, Crew, IsSound, find, live, require_found, require_missing}

module _ (ports : Ports) (Q : List AgentHandle → Type 0) where
  open ports use {st, rt, bus, is_store, is_runtime, is_bus}

  abbrev pub Holds : Crew ports → Type 0
  Holds w = IsSound ports w × Q (live ports w)

  pub Keeps-in_store :
      {A : Type 0} (m : Exec st.State A) → Keeps is_store.IsSound m → Keeps Holds (in_store m)
  unfolding in_store
  Keeps-in_store m h = record { at = λ w k. ((h.at w.store k.0.0, k.0.1), k.1) }

  pub Keeps-get : (id : String) → Keeps Holds (in_store (st.get id))
  Keeps-get id =
      Keeps-in_store (st.get id)
        (record { at = λ s h. after is_store.IsSound (is_store.get_lem s id h) h })

  pub Keeps-save : (p : Project) → Keeps Holds (in_store (st.save p))
  Keeps-save p = Keeps-in_store (st.save p) (record {
    at = λ s h. elim (Option-cases (is_store.find s p.id)) [
      | inl gone ↦ let (e, eq) = is_store.save_missing s p h gone in after is_store.IsSound eq h
      | inr (q, here) ↦ let r = is_store.save_found s p q h here in after is_store.IsSound r.1 r.2
    ];
  })

  pub Keeps-create :
      (p : Project) → is_terminal p.status ≡ false → Keeps Holds (in_store (st.create p))
  Keeps-create p open_ = Keeps-in_store (st.create p) (record {
    at = λ s h. elim (Option-cases (is_store.find s p.id)) [
      | inl gone ↦ let r = is_store.create_fresh s p h gone open_ in after is_store.IsSound r.1 r.2
      | inr (q, here) ↦
          let (e, eq) = is_store.create_taken s p q h here in after is_store.IsSound eq h
    ];
  })

  pub Keeps-list_active : Keeps Holds (in_store st.list_active)
  Keeps-list_active = Keeps-in_store st.list_active (record {
    at = λ s h. let (ps, eq, _, _, _) = is_store.list_active_lem s h in after is_store.IsSound eq h;
  })

  pub Keeps-history : (id : String) (limit : ℤ) → Keeps Holds (in_store (st.history id limit))
  Keeps-history id limit = Keeps-in_store (st.history id limit) (record {
    at = λ s h. let r = is_store.history_lem s id limit h in after is_store.IsSound r.1 r.2;
  })

  pub Keeps-append_event : (e : Event) → Keeps Holds (in_store (st.append_event e))
  Keeps-append_event e = Keeps-in_store (st.append_event e) (record {
    at = λ s h. let r = is_store.append_event_lem s e h in after is_store.IsSound r.1 r.2;
  })

  -- A question to the runtime leaves it as it is.
  pub Keeps-asks :
      {A : Type 0} (m : Exec rt.State A)
      → ((s : rt.State) → is_runtime.IsSound s → (r : Result A) × (m s ≡ (r, s)))
      → Keeps Holds (in_runtime m)
  Keeps-asks m h = record {
    at = λ w k. let (r, eq) = h w.runtime k.0.1 in after Holds (in_runtime_lem m w eq) k;
  }

  pub Keeps-handles :
      (role : AgentRole) (id : String) → Keeps Holds (in_runtime (rt.handles role id))
  Keeps-handles role id =
      Keeps-asks (rt.handles role id) (λ s h. (_, is_runtime.handles_lem s role id h))

  pub Keeps-status : (h : AgentHandle) → Keeps Holds (in_runtime (rt.status h))
  Keeps-status h =
      Keeps-asks (rt.status h)
        (λ s sound. let (st', eq, _) = is_runtime.status_lem s h sound in (ok st', eq))

  pub Keeps-emit :
      (host : Host) (id : String) (kind : EventKind) (source : String) (payload : Payload)
      (to : String)
      → Keeps Holds (emit host id kind source payload to)
  unfolding emit
  Keeps-emit host id kind source payload to = record { at = λ w k. k }

  pub Keeps-require : (id : String) → Keeps Holds (require id)
  Keeps-require id = record {
    at = λ w k. elim (Option-cases (find ports w id)) [
      | inl gone ↦ after Holds (require_missing ports w id k.0 gone) k
      | inr (p, here) ↦ after Holds (require_found ports w id p k.0 here) k
    ];
  }
