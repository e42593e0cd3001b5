-- ===== src/Service/Opening.antt =====
-- What `open_project` of `CrewService` does: with room for both the project and its manager, with
-- no room for the project, and with no room for the manager.
use agentic_crew.Prelude.{
  ◌+◌, ◌≤◌, ◌<◌, String, false, ◌≡◌, refl, sym, ap, subst, Option-cases, ◌∙◌, inl, inr, none, some,
  [], ◌∷◌, ◌++◌, length, keep, arith, ◌<>◌, eq_refl,
}
use agentic_crew.Exec.{ok, err, pure, cap_exceeded, bind_ok, bind_err, ◌>>=◌}
use agentic_crew.Caps.{AgentRole, Refusal, check_new_project, check_spawn, max_concurrent_projects}
use agentic_crew.Caps.Bounds.{HasRoom, check_new_project-none_iff}
use agentic_crew.Project.{Project, ProjectStatus, new_project, is_terminal}
use agentic_crew.Contract.Value.{str, Payload}
use agentic_crew.Contract.Events.{founder_message}
use agentic_crew.Runtime.{AgentHandle, is_wanted}
use agentic_crew.Service.World.{Host}
use agentic_crew.Service.{
  in_store, in_store_lem, now, fresh_token, emit, first_role, spawn, open_project, refuse_if,
  is_scoping,
}
use agentic_crew.Service.Steps.{
  Ports, Crew, IsSound, find, active, live, published, event_at, emit_lem,
}
use agentic_crew.Service.Spawn.{census_of, spawn_allowed, spawn_refused}

module _ (ports : Ports) (host : Host) where
  open ports use {st, rt, bus, is_store, is_runtime, is_bus}

  -- The id and the record that the next project is given.
  abbrev pub next_id : Crew ports → String
  next_id w = "proj-" <> host.token_hex w.reads

  abbrev pub next_project : Crew ports → Project
  next_project w = new_project (next_id w) (host.clock (w.reads + 1))

  -- The state once the project has been written down and the founder's request told.
  record Created (w : Crew ports) (request : String) (v : Crew ports) : Type 0 where
    pub sound : IsSound ports v
    pub project : find ports v (next_id w) ≡ some (next_project w)
    pub one_more : active ports v ≡ active ports w + 1
    pub same_runtime : v.runtime ≡ w.runtime
    pub told :
        published ports v
        ≡ published ports w
          ++ event_at ports host
              (record w { reads = w.reads + 1 + 1 })
              (next_id w)
              founder_message
              "founder"
              (("text", str request) ∷ [])
              ""
            ∷ []

  -- Where the project may be opened, what is left is the spawn of its manager.
  open_head :
      (w : Crew ports) (request : String)
      → IsSound ports w
      → active ports w < max_concurrent_projects
      → find ports w (next_id w) ≡ none
      → (v : Crew ports) × (open_project host request w
          ≡ (spawn host (next_id w) first_role request false >>= λ result. pure result.project) v)
        × Created w request v
  unfolding open_project new_project is_terminal
  open_head w request sound few fresh =
      let (ps, listed, same, _, _) = is_store.list_active_lem w.store sound.0 in
      let allowed : check_new_project (length ps) ≡ none =
        (check_new_project-none_iff (length ps)).1 (omega (arith, same, few)) in
      let w2 : Crew ports = record w { reads = w.reads + 1 + 1 } in
      let r = is_store.create_fresh w.store (next_project w) sound.0 fresh refl in
      let w3 : Crew ports = record w2 { store = r.0 } in
      let payload : Payload = ("text", str request) ∷ [] in
      let (bus', sent, told) =
        emit_lem ports host w3 (next_id w) founder_message "founder" payload "" in
      let v : Crew ports = record w3 { events = bus'; reads = w.reads + 1 + 1 + 1 } in
      (
        v,
        bind_ok (in_store st.list_active) _ w (in_store_lem st.list_active w listed)
            ∙ bind_ok (refuse_if host (check_new_project (length ps))) _ w
                (ap (λ o. refuse_if host o w) allowed)
            ∙ bind_ok (fresh_token host) _ w refl
            ∙ bind_ok (now host) _ (record w { reads = w.reads + 1 }) refl
            ∙ bind_ok (in_store (st.create (next_project w))) _ w2
                (in_store_lem (st.create (next_project w)) w2 r.1)
            ∙ bind_ok (emit host (next_id w) founder_message "founder" payload "") _ w3 sent,
        record {
          sound = (r.2, sound.1);
          project = r.3 (next_id w) ∙ rw (eq_refl (next_id w));
          one_more = r.4;
          same_runtime = refl;
          told = told;
        },
      )

  -- A question about the agents has the answer that it had before the project was written down.
  same_census :
      (w v : Crew ports) (role : AgentRole) (id : String)
      → v.runtime ≡ w.runtime
      → census_of ports v role id ≡ census_of ports w role id
  same_census w v role id same =
      ap
        (λ r. record {
          role = role;
          in_project = length (keep (is_wanted role (some id)) (is_runtime.live r));
          everywhere = length (keep (is_wanted role none) (is_runtime.live r));
        })
        same

  -- What opening a project has done.
  pub record Opened (w : Crew ports) (p : Project) (w' : Crew ports) : Type 0 where
    pub sound : IsSound ports w'
    pub is_running : p ≡ record (next_project w) { status = ProjectStatus.running }
    pub project : find ports w' (next_id w) ≡ some p
    pub one_more : active ports w' ≡ active ports w + 1
    pub manager :
        (h : AgentHandle) × (live ports w' ≡ live ports w ++ h ∷ [])
        × (h.role ≡ first_role)
        × (h.project_id ≡ next_id w)

  -- With room for one more project and for one more engineering manager, and an id that the store
  -- does not have, `open_project` returns the project, running; it is in the store, one project
  -- more is open, and one agent more is alive: the project's engineering manager.
  pub open_allowed :
      (w : Crew ports) (request : String)
      → IsSound ports w
      → active ports w < max_concurrent_projects
      → find ports w (next_id w) ≡ none
      → HasRoom (census_of ports w first_role (next_id w)) false
      → (p : Project) × (w' : Crew ports) × (open_project host request w ≡ (ok p, w'))
        × Opened w p w'
  unfolding new_project is_scoping
  open_allowed w request sound few fresh room =
      let (v, led, created) = open_head w request sound few fresh in
      let room' =
        subst (λ c. HasRoom c false)
          (sym (same_census w v first_role (next_id w) created.same_runtime)) room in
      let (r, w', ran, spawned) =
        spawn_allowed ports host v (next_id w) first_role request false (next_project w)
          created.sound created.project room' in
      (
        r.project,
        w',
        led ∙ bind_ok (spawn host (next_id w) first_role request false) _ v ran,
        record {
          sound = spawned.sound;
          is_running = spawned.project;
          project =
              spawned.projects (next_id w)
              ∙ rw (eq_refl (next_id w)) (ap some (sym spawned.project));
          one_more = spawned.as_many ∙ created.one_more;
          manager = (
            r.handle,
            spawned.agents ∙ ap (λ a. is_runtime.live a ++ r.handle ∷ []) created.same_runtime,
            spawned.handle_role,
            spawned.handle_project,
          );
        },
      )

  -- Where the caps refuse the engineering manager, `open_project` raises, but the project stays in
  -- the store, still being scoped: one project more is open and no agent works on it.
  pub open_stranded :
      (w : Crew ports) (request : String) (refusal : Refusal)
      → IsSound ports w
      → active ports w < max_concurrent_projects
      → find ports w (next_id w) ≡ none
      → check_spawn (census_of ports w first_role (next_id w)) false ≡ some refusal
      → (w' : Crew ports) × (open_project host request w ≡ (err (cap_exceeded refusal), w'))
        × (find ports w' (next_id w) ≡ some (next_project w))
        × (active ports w' ≡ active ports w + 1)
        × (live ports w' ≡ live ports w)
  open_stranded w request refusal sound few fresh full =
      let (v, led, created) = open_head w request sound few fresh in
      let full' =
        ap (λ c. check_spawn c false) (same_census w v first_role (next_id w) created.same_runtime)
        ∙ full in
      let (w', ran, refused) =
        spawn_refused ports host v (next_id w) first_role request false (next_project w) refusal
          created.sound created.project full' in
      (
        w',
        led ∙ bind_err (spawn host (next_id w) first_role request false) _ v ran,
        ap (λ s. is_store.find s (next_id w)) refused.same_store ∙ created.project,
        ap is_store.active refused.same_store ∙ created.one_more,
        ap is_runtime.live refused.same_runtime ∙ ap is_runtime.live created.same_runtime,
      )

  -- With as many open projects as there may be, `open_project` raises `CapExceeded` and changes
  -- nothing at all.
  pub open_full :
      (w : Crew ports) (request : String)
      → IsSound ports w
      → max_concurrent_projects ≤ active ports w
      → (refusal : Refusal) × (open_project host request w ≡ (err (cap_exceeded refusal), w))
  unfolding open_project
  open_full w request sound many =
      let (ps, listed, same, _, _) = is_store.list_active_lem w.store sound.0 in
      elim (Option-cases (check_new_project (length ps))) [
        | inl room ↦
            absurd (omega (arith, same, many, (check_new_project-none_iff (length ps)).0 room))
        | inr (refusal, full) ↦ (
          refusal,
          bind_ok (in_store st.list_active) _ w (in_store_lem st.list_active w listed)
              ∙ bind_err (refuse_if host (check_new_project (length ps))) _ w
                  (ap (λ o. refuse_if host o w) full),
        )
      ]
