-- ===== src/Api/Replies.antt =====
-- What the routes answer, for any store, runtime and bus that keep their promises.
use agentic_crew.Prelude.{
  ℕ, String, Bool, true, ◌≡◌, ◌++◌, ap, ◌∙◌, ◌⊎◌, inl, inr, none, some, List, [], ◌∷◌, map,
  Option-cases,
}
use agentic_crew.Exec.{Exec, bind_err, ◌>>=◌}
use agentic_crew.Caps.{AgentRole, Refusal, role_value, check_spawn}
use agentic_crew.Caps.Bounds.{HasRoom, check_spawn-none_iff}
use agentic_crew.Project.{Project}
use agentic_crew.Runtime.{AgentHandle}
use agentic_crew.Service
use agentic_crew.Service.World.{Host, require}
use agentic_crew.Service.{SpawnResult}
use agentic_crew.Contract.Value.{ℤ}
use agentic_crew.Service.Steps.{Ports, Crew, IsSound, find, live, require_missing}
use agentic_crew.Service.Spawn.{census_of, spawn_allowed, spawn_refused, spawn_missing}
use agentic_crew.Api
use agentic_crew.Api.{
  Reply, AgentReply, ProjectView, replied, failed, refusal, not_found, on_spawn_error, on_key_error,
  reply_of, serve, view_of, event_view_of, is_given,
}

module _ (ports : Ports) (host : Host) where
  open ports use {st, rt, bus, is_store, is_runtime, is_bus}

  -- `POST /projects/{id}/agents` on any sound state has one of three answers, and never an
  -- exception that no route handles: 404 where there is no such project, 409 with the refusal of
  -- `check_spawn` where the caps refuse, and in every other case 201 with the role that was asked
  -- for and the name of the one agent more that is alive.
  pub spawn_agent-replies :
      (w : Crew ports) (id : String) (role : AgentRole) (assignment : String) (override : Bool)
      → IsSound ports w
      → let reply = Api.spawn_agent host id role assignment override w in
        let answer = check_spawn (census_of ports w role id) override in
        ((find ports w id ≡ none) × (reply ≡ (not_found id, w)))
        ⊎ ((r : Refusal) × (answer ≡ some r)
            × (reply.0 ≡ failed 409 (refusal r))
            × (live ports reply.1 ≡ live ports w))
        ⊎ ((h : AgentHandle) × (HasRoom (census_of ports w role id) override)
            × (reply.0 ≡ replied 201 (record { agent = h.name; role = role_value role }))
            × (live ports reply.1 ≡ live ports w ++ h ∷ []))
  unfolding Api.spawn_agent on_spawn_error
  spawn_agent-replies w id role assignment override sound =
      let reads =
        reply_of 201
          (λ (result : SpawnResult). record {
            agent = result.handle.name;
            role = role_value result.handle.role;
          })
          (on_spawn_error id) in
      elim (Option-cases (find ports w id)) [
        | inl gone ↦ inl (
          gone,
          ap (λ x. (reads x.0, x.1))
              (spawn_missing ports host w id role assignment override sound gone),
        )
        | inr (p, here) ↦
            inr (elim (Option-cases (check_spawn (census_of ports w role id) override)) [
              | inl allowed ↦
                  let room =
                    (check_spawn-none_iff (census_of ports w role id) override).0 allowed in
                  let (r, w', ran, spawned) =
                    spawn_allowed ports host w id role assignment override p sound here room in
                  inr (
                    r.handle,
                    room,
                    ap (λ x. reads x.0) ran
                        ∙ ap
                            (λ a.
                              replied 201 (record { agent = r.handle.name; role = role_value a }))
                            spawned.handle_role,
                    ap (λ x. live ports x.1) ran ∙ spawned.agents,
                  )
              | inr (r, full) ↦
                  let (w', ran, refused) =
                    spawn_refused ports host w id role assignment override p r sound here full in
                  inl (
                    r,
                    full,
                    ap (λ x. reads x.0) ran,
                    ap (λ x. live ports x.1) ran ∙ ap is_runtime.live refused.same_runtime,
                  )
            ])
      ]

  looked_up :
      {A B : Type 0} (code : ℕ) (view : A → B) (f : Project → Exec (Crew ports) A) (w : Crew ports)
      (id : String)
      → IsSound ports w
      → find ports w id ≡ none
      → serve code view (on_key_error id) (require id >>= f) w ≡ (not_found id, w)
  unfolding on_key_error
  looked_up code view f w id sound gone =
      ap (λ x. (reply_of code view (on_key_error id) x.0, x.1))
        (bind_err (require id) f w (require_missing ports w id sound gone))

  -- A route that looks its project up first answers 404 where there is none, and then neither
  -- messages nor hands work over, escalates, or tells what happened: the state is as it was.
  pub lookup-not_found :
      (w : Crew ports) (id : String)
      → IsSound ports w
      → find ports w id ≡ none
      → (Api.get_project id w ≡ (not_found id, w))
        × (Api.close_project id w ≡ (not_found id, w))
        × (Api.list_agents id w ≡ (not_found id, w))
        × ((limit : ℤ) → Api.project_history id limit w ≡ (not_found id, w))
        × ((body : String)
            → is_given body ≡ true
            → Api.post_message host id body w ≡ (not_found id, w))
        × ((sender : String) (role : AgentRole) (body : String)
            → is_given body ≡ true
            → Api.delegate host id sender role body w ≡ (not_found id, w))
        × ((question context : String) (options : List String)
            → is_given question ≡ true
            → Api.escalate host id question context options w ≡ (not_found id, w))
  unfolding Api.get_project Api.close_project Api.list_agents Api.project_history Api.post_message
      Api.delegate Api.escalate on_key_error Service.get_project Service.finish_project
  lookup-not_found w id sound gone = (
    ap (λ x. (reply_of 200 view_of (on_key_error id) x.0, x.1))
        (require_missing ports w id sound gone),
    looked_up 200 view_of _ w id sound gone,
    looked_up 200 (λ rows. rows) _ w id sound gone,
    λ limit. looked_up 200 (map event_view_of) _ w id sound gone,
    λ body given. rw given (looked_up 202 (λ _. true) _ w id sound gone),
    λ sender role body given. rw given (looked_up 202 (λ d. d) _ w id sound gone),
    λ question context options given. rw given (looked_up 202 (λ _. true) _ w id sound gone),
  )
