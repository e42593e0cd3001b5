-- ===== src/Service/Interleaved/Alone.antt =====
-- A call of `open_project` or `spawn` that no other interrupts is what the sequential model has.
use agentic_crew.Prelude.{
  ℕ, zero, suc, ◌+◌, ◌≤◌, String, Bool, true, false, ◌≡◌, refl, ap, ◌∙◌, Option, none, some, [],
  ◌∷◌, length, ◌<>◌, arith,
}
use agentic_crew.Exec.{
  Exec, Result, ok, err, cap_exceeded, lift, raise, pure, continue, ◌>>=◌, ◌>>◌,
}
use agentic_crew.Caps.{Refusal, check_spawn, check_new_project}
use agentic_crew.Project.{Project, new_project, start}
use agentic_crew.Contract.Value.{str}
use agentic_crew.Contract.Events.{founder_message, agent_spawned, spawn_refused}
use agentic_crew.Store.{Store}
use agentic_crew.Runtime.{Runtime, AgentHandle}
use agentic_crew.Bus.{Bus}
use agentic_crew.Service.World.{Host, World, in_store, in_runtime, emit, require, now, fresh_token}
use agentic_crew.Service.Agents.{
  SpawnResult, is_scoping, refused_payload, spawned_payload, leave_scoping, act_on, spawn,
}
use agentic_crew.Service.Projects.{open_project, refuse_if}
use agentic_crew.Service.Interleaved.Awaits.{awaits, awaits-advance, ended_of_awaits}
use agentic_crew.Service.Interleaved.{
  Request, spec, Task, lists, creates, greets, requires, counts_project, counts_all, refuses,
  launches, announces, saves, ended, resume, admit_if, admit, launch_if, result_of, settle,
  first_request, advance, run_alone,
}

-- `open_project` returns the project of what its `spawn` returns.
abbrev project_of : Result SpawnResult → Result Project
project_of (ok result) = ok result.project
project_of (err e) = err e

module _ {st : Store} {rt : Runtime} {bus : Bus} (host : Host) where
  abbrev spawn_of : Request → Exec (World st rt bus) SpawnResult
  spawn_of r = spawn host r.project_id r.role r.assignment r.override

  abbrev act : Request → Project → ℕ → ℕ → Exec (World st rt bus) SpawnResult
  act r project in_project everywhere =
      act_on host
        (check_spawn (record { role = r.role; in_project = in_project; everywhere = everywhere })
          r.override)
        project (spec r)

  abbrev greeted : String → Project → Exec (World st rt bus) SpawnResult
  greeted text project = do
    emit host project.id founder_message "founder" (("text", str text) ∷ []) ""
    spawn_of (first_request text project)

  abbrev created : String → Exec (World st rt bus) SpawnResult
  created text = do
    token ← fresh_token host
    created_at ← now host
    project ← in_store (st.create (new_project ("proj-" <> token) created_at))
    greeted text project

  -- What is left of the method at each await, in the sequential model.
  rest : Task → Exec (World st rt bus) SpawnResult
  rest (lists text) = do
    active ← in_store st.list_active
    refuse_if host (check_new_project (length active))
    created text
  rest (creates text) = created text
  rest (greets text project) = greeted text project
  rest (requires r) = spawn_of r
  rest (counts_project r project) = do
    in_project ← in_runtime (rt.census r.role (some r.project_id))
    everywhere ← in_runtime (rt.census r.role none)
    act r project in_project everywhere
  rest (counts_all r project in_project) = do
    everywhere ← in_runtime (rt.census r.role none)
    act r project in_project everywhere
  rest (refuses r refusal) = do
    emit host r.project_id spawn_refused "control-plane" (refused_payload r.role refusal) ""
    raise (cap_exceeded refusal)
  rest (launches r project) = act_on host none project (spec r)
  rest (announces r project handle) = do
    emit host r.project_id agent_spawned "control-plane" (spawned_payload r.role handle) ""
    project' ← leave_scoping project
    pure (result_of handle project')
  rest (saves project handle) = do
    project' ← (do started ← lift (start project); in_store (st.save started))
    pure (result_of handle project')
  rest (ended r) = lift r

  resume-rest :
      {A : Type 0} (x : Result A × World st rt bus) (next : A → Task)
      → let (t, w) = resume x next in rest t w ≡ continue x (λ a. rest (next a))
  unfolding rest
  resume-rest (ok a, w) next = refl
  resume-rest (err e, w) next = refl

  -- The two sides agree where what is left after each value does.
  resume-eq :
      {A : Type 0} (x : Result A × World st rt bus) (next : A → Task)
      (goes_on : A → Exec (World st rt bus) SpawnResult)
      → ((a : A) (w : World st rt bus) → rest (next a) w ≡ goes_on a w)
      → let (t, w) = resume x next in rest t w ≡ continue x goes_on
  unfolding rest
  resume-eq (ok a, w) next goes_on h = h a w
  resume-eq (err e, w) next goes_on h = refl

  rest-admit :
      (text : String) (o : Option Refusal) (w : World st rt bus)
      → rest (admit_if text o) w ≡ (refuse_if host o >> created text) w
  unfolding rest ◌>>=◌
  rest-admit text (some refusal) w = refl
  rest-admit text none w = refl

  rest-launch_if :
      (r : Request) (project : Project) (o : Option Refusal) (w : World st rt bus)
      → rest (launch_if r project o) w ≡ act_on host o project (spec r) w
  unfolding rest act_on
  rest-launch_if r project (some refusal) w = refl
  rest-launch_if r project none w = refl

  rest-settle :
      (project : Project) (handle : AgentHandle) (b : Bool) (w : World st rt bus)
      → is_scoping project.status ≡ b
      → rest (settle project handle) w
        ≡ (leave_scoping project >>= λ project'. pure (result_of handle project')) w
  unfolding rest leave_scoping ◌>>=◌
  rest-settle project handle true w h = rw h refl
  rest-settle project handle false w h = rw h refl

  -- A step does just what the sequential model does first.
  rest-advance :
      (t : Task) (w : World st rt bus) → let (t', w') = advance host t w in rest t' w' ≡ rest t w
  unfolding advance rest spawn act_on ◌>>=◌
  rest-advance (lists text) w =
      resume-eq (in_store st.list_active w) (admit text) _ (λ active w'. rest-admit text _ w')
  rest-advance (creates text) w =
      resume-eq
        (in_store
          (st.create (new_project ("proj-" <> host.token_hex w.reads) (host.clock (w.reads + 1))))
          (record w { reads = w.reads + 1 + 1 }))
        _ _ (λ p w'. refl)
  rest-advance (greets text project) w =
      resume-eq (emit host project.id founder_message "founder" (("text", str text) ∷ []) "" w) _ _
        (λ _ w'. refl)
  rest-advance (requires r) w = resume-eq (require r.project_id w) _ _ (λ p w'. refl)
  rest-advance (counts_project r project) w =
      resume-eq (in_runtime (rt.census r.role (some r.project_id)) w) _ _ (λ n w'. refl)
  rest-advance (counts_all r project n) w =
      resume-eq (in_runtime (rt.census r.role none) w) _ _ (λ m w'. rest-launch_if r project _ w')
  rest-advance (refuses r refusal) w =
      resume-eq
        (emit host r.project_id spawn_refused "control-plane" (refused_payload r.role refusal) "" w)
        _ _ (λ _ w'. refl)
  rest-advance (launches r project) w =
      resume-eq (in_runtime (rt.launch (spec r)) w) _ _ (λ h w'. refl)
  rest-advance (announces r project handle) w =
      resume-eq
        (emit host r.project_id agent_spawned "control-plane" (spawned_payload r.role handle) "" w)
        _ _ (λ _ w'. rest-settle project handle _ w' refl)
  rest-advance (saves project handle) w =
      resume-eq ((lift (start project) >>= λ started. in_store (st.save started)) w) _ _
        (λ p w'. refl)
  rest-advance (ended r) w = refl

  run_alone-rest :
      (n : ℕ) (t : Task) (w : World st rt bus)
      → awaits t ≤ n
      → run_alone host n t w ≡ (ended (rest t w).0, (rest t w).1)
  unfolding run_alone rest
  run_alone-rest zero t w h = let (r, e) = ended_of_awaits t h in rw e refl
  run_alone-rest (suc n) t w h =
      run_alone-rest n (advance host t w).0 (advance host t w).1 (awaits-advance host t n w h)
      ∙ ap (λ (x : Result SpawnResult × World st rt bus). (ended x.0, x.1)) (rest-advance t w)

  continue-project :
      {A : Type 0} (x : Result A × World st rt bus) (f : A → Exec (World st rt bus) SpawnResult)
      (g : A → Exec (World st rt bus) Project)
      → ((a : A) (w : World st rt bus) → g a w ≡ (project_of (f a w).0, (f a w).1))
      → continue x g ≡ (project_of (continue x f).0, (continue x f).1)
  continue-project (ok a, w) f g h = h a w
  continue-project (err e, w) f g h = refl

  continue-pure :
      (x : Result SpawnResult × World st rt bus)
      → continue x (λ result. pure result.project) ≡ (project_of x.0, x.1)
  continue-pure (ok result, w) = refl
  continue-pure (err e, w) = refl

  continue-refuse_if :
      (o : Option Refusal) (f : Exec (World st rt bus) SpawnResult)
      (g : Exec (World st rt bus) Project) (w : World st rt bus)
      → g w ≡ (project_of (f w).0, (f w).1)
      → (refuse_if host o >> g) w
        ≡ (project_of ((refuse_if host o >> f) w).0, ((refuse_if host o >> f) w).1)
  unfolding ◌>>=◌
  continue-refuse_if (some refusal) f g w h = refl
  continue-refuse_if none f g w h = h

  open_project-rest :
      (text : String) (w : World st rt bus)
      → open_project host text w ≡ (project_of (rest (lists text) w).0, (rest (lists text) w).1)
  unfolding open_project rest ◌>>=◌
  open_project-rest text w = continue-project (in_store st.list_active w) _ _ (λ active w'.
      continue-refuse_if (check_new_project (length active)) _ _ w' (
        continue-project (in_store (st.create _) _) _ _ (λ project w''.
          continue-project
            (emit host project.id founder_message "founder" (("text", str text) ∷ []) "" w'') _ _
            (λ _ w3. continue-pure _))))

  -- A call of spawn or of open_project during which no other call takes a turn ends after six or
  -- nine awaits at most, with the state and the result or exception of the sequential method,
  -- whatever the ports do.
  run_alone_lem :
      (r : Request) (text : String) (w : World st rt bus) (n : ℕ)
      → 9 ≤ n
      → (let (result, w') = spawn host r.project_id r.role r.assignment r.override w in
          run_alone host n (requires r) w ≡ (ended result, w'))
        × ((result : Result SpawnResult) × (w' : World st rt bus) × (run_alone host n (lists text) w
              ≡ (ended result, w'))
            × (open_project host text w ≡ (project_of result, w')))
  unfolding rest
  run_alone_lem r text w n h = (
    run_alone-rest n (requires r) w (omega arith),
    (
      (rest (lists text) w).0,
      (rest (lists text) w).1,
      run_alone-rest n (lists text) w (omega arith),
      open_project-rest text w,
    ),
  )
