-- ===== src/Service/Interleaved/Launching.antt =====
-- What one step of an interleaved call does to the live agents, and when it may launch one.
use agentic_crew.Prelude.{
  ◌&&◌, ℕ, ◌+◌, ◌-◌, ◌≤◌, ◌<◌, true, false, ◌≡◌, refl, ap, subst, ◌∙◌, none, some, List, length,
  keep, arith, inl, inr, Bool-cases, Option-cases, ◌<>◌, length-keep-snoc,
}
use agentic_crew.Exec.{cap_exceeded, Exec, Result, ok, err}
use agentic_crew.Exec.Keeps.{Keeps, Keeps-lift, Keeps-bind}
use agentic_crew.Caps.{
  Census, AgentRole, same_role, same_role-eq, same_role_refl, global_limit, check_spawn,
  check_new_project,
}
use agentic_crew.Caps.Bounds.{check_spawn-none_iff}
use agentic_crew.Project.{Project, new_project, start, is_terminal}
use agentic_crew.Runtime.{AgentHandle, is_wanted}
use agentic_crew.Service.World.{Host, in_store, in_runtime_lem, require}
use agentic_crew.Service.Steps.{Ports, Crew, IsSound, live}
use agentic_crew.Service.Steady.{Holds}
use agentic_crew.Service.Steady
use agentic_crew.Service.Interleaved.Starts.{
  starts, starts-admit_if, starts-settle, launches-cases, one_if, one_if-and_true,
}
use agentic_crew.Service.Interleaved.{
  first_request, result_of, admit, Request, spec, Task, lists, creates, greets, requires,
  counts_project, counts_all, refuses, launches, announces, saves, ended, resume, weigh, settle,
  advance,
}

module _ (ports : Ports) (host : Host) where
  open ports use {st, rt, bus, is_store, is_runtime, is_bus}

  abbrev pub count : AgentRole → Crew ports → ℕ
  count role w = length (keep (is_wanted role none) (live ports w))

  resume-at :
      {A : Type 0} (P : Crew ports → Type 0) (m : Exec (Crew ports) A) (next : A → Task)
      (w : Crew ports)
      → Keeps P m
      → P w
      → P (resume (m w) next).1
  resume-at P m next w held k = settled (m w) (held.at w k)
    where
      settled : (x : Result _ × Crew ports) → P x.1 → P (resume x next).1
      settled (ok a, v) h = h
      settled (err e, v) h = h

  -- A call that does not stand at a launch keeps whatever holds of the live agents.
  advance-Holds :
      (Q : List AgentHandle → Type 0) (t : Task) (w : Crew ports)
      → ((role : AgentRole) → starts role t ≡ false)
      → Holds ports Q w
      → Holds ports Q (advance host t w).1
  unfolding advance new_project is_terminal same_role
  advance-Holds Q (lists text) w h k =
      resume-at (Holds ports Q) (in_store st.list_active) _ w (Steady.Keeps-list_active ports Q) k
  advance-Holds Q (creates text) w h k =
      resume-at (Holds ports Q) _ (greets text) w
        (Keeps-bind _ _ (record { at = λ w k. k })
          (λ token.
            Keeps-bind _ _ (record { at = λ w k. k })
              (λ at. Steady.Keeps-create ports Q (new_project ("proj-" <> token) at) refl)))
        k
  advance-Holds Q (greets text p) w h k =
      resume-at (Holds ports Q) _ _ w (Steady.Keeps-emit ports Q host _ _ _ _ _) k
  advance-Holds Q (requires r) w h k =
      resume-at (Holds ports Q) _ _ w (Steady.Keeps-require ports Q r.project_id) k
  advance-Holds Q (counts_project r p) w h k =
      resume-at (Holds ports Q) _ _ w
        (Steady.Keeps-asks ports Q (rt.census r.role (some r.project_id))
          (λ s sound. (_, is_runtime.census_lem s r.role (some r.project_id) sound)))
        k
  advance-Holds Q (counts_all r p n) w h k =
      resume-at (Holds ports Q) _ _ w
        (Steady.Keeps-asks ports Q (rt.census r.role none)
          (λ s sound. (_, is_runtime.census_lem s r.role none sound)))
        k
  advance-Holds Q (refuses r refusal) w h k =
      resume-at (Holds ports Q) _ _ w (Steady.Keeps-emit ports Q host _ _ _ _ _) k
  advance-Holds Q (launches r p) w h k = absurd (launching r.role (h r.role))
    where
      launching : (role : AgentRole) → ¬ (same_role role role ≡ false)
      launching role e = ground (arith, same_role_refl role)
  advance-Holds Q (announces r p handle) w h k =
      resume-at (Holds ports Q) _ _ w (Steady.Keeps-emit ports Q host _ _ _ _ _) k
  advance-Holds Q (saves p handle) w h k =
      resume-at (Holds ports Q) _ _ w
        (Keeps-bind _ _ (Keeps-lift (start p)) (λ started. Steady.Keeps-save ports Q started)) k
  advance-Holds Q (ended r) w h k = k

  resume-starts :
      {A : Type 0} (role : AgentRole) (x : Result A × Crew ports) (next : A → Task)
      → ((a : A) → starts role (next a) ≡ false)
      → starts role (resume x next).0 ≡ false
  resume-starts role (ok a, w) next h = h a
  resume-starts role (err e, w) next h = refl

  counted :
      (r : Request) (p : Project) (n : ℕ) (w : Crew ports)
      → IsSound ports w
      → advance host (counts_all r p n) w ≡ (weigh r p n (count r.role w), w)
  unfolding advance
  counted r p n w sound =
      ap (λ x. resume x (weigh r p n))
        (in_runtime_lem (rt.census r.role none) w
          (is_runtime.census_lem w.runtime r.role none sound.1))

  launch_if-starts :
      (role : AgentRole) (r : Request) (p : Project) (n m : ℕ)
      → starts role (weigh r p n m) ≡ true
      → (m < global_limit r.role) × (r.role ≡ role)
  launch_if-starts role r p n m e = elim (Option-cases (check_spawn census r.override)) [
    | inr (refusal, full) ↦ absurd (cc (rw full at e))
    | inl allowed ↦ (
      ((check_spawn-none_iff census r.override).0 allowed).1,
      same_role-eq r.role role (rw allowed at e),
    )
  ]
    where
      census : Census
      census = record { role = r.role; in_project = n; everywhere = m }

  -- A call gets to its launch only where the count of all agents of its role has found room.
  advance-starts :
      (role : AgentRole) (t : Task) (w : Crew ports)
      → IsSound ports w
      → starts role t ≡ false
      → starts role (advance host t w).0 ≡ true
      → count role w < global_limit role
  unfolding advance
  advance-starts role (lists text) w sound h e = absurd (
      cc (
        resume-starts role (in_store st.list_active w) (admit text)
          (λ ps. starts-admit_if role text (check_new_project (length ps)))))
  advance-starts role (creates text) w sound h e =
      absurd (cc (resume-starts role _ (greets text) (λ _. refl)))
  advance-starts role (greets text p) w sound h e =
      absurd (cc (resume-starts role _ (λ _. requires (first_request text p)) (λ _. refl)))
  advance-starts role (requires r) w sound h e =
      absurd (cc (resume-starts role (require r.project_id w) (counts_project r) (λ _. refl)))
  advance-starts role (counts_project r p) w sound h e =
      absurd (cc (resume-starts role _ (counts_all r p) (λ _. refl)))
  advance-starts role (counts_all r p n) w sound h e =
      let found : starts role (weigh r p n (count r.role w)) ≡ true =
        subst (λ x. starts role x.0 ≡ true) (counted r p n w sound) e in
      let (room, same) = launch_if-starts role r p n (count r.role w) found in
      subst (λ a. count a w < global_limit a) same room
  advance-starts role (refuses r refusal) w sound h e =
      absurd (cc (resume-starts role _ (λ _. ended (err (cap_exceeded refusal))) (λ _. refl)))
  advance-starts role (launches r p) w sound h e =
      absurd (cc (resume-starts role _ (announces r p) (λ _. refl)))
  advance-starts role (announces r p handle) w sound h e =
      absurd (cc (resume-starts role _ (λ _. settle p handle) (λ _. starts-settle role p handle)))
  advance-starts role (saves p handle) w sound h e =
      absurd (cc (resume-starts role _ (λ saved. ended (ok (result_of handle saved))) (λ _. refl)))
  advance-starts role (ended r) w sound h e = absurd (cc)

  launch-count :
      (role : AgentRole) (r : Request) (p : Project) (w : Crew ports)
      → IsSound ports w
      → let (t', w') = advance host (launches r p) w in
        IsSound ports w'
        × (starts role t' ≡ false)
        × (count role w' ≡ count role w + one_if (same_role r.role role))
  unfolding advance
  launch-count role r p w sound =
      let (handle, s, launched, sound', same, project, agents) =
        is_runtime.launch_lem w.runtime (spec r) sound.1 in
      let eq = in_runtime_lem (rt.launch (spec r)) w launched in
      rw eq (
        (sound.0, sound'),
        refl,
        ap (λ hs. length (keep (is_wanted role none) hs)) agents
            ∙ length-keep-snoc (is_wanted role none) (live ports w) handle
            ∙ ap (λ n. count role w + n)
                (ap (λ a. one_if (same_role a role && true)) same
                  ∙ one_if-and_true (same_role r.role role)),
      )

  -- Agents about to be launched count as launched: a call that moves keeps the sum, or it has found
  -- room and takes one place more.
  pub advance-count :
      (role : AgentRole) (t : Task) (w : Crew ports) (others crowd : ℕ)
      → IsSound ports w
      → others < crowd
      → count role w + one_if (starts role t) + others ≤ global_limit role + (crowd - 1)
      → let (t', w') = advance host t w in
        IsSound ports w'
        × (count role w' + one_if (starts role t') + others ≤ global_limit role + (crowd - 1))
  advance-count role t w others crowd sound few h = elim (launches-cases t) [
    | inr (r, p, e) ↦
        let (sound', quiet, more) = launch-count role r p w sound in
        rw e (sound', ground (arith, quiet, more, e))
    | inl quiet ↦
        let held = advance-Holds (λ hs. hs ≡ live ports w) t w quiet (sound, refl) in
        let same : count role (advance host t w).1 ≡ count role w =
          ap (λ hs. length (keep (is_wanted role none) hs)) held.1 in
        (
          held.0,
          elim (Bool-cases (starts role (advance host t w).0)) [
            | inr e ↦ rw e (omega arith)
            | inl e ↦ rw e (omega (arith, advance-starts role t w sound (quiet role) e))
          ],
        )
  ]
