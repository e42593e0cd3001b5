-- ===== src/Service/Interleaved/Awaits.antt =====
-- How many awaits a call of `open_project` or `spawn` has before it: every step leaves fewer.
use agentic_crew.Prelude.{
  ℕ, suc, ◌≤◌, String, ◌≡◌, refl, Option, none, some, length, arith, inl, inr, Bool-cases,
}
use agentic_crew.Exec.{Result, ok, err}
use agentic_crew.Caps.{Refusal, check_spawn, check_new_project}
use agentic_crew.Project.{Project}
use agentic_crew.Store.{Store}
use agentic_crew.Runtime.{Runtime, AgentHandle}
use agentic_crew.Bus.{Bus}
use agentic_crew.Service.World.{Host, World}
use agentic_crew.Service.Agents.{SpawnResult, is_scoping}
use agentic_crew.Exec.{cap_exceeded}
use agentic_crew.Service.Interleaved.{
  result_of, admit, weigh, first_request, Request, Task, lists, creates, greets, requires,
  counts_project, counts_all, refuses, launches, announces, saves, ended, resume, admit_if,
  launch_if, settle, advance,
}

-- How many awaits a call has before it at most.
abbrev pub awaits : Task → ℕ
awaits (lists _) = 9
awaits (creates _) = 8
awaits (greets _ _) = 7
awaits (requires _) = 6
awaits (counts_project _ _) = 5
awaits (counts_all _ _ _) = 4
awaits (launches _ _) = 3
awaits (announces _ _ _) = 2
awaits (refuses _ _) = 1
awaits (saves _ _) = 1
awaits (ended _) = 0

awaits-admit_if : (text : String) (o : Option Refusal) → awaits (admit_if text o) ≤ 8
awaits-admit_if text (some refusal) = omega arith
awaits-admit_if text none = omega arith

awaits-launch_if :
    (r : Request) (project : Project) (o : Option Refusal) → awaits (launch_if r project o) ≤ 3
awaits-launch_if r project (some refusal) = omega arith
awaits-launch_if r project none = omega arith

awaits-settle : (project : Project) (handle : AgentHandle) → awaits (settle project handle) ≤ 1
awaits-settle project handle = elim (Bool-cases (is_scoping project.status)) [
  | inl new ↦ rw new (omega arith)
  | inr old ↦ rw old (omega arith)
]

pub ended_of_awaits : (t : Task) → awaits t ≤ 0 → (r : Result SpawnResult) × (t ≡ ended r)
ended_of_awaits (ended r) h = (r, refl)
ended_of_awaits (lists _) h = absurd (omega arith)
ended_of_awaits (creates _) h = absurd (omega arith)
ended_of_awaits (greets _ _) h = absurd (omega arith)
ended_of_awaits (requires _) h = absurd (omega arith)
ended_of_awaits (counts_project _ _) h = absurd (omega arith)
ended_of_awaits (counts_all _ _ _) h = absurd (omega arith)
ended_of_awaits (launches _ _) h = absurd (omega arith)
ended_of_awaits (announces _ _ _) h = absurd (omega arith)
ended_of_awaits (refuses _ _) h = absurd (omega arith)
ended_of_awaits (saves _ _) h = absurd (omega arith)

module _ {st : Store} {rt : Runtime} {bus : Bus} (host : Host) where
  awaits-resume :
      {A : Type 0} (x : Result A × World st rt bus) (next : A → Task) (n : ℕ)
      → ((a : A) → awaits (next a) ≤ n)
      → awaits (resume x next).0 ≤ n
  awaits-resume (ok a, w) next n h = h a
  awaits-resume (err e, w) next n h = omega arith

  pub awaits-advance :
      (t : Task) (n : ℕ) (w : World st rt bus) → awaits t ≤ suc n → awaits (advance host t w).0 ≤ n
  unfolding advance
  awaits-advance (lists text) n w h =
      awaits-resume _ (admit text) n
        (λ ps. omega (arith, awaits-admit_if text (check_new_project (length ps))))
  awaits-advance (creates text) n w h = awaits-resume _ (greets text) n (λ p. omega arith)
  awaits-advance (greets text project) n w h =
      awaits-resume _ (λ _. requires (first_request text project)) n (λ p. omega arith)
  awaits-advance (requires r) n w h = awaits-resume _ (counts_project r) n (λ p. omega arith)
  awaits-advance (counts_project r project) n w h =
      awaits-resume _ (counts_all r project) n (λ p. omega arith)
  awaits-advance (counts_all r project k) n w h = awaits-resume _ (weigh r project k) n (λ m.
      omega (
        arith,
        awaits-launch_if r project
            (check_spawn (record { role = r.role; in_project = k; everywhere = m }) r.override),
      ))
  awaits-advance (refuses r refusal) n w h =
      awaits-resume _ (λ _. ended (err (cap_exceeded refusal))) n (λ p. omega arith)
  awaits-advance (launches r project) n w h =
      awaits-resume _ (announces r project) n (λ p. omega arith)
  awaits-advance (announces r project handle) n w h =
      awaits-resume _ (λ _. settle project handle) n
        (λ p. omega (arith, awaits-settle project handle))
  awaits-advance (saves project handle) n w h =
      awaits-resume _ (λ saved. ended (ok (result_of handle saved))) n (λ p. omega arith)
  awaits-advance (ended r) n w h = omega arith
