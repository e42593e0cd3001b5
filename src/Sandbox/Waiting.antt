-- ===== src/Sandbox/Waiting.antt =====
-- How long the sandbox waits for a command, and what it answers.
use agentic_crew.Prelude.{
  ℕ, zero, suc, ◌+◌, ◌*◌, ◌<◌, String, true, false, not, ◌≡◌, refl, ◌∙◌, eqb, arith,
}
use agentic_crew.Exec.{ok, bind_ok}
use agentic_crew.Sandbox.{
  Cluster, JobStatus, startup_grace_s, is_finished, collect, give_up, after_poll, poll,
  await_result,
}

-- A cluster that answers: a Job's status can be read at any time, and a nap goes by.
pub record Answers (cluster : Cluster) (name : String) : Type 0 where
  pub seen : cluster.State → JobStatus
  pub tick : cluster.State → cluster.State
  pub status_lem : (s : cluster.State) → cluster.read_job_status name s ≡ (ok (seen s), s)
  pub sleep_lem : (s : cluster.State) → cluster.sleep s ≡ (ok tt, tick s)

module _ (cluster : Cluster) (name : String) (answers : Answers cluster name) where
  open answers use {seen, tick, status_lem, sleep_lem}

  -- The state after `n` naps
  abbrev pub after_naps : ℕ → cluster.State → cluster.State
  after_naps zero s = s
  after_naps (suc n) s = after_naps n (tick s)

  poll_finished :
      (rounds n timeout_s : ℕ) (s : cluster.State)
      → n < rounds
      → ((k : ℕ) → k < n → is_finished (seen (after_naps k s)) ≡ false)
      → is_finished (seen (after_naps n s)) ≡ true
      → poll cluster rounds name timeout_s s
        ≡ collect cluster name (not (eqb (seen (after_naps n s)).failed 0)) (after_naps n s)
  unfolding poll after_poll
  poll_finished zero n timeout_s s le before now = absurd (omega arith)
  poll_finished (suc rounds) zero timeout_s s le before now =
      bind_ok (cluster.read_job_status name) _ s (status_lem s) ∙ rw now refl
  poll_finished (suc rounds) (suc n) timeout_s s le before now =
      let first : is_finished (seen s) ≡ false = before 0 (omega arith) in
      bind_ok (cluster.read_job_status name) _ s (status_lem s)
      ∙ rw first (
          bind_ok cluster.sleep _ s (sleep_lem s)
          ∙ poll_finished rounds n timeout_s (tick s) (omega arith)
              (λ k lt. before (suc k) (omega arith)) now)

  poll_unfinished :
      (rounds timeout_s : ℕ) (s : cluster.State)
      → ((k : ℕ) → k < rounds → is_finished (seen (after_naps k s)) ≡ false)
      → poll cluster rounds name timeout_s s ≡ give_up cluster name timeout_s (after_naps rounds s)
  unfolding poll after_poll
  poll_unfinished zero timeout_s s before = refl
  poll_unfinished (suc rounds) timeout_s s before =
      let first : is_finished (seen s) ≡ false = before 0 (omega arith) in
      bind_ok (cluster.read_job_status name) _ s (status_lem s)
      ∙ rw first (
          bind_ok cluster.sleep _ s (sleep_lem s)
          ∙ poll_unfinished rounds timeout_s (tick s) (λ k lt. before (suc k) (omega arith)))

  -- On a cluster that answers: a command that ends within its time limit and the minute of grace,
  -- counted in half-second naps, is collected at the first poll that sees its Job ended; one that
  -- does not is given up after exactly that many naps.
  pub await_result_lem :
      (timeout_s : ℕ) (s : cluster.State)
      → let rounds = 2 * (timeout_s + startup_grace_s) in
        ((n : ℕ)
          → n < rounds
          → ((k : ℕ) → k < n → is_finished (seen (after_naps k s)) ≡ false)
          → is_finished (seen (after_naps n s)) ≡ true
          → await_result cluster name timeout_s s
            ≡ collect cluster name (not (eqb (seen (after_naps n s)).failed 0)) (after_naps n s))
        × (((k : ℕ) → k < rounds → is_finished (seen (after_naps k s)) ≡ false)
            → await_result cluster name timeout_s s
              ≡ give_up cluster name timeout_s (after_naps rounds s))
  unfolding await_result
  await_result_lem timeout_s s = (
    λ n lt before now.
        poll_finished (2 * (timeout_s + startup_grace_s)) n timeout_s s lt before now,
    λ before. poll_unfinished (2 * (timeout_s + startup_grace_s)) timeout_s s before,
  )
