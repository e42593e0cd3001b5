-- ===== src/Runtime/Kubernetes/Verdicts.antt =====
-- k8s_runtime.py: which states `status` reports, and when.
use agentic_crew.Prelude.{
  zero, suc, String, Bool, true, false, Option, none, some, List, [], ◌∷◌, eqb, arith, eq_iff, ◌≡◌,
  ◌≢◌, ◌↔◌, ◌⊎◌, inl, inr, refl, ap, sym, ◌∙◌, Bool-cases,
}
use agentic_crew.Exec.{Exec, Result, ok, err, api_error, ◌>>=◌, continue, bind_ok, bind_err}
use agentic_crew.Contract.Value.{ℤ, pos, negsuc}
use agentic_crew.Runtime.{
  AgentState, AgentStatus, AgentHandle, plain_status, pending, succeeded, failed,
}
use agentic_crew.Runtime.Kubernetes.Cluster.{Client, JobStatus, Condition, Pod, ContainerState}
use agentic_crew.Runtime.Kubernetes.{
  status, judge, judge_if, read_job, verdict_or, not_failed, because, collected, gone, except_api,
  pod_status, newest_pod, failure, is_verdict, first_status, pod_verdict, by_state, or_next,
  exit_status,
}

exit_status_alive : (code : ℤ) → (exit_status code).state ≢ failed
exit_status_alive (pos zero) h = cc
exit_status_alive (pos (suc n)) h = cc
exit_status_alive (negsuc n) h = cc

by_state_alive :
    (waiting : Option (Option String × Option String)) (is_running : Bool) (code : Option ℤ)
    (next : AgentStatus)
    → next.state ≢ failed
    → (or_next (by_state waiting is_running code) next).state ≢ failed
by_state_alive (some (reason, message)) is_running code next alive h = cc
by_state_alive none true code next alive h = cc
by_state_alive none false (some code) next alive h = exit_status_alive code h
by_state_alive none false none next alive h = alive h

first_status_alive :
    (phase : Option String) (css : List ContainerState) → (first_status phase css).state ≢ failed
unfolding first_status
first_status_alive phase [] h = cc
first_status_alive phase (cs ∷ more) h =
    by_state_alive cs.waiting cs.running cs.terminated (first_status phase more)
      (first_status_alive phase more) h

pod_verdict_alive : (o : Option Pod) → (pod_verdict o).state ≢ failed
unfolding pod_verdict
pod_verdict_alive none h = cc
pod_verdict_alive (some pod) h = first_status_alive pod.phase pod.containers h

-- A condition that ends an agent for good is among them.
abbrev pub HasVerdict : List Condition → Type 0
HasVerdict [] = ⊥
HasVerdict (cond ∷ conds) = ((cond.type ≡ "Failed") × (cond.status ≡ "True")) ⊎ HasVerdict conds

failure-HasVerdict :
    (conds : List Condition)
    → ((failure conds ≡ none) × ¬ HasVerdict conds)
      ⊎ (((cond : Condition) × (failure conds ≡ some cond)) × HasVerdict conds)
unfolding failure
failure-HasVerdict [] = inl (refl, λ h. h)
failure-HasVerdict (cond ∷ conds) = elim (Bool-cases (is_verdict cond)) [
  | inl e ↦ inr (
    (cond, rw e refl),
    inl (
      (eq_iff cond.type "Failed").0 (ground arith),
      (eq_iff cond.status "True").0 (ground arith),
    ),
  )
  | inr e ↦ elim (failure-HasVerdict conds) [
    | inl (nothing, no_verdict) ↦ inl (
      rw e nothing,
      λ h. elim h [
        | inl (t, u) ↦ ground (arith, eq_iff cond.type "Failed", eq_iff cond.status "True")
        | inr later ↦ no_verdict later
      ],
    )
    | inr ((c, found), later) ↦ inr ((c, rw e found), inr later)
  ]
]

module _ {S A B : Type 0} where
  of_result :
      (f : A → B) (r : Result A × S) (s' : S) (b : B)
      → continue r (λ a t. (ok (f a), t)) ≡ (ok b, s')
      → (a : A) × (b ≡ f a)
  of_result f (ok a, t) s' b h = (a, cc)
  of_result f (err e, t) s' b h = cc

  -- What comes of a chain that ends in a return.
  returned :
      (m : Exec S A) (f : A → B) (s s' : S) (b : B)
      → (m >>= λ a t. (ok (f a), t)) s ≡ (ok b, s')
      → (a : A) × (b ≡ f a)
  unfolding ◌>>=◌
  returned m f s s' b h = of_result f (m s) s' b h

module _ (client : Client) (handle : AgentHandle) where
  pod_status_alive :
      (s s' : client.State) (st : AgentStatus)
      → pod_status client handle s ≡ (ok st, s')
      → st.state ≢ failed
  unfolding pod_status
  pod_status_alive s s' st h failing =
      let (pod, e) = returned (newest_pod client handle) pod_verdict s s' st h in
      pod_verdict_alive pod (ap (λ (r : AgentStatus). r.state) (sym e) ∙ failing)

  abbrev Outcome : Type 0
  Outcome = Result AgentStatus × client.State

  state_in : Outcome → AgentState
  state_in (ok st, s) = st.state
  state_in (err e, s) = pending

  judge_failed_iff :
      (job : JobStatus) (s s' : client.State) (st : AgentStatus)
      → judge client handle job s ≡ (ok st, s')
      → (st.state ≡ failed) ↔ ((job.succeeded ≡ 0) × HasVerdict job.conditions)
  unfolding judge state_in
  judge_failed_iff job s s' st h = elim (Bool-cases (eqb job.succeeded 0)) [
    | inr some_done ↦
        let h' : ◌≡◌ {A = Outcome} (ok (plain_status succeeded), s) (ok st, s') =
          rw some_done at h in
        let is_done : succeeded ≡ st.state = ap state_in h' in
        (λ failing. absurd (cc), λ (none_done, _). absurd (ground arith))
    | inl none_done ↦ elim (failure-HasVerdict job.conditions) [
      | inr ((cond, found), verdict) ↦
          let is_failed : failed ≡ st.state = ap state_in (opened (some cond) none_done found h) in
          (λ _. (ground arith, verdict), λ _. sym is_failed)
      | inl (nothing, no_verdict) ↦
          let h' = opened none none_done nothing h in
          (
            λ failing. absurd (alive (Bool-cases (eqb job.active 0)) h' failing),
            λ (_, verdict). absurd (no_verdict verdict),
          )
    ]
  ]
    where
      alive :
          (eqb job.active 0 ≡ true) ⊎ (eqb job.active 0 ≡ false)
          → verdict_or client none (not_failed client handle job) s ≡ (ok st, s')
          → st.state ≢ failed
      alive (inl e) h failing =
          let h' : ◌≡◌ {A = Outcome} (ok (because pending "NoPodYet"), s) (ok st, s') = rw e at h in
          let waits : pending ≡ st.state = ap state_in h' in absurd (cc)
      alive (inr e) h failing = pod_status_alive s s' st (rw e at h) failing

      opened :
          (o : Option Condition)
          → eqb job.succeeded 0 ≡ true
          → failure job.conditions ≡ o
          → judge client handle job s ≡ (ok st, s')
          → verdict_or client o (not_failed client handle job) s ≡ (ok st, s')
      opened o e found h = rw found at (rw e at h)

module _ (client : Client) (handle : AgentHandle) (s t : client.State) where
  readable :
      (job : JobStatus)
      → client.read_job_status handle.name s ≡ (ok job, t)
      → status client handle s ≡ judge client handle job t
  unfolding status
  readable job read =
      bind_ok (read_job client handle) (judge_if client handle) s
        (ap (except_api (gone none)) (bind_ok (client.read_job_status handle.name) _ s read))

  -- A Job that is gone has finished.
  pub status_gone :
      client.read_job_status handle.name s ≡ (err (api_error 404), t)
      → status client handle s ≡ (ok collected, t)
  unfolding status
  status_gone read =
      bind_ok (read_job client handle) (judge_if client handle) s
        (ap (except_api (gone none)) (bind_err (client.read_job_status handle.name) _ s read))

-- For a Job that can be read, `status` reports that the agent has failed exactly where the Job has no
-- success and has a condition `Failed` that is true, whatever its pods look like.
pub status_failed_iff :
    (client : Client) (handle : AgentHandle) (s t s' : client.State) (job : JobStatus)
    (st : AgentStatus)
    → client.read_job_status handle.name s ≡ (ok job, t)
    → status client handle s ≡ (ok st, s')
    → (st.state ≡ failed) ↔ ((job.succeeded ≡ 0) × HasVerdict job.conditions)
status_failed_iff client handle s t s' job st read ran =
    judge_failed_iff client handle job t s' st (sym (readable client handle s t job read) ∙ ran)
