-- ===== src/Sandbox/Clearing.antt =====
-- What `exec` and `destroy` leave of the Jobs of the commands.
use agentic_crew.Prelude.{
  ℕ, ◌*◌, ◌+◌, ◌<◌, String, Bool, true, false, not, ◌≡◌, ◌⊎◌, inl, inr, refl, ap, ◌∙◌, eqb, List,
}
use agentic_crew.Exec.{Result, ok, err, api_error, bind_ok}
use agentic_crew.Sandbox.{
  Cluster, ExecResult, SandboxHandle, startup_grace_s, is_finished, collect, give_up, await_result,
  exec, exec_name, finally, unless_gone,
}
use agentic_crew.Sandbox.Manifest.{Settings, manifest}
use agentic_crew.Sandbox.Waiting.{Answers, after_naps, await_result_lem}

-- Of a cluster that lets Jobs be deleted: a deletion is taken, or there was no such Job any more, and
-- either way the Job is not there after it.
pub record Deletes (cluster : Cluster) : Type 0 where
  pub there : String → cluster.State → Bool
  pub delete_job_lem :
      (name : String) (s : cluster.State)
      → (there name (cluster.delete_job name s).1 ≡ false)
        × (((cluster.delete_job name s).0 ≡ ok tt)
            ⊎ ((cluster.delete_job name s).0 ≡ err (api_error 404)))

module _ (cluster : Cluster) (deletes : Deletes cluster) where
  open deletes use {there, delete_job_lem}

  -- What waits for a result and then deletes comes to what the waiting comes to.
  finally-delete :
      (m : cluster.State → Result ExecResult × cluster.State) (name : String) (s : cluster.State)
      → ((finally m (unless_gone (cluster.delete_job name)) s).0 ≡ (m s).0)
        × (there name (finally m (unless_gone (cluster.delete_job name)) s).1 ≡ false)
  unfolding finally
  finally-delete m name s =
      let (cleared, answer) = delete_job_lem name (m s).1 in
      (elim answer [ inl e ↦ rw e refl | inr e ↦ rw e refl ], cleared)

  -- A command whose Job the cluster takes, where Jobs can be read and deleted: what `exec` comes to is
  -- what is collected at the first poll that sees the Job ended, or, where 2 * (timeout + 60) polls do
  -- not see it ended, what is said of a command that was given up. Either way, and also where an
  -- exception is raised on the way, the Job is not there after it.
  pub exec-clears :
      (settings : Settings) (token : String) (handle : SandboxHandle) (command : List String)
      (timeout_s : ℕ) (answers : Answers cluster (exec_name handle.project_id token))
      (s s1 : cluster.State)
      → let name = exec_name handle.project_id token in
        let rounds = 2 * (timeout_s + startup_grace_s) in
        let seen_after = λ (k : ℕ). answers.seen (after_naps cluster name answers k s1) in
        cluster.create_job (manifest settings name handle.project_id command timeout_s) s
          ≡ (ok tt, s1)
        → let (result, last) = exec cluster settings token handle command timeout_s s in
          ((n : ℕ)
            → n < rounds
            → ((k : ℕ) → k < n → is_finished (seen_after k) ≡ false)
            → is_finished (seen_after n) ≡ true
            → result
              ≡ (collect cluster name
                  (not (eqb (seen_after n).failed 0))
                  (after_naps cluster name answers n s1)).0)
          × (((k : ℕ) → k < rounds → is_finished (seen_after k) ≡ false)
              → result
                ≡ (give_up cluster name timeout_s (after_naps cluster name answers rounds s1)).0)
          × (there name last ≡ false)
  unfolding exec
  exec-clears settings token handle command timeout_s answers s s1 taken =
      let name = exec_name handle.project_id token in
      let wait = await_result cluster name timeout_s in
      let runs =
        bind_ok (cluster.create_job (manifest settings name handle.project_id command timeout_s))
          (λ _. finally wait (unless_gone (cluster.delete_job name))) s taken in
      let (same, cleared) = finally-delete wait name s1 in
      let (ended, never) = await_result_lem cluster name answers timeout_s s1 in
      let answer = ap (λ x. x.0) runs ∙ same in
      (
        λ n lt before now. answer ∙ ap (λ x. x.0) (ended n lt before now),
        λ before. answer ∙ ap (λ x. x.0) (never before),
        ap (λ x. there name x.1) runs ∙ cleared,
      )
