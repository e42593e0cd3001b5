-- ===== src/Runtime/Kubernetes.antt =====
-- apps/control_plane/adapters/k8s_runtime.py: agents as Jobs, over a client that is a parameter.
pub mod Cluster
pub mod Manifest
pub mod Verdicts
pub mod Names
pub mod Launching
pub mod Counting
pub mod Unseen
use agentic_crew.Prelude.{
  ℕ, zero, suc, ◌+◌, String, Bool, true, false, ◌&&◌, ◌||◌, not, Option, none, some, List, [], ◌∷◌,
  ◌++◌, Dict, length, keep, map, ltb, eqb, ◌==◌, ◌<>◌, show_nat, if◌then◌else◌,
}
use agentic_crew.Exec.{Exec, Error, Result, ok, err, api_error, pure, ◌>>=◌, ◌>>◌}
use agentic_crew.Caps.{AgentRole, role_value}
use agentic_crew.Project.{is_empty}
use agentic_crew.Contract.Value.{ℤ, pos, negsuc, show_int}
use agentic_crew.Runtime.{
  AgentState, AgentStatus, AgentSpec, AgentHandle, pending, running, succeeded, failed,
  plain_status,
}
use agentic_crew.Runtime.Kubernetes.Cluster.{
  Client, Job, JobStatus, Condition, Pod, ContainerState, is_active,
}
use agentic_crew.Runtime.Kubernetes.Manifest.{
  Settings, manifest, job_name, label_managed, managed_by, label_role, label_project,
}

-- `text or default`
abbrev pub or_else : Option String → String → String
or_else none default = default
or_else (some text) default = if is_empty text then default else text

-- `m`, where an `ApiException` of a status that `caught` knows is a result.
abbrev pub except_api : {S A : Type 0} → (ℕ → Option A) → Result A × S → Result A × S
except_api caught (err (api_error status), s) = elim (caught status) [
  | some a ↦ (ok a, s)
  | none ↦ (err (api_error status), s)
]
except_api caught r = r

abbrev pub collected : AgentStatus
collected = record { state = succeeded; reason = "Collected"; detail = "" }

-- `if exc.status == 404`
abbrev pub gone : {A : Type 0} → A → ℕ → Option A
gone a status = if eqb status 404 then some a else none

-- `if exc.status in (400, 404)`
abbrev pub gone_or_early : {A : Type 0} → A → ℕ → Option A
gone_or_early a status = if eqb status 400 || eqb status 404 then some a else none

abbrev pub is_verdict : Condition → Bool
is_verdict cond = cond.type == "Failed" && cond.status == "True"

-- The condition that ends an agent for good, if there is one.
unfoldable pub failure : List Condition → Option Condition
failure [] = none
failure (cond ∷ conds) = if is_verdict cond then some cond else failure conds

abbrev pub because : AgentState → String → AgentStatus
because state reason = record { state = state; reason = reason; detail = "" }

abbrev pub exit_status : ℤ → AgentStatus
exit_status (pos zero) = plain_status succeeded
exit_status code = record {
  state = pending;
  reason = "Retrying";
  detail = "attempt exited " <> show_int code;
}

abbrev waiting_status : Option String × Option String → AgentStatus
waiting_status (reason, message) = record {
  state = pending;
  reason = or_else reason "Waiting";
  detail = or_else message "";
}

abbrev pub by_state : Option (Option String × Option String) → Bool → Option ℤ → Option AgentStatus
by_state (some why) is_running terminated = some (waiting_status why)
by_state none true terminated = some (plain_status running)
by_state none false (some code) = some (exit_status code)
by_state none false none = none

-- One round of the loop over the containers: a status, or nothing, and the next is looked at.
abbrev pub container_status : ContainerState → Option AgentStatus
container_status cs = by_state cs.waiting cs.running cs.terminated

abbrev pub or_next : Option AgentStatus → AgentStatus → AgentStatus
or_next (some status) next = status
or_next none next = next

unfoldable pub first_status : Option String → List ContainerState → AgentStatus
first_status phase [] = because pending (or_else phase "Pending")
first_status phase (cs ∷ more) = or_next (container_status cs) (first_status phase more)

unfoldable pub pod_verdict : Option Pod → AgentStatus
pod_verdict none = because pending "NoPodYet"
pod_verdict (some pod) = first_status pod.phase pod.containers

-- `max(pods, key=creation_timestamp)`, the first of the largest, with the largest so far
unfoldable pub newest_of : Pod → List Pod → Pod
newest_of best [] = best
newest_of best (pod ∷ pods) =
    newest_of (if ltb best.created_at pod.created_at then pod else best) pods

abbrev pub newest : List Pod → Option Pod
newest [] = none
newest (pod ∷ pods) = some (newest_of pod pods)

-- The selector of `_live_jobs`: no project, or an empty id, selects those of every project.
abbrev pub project_term : Option String → Dict String
project_term none = []
project_term (some id) = if is_empty id then [] else (label_project, id) ∷ []

unfoldable pub live_selector : AgentRole → Option String → Dict String
live_selector role project_id =
    (label_managed, managed_by) ∷ (label_role, role_value role) ∷ project_term project_id

unfoldable pub stop_selector : String → Dict String
stop_selector project_id = (label_managed, managed_by) ∷ (label_project, project_id) ∷ []

module _ (client : Client) (settings : Settings) (lower : String → String) where
  open client use {State, create_job}

  -- `launch`, with the random token of the Job's name
  unfoldable pub launch : String → AgentSpec → Exec State AgentHandle
  launch token spec =
      let name = job_name lower spec.role spec.project_id token in
      create_job (manifest settings name spec)
      >> pure (record { id = name; name = name; role = spec.role; project_id = spec.project_id })

module _ (client : Client) where
  open client use {State, read_job_status, list_jobs, delete_jobs, list_pods, read_log}

  -- `_newest_pod`
  unfoldable pub newest_pod : AgentHandle → Exec State (Option Pod)
  newest_pod handle = do pods ← list_pods (("job-name", handle.name) ∷ []); pure (newest pods)

  -- `_pod_status`
  unfoldable pub pod_status : AgentHandle → Exec State AgentStatus
  pod_status handle = do pod ← newest_pod handle; pure (pod_verdict pod)

  abbrev pub verdict_or : Option Condition → Exec State AgentStatus → Exec State AgentStatus
  verdict_or none next = next
  verdict_or (some cond) next = pure (record {
    state = failed;
    reason = or_else cond.reason "Failed";
    detail = or_else cond.message "";
  })

  abbrev pub not_failed : AgentHandle → JobStatus → Exec State AgentStatus
  not_failed handle job =
      if eqb job.active 0 then pure (because pending "NoPodYet") else pod_status handle

  -- What `status` does once it has read the Job
  unfoldable pub judge : AgentHandle → JobStatus → Exec State AgentStatus
  judge handle job =
      if not (eqb job.succeeded 0)
      then pure (plain_status succeeded)
      else verdict_or (failure job.conditions) (not_failed handle job)

  abbrev pub read_job : AgentHandle → Exec State (Option JobStatus)
  read_job handle s =
      except_api (gone none) ((read_job_status handle.name >>= λ job. pure (some job)) s)

  abbrev pub judge_if : AgentHandle → Option JobStatus → Exec State AgentStatus
  judge_if handle none = pure collected
  judge_if handle (some job) = judge handle job

  unfoldable pub status : AgentHandle → Exec State AgentStatus
  status handle = read_job handle >>= judge_if handle

  -- `_live_jobs`
  unfoldable pub live_jobs : AgentRole → Option String → Exec State (List Job)
  live_jobs role project_id = do
    jobs ← list_jobs (live_selector role project_id)
    pure (keep is_active jobs)

  unfoldable pub census : AgentRole → Option String → Exec State ℕ
  census role project_id = do jobs ← live_jobs role project_id; pure (length jobs)

  unfoldable pub handles : AgentRole → String → Exec State (List AgentHandle)
  handles role project_id = do
    jobs ← live_jobs role (some project_id)
    pure (
        map
          (λ (job : Job). record {
            id = job.name;
            name = job.name;
            role = role;
            project_id = project_id;
          })
          jobs)

  unfoldable pub stop_project : String → Exec State ℕ
  stop_project project_id = do
    jobs ← list_jobs (stop_selector project_id)
    delete_jobs (stop_selector project_id)
    pure (length jobs)

  abbrev log_of_pod : Option Pod → ℕ → Exec State String
  log_of_pod none tail s = (ok "", s)
  log_of_pod (some pod) tail s = except_api (gone_or_early "") (read_log pod.name tail s)

  unfoldable pub logs : AgentHandle → ℕ → Exec State String
  logs handle tail = newest_pod handle >>= λ pod. log_of_pod pod tail
