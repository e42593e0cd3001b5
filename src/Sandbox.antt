-- ===== src/Sandbox.antt =====
-- adapters/k8s_sandbox.py and ports/sandbox.py: one command in a Job of its own.
pub mod Waiting
pub mod Manifest
pub mod Clearing
use agentic_crew.Prelude.{
  ℕ, zero, suc, ◌+◌, ◌*◌, String, Bool, true, false, ◌||◌, not, Option, none, some, List, [], ◌∷◌,
  ◌<>◌, show_nat, eqb, Dict, take, if◌then◌else◌,
}
use agentic_crew.Exec.{Exec, Error, Result, ok, err, pure, raise, api_error, ◌>>=◌, ◌>>◌}
use agentic_crew.Contract.Value.{ℤ, Value, pos}
use agentic_crew.Runtime.Kubernetes.Manifest.{hyphenated}
use agentic_crew.Sandbox.Manifest.{Settings, manifest, destroy_selector}

pub record ExecResult : Type 0 where
  pub exit_code : ℤ
  pub stdout : String
  pub stderr : String
  pub timed_out : Bool

pub record SandboxHandle : Type 0 where
  pub id : String
  pub project_id : String

-- `status.succeeded` and `status.failed` of a Job, where nothing is 0.
pub record JobStatus : Type 0 where
  pub succeeded : ℕ
  pub failed : ℕ

-- A pod: its name, and the exit code of each of its containers that has ended.
pub record Pod : Type 0 where
  pub name : String
  pub exit_codes : List (Option ℤ)

-- What the client of Kubernetes does with the manifest of a Job, with its name, and with the terms of
-- a selector. Any of it may raise.
pub record Cluster : Type 1 where
  pub State : Type 0
  pub create_job : Value → Exec State (Unit {0})
  pub read_job_status : String → Exec State JobStatus
  pub list_pods : String → Exec State (List Pod)
  pub read_pod_log : String → Exec State String
  pub delete_job : String → Exec State (Unit {0})
  pub delete_jobs : Dict String → Exec State (Unit {0})
  pub sleep : Exec State (Unit {0})

-- `STARTUP_GRACE_S`
abbrev pub startup_grace_s : ℕ
startup_grace_s = 60

abbrev pub create : String → SandboxHandle
create project_id = record { id = "sandbox-" <> project_id; project_id = project_id }

-- The name of the Job of a command: `f"sbx-{project_id[:12]}-{token}".replace("_", "-")`
unfoldable pub exec_name : String → String → String
exec_name project_id token = hyphenated ("sbx-" <> (take 12 project_id <> ("-" <> token)))

abbrev pub is_finished : JobStatus → Bool
is_finished s = not (eqb s.succeeded 0) || not (eqb s.failed 0)

-- `try: m finally: d`
unfoldable pub finally : {S A : Type 0} → Exec S A → Exec S (Unit {0}) → Exec S A
finally {S} {A} m d s = let (r, s1) = m s in let (r', s2) = d s1 in (ends r r', s2)
  where
    ends : Result A → Result (Unit {0}) → Result A
    ends r (ok _) = r
    ends r (err e) = err e

-- The last exit code that any container has, or the one that was assumed.
abbrev pub last_code : ℤ → List (Option ℤ) → ℤ
last_code code [] = code
last_code code (none ∷ codes) = last_code code codes
last_code code (some c ∷ codes) = last_code c codes

abbrev pub exit_code_of : ℤ → List Pod → ℤ
exit_code_of code [] = code
exit_code_of code (pod ∷ pods) = exit_code_of (last_code code pod.exit_codes) pods

-- `except ApiException: return ""`
abbrev pub or_empty : {S : Type 0} → Exec S String → Exec S String
or_empty {S} m s = let (r, s') = m s in (caught r, s')
  where
    caught : Result String → Result String
    caught (err (api_error _)) = ok ""
    caught r = r

-- `except ApiException as exc: if exc.status != 404: raise`
abbrev pub unless_gone : {S : Type 0} → Exec S (Unit {0}) → Exec S (Unit {0})
unless_gone {S} m s = let (r, s') = m s in (caught r, s')
  where
    caught : Result (Unit {0}) → Result (Unit {0})
    caught (err (api_error status)) = if eqb status 404 then ok tt else err (api_error status)
    caught r = r

module _ (cluster : Cluster) where
  open cluster use {
    State, create_job, read_job_status, list_pods, read_pod_log, delete_job, delete_jobs, sleep,
  }

  -- `_logs`
  unfoldable pub logs : String → Exec State String
  logs name = do
    pods ← list_pods name
    elim pods [ [] ↦ pure "" | pod ∷ _ ↦ or_empty (read_pod_log pod.name) ]

  -- `_collect`
  unfoldable pub collect : String → Bool → Exec State ExecResult
  collect name failed = do
    output ← logs name
    pods ← list_pods name
    pure (record {
      exit_code = exit_code_of (if failed then pos 1 else pos 0) pods;
      stdout = output;
      stderr = "";
      timed_out = false;
    })

  unfoldable pub give_up : String → ℕ → Exec State ExecResult
  give_up name timeout_s = do
    output ← logs name
    pure (record {
      exit_code = pos 124;
      stdout = output;
      stderr = "sandbox exceeded " <> (show_nat timeout_s <> "s and was stopped");
      timed_out = true;
    })

  unfoldable pub after_poll : JobStatus → String → Exec State ExecResult → Exec State ExecResult
  after_poll status name rest =
      if is_finished status then collect name (not (eqb status.failed 0)) else (sleep >> rest)

  -- The loop of `_await_result` with `rounds` of its half-second polls still to go.
  unfoldable pub poll : ℕ → String → ℕ → Exec State ExecResult
  poll zero name timeout_s = give_up name timeout_s
  poll (suc rounds) name timeout_s =
      let rest = poll rounds name timeout_s in
      read_job_status name >>= λ status. after_poll status name rest

  -- `_await_result`: `waited` grows by half a second from 0 up to `timeout_s + STARTUP_GRACE_S`.
  unfoldable pub await_result : String → ℕ → Exec State ExecResult
  await_result name timeout_s = poll (2 * (timeout_s + startup_grace_s)) name timeout_s

  -- `exec`, with its random token
  unfoldable pub exec : Settings → String → SandboxHandle → List String → ℕ → Exec State ExecResult
  exec settings token handle command timeout_s =
      let name = exec_name handle.project_id token in
      create_job (manifest settings name handle.project_id command timeout_s)
      >> finally (await_result name timeout_s) (unless_gone (delete_job name))

  -- `destroy`
  unfoldable pub destroy : SandboxHandle → Exec State (Unit {0})
  destroy handle = delete_jobs (destroy_selector handle.project_id)
