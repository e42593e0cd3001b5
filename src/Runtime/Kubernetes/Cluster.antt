-- ===== src/Runtime/Kubernetes/Cluster.antt =====
-- What k8s_runtime.py asks of the Kubernetes API, and what it reads of the answers.
use agentic_crew.Prelude.{ℕ, String, Bool, not, Option, List, [], ◌∷◌, ◌++◌, Dict, keep, eqb, ◌≡◌}
use agentic_crew.Exec.{Exec, ok}
use agentic_crew.Contract.Value.{ℤ, Value}
use agentic_crew.Sandbox.Manifest.{is_selected}

pub record Condition : Type 0 where
  pub type : String
  pub status : String
  pub reason : Option String
  pub message : Option String

-- The counts and the conditions of a Job's status, where nothing is 0 or empty.
pub record JobStatus : Type 0 where
  pub succeeded : ℕ
  pub active : ℕ
  pub conditions : List Condition

-- A Job of the cluster: its manifest, its name and its status.
pub record Job : Type 0 where
  pub body : Value
  pub name : String
  pub status : JobStatus

-- `job.status.active`
abbrev pub is_active : Job → Bool
is_active job = not (eqb job.status.active 0)

-- A container that waits has a reason and a message, one that has ended an exit code.
pub record ContainerState : Type 0 where
  pub waiting : Option (Option String × Option String)
  pub running : Bool
  pub terminated : Option ℤ

pub record Pod : Type 0 where
  pub name : String
  pub created_at : ℕ
  pub phase : Option String
  pub containers : List ContainerState

-- The calls of the client. A selector is given by its terms.
pub record Client : Type 1 where
  pub State : Type 0
  pub create_job : Value → Exec State (Unit {0})
  pub read_job_status : String → Exec State JobStatus
  pub list_jobs : Dict String → Exec State (List Job)
  pub delete_jobs : Dict String → Exec State (Unit {0})
  pub list_pods : Dict String → Exec State (List Pod)
  pub read_log : String → ℕ → Exec State String

-- Of a cluster that answers: which Jobs a selector lists and deletes.
pub record Answers (client : Client) : Type 0 where
  pub jobs : client.State → List Job
  pub list_jobs_lem :
      (s : client.State) (selector : Dict String)
      → client.list_jobs selector s ≡ (ok (keep (λ j. is_selected selector j.body) (jobs s)), s)
  pub delete_jobs_lem :
      (s : client.State) (selector : Dict String)
      → (s' : client.State) × (client.delete_jobs selector s ≡ (ok tt, s'))
        × (jobs s' ≡ keep (λ j. not (is_selected selector j.body)) (jobs s))

-- The status of a Job that no controller has looked at yet.
abbrev pub untouched : JobStatus
untouched = record { succeeded = 0; active = 0; conditions = [] }

-- Of a cluster that takes a Job: it is there, and has no pod until the Job controller has acted.
pub record Creates (client : Client) (answers : Answers client) : Type 0 where
  pub create_job_lem :
      (s : client.State) (body : Value)
      → (s' : client.State) × (name : String) × (client.create_job body s ≡ (ok tt, s'))
        × (answers.jobs s'
            ≡ answers.jobs s ++ record { body = body; name = name; status = untouched } ∷ [])
