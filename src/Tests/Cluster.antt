-- ===== src/Tests/Cluster.antt =====
-- The theorems on the Kubernetes runtime, on a cluster that is a list of Jobs.
use agentic_crew.Contract.Events.{Event}
use agentic_crew.Agents.Loop.{heard, listen}
use agentic_crew.Agents.Start.{bootstrap, as_prompt}
use agentic_crew.Agents.Start.Assigned.{listen-assigned}
use agentic_crew.Prelude.{
  String, take, false, not, none, some, List, [], ◌∷◌, ◌++◌, Option, Dict, lookup, get_or, length,
  keep, arith, ◌==◌, ◌<>◌, ◌≡◌, ◌≢◌, ◌↔◌, refl, if◌then◌else◌,
}
use agentic_crew.Exec.{ok, err, api_error, ◌>>=◌}
use agentic_crew.Caps.{AgentRole, role_value, backend_engineer, qa_engineer}
use agentic_crew.Project.{is_empty}
use agentic_crew.Contract.Json.{object, array}
use agentic_crew.Contract.Identity.{
  AgentIdentity, from_env, address, redis_url_key, control_plane_url_key, model_key,
}
use agentic_crew.Sandbox.Manifest.{is_selected}
use agentic_crew.Runtime.{AgentSpec, AgentHandle, failed}
use agentic_crew.Runtime.Kubernetes.{
  launch, stop_selector, census, stop_project, status, judge, failure,
}
use agentic_crew.Runtime.Kubernetes.Unseen.{launch-census}
use agentic_crew.Runtime.Kubernetes.Cluster.{Creates, untouched, Client, Answers, Job, JobStatus}
use agentic_crew.Runtime.Kubernetes.Manifest.{
  Settings, manifest, job_name, untruncated, hyphenated, project_part, lstrip_dash, rstrip_dash,
}
use agentic_crew.Runtime.Kubernetes.Launching.{Provides, has_dollar, from_env-manifest}
use agentic_crew.Runtime.Kubernetes.Counting.{stop_project-census}
use agentic_crew.Runtime.Kubernetes.Verdicts.{HasVerdict, status_failed_iff}

abbrev settings : Settings
settings = record {
  namespace = "crew";
  image = "crew-agent:dev";
  image_pull_policy = "IfNotPresent";
  secret_name = "crew-secrets";
  config_map_name = "crew-config";
  workspace_claim = "crew-workspace";
  service_account = "crew-agent";
}

abbrev spec : AgentSpec
spec = record { role = backend_engineer; project_id = "proj-1"; assignment = "Build the limiter" }

abbrev same_text : String → String
same_text s = s

abbrev coder_name : String
coder_name = job_name same_text backend_engineer "proj-1" "a1b2c3"

abbrev coder_job : Job
coder_job = record {
  body = manifest settings coder_name spec;
  name = coder_name;
  status = record { succeeded = 0; active = 1; conditions = [] };
}

-- The verdict that a Job has failed, as Kubernetes gives it.
abbrev lost_status : JobStatus
lost_status = record {
  succeeded = 0;
  active = 0;
  conditions =
      record {
        type = "Failed";
        status = "True";
        reason = some "BackoffLimitExceeded";
        message = none;
      }
      ∷ [];
}

abbrev list_client : Client
list_client = record {
  State = List Job;
  create_job =
      λ body jobs. (ok tt, jobs ++ record { body = body; name = "job"; status = untouched } ∷ []);
  read_job_status =
      λ name jobs. if name == "lost" then (ok lost_status, jobs) else (err (api_error 404), jobs);
  list_jobs = λ selector jobs. (ok (keep (λ j. is_selected selector j.body) jobs), jobs);
  delete_jobs = λ selector jobs. (ok tt, keep (λ j. not (is_selected selector j.body)) jobs);
  list_pods = λ selector jobs. (ok [], jobs);
  read_log = λ name tail jobs. (ok "", jobs);
}

list_client-Answers : Answers list_client
list_client-Answers = record {
  jobs = λ jobs. jobs;
  list_jobs_lem = λ jobs selector. refl;
  delete_jobs_lem = λ jobs selector. (_, refl, refl);
}

stop_project-census_example :
    (s' : List Job) × (stop_project list_client "proj-1" (coder_job ∷ []) ≡ (
      ok (
          length (
            keep
              (λ j. is_selected (stop_selector "proj-1") j.body)
              (list_client-Answers.jobs (coder_job ∷ [])))),
      s',
    ))
    × ((role : AgentRole) → census list_client role (some "proj-1") s' ≡ (ok 0, s'))
    × ((role : AgentRole) (other : String)
        → is_empty other ≡ false
        → other ≢ "proj-1"
        → (census list_client role (some other) s').0
          ≡ (census list_client role (some other) (coder_job ∷ [])).0)
unfolding is_empty
stop_project-census_example =
    stop_project-census list_client list_client-Answers "proj-1" (coder_job ∷ []) named
  where
    named : is_empty "proj-1" ≡ false
    named = refl

abbrev environ : Dict String
environ =
    ("AGENT_ROLE", "backend_engineer")
    ∷ ("PROJECT_ID", "proj-1")
    ∷ ("AGENT_NAME", coder_name)
    ∷ ("ASSIGNMENT", "Build the limiter")
    ∷ ("GEMINI_MODEL", "gemini-3.5-pro")
    ∷ []

environ-Provides : Provides (manifest settings coder_name spec) environ
unfolding manifest object array lookup role_value
environ-Provides k v h plain = ground arith

coder_name_plain : has_dollar coder_name ≡ false
unfolding has_dollar job_name untruncated hyphenated project_part lstrip_dash rstrip_dash role_value
    take is_empty
coder_name_plain = refl

from_env-manifest_example :
    (identity : AgentIdentity) × (from_env environ ≡ ok identity)
    × (identity.role ≡ role_value backend_engineer)
    × (identity.project_id ≡ "proj-1")
    × (identity.assignment ≡ "Build the limiter")
    × (address identity ≡ role_value backend_engineer <> ("/" <> coder_name))
    × (identity.redis_url ≡ get_or redis_url_key "redis://redis:6379/0" environ)
    × (identity.control_plane_url
        ≡ get_or control_plane_url_key "http://control-plane:8000" environ)
    × (identity.model ≡ get_or model_key "gemini-3.5-flash" environ)
unfolding has_dollar
from_env-manifest_example =
    from_env-manifest settings same_text spec "a1b2c3" environ environ-Provides refl
      coder_name_plain refl

abbrev said_first : String
said_first = "From control-plane (assignment):\n\n" <> "Build the limiter"

listen-assigned_example :
    (identity : AgentIdentity) × (e : Event) × (from_env environ ≡ ok identity)
    × (listen identity (bootstrap identity 5) [] ≡ e ∷ heard e.to [])
    × (e.to ≡ role_value backend_engineer <> ("/" <> coder_name))
    × (as_prompt (λ v. "") (λ payload. "") e ≡ said_first)
unfolding is_empty has_dollar
listen-assigned_example =
    listen-assigned (λ v. "") (λ payload. "") settings same_text spec "a1b2c3" environ 5 []
      environ-Provides refl coder_name_plain refl refl

abbrev lost_handle : AgentHandle
lost_handle = record { id = "lost"; name = "lost"; role = qa_engineer; project_id = "proj-1" }

lost_runs :
    status list_client lost_handle []
    ≡ (ok (record { state = failed; reason = "BackoffLimitExceeded"; detail = "" }), [])
unfolding status judge failure is_empty ◌>>=◌
lost_runs = refl

status_failed_iff_example :
    (failed ≡ failed) ↔ ((lost_status.succeeded ≡ 0) × HasVerdict lost_status.conditions)
status_failed_iff_example =
    status_failed_iff list_client lost_handle [] [] [] lost_status
      (record { state = failed; reason = "BackoffLimitExceeded"; detail = "" }) refl lost_runs

list_client-Creates : Creates list_client list_client-Answers
unfolding list_client-Answers
list_client-Creates = record { create_job_lem = λ jobs body. (_, "job", refl, refl) }

launch-census_example :
    (h : AgentHandle) × (s' : List Job) × (launch list_client settings same_text "a1b2c3" spec
        (coder_job ∷ [])
      ≡ (ok h, s'))
    × (h.name ≡ coder_name)
    × (name : String) × (s'
        ≡ coder_job
          ∷ record { body = manifest settings coder_name spec; name = name; status = untouched }
          ∷ [])
    × ((role : AgentRole) (project_id : Option String)
        → (census list_client role project_id s').0
          ≡ (census list_client role project_id (coder_job ∷ [])).0)
unfolding list_client-Answers
launch-census_example =
    launch-census list_client list_client-Answers list_client-Creates settings same_text "a1b2c3"
      spec (coder_job ∷ [])
