-- ===== src/Tests/Tools.antt =====
-- The theorems on names, tools, turns and the sandbox at concrete inputs.
use Prim.Native.String
use agentic_crew.Prelude.{
  Bool, ℕ, ◌+◌, ◌*◌, ◌≤◌, ◌<◌, true, false, not, ◌||◌, ◌≡◌, ◌↔◌, refl, inl, none, some, List, [],
  ◌∷◌, contains, eqb, if◌then◌else◌,
}
use agentic_crew.Exec.{ok}
use agentic_crew.Project.{
  Project, ProjectStatus, rename, normalize, is_placeholder, is_named, max_name_length, sub_spaces,
  lstrip, rstrip, is_space, is_empty,
}
use agentic_crew.Project.Naming.{IsName, blank, rename-ok_iff, rename-IsName}
use agentic_crew.Agents.Gate.{Call, shows, run, claimed, trigger_tool}
use agentic_crew.Agents.Gate.Shown.{any_declares, run-shows}
use agentic_crew.Sandbox.{
  Cluster, JobStatus, SandboxHandle, create, exec, exec_name, is_finished, collect, give_up,
  startup_grace_s,
}
use agentic_crew.Sandbox.Waiting.{Answers, after_naps}
use agentic_crew.Sandbox.Clearing.{Deletes, exec-clears}
use agentic_crew.Sandbox.Manifest.{Settings}
use agentic_crew.Exec.{Result}
use agentic_crew.Contract.Events.{Event, agent_message}
use agentic_crew.Contract.Identity.{AgentIdentity}
use agentic_crew.Agents.Loop.{say, Message}

abbrev site : Project
site = record {
  id = "proj-1";
  name = "New Project";
  status = ProjectStatus.scoping;
  created_at = 7;
  renamed_at = none;
}

abbrev named : Project
named = record site { name = "Rate limits"; renamed_at = some 9 }

site-renamed : rename site " Rate   limits " 9 ≡ ok named
unfolding rename normalize sub_spaces lstrip rstrip is_space is_empty is_placeholder
site-renamed = refl

rename-ok_iff_example : ((q : Project) × (rename site " Rate   limits " 9 ≡ ok q)) ↔ (
    (blank " Rate   limits " ≡ false)
    × (String.count (normalize " Rate   limits ") ≤ max_name_length)
    × (is_placeholder (normalize " Rate   limits ") ≡ false))
rename-ok_iff_example = rename-ok_iff site " Rate   limits " 9

rename-IsName_example :
    IsName named.name
    × (is_named named ≡ true)
    × (named ≡ record site { name = normalize " Rate   limits "; renamed_at = some 9 })
rename-IsName_example = rename-IsName site " Rate   limits " 9 named site-renamed

abbrev reading : Call
reading = record { name = "read_file"; file_path = "/skills/base/SKILL.md"; result = ok "---" }

run-shows_example :
    shows
      ("ls" ∷ [])
      (("github_approve" ∷ []) ∷ [])
      (run (λ s. some s) (λ s. none) (λ v. "") (reading ∷ []) [])
      (some "github_approve")
    ≡ (not (contains "github_approve" (claimed (("github_approve" ∷ []) ∷ [])))
        || contains "github_approve" (trigger_tool ∷ "ls" ∷ [])
        || any_declares (λ s. some s) (λ s. none) (λ v. "") "github_approve" (reading ∷ []))
run-shows_example =
    run-shows (λ s. some s) (λ s. none) (λ v. "") ("ls" ∷ []) (("github_approve" ∷ []) ∷ [])
      "github_approve" (reading ∷ [])

-- A cluster whose state is the Job that is there, if one is, and the number of naps. Jobs end after the
-- third nap.
abbrev status_at : ℕ → JobStatus
status_at n = record { succeeded = if eqb n 3 then 1 else 0; failed = 0 }

abbrev quick : Cluster
quick = record {
  State = Bool × ℕ;
  create_job = λ job s. (ok tt, (true, s.1));
  read_job_status = λ name s. (ok (status_at s.1), s);
  list_pods = λ name s. (ok [], s);
  read_pod_log = λ name s. (ok "", s);
  delete_job = λ name s. (ok tt, (false, s.1));
  delete_jobs = λ selector s. (ok tt, (false, s.1));
  sleep = λ s. (ok tt, (s.0, s.1 + 1));
}

abbrev sandbox : SandboxHandle
sandbox = create "proj-1"

abbrev settings : Settings
settings = record {
  namespace = "crew";
  image = "crew-base:dev";
  workspace_claim = "crew-workspace";
  service_account = "crew-agent";
}

abbrev quick-Answers : Answers quick (exec_name "proj-1" "a1b2c3")
quick-Answers = record {
  seen = λ s. status_at s.1;
  tick = λ s. (s.0, s.1 + 1);
  status_lem = λ s. refl;
  sleep_lem = λ s. refl;
}

abbrev quick-Deletes : Deletes quick
quick-Deletes = record { there = λ name s. s.0; delete_job_lem = λ name s. (refl, inl refl) }

exec-clears_example :
    let name = exec_name "proj-1" "a1b2c3" in
    let seen_after = λ (k : ℕ). status_at (after_naps quick name quick-Answers k (true, 0)).1 in
    let (result, last) = exec quick settings "a1b2c3" sandbox ("pytest" ∷ []) 5 (false, 0) in
    ((n : ℕ)
      → n < 2 * (5 + startup_grace_s)
      → ((k : ℕ) → k < n → is_finished (seen_after k) ≡ false)
      → is_finished (seen_after n) ≡ true
      → result
        ≡ (collect quick name
            (not (eqb (seen_after n).failed 0))
            (after_naps quick name quick-Answers n (true, 0))).0)
    × (((k : ℕ) → k < 2 * (5 + startup_grace_s) → is_finished (seen_after k) ≡ false)
        → result
          ≡ (give_up quick name 5
              (after_naps quick name quick-Answers (2 * (5 + startup_grace_s)) (true, 0))).0)
    × (last.0 ≡ false)
exec-clears_example =
    exec-clears quick quick-Deletes settings "a1b2c3" sandbox ("pytest" ∷ []) 5 quick-Answers
      (false, 0) (true, 0) refl

abbrev lead : AgentIdentity
lead = record {
  role = "engineering_manager";
  project_id = "proj-1";
  name = "em-1";
  assignment = "";
  redis_url = "";
  control_plane_url = "";
  model = "";
}

abbrev asked : Event
asked = say lead agent_message [] "" 4

abbrev echo : List Message → Result (List Message)
echo messages = ok messages
