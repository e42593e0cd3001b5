-- ===== src/Runtime/Kubernetes/Manifest.antt =====
-- k8s_runtime.py: the name and the manifest of an agent's Job.
use Prim.Native.Char.{Char, code}
use agentic_crew.Prelude.{ℕ, take, String, true, false, ◌&&◌, [], ◌∷◌, eqb, ◌<>◌, if◌then◌else◌}
use agentic_crew.Caps.{AgentRole, role_value}
use agentic_crew.Project.{is_empty}
use agentic_crew.Contract.Value.{Value, pos, str, int, bool, arr}
use agentic_crew.Contract.Json.{array, dict}
use agentic_crew.Contract.Identity.{
  role_key, project_id_key, agent_name_key, assignment_key, workspace,
}
use agentic_crew.Runtime.{AgentSpec}

-- The fields of a `KubernetesAgentRuntime` but for its connection.
pub record Settings : Type 0 where
  pub namespace : String
  pub image : String
  pub image_pull_policy : String
  pub secret_name : String
  pub config_map_name : String
  pub workspace_claim : String
  pub service_account : String

abbrev pub label_managed : String
label_managed = "crew.hubbleflow.ai/managed-by"

abbrev pub label_role : String
label_role = "crew.hubbleflow.ai/role"

abbrev pub label_project : String
label_project = "crew.hubbleflow.ai/project"

abbrev pub managed_by : String
managed_by = "control-plane"

abbrev pub backoff_limit : ℕ
backoff_limit = 2

abbrev pub ttl_after_finished_s : ℕ
ttl_after_finished_s = 300

abbrev pub active_deadline_s : ℕ
active_deadline_s = 600

abbrev dash : Char
dash = "-"

-- `text.replace("_", "-")`
unfoldable pub hyphenated : String → String
hyphenated String.[] = String.[]
hyphenated (String.◌∷◌ c s) = String.◌∷◌ (if eqb (code c) b'_' then dash else c) (hyphenated s)

-- `text.strip("-")`
unfoldable pub lstrip_dash : String → String
lstrip_dash String.[] = String.[]
lstrip_dash (String.◌∷◌ c s) = if eqb (code c) b'-' then lstrip_dash s else String.◌∷◌ c s

unfoldable pub rstrip_dash : String → String
unfolding is_empty
rstrip_dash String.[] = String.[]
rstrip_dash (String.◌∷◌ c s) =
    let rest = rstrip_dash s in
    if eqb (code c) b'-' && is_empty rest then String.[] else String.◌∷◌ c rest

unfoldable pub project_part : (String → String) → String → String
project_part lower project_id = rstrip_dash (lstrip_dash (take 16 (lower (hyphenated project_id))))

unfoldable pub untruncated : (String → String) → AgentRole → String → String → String
untruncated lower role project_id token =
    hyphenated (role_value role) <> ("-" <> (project_part lower project_id <> ("-" <> token)))

-- `_job_name`, with `str.lower` and the random token
unfoldable pub job_name : (String → String) → AgentRole → String → String → String
job_name lower role project_id token = take 63 (untruncated lower role project_id token)

abbrev pub labels : AgentSpec → Value
labels spec = dict (
    (label_managed, str managed_by)
    ∷ (label_role, str (role_value spec.role))
    ∷ (label_project, str spec.project_id)
    ∷ [])

abbrev variable : String → String → Value
variable name value = dict (("name", str name) ∷ ("value", str value) ∷ [])

abbrev container : Settings → String → AgentSpec → Value
container settings name spec = dict (
    ("name", str "agent")
    ∷ ("image", str settings.image)
    ∷ ("imagePullPolicy", str settings.image_pull_policy)
    ∷ (
      "env",
      arr (
          array (
            variable role_key (role_value spec.role)
            ∷ variable project_id_key spec.project_id
            ∷ variable agent_name_key name
            ∷ variable assignment_key spec.assignment
            ∷ [])),
    )
    ∷ (
      "envFrom",
      arr (
          array (
            dict (("secretRef", dict (("name", str settings.secret_name) ∷ [])) ∷ [])
            ∷ dict (("configMapRef", dict (("name", str settings.config_map_name) ∷ [])) ∷ [])
            ∷ [])),
    )
    ∷ (
      "volumeMounts",
      arr (
          array (
            dict (
              ("name", str "workspace")
              ∷ ("mountPath", str workspace)
              ∷ ("subPath", str spec.project_id)
              ∷ [])
            ∷ [])),
    )
    ∷ (
      "resources",
      dict (
          ("requests", dict (("cpu", str "100m") ∷ ("memory", str "256Mi") ∷ []))
          ∷ ("limits", dict (("cpu", str "1") ∷ ("memory", str "1Gi") ∷ []))
          ∷ []),
    )
    ∷ (
      "securityContext",
      dict (
          ("allowPrivilegeEscalation", bool false)
          ∷ ("capabilities", dict (("drop", arr (array (str "ALL" ∷ []))) ∷ []))
          ∷ []),
    )
    ∷ [])

abbrev volumes : Settings → Value
volumes settings = arr (
    array (
      dict (
        ("name", str "workspace")
        ∷ ("persistentVolumeClaim", dict (("claimName", str settings.workspace_claim) ∷ []))
        ∷ [])
      ∷ []))

abbrev pod : Settings → String → AgentSpec → Value
pod settings name spec = dict (
    ("restartPolicy", str "Never")
    ∷ ("serviceAccountName", str settings.service_account)
    ∷ (
      "securityContext",
      dict (
          ("runAsNonRoot", bool true)
          ∷ ("runAsUser", int (pos 1000))
          ∷ ("fsGroup", int (pos 1000))
          ∷ []),
    )
    ∷ ("containers", arr (array (container settings name spec ∷ [])))
    ∷ ("volumes", volumes settings)
    ∷ [])

-- `_manifest`
unfoldable pub manifest : Settings → String → AgentSpec → Value
manifest settings name spec = dict (
    ("apiVersion", str "batch/v1")
    ∷ ("kind", str "Job")
    ∷ ("metadata", dict (("name", str name) ∷ ("labels", labels spec) ∷ []))
    ∷ (
      "spec",
      dict (
          ("backoffLimit", int (pos backoff_limit))
          ∷ ("ttlSecondsAfterFinished", int (pos ttl_after_finished_s))
          ∷ ("activeDeadlineSeconds", int (pos active_deadline_s))
          ∷ (
            "template",
            dict (
                ("metadata", dict (("labels", labels spec) ∷ []))
                ∷ ("spec", pod settings name spec)
                ∷ []),
          )
          ∷ []),
    )
    ∷ [])
