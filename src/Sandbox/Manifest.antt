-- ===== src/Sandbox/Manifest.antt =====
-- adapters/k8s_sandbox.py: the Job that a command runs in, and which Jobs `destroy` removes.
use agentic_crew.Prelude.{
  ℕ, String, Bool, true, false, ◌&&◌, List, [], ◌∷◌, Dict, ◌≡◌, ◌==◌, if◌then◌else◌, arith,
}
use agentic_crew.Contract.Value.{
  Value, Fields, pos, str, int, bool, obj, arr, null, no_fields, entry, texts,
}
use agentic_crew.Contract.Json.{object, array, dict}

-- `self.namespace`, `self.image`, `self.workspace_claim` and `self.service_account`
pub record Settings : Type 0 where
  pub namespace : String
  pub image : String
  pub workspace_claim : String
  pub service_account : String

abbrev pub label_sandbox : String
label_sandbox = "crew.hubbleflow.ai/sandbox"

abbrev pub label_project : String
label_project = "crew.hubbleflow.ai/project"

abbrev container : Settings → String → List String → Value
container settings project_id command = dict (
    ("name", str "sandbox")
    ∷ ("image", str settings.image)
    ∷ ("imagePullPolicy", str "IfNotPresent")
    ∷ ("command", arr (texts command))
    ∷ ("workingDir", str "/workspace")
    ∷ (
      "volumeMounts",
      arr (
          array (
            dict (
              ("name", str "workspace")
              ∷ ("mountPath", str "/workspace")
              ∷ ("subPath", str project_id)
              ∷ [])
            ∷ dict (("name", str "tmp") ∷ ("mountPath", str "/tmp") ∷ [])
            ∷ [])),
    )
    ∷ (
      "resources",
      dict (
          ("requests", dict (("cpu", str "100m") ∷ ("memory", str "256Mi") ∷ []))
          ∷ ("limits", dict (("cpu", str "1") ∷ ("memory", str "1Gi") ∷ []))
          ∷ []),
    )
    ∷ (
      "securityContext",
      dict (
          ("allowPrivilegeEscalation", bool false)
          ∷ ("readOnlyRootFilesystem", bool true)
          ∷ ("capabilities", dict (("drop", arr (array (str "ALL" ∷ []))) ∷ []))
          ∷ []),
    )
    ∷ [])

abbrev volumes : Settings → Value
volumes settings = arr (
    array (
      dict (
        ("name", str "workspace")
        ∷ ("persistentVolumeClaim", dict (("claimName", str settings.workspace_claim) ∷ []))
        ∷ [])
      ∷ dict (("name", str "tmp") ∷ ("emptyDir", dict (("sizeLimit", str "512Mi") ∷ [])) ∷ [])
      ∷ []))

abbrev pod : Settings → String → List String → Value
pod settings project_id command = dict (
    ("restartPolicy", str "Never")
    ∷ ("serviceAccountName", str settings.service_account)
    ∷ ("automountServiceAccountToken", bool false)
    ∷ ("enableServiceLinks", bool false)
    ∷ (
      "securityContext",
      dict (
          ("runAsNonRoot", bool true)
          ∷ ("runAsUser", int (pos 1000))
          ∷ ("fsGroup", int (pos 1000))
          ∷ []),
    )
    ∷ ("containers", arr (array (container settings project_id command ∷ [])))
    ∷ ("volumes", volumes settings)
    ∷ [])

-- `_manifest`
unfoldable pub manifest : Settings → String → String → List String → ℕ → Value
manifest settings name project_id command timeout_s = dict (
    ("apiVersion", str "batch/v1")
    ∷ ("kind", str "Job")
    ∷ (
      "metadata",
      dict (
          ("name", str name)
          ∷ ("labels", dict ((label_sandbox, str "true") ∷ (label_project, str project_id) ∷ []))
          ∷ []),
    )
    ∷ (
      "spec",
      dict (
          ("backoffLimit", int (pos 0))
          ∷ ("activeDeadlineSeconds", int (pos timeout_s))
          ∷ ("ttlSecondsAfterFinished", int (pos 60))
          ∷ (
            "template",
            dict (
                ("metadata", dict (("labels", dict ((label_sandbox, str "true") ∷ [])) ∷ []))
                ∷ ("spec", pod settings project_id command)
                ∷ []),
          )
          ∷ []),
    )
    ∷ [])

-- `value["k"]`, where anything but a dictionary, and a key that is missing, is `null`.
abbrev in_fields : String → Fields → Value
in_fields k no_fields = null
in_fields k (entry j v fs) = if j == k then v else in_fields k fs

abbrev pub at_key : String → Value → Value
at_key k (obj fs) = in_fields k fs
at_key k _ = null

abbrev pub says : String → Value → Bool
says wanted (str s) = s == wanted
says wanted _ = false

-- A label selector `k=v,...`, which the cluster matches with the labels of a Job.
unfoldable pub is_selected : Dict String → Value → Bool
is_selected [] job = true
is_selected ((k, v) ∷ d) job =
    says v (at_key k (at_key "labels" (at_key "metadata" job))) && is_selected d job

-- The selector of `destroy`
unfoldable pub destroy_selector : String → Dict String
destroy_selector project_id = (label_sandbox, "true") ∷ (label_project, project_id) ∷ []

-- `destroy` for a project selects the Job of a command exactly where the command was run for the
-- project, whatever the command and the settings are.
pub is_selected-manifest :
    (settings : Settings) (name owner project_id : String) (command : List String) (timeout_s : ℕ)
    → is_selected (destroy_selector project_id) (manifest settings name owner command timeout_s)
      ≡ (owner == project_id)
unfolding is_selected destroy_selector manifest object
is_selected-manifest settings name owner project_id command timeout_s = ground arith
