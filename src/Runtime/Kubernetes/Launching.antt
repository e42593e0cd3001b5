-- ===== src/Runtime/Kubernetes/Launching.antt =====
-- k8s_runtime.py and contracts/agent_env.py: what an agent reads of what its Job was given.
use Prim.Native.String.append
use agentic_crew.Prelude.{
  ℕ, suc, String, Bool, if◌then◌else◌, true, false, some, [], ◌∷◌, Dict, lookup, get_or, arith,
  ◌==◌, ◌<>◌, eq_false, take, ◌≡◌, refl, ap,
}
use agentic_crew.Exec.{ok}
use agentic_crew.Caps.{
  AgentRole, role_value, engineering_manager, product_manager, backend_engineer, frontend_engineer,
  qa_engineer, code_reviewer,
}
use agentic_crew.Project.{is_empty}
use agentic_crew.Contract.Value.{Value, Elements, str, null, arr, no_elements, element}
use agentic_crew.Contract.Json.{object, array}
use agentic_crew.Contract.Identity.{
  AgentIdentity, from_env, address, required, agent_name, role_key, project_id_key, agent_name_key,
  assignment_key, redis_url_key, control_plane_url_key, model_key,
}
use agentic_crew.Sandbox.Manifest.{at_key}
use agentic_crew.Runtime.{AgentSpec}
use agentic_crew.Runtime.Kubernetes.Manifest.{Settings, manifest, job_name, untruncated, hyphenated}

abbrev first : Value → Value
first (arr (element v vs)) = v
first _ = null

abbrev text_of : Value → String
text_of (str s) = s
text_of _ = ""

abbrev variables : Elements → Dict String
variables no_elements = []
variables (element v vs) = (text_of (at_key "name" v), text_of (at_key "value" v)) ∷ variables vs

abbrev listed : Value → Dict String
listed (arr vs) = variables vs
listed _ = []

-- The variables that a Job sets in its container by name.
abbrev pub env_of : Value → Dict String
env_of job = listed (
    at_key "env"
      (first (at_key "containers" (at_key "spec" (at_key "template" (at_key "spec" job))))))

unfoldable pub has_dollar : String → Bool
has_dollar String.[] = false
has_dollar (String.◌∷◌ c s) = if String.◌∷◌ c String.[] == "$" then true else has_dollar s

-- What Kubernetes gives a container: a variable that is set by name has that value, whatever the
-- Secret and the ConfigMap say of it, unless a `$` is in the value. Of such a value Kubernetes expands
-- each `$(NAME)` and makes `$` of each `$$`, so that nothing is said of it here.
abbrev pub Provides : Value → Dict String → Type 0
Provides job environ =
    (k v : String)
    → lookup k (env_of job) ≡ some v
    → has_dollar v ≡ false
    → lookup k environ ≡ some v

role_value-has_dollar : (role : AgentRole) → has_dollar (role_value role) ≡ false
unfolding has_dollar role_value
role_value-has_dollar engineering_manager = refl
role_value-has_dollar product_manager = refl
role_value-has_dollar backend_engineer = refl
role_value-has_dollar frontend_engineer = refl
role_value-has_dollar qa_engineer = refl
role_value-has_dollar code_reviewer = refl

is_empty-take :
    (n : ℕ) (s rest : String) → is_empty s ≡ false → is_empty (take (suc n) (s <> rest)) ≡ false
unfolding take is_empty
is_empty-take n String.[] rest h = cc
is_empty-take n (String.◌∷◌ ch s) rest h = rw (append.cons ch s rest) refl

role_not_empty : (role : AgentRole) → is_empty (hyphenated (role_value role)) ≡ false
unfolding hyphenated role_value is_empty
role_not_empty engineering_manager = refl
role_not_empty product_manager = refl
role_not_empty backend_engineer = refl
role_not_empty frontend_engineer = refl
role_not_empty qa_engineer = refl
role_not_empty code_reviewer = refl

eq-empty : (s : String) → is_empty s ≡ false → (s == "") ≡ false
unfolding is_empty
eq-empty s h = eq_false s "" (λ e. let empty : is_empty s ≡ true = ap is_empty e in cc)

-- A Job has a name.
job_name_not_empty :
    (lower : String → String) (role : AgentRole) (project_id token : String)
    → (job_name lower role project_id token == "") ≡ false
unfolding job_name untruncated
job_name_not_empty lower role project_id token =
    eq-empty _ (is_empty-take 62 (hyphenated (role_value role)) _ (role_not_empty role))

required_lem :
    (k v : String) (environ : Dict String) → lookup k environ ≡ some v → required k environ ≡ ok v
unfolding required
required_lem k v environ h = rw (h, required) refl

get_or_lem :
    (k v default : String) (environ : Dict String)
    → lookup k environ ≡ some v
    → get_or k default environ ≡ v
get_or_lem k v default environ h = ground arith

agent_name_lem :
    (v : String) (environ : Dict String)
    → lookup agent_name_key environ ≡ some v
    → (v == "") ≡ false
    → agent_name environ ≡ ok v
unfolding agent_name
agent_name_lem v environ h named = rw (get_or_lem agent_name_key v "" environ h) (rw named refl)

-- Where no `$` is in the project's id, in the Job's name and in the assignment, an agent of a Job that
-- was made for `spec` reads from its environment the role, the project and the
-- assignment of `spec` and the Job's name as its own, so that its address is the one by which the
-- control plane knows it; the rest of its identity is what the Secret and the ConfigMap say, or the
-- defaults.
pub from_env-manifest :
    (settings : Settings) (lower : String → String) (spec : AgentSpec) (token : String)
    (environ : Dict String)
    → Provides (manifest settings (job_name lower spec.role spec.project_id token) spec) environ
    → has_dollar spec.project_id ≡ false
    → has_dollar (job_name lower spec.role spec.project_id token) ≡ false
    → has_dollar spec.assignment ≡ false
    → (identity : AgentIdentity) × (from_env environ ≡ ok identity)
      × (identity.role ≡ role_value spec.role)
      × (identity.project_id ≡ spec.project_id)
      × (identity.assignment ≡ spec.assignment)
      × (address identity
          ≡ role_value spec.role <> ("/" <> job_name lower spec.role spec.project_id token))
      × (identity.redis_url ≡ get_or redis_url_key "redis://redis:6379/0" environ)
      × (identity.control_plane_url
          ≡ get_or control_plane_url_key "http://control-plane:8000" environ)
      × (identity.model ≡ get_or model_key "gemini-3.5-flash" environ)
unfolding manifest object array lookup from_env address
from_env-manifest settings lower spec token environ provides plain_id plain_name plain_text =
    let name = job_name lower spec.role spec.project_id token in
    let role_read =
      required_lem role_key (role_value spec.role) environ
        (provides _ _ refl (role_value-has_dollar spec.role)) in
    let project_read =
      required_lem project_id_key spec.project_id environ (provides _ _ refl plain_id) in
    let name_read =
      agent_name_lem name environ (provides _ _ refl plain_name)
        (job_name_not_empty lower spec.role spec.project_id token) in
    let assignment_read =
      get_or_lem assignment_key spec.assignment "" environ (provides _ _ refl plain_text) in
    (
      record {
        role = role_value spec.role;
        project_id = spec.project_id;
        name = name;
        assignment = spec.assignment;
        redis_url = get_or redis_url_key "redis://redis:6379/0" environ;
        control_plane_url = get_or control_plane_url_key "http://control-plane:8000" environ;
        model = get_or model_key "gemini-3.5-flash" environ;
      },
      rw role_read (rw project_read (rw name_read (rw assignment_read refl))),
      refl,
      refl,
      refl,
      refl,
      refl,
      refl,
      refl,
    )
