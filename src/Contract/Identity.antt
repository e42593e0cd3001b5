-- ===== src/Contract/Identity.antt =====
-- contracts/agent_env.py: what a Job sets in its container's environment, and what an agent reads.
use agentic_crew.Prelude.{String, none, some, Dict, lookup, get_or, ◌==◌, ◌<>◌, if◌then◌else◌}
use agentic_crew.Exec.{Result, ok, err, key_error}

abbrev pub role_key : String
role_key = "AGENT_ROLE"

abbrev pub project_id_key : String
project_id_key = "PROJECT_ID"

abbrev pub agent_name_key : String
agent_name_key = "AGENT_NAME"

abbrev pub assignment_key : String
assignment_key = "ASSIGNMENT"

abbrev pub redis_url_key : String
redis_url_key = "REDIS_URL"

abbrev pub control_plane_url_key : String
control_plane_url_key = "CONTROL_PLANE_URL"

abbrev pub model_key : String
model_key = "GEMINI_MODEL"

abbrev pub workspace : String
workspace = "/workspace"

pub record AgentIdentity : Type 0 where
  pub role : String
  pub project_id : String
  pub name : String
  pub assignment : String
  pub redis_url : String
  pub control_plane_url : String
  pub model : String

-- `os.environ[key]`
unfoldable pub required : String → Dict String → Result String
required key environ = elim (lookup key environ) [ none ↦ err (key_error key) | some v ↦ ok v ]

abbrev bind : Result String → (String → Result AgentIdentity) → Result AgentIdentity
bind (ok v) f = f v
bind (err e) f = err e

-- `os.environ.get(AGENT_NAME) or os.environ[ROLE]`: the second is read only if it is needed.
unfoldable pub agent_name : Dict String → Result String
agent_name environ =
    let name = get_or agent_name_key "" environ in
    if name == "" then required role_key environ else ok name

-- `AgentIdentity.from_env`
unfoldable pub from_env : Dict String → Result AgentIdentity
from_env environ = bind (required role_key environ) λ role.
    bind (required project_id_key environ) λ project_id. bind (agent_name environ) λ name.
      ok (record {
        role = role;
        project_id = project_id;
        name = name;
        assignment = get_or assignment_key "" environ;
        redis_url = get_or redis_url_key "redis://redis:6379/0" environ;
        control_plane_url = get_or control_plane_url_key "http://control-plane:8000" environ;
        model = get_or model_key "gemini-3.5-flash" environ;
      })

-- `AgentIdentity.address`
unfoldable pub address : AgentIdentity → String
address i = i.role <> "/" <> i.name
