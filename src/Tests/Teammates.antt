-- ===== src/Tests/Teammates.antt =====
-- A teammate that a model asks for, from the tool to the control plane and back, for a small crew.
use agentic_crew.Prelude.{ℕ, String, Bool, true, false, [], ◌∷◌, refl, ap, if◌then◌else◌, ◌≡◌}
use agentic_crew.Caps.{
  AgentRole, engineering_manager, product_manager, backend_engineer, frontend_engineer, qa_engineer,
  code_reviewer, role_value,
}
use agentic_crew.Contract.Value.{Value, str, bool, null}
use agentic_crew.Contract.Json.{dict, object}
use agentic_crew.Contract.Identity.{AgentIdentity}
use agentic_crew.Sandbox.Manifest.{at_key, says}
use agentic_crew.Service.Steps.{Crew}
use agentic_crew.Api
use agentic_crew.Api.{AgentReply, Detail, replied, failed, crashed, refusal}
use agentic_crew.Agents.Requests.{Request, Servers}
use agentic_crew.Agents.Toolbox.{Reply, Http, returned, call_tool, spawn_agent}
use agentic_crew.Agents.Toolbox.Teammates.{
  agent_value, refusal_value, Carries, Serves, Decided, call_tool-check_spawn,
}
use agentic_crew.Tests.Crew.{ports, host, crew, crew-IsSound}

abbrev lead : AgentIdentity
lead = record {
  role = "engineering_manager";
  project_id = "proj-1";
  name = "em-1";
  assignment = "";
  redis_url = "";
  control_plane_url = "";
  model = "";
}

abbrev servers : Servers
servers = record {
  tickets = "http://mcp-tickets:9001";
  github = "http://mcp-github:9002";
  sandbox = "http://mcp-sandbox:9003";
  browser = "http://mcp-browser:9004";
  jira = "http://mcp-jira:9005";
  control_plane = "http://control-plane:8000";
}

-- How the control plane reads the body of a request, one that it does not refuse.
abbrev role_in : Value → AgentRole
role_in v =
    if says "engineering_manager" v
    then engineering_manager
    else if says "product_manager" v
    then product_manager
    else if says "backend_engineer" v
    then backend_engineer
    else if says "frontend_engineer" v
    then frontend_engineer
    else if says "qa_engineer" v
    then qa_engineer
    else code_reviewer

abbrev text_in : Value → String
text_in (str s) = s
text_in _ = ""

abbrev truth_in : Value → Bool
truth_in (bool b) = b
truth_in _ = false

-- The control plane of the project, for which a response is the reply of its route.
abbrev routed :
    Request → Crew ports → Reply (Api.Reply AgentReply) (Api.Reply AgentReply) × Crew ports
routed request w =
    let (reply, w') =
      Api.spawn_agent host "proj-1" (role_in (at_key "role" request.payload))
        (text_in (at_key "assignment" request.payload))
        (truth_in (at_key "override" request.payload)) w in
    (returned reply, w')

abbrev code_of : Api.Reply AgentReply → ℕ
code_of (replied code a) = code
code_of (failed code d) = code
code_of (crashed e) = 500

abbrev is_failed : Api.Reply AgentReply → Bool
is_failed (replied code a) = false
is_failed _ = true

abbrev detail_value : Detail → Value
detail_value (refusal r) = refusal_value r
detail_value _ = null

abbrev body_of : Api.Reply AgentReply → Value
body_of (replied code a) = agent_value a
body_of (failed code d) = dict (("detail", detail_value d) ∷ [])
body_of (crashed e) = null

abbrev plane : Http
plane = record {
  State = Crew ports;
  Response = Api.Reply AgentReply;
  send = routed;
  status_code = code_of;
  is_error = is_failed;
  json = λ reply. returned (body_of reply);
  show_error = λ reply. "error";
}

plane-Carries : (reply : Api.Reply AgentReply) → Carries plane reply reply
plane-Carries (replied code a) = (refl, refl)
plane-Carries (failed code (refusal r)) = (refl, refl, refl)
plane-Carries (failed code (Detail.message text)) = (refl, refl)
plane-Carries (failed code Detail.invalid) = (refl, refl)
plane-Carries (crashed e) = (refl, refl)

read_back : (role : AgentRole) → role_in (str (role_value role)) ≡ role
unfolding role_value
read_back engineering_manager = refl
read_back product_manager = refl
read_back backend_engineer = refl
read_back frontend_engineer = refl
read_back qa_engineer = refl
read_back code_reviewer = refl

plane-Serves : Serves plane ports host servers "proj-1"
unfolding object
plane-Serves = record {
  crew_of = λ w. w;
  spawn_agent_lem = λ role assignment override w.
      let route = λ (r : AgentRole). Api.spawn_agent host "proj-1" r assignment override w in
      (
        (route role).0,
        (route role).1,
        ap (λ r. (returned (route r).0, (route r).1)) (read_back role),
        refl,
        plane-Carries (route role).0,
      );
}

call_tool-check_spawn_example :
    let (v, w) =
      call_tool plane servers
        (λ s. s)
        lead
        (spawn_agent (role_value qa_engineer) "Check it")
        crew in
    Decided ports host plane servers lead plane-Serves qa_engineer crew v w
unfolding plane-Serves
call_tool-check_spawn_example =
    call_tool-check_spawn ports host plane servers lead plane-Serves (λ s. s) qa_engineer "Check it"
      crew crew-IsSound
