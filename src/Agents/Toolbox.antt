-- ===== src/Agents/Toolbox.antt =====
-- agents/shared/agent_tools.py: the tools of an agent, bound to its project, over an HTTP client that
-- is a parameter.
pub mod Answers
pub mod Teammates
use agentic_crew.Prelude.{
  ℕ, ◌+◌, String, Bool, true, false, not, Option, none, some, List, [], ◌∷◌, Dict, eqb, ◌<>◌, ◌==◌,
  if◌then◌else◌,
}
use agentic_crew.Contract.Value.{Value, ℤ, str, null, no_fields, obj}
use agentic_crew.Contract.Json.{dict, object, get_field, is_truthy}
use agentic_crew.Contract.Identity.{AgentIdentity}
use agentic_crew.Mocks.Tickets.{last_part}
use agentic_crew.Agents.Requests
use agentic_crew.Agents.Requests.{Request, Servers}

-- What a coroutine returns or raises. An `HTTPStatusError` has its response.
pub data Reply (R A : Type 0) : Type 0 where
  returned : A → Reply R A
  status_error : R → Reply R A
  trouble : String → Reply R A

-- What the client does, and what is read of a response.
pub record Http : Type 1 where
  pub State : Type 0
  pub Response : Type 0
  pub send : Request → State → Reply Response Response × State
  pub status_code : Response → ℕ
  pub is_error : Response → Bool
  pub json : Response → Reply Response Value
  pub show_error : Response → String

-- The calls that a model can make, with the arguments that it gives.
pub data ToolCall : Type 0 where
  read_ticket : ToolCall
  write_ticket : String → String → Option (List String) → Option (Dict String) → String → ToolCall
  add_ticket_comment : String → ToolCall
  sandbox_exec : String → String → ToolCall
  navigate : String → ToolCall
  screenshot_and_annotate : String → String → String → String → ToolCall
  github_open_pr : String → String → String → ToolCall
  github_read_pr : ℤ → ToolCall
  github_post_comment : ℤ → String → String → ℤ → ToolCall
  github_approve : ℤ → ToolCall
  github_request_changes : ℤ → String → ToolCall
  jira_create_issue : String → String → String → String → String → ToolCall
  name_project : String → ToolCall
  delegate_to : String → String → ToolCall
  spawn_agent : String → String → ToolCall
  escalate_to_founder : String → String → Option (List String) → ToolCall

unfoldable pub tool_name : ToolCall → String
tool_name read_ticket = "read_ticket"
tool_name (write_ticket _ _ _ _ _) = "write_ticket"
tool_name (add_ticket_comment _) = "add_ticket_comment"
tool_name (sandbox_exec _ _) = "sandbox_exec"
tool_name (navigate _) = "navigate"
tool_name (screenshot_and_annotate _ _ _ _) = "screenshot_and_annotate"
tool_name (github_open_pr _ _ _) = "github_open_pr"
tool_name (github_read_pr _) = "github_read_pr"
tool_name (github_post_comment _ _ _ _) = "github_post_comment"
tool_name (github_approve _) = "github_approve"
tool_name (github_request_changes _ _) = "github_request_changes"
tool_name (jira_create_issue _ _ _ _ _) = "jira_create_issue"
tool_name (name_project _) = "name_project"
tool_name (delegate_to _ _) = "delegate_to"
tool_name (spawn_agent _ _) = "spawn_agent"
tool_name (escalate_to_founder _ _ _) = "escalate_to_founder"

module _ (servers : Servers) (upper : String → String) (identity : AgentIdentity) where
  -- `ticket_id`
  unfoldable pub own_ticket_id : String
  unfolding last_part
  own_ticket_id = "TICKET-" <> upper (last_part identity.project_id)

  -- What each tool asks of which server. `agent_id` is the agent's name, `author` its role.
  unfoldable pub request_of : ToolCall → Request
  request_of read_ticket = Requests.read_ticket servers own_ticket_id
  request_of (write_ticket title api_contract criteria assignments status) =
      Requests.write_ticket servers identity.project_id title api_contract criteria assignments none
        status
  request_of (add_ticket_comment body) =
      Requests.add_ticket_comment servers own_ticket_id identity.role body
  request_of (sandbox_exec command cwd) =
      Requests.sandbox_exec servers identity.project_id command cwd
  request_of (navigate url) = Requests.navigate servers identity.name url
  request_of (screenshot_and_annotate url looking_for finding cite_as) =
      Requests.screenshot_and_annotate servers identity.name url looking_for finding cite_as
  request_of (github_open_pr branch title body) = Requests.github_open_pr servers branch title body
  request_of (github_read_pr pr_number) = Requests.github_read_pr servers pr_number
  request_of (github_post_comment pr_number body path line) =
      Requests.github_post_comment servers pr_number identity.role line path body
  request_of (github_approve pr_number) = Requests.github_approve servers pr_number identity.role
  request_of (github_request_changes pr_number summary) =
      Requests.github_request_changes servers pr_number identity.role summary
  request_of (jira_create_issue summary description project kind priority) =
      Requests.jira_create_issue servers project kind summary description priority none
        identity.role none
  request_of (name_project name) = Requests.name_project servers identity.project_id name
  request_of (delegate_to role message) =
      Requests.delegate servers identity.project_id (identity.role <> ("/" <> identity.name)) role
        message
  request_of (spawn_agent role assignment) =
      Requests.spawn_agent servers identity.project_id role assignment false
  request_of (escalate_to_founder question context options) =
      Requests.escalate_to_founder servers identity.project_id question context options

abbrev pub no_ticket : Value
no_ticket = dict (
    ("status", str "no_ticket")
    ∷ (
      "message",
      str (
          "No ticket has been authored for this task yet — the "
          <> ("Engineering Manager writes it after scope is approved. "
              <> "Wait for it, or proceed from the assignment you were given.")),
    )
    ∷ [])

abbrev pub not_present : String → Value
not_present role = dict (
    ("status", str "not_present")
    ∷ (
      "message",
      str (
          "No "
          <> (role
              <> (" is on this project yet. Spawn one with "
                  <> "spawn_agent and put this in their assignment."))),
    )
    ∷ [])

abbrev pub refused : Value → Value → Value
refused scope message =
    dict (("status", str "refused") ∷ ("scope", scope) ∷ ("message", message) ∷ [])

module _ {R : Type 0} where
  abbrev pub then_do : Reply R Value → (Value → Reply R Value) → Reply R Value
  then_do (returned v) f = f v
  then_do (status_error resp) f = status_error resp
  then_do (trouble text) f = trouble text

  -- `value.get(k, default)`, which only a dictionary has
  unfoldable pub get_or_raise : String → Value → Value → Reply R Value
  get_or_raise k default (obj fs) = returned (get_field k default (obj fs))
  get_or_raise k default _ = trouble "object has no attribute 'get'"

  abbrev pub delivered_or : String → Value → Reply R Value
  delivered_or role result =
      then_do (get_or_raise "delivered" null result)
        (λ delivered. returned (if is_truthy delivered then result else not_present role))

  abbrev pub refusal_in : String → Value → Reply R Value
  refusal_in role body = then_do (get_or_raise "detail" (obj no_fields) body) λ detail.
      then_do (get_or_raise "scope" (str "project") detail) λ scope.
        then_do (get_or_raise "message" (str ("cap reached for " <> role)) detail)
          λ message. returned (refused scope message)

module _ (http : Http) where
  open http use {State, Response, send, status_code, is_error, json, show_error}

  -- `resp.raise_for_status(); return resp.json()`
  abbrev checked : Reply Response Response → Reply Response Value
  checked (returned resp) = if is_error resp then status_error resp else json resp
  checked (status_error resp) = status_error resp
  checked (trouble text) = trouble text

  -- `_post`, `_patch` and `_get`
  unfoldable pub fetch : Request → State → Reply Response Value × State
  fetch request s = let (r, s') = send request s in (checked r, s')

  -- `except httpx.HTTPStatusError as e: if e.response.status_code == status: return ...; raise`
  abbrev pub on_status :
      ℕ → (Response → Reply Response Value) → Reply Response Value → Reply Response Value
  on_status status handle (returned v) = returned v
  on_status status handle (status_error resp) =
      if eqb (status_code resp) status then handle resp else status_error resp
  on_status status handle (trouble text) = trouble text

  -- What a tool makes of what came back
  unfoldable pub shaped : ToolCall → Reply Response Value → Reply Response Value
  shaped read_ticket r = on_status 404 (λ resp. returned no_ticket) r
  shaped (delegate_to role message) r = then_do r (delivered_or role)
  shaped (spawn_agent role assignment) r =
      on_status 409 (λ resp. then_do (json resp) (refusal_in role)) r
  shaped (write_ticket _ _ _ _ _) r = r
  shaped (add_ticket_comment _) r = r
  shaped (sandbox_exec _ _) r = r
  shaped (navigate _) r = r
  shaped (screenshot_and_annotate _ _ _ _) r = r
  shaped (github_open_pr _ _ _) r = r
  shaped (github_read_pr _) r = r
  shaped (github_post_comment _ _ _ _) r = r
  shaped (github_approve _) r = r
  shaped (github_request_changes _ _) r = r
  shaped (jira_create_issue _ _ _ _ _) r = r
  shaped (name_project _) r = r
  shaped (escalate_to_founder _ _ _) r = r

  -- `_safe`: what is raised is returned as a payload.
  abbrev pub safe : String → Reply Response Value → Value
  safe name (returned v) = v
  safe name (status_error resp) =
      dict (("error", str (name <> (" failed: " <> show_error resp))) ∷ [])
  safe name (trouble text) = dict (("error", str (name <> (" failed: " <> text))) ∷ [])

  -- A tool of `build_role_tools`, called.
  unfoldable pub call_tool :
      Servers → (String → String) → AgentIdentity → ToolCall → State → Value × State
  call_tool servers upper identity call s =
      let (r, s') = fetch (request_of servers upper identity call) s in
      (safe (tool_name call) (shaped call r), s')
