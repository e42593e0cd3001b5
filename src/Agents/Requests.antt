-- ===== src/Agents/Requests.antt =====
-- agents/shared/tools.py: the request that each function sends.
use agentic_crew.Prelude.{String, Bool, Option, none, some, List, [], ◌∷◌, Dict, ◌<>◌, get_or}
use agentic_crew.Contract.Value.{Value, ℤ, show_int, str, int, bool, arr, texts}
use agentic_crew.Contract.Json.{dict}

pub data Method : Type 0 where
  get_method post_method patch_method : Method

-- A request without a body has the empty object.
pub record Request : Type 0 where
  pub method : Method
  pub url : String
  pub payload : Value

-- `MCP`, and what `_control_plane()` reads
pub record Servers : Type 0 where
  pub tickets : String
  pub github : String
  pub sandbox : String
  pub browser : String
  pub jira : String
  pub control_plane : String

-- `MCP` and `_control_plane()`, read of the environment
unfoldable pub servers_of : Dict String → Servers
servers_of environ = record {
  tickets = get_or "MCP_TICKETS_URL" "http://mcp-tickets:9001" environ;
  github = get_or "MCP_GITHUB_URL" "http://mcp-github:9002" environ;
  sandbox = get_or "MCP_SANDBOX_URL" "http://mcp-sandbox:9003" environ;
  browser = get_or "MCP_BROWSER_URL" "http://mcp-browser:9004" environ;
  jira = get_or "MCP_JIRA_URL" "http://mcp-jira:9005" environ;
  control_plane = get_or "CONTROL_PLANE_URL" "http://control-plane:8000" environ;
}

abbrev pub get_request : String → Request
get_request url = record { method = get_method; url = url; payload = dict [] }

abbrev pub post_request : String → Dict Value → Request
post_request url payload = record { method = post_method; url = url; payload = dict payload }

abbrev pub patch_request : String → Dict Value → Request
patch_request url payload = record { method = patch_method; url = url; payload = dict payload }

-- `xs or []`
abbrev pub or_none_listed : Option (List String) → Value
or_none_listed none = arr (texts [])
or_none_listed (some xs) = arr (texts xs)

text_entries : Dict String → Dict Value
text_entries [] = []
text_entries ((k, v) ∷ d) = (k, str v) ∷ text_entries d

-- `d or {}`
unfoldable pub or_no_entries : Option (Dict String) → Value
unfolding text_entries
or_no_entries none = dict []
or_no_entries (some d) = dict (text_entries d)

module _ (servers : Servers) where
  abbrev pub read_ticket : String → Request
  read_ticket ticket_id = get_request (servers.tickets <> ("/tickets/" <> ticket_id))

  abbrev pub write_ticket :
      String
      → String
      → String
      → Option (List String)
      → Option (Dict String)
      → Option (List String)
      → String
      → Request
  write_ticket project_id title api_contract criteria assignments evidence status =
      post_request (servers.tickets <> "/tickets") (
        ("project_id", str project_id)
        ∷ ("title", str title)
        ∷ ("api_contract", str api_contract)
        ∷ ("acceptance_criteria", or_none_listed criteria)
        ∷ ("assignments", or_no_entries assignments)
        ∷ ("evidence_cited", or_none_listed evidence)
        ∷ ("status", str status)
        ∷ [])

  abbrev pub add_ticket_comment : String → String → String → Request
  add_ticket_comment ticket_id author body =
      post_request (servers.tickets <> ("/tickets/" <> (ticket_id <> "/comments")))
        (("author", str author) ∷ ("body", str body) ∷ [])

  abbrev pub navigate : String → String → Request
  navigate agent_id url =
      post_request (servers.browser <> "/browser/navigate")
        (("agent_id", str agent_id) ∷ ("url", str url) ∷ [])

  abbrev pub screenshot_and_annotate : String → String → String → String → String → Request
  screenshot_and_annotate agent_id url looking_for finding cite_as =
      post_request (servers.browser <> "/browser/screenshot_and_annotate") (
        ("agent_id", str agent_id)
        ∷ ("url", str url)
        ∷ ("looking_for", str looking_for)
        ∷ ("finding", str finding)
        ∷ ("cite_as", str cite_as)
        ∷ [])

  abbrev pub sandbox_write_file : String → String → String → Request
  sandbox_write_file project_id path content =
      post_request (servers.sandbox <> "/sandbox/write")
        (("project_id", str project_id) ∷ ("path", str path) ∷ ("content", str content) ∷ [])

  abbrev pub sandbox_read_file : String → String → Request
  sandbox_read_file project_id path =
      post_request (servers.sandbox <> "/sandbox/read")
        (("project_id", str project_id) ∷ ("path", str path) ∷ [])

  abbrev pub sandbox_exec : String → String → String → Request
  sandbox_exec project_id command cwd =
      post_request (servers.sandbox <> "/sandbox/exec")
        (("project_id", str project_id) ∷ ("command", str command) ∷ ("cwd", str cwd) ∷ [])

  abbrev pub github_open_pr : String → String → String → Request
  github_open_pr branch title body =
      post_request (servers.github <> "/github/open_pr")
        (("branch", str branch) ∷ ("title", str title) ∷ ("body", str body) ∷ [])

  abbrev pub github_read_pr : ℤ → Request
  github_read_pr pr_number = get_request (servers.github <> ("/github/pr/" <> show_int pr_number))

  abbrev pub github_post_comment : ℤ → String → ℤ → String → String → Request
  github_post_comment pr_number author line path body =
      post_request (servers.github <> "/github/post_comment") (
        ("pr_number", int pr_number)
        ∷ ("author", str author)
        ∷ ("line", int line)
        ∷ ("path", str path)
        ∷ ("body", str body)
        ∷ [])

  abbrev pub github_approve : ℤ → String → Request
  github_approve pr_number reviewer =
      post_request (servers.github <> "/github/approve")
        (("pr_number", int pr_number) ∷ ("reviewer", str reviewer) ∷ [])

  abbrev pub github_request_changes : ℤ → String → String → Request
  github_request_changes pr_number reviewer summary =
      post_request (servers.github <> "/github/request_changes")
        (("pr_number", int pr_number) ∷ ("reviewer", str reviewer) ∷ ("summary", str summary) ∷ [])

  abbrev pub jira_create_issue :
      String
      → String
      → String
      → String
      → String
      → Option (List String)
      → String
      → Option (List String)
      → Request
  jira_create_issue project kind summary description priority labels reporter linked_to =
      post_request (servers.jira <> "/jira/issues") (
        ("project", str project)
        ∷ ("type", str kind)
        ∷ ("summary", str summary)
        ∷ ("description", str description)
        ∷ ("priority", str priority)
        ∷ ("labels", or_none_listed labels)
        ∷ ("reporter", str reporter)
        ∷ ("linked_to", or_none_listed linked_to)
        ∷ [])

  abbrev pub in_project : String → String → String
  in_project project_id rest = servers.control_plane <> ("/projects/" <> (project_id <> rest))

  abbrev pub spawn_agent : String → String → String → Bool → Request
  spawn_agent project_id role assignment override_cap =
      post_request (in_project project_id "/agents")
        (("role", str role) ∷ ("assignment", str assignment) ∷ ("override", bool override_cap) ∷ [])

  abbrev pub delegate : String → String → String → String → Request
  delegate project_id sender to_role text =
      post_request (in_project project_id "/delegate")
        (("sender", str sender) ∷ ("to_role", str to_role) ∷ ("text", str text) ∷ [])

  abbrev pub name_project : String → String → Request
  name_project project_id name =
      patch_request (servers.control_plane <> ("/projects/" <> project_id))
        (("name", str name) ∷ [])

  abbrev pub escalate_to_founder : String → String → String → Option (List String) → Request
  escalate_to_founder project_id question context options =
      post_request (in_project project_id "/escalations") (
        ("question", str question)
        ∷ ("context", str context)
        ∷ ("options", or_none_listed options)
        ∷ [])
