-- ===== src/Tests/Reports.antt =====
-- The theorems on an agent's tools and on its telemetry, at concrete inputs.
use agentic_crew.Prelude.{
  ℕ, ◌+◌, String, true, false, none, some, List, [], ◌∷◌, ◌++◌, ◌≡◌, ◌≢◌, refl,
}
use agentic_crew.Exec.{Exec, Error, Result, ok, err, type_error}
use agentic_crew.Contract.Value.{Value, Fields, pos, int, bool, str, obj, entry, no_fields, to_int}
use agentic_crew.Contract.Json.{get_field}
use agentic_crew.Contract.Events.{Event, tool_call}
use agentic_crew.Contract.Identity.{AgentIdentity}
use agentic_crew.Sandbox.Manifest.{at_key}
use agentic_crew.Bus.{IsBus, list_bus, list_bus-IsBus}
use agentic_crew.Agents.Loop.{say}
use agentic_crew.Agents.Requests.{Servers}
use agentic_crew.Agents.Toolbox.{spawn_agent, request_of}
use agentic_crew.Agents.Toolbox.Answers.{request_of-override}
use agentic_crew.Agents.Telemetry.{
  ToolRequest, ToolResult, ai_message, awrap_tool_call, aafter_model, started_payload, end_payload,
}
use agentic_crew.Agents.Telemetry.Transparent.{awrap_tool_call-transparent, aafter_model-Reports}
use agentic_crew.Service.Billing.{Reports}

abbrev manager : AgentIdentity
manager = record {
  role = "engineering_manager";
  project_id = "proj-1";
  name = "em-1";
  assignment = "";
  redis_url = "redis://redis:6379/0";
  control_plane_url = "http://control-plane:8000";
  model = "gemini-3.5-flash";
}

abbrev servers : Servers
servers = record {
  tickets = "http://mcp-tickets:9001";
  github = "http://mcp-github:9002";
  sandbox = "http://mcp-sandbox:9003";
  browser = "http://mcp-browser:9004";
  jira = "http://mcp-jira:9005";
  control_plane = "http://control-plane:8000";
}

abbrev same_text : String → String
same_text s = s

request_of-override_example :
    (at_key "override"
        (request_of servers same_text manager (spawn_agent "qa_engineer" "Check it")).payload
      ≢ bool true)
    × ((role assignment : String)
        → at_key "override"
            (request_of servers same_text manager (spawn_agent role assignment)).payload
          ≡ bool false)
request_of-override_example =
    request_of-override servers same_text manager (spawn_agent "qa_engineer" "Check it")

abbrev show_value : Value → String
show_value v = "value"

abbrev show_error : Error → String
show_error e = "error"

-- A tool that counts its calls and raises.
abbrev broken_tool : ToolRequest → Exec ℕ ToolResult
broken_tool request n = (err (type_error "no"), n + 1)

abbrev no_request : ToolRequest
no_request = none

abbrev wrapped : Result ToolResult × (List Event × ℕ)
wrapped =
    awrap_tool_call show_value show_error list_bus manager broken_tool no_request 10 20 5 ([], 0)

awrap_tool_call-transparent_example :
    (wrapped.0 ≡ (broken_tool no_request 0).0)
    × (wrapped.1.1 ≡ (broken_tool no_request 0).1)
    × ((is_bus : IsBus list_bus)
        → is_bus.published wrapped.1.0
          ≡ is_bus.published []
            ++ (say manager tool_call
                  (started_payload show_value show_error list_bus manager no_request)
                  ""
                  10
                ∷ say manager tool_call
                    (end_payload show_value show_error list_bus manager no_request 5
                      (broken_tool no_request 0).0)
                    ""
                    20
                ∷ []))
awrap_tool_call-transparent_example =
    awrap_tool_call-transparent show_value show_error list_bus manager broken_tool no_request 10 20
      5 [] 0

abbrev usage_of_turn : Fields
usage_of_turn =
    entry "input_tokens" (int (pos 900)) (entry "output_tokens" (int (pos 40)) no_fields)

aafter_model-Reports_example :
    let (r, s') =
      aafter_model show_value show_error list_bus manager
        (some (ai_message (str "Done.") (some usage_of_turn)))
        30
        [] in
    (r ≡ ok tt)
    × (before : List Event) × (e : Event) × (list_bus-IsBus.published s' ≡ before ++ e ∷ [])
    × (e.project_id ≡ "proj-1")
    × Reports e (pos 900) (pos 40)
unfolding to_int get_field
aafter_model-Reports_example =
    aafter_model-Reports show_value show_error list_bus list_bus-IsBus manager (str "Done.")
      "input_tokens" (int (pos 900)) (entry "output_tokens" (int (pos 40)) no_fields) (pos 900)
      (pos 40) 30 [] input_read output_read
  where
    input_read : to_int (get_field "input_tokens" (int (pos 0)) (obj usage_of_turn)) ≡ ok (pos 900)
    input_read = refl

    output_read : to_int (get_field "output_tokens" (int (pos 0)) (obj usage_of_turn)) ≡ ok (pos 40)
    output_read = refl
