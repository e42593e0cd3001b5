-- ===== src/Agents/Toolbox/Answers.antt =====
-- agent_tools.py: what a model is told, and what a tool call cannot ask for.
use agentic_crew.Prelude.{
  ℕ, String, Bool, true, false, Option, some, List, [], ◌∷◌, Dict, eqb, lookup, arith, ◌<>◌, ◌≡◌,
  ◌≢◌, refl, ap, sym, ◌∙◌, eq_refl, insert, lookup-insert, if◌then◌else◌,
}
use agentic_crew.Contract.Value.{Value, Fields, str, bool, obj, no_fields}
use agentic_crew.Contract.Json.{dict, object, get_field}
use agentic_crew.Contract.Identity.{AgentIdentity}
use agentic_crew.Sandbox.Manifest.{at_key}
use agentic_crew.Mocks.Tickets
use agentic_crew.Mocks.Tickets.{TicketBody, Tickets, last_part}
use agentic_crew.Agents.Requests.{Servers, or_no_entries}
use agentic_crew.Agents.Toolbox.{
  Reply, Http, returned, trouble, ToolCall, read_ticket, write_ticket, add_ticket_comment,
  sandbox_exec, navigate, screenshot_and_annotate, github_open_pr, github_read_pr,
  github_post_comment, github_approve, github_request_changes, jira_create_issue, name_project,
  delegate_to, spawn_agent, escalate_to_founder, tool_name, request_of, own_ticket_id, call_tool,
  fetch, shaped, get_or_raise, refused,
}

-- No call of a tool asks the control plane to lift a cap, whatever the model gives as arguments: none
-- has an `override` that is true, and the request for a teammate has one that is false.
pub request_of-override :
    (servers : Servers) (upper : String → String) (identity : AgentIdentity) (call : ToolCall)
    → (at_key "override" (request_of servers upper identity call).payload ≢ bool true)
      × ((role assignment : String)
          → at_key "override"
              (request_of servers upper identity (spawn_agent role assignment)).payload
            ≡ bool false)
unfolding request_of object
request_of-override servers upper identity call = (no_override call, λ role assignment. refl)
  where
    no_override :
        (c : ToolCall) → at_key "override" (request_of servers upper identity c).payload ≢ bool true
    no_override read_ticket h = cc
    no_override (write_ticket _ _ _ _ _) h = cc
    no_override (add_ticket_comment _) h = cc
    no_override (sandbox_exec _ _) h = cc
    no_override (navigate _) h = cc
    no_override (screenshot_and_annotate _ _ _ _) h = cc
    no_override (github_open_pr _ _ _) h = cc
    no_override (github_read_pr _) h = cc
    no_override (github_post_comment _ _ _ _) h = cc
    no_override (github_approve _) h = cc
    no_override (github_request_changes _ _) h = cc
    no_override (jira_create_issue _ _ _ _ _) h = cc
    no_override (name_project _) h = cc
    no_override (delegate_to _ _) h = cc
    no_override (spawn_agent _ _) h = cc
    no_override (escalate_to_founder _ _ _) h = cc

-- What a model is to be told of its request for a teammate, by what comes back: the control plane's
-- answer; of an answer 409, that a cap is reached, with the scope and the message of its detail; of any
-- other error, and where nothing comes back, that the tool has failed.
pub data Told (http : Http) (role : String)
    : Reply http.Response http.Response → Value → Type 0 where
  answered :
      {resp : http.Response} {answer : Value}
      → http.is_error resp ≡ false
      → http.json resp ≡ returned answer
      → Told http role (returned resp) answer
  capped :
      {resp : http.Response} {fs ds : Fields}
      → http.is_error resp ≡ true
      → http.status_code resp ≡ 409
      → http.json resp ≡ returned (obj fs)
      → get_field "detail" (obj no_fields) (obj fs) ≡ obj ds
      → Told http role (returned resp) (
          refused
            (get_field "scope" (str "project") (obj ds))
            (get_field "message" (str ("cap reached for " <> role)) (obj ds)))
  failing :
      {resp : http.Response}
      → http.is_error resp ≡ true
      → http.status_code resp ≢ 409
      → Told http role
          (returned resp)
          (dict (("error", str ("spawn_agent" <> (" failed: " <> http.show_error resp))) ∷ []))
  unanswered :
      {text : String}
      → Told http role
          (trouble text)
          (dict (("error", str ("spawn_agent" <> (" failed: " <> text))) ∷ []))

-- A model is told of its request for a teammate what it is to be told: the control plane's answer; of an
-- answer 409 that a cap is reached, with the scope and the message of its detail; of any other error, and
-- where nothing comes back, that the tool has failed.
pub call_tool-spawn_agent :
    (http : Http) (servers : Servers) (upper : String → String) (identity : AgentIdentity)
    (role assignment : String) (s s' : http.State) (reply : Reply http.Response http.Response)
    (v : Value)
    → http.send (request_of servers upper identity (spawn_agent role assignment)) s ≡ (reply, s')
    → Told http role reply v
    → call_tool http servers upper identity (spawn_agent role assignment) s ≡ (v, s')
unfolding call_tool fetch shaped get_or_raise tool_name
call_tool-spawn_agent http servers upper identity role assignment s s' reply v sent
      (answered fine read) =
    rw sent (rw fine (rw read refl))
call_tool-spawn_agent http servers upper identity role assignment s s' reply v sent
      (capped bad is_409 read detail) =
    rw sent (rw bad (rw is_409 (rw read (rw detail refl))))
call_tool-spawn_agent http servers upper identity role assignment s s' reply v sent
      (failing {resp} bad other) =
    let differs : eqb (http.status_code resp) 409 ≡ false = ground arith in
    rw sent (rw bad (rw differs refl))
call_tool-spawn_agent http servers upper identity role assignment s s' reply v sent unanswered =
    rw sent refl

-- The ticket that an agent writes is the one that it reads: where the ticket store takes the project
-- from the body of the request for `write_ticket`, it files the ticket under the id that the request
-- for `read_ticket` names, and answers that with the ticket.
pub read_ticket-write_ticket :
    (servers : Servers) (upper : String → String) (identity : AgentIdentity) (body : TicketBody)
    (title contract status : String) (criteria : Option (List String))
    (assignments : Option (Dict String)) (now : ℕ) (s : Tickets)
    → str body.project_id
      ≡ at_key "project_id"
          (request_of servers upper identity
            (write_ticket title contract criteria assignments status)).payload
    → (id : String) × ((request_of servers upper identity read_ticket).url
        ≡ servers.tickets <> ("/tickets/" <> id))
      × (Tickets.read_ticket id (Tickets.write_ticket upper body now s).1
          ≡ Tickets.write_ticket upper body now s)
unfolding request_of own_ticket_id Tickets.read_ticket Tickets.write_ticket object or_no_entries
read_ticket-write_ticket servers upper identity body title contract status criteria assignments now
      s h =
    let same : body.project_id ≡ identity.project_id = cc in
    let id = Tickets.ticket_id_of upper body.project_id in
    let filed = Tickets.ticket_of upper body now (Tickets.comments_of (lookup id s)) in
    let there : lookup id (insert id filed s) ≡ some filed =
      lookup-insert id id filed s
      ∙ ap (λ (b : Bool). if b then some filed else lookup id s) (eq_refl id) in
    (
      id,
      ap (λ p. servers.tickets <> ("/tickets/" <> ("TICKET-" <> upper (last_part p)))) (sym same),
      rw (there, Tickets.read_ticket) refl,
    )
