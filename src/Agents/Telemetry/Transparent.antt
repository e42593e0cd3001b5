-- ===== src/Agents/Telemetry/Transparent.antt =====
-- telemetry.py: reporting changes nothing that a tool does, and a turn's report is one that the
-- control plane can bill.
use agentic_crew.Prelude.{
  ℕ, String, some, List, [], ◌∷◌, ◌++◌, lookup, append_assoc, ◌≡◌, refl, ap, Bool-cases, inl, inr,
  ◌∙◌,
}
use agentic_crew.Exec.{Exec, Error, Result, ok, err, ◌>>=◌}
use agentic_crew.Contract.Value.{ℤ, Value, Fields, Payload, pos, int, str, obj, entry, to_int}
use agentic_crew.Contract.Json.{get_field}
use agentic_crew.Contract.Events.{Event, EventKind, tool_call, usage, agent_thinking}
use agentic_crew.Contract.Identity.{AgentIdentity}
use agentic_crew.Project.{lstrip, rstrip, is_empty}
use agentic_crew.Bus.{Bus, IsBus}
use agentic_crew.Agents.Loop.{say}
use agentic_crew.Agents.Telemetry.{
  ToolRequest, ToolResult, ai_message, emit, started_payload, end_payload, awrap_tool_call,
  report_end, report_usage, report_text, text_of, aafter_model, usage_payload,
}
use agentic_crew.Service.{is_usage}
use agentic_crew.Service.Billing.{Reports}

module _ (bus : Bus) (is_bus : IsBus bus) (identity : AgentIdentity) where
  open is_bus use {published, publish_lem}

  published-emit :
      (kind : EventKind) (payload : Payload) (now : ℕ) (s : bus.State)
      → published (emit bus identity kind payload now s).1
        ≡ published s ++ say identity kind payload "" now ∷ []
  unfolding emit
  published-emit kind payload now s =
      let (s', sent, said) = publish_lem s (say identity kind payload "" now) in
      ap (λ (x : Result (Unit {0}) × bus.State). published x.1) sent ∙ said

module _ (str_of : Value → String) (show_error : Error → String) (bus : Bus)
    (identity : AgentIdentity) {T : Type 0} where
  report_end_lem :
      (request : ToolRequest) (at_end ms : ℕ) (r : Result ToolResult) (s : bus.State) (t : T)
      → report_end str_of show_error bus identity request at_end ms r (s, t) ≡ (
        r,
        (
          (emit bus identity tool_call
              (end_payload str_of show_error bus identity request ms r)
              at_end
              s).1,
          t,
        ),
      )
  unfolding report_end emit ◌>>=◌
  report_end_lem request at_end ms (ok result) s t = refl
  report_end_lem request at_end ms (err e) s t = refl

  awrap_tool_call_lem :
      (handler : ToolRequest → Exec T ToolResult) (request : ToolRequest) (at_start at_end ms : ℕ)
      (s : bus.State) (t : T)
      → awrap_tool_call str_of show_error bus identity handler request at_start at_end ms (s, t) ≡ (
        (handler request t).0,
        (
          (emit bus identity tool_call
              (end_payload str_of show_error bus identity request ms (handler request t).0)
              at_end
              (emit bus identity tool_call
                (started_payload str_of show_error bus identity request)
                at_start
                s).1).1,
          (handler request t).1,
        ),
      )
  unfolding awrap_tool_call emit ◌>>=◌
  awrap_tool_call_lem handler request at_start at_end ms s t =
      report_end_lem request at_end ms (handler request t).0
        (emit bus identity tool_call (started_payload str_of show_error bus identity request)
          at_start s).1
        (handler request t).1

-- Telemetry around a tool, on whichever bus, one that raises among them, hands on what the tool
-- returns or raises, and leaves the tool's own state as the tool leaves it; on a bus that works it
-- publishes two events of the agent, in order: that the tool has started, and how it has ended.
pub awrap_tool_call-transparent :
    (str_of : Value → String) (show_error : Error → String) (bus : Bus) (identity : AgentIdentity)
    {T : Type 0} (handler : ToolRequest → Exec T ToolResult) (request : ToolRequest)
    (at_start at_end ms : ℕ) (s : bus.State) (t : T)
    → let ran =
        awrap_tool_call str_of show_error bus identity handler request at_start at_end ms (s, t) in
      (ran.0 ≡ (handler request t).0)
      × (ran.1.1 ≡ (handler request t).1)
      × ((is_bus : IsBus bus)
          → is_bus.published ran.1.0
            ≡ is_bus.published s
              ++ (say identity tool_call
                    (started_payload str_of show_error bus identity request)
                    ""
                    at_start
                  ∷ say identity tool_call
                      (end_payload str_of show_error bus identity request ms (handler request t).0)
                      ""
                      at_end
                  ∷ []))
awrap_tool_call-transparent str_of show_error bus identity handler request at_start at_end ms s t =
    let ran =
      awrap_tool_call_lem str_of show_error bus identity handler request at_start at_end ms s t in
    (
      ap (λ x. x.0) ran,
      ap (λ x. x.1.1) ran,
      λ is_bus.
          ap (λ x. is_bus.published x.1.0) ran
          ∙ published-emit bus is_bus identity tool_call _ at_end _
          ∙ ap
              (λ es.
                es
                ++ say identity tool_call
                    (end_payload str_of show_error bus identity request ms (handler request t).0) ""
                    at_end
                  ∷ [])
              (published-emit bus is_bus identity tool_call _ at_start s)
          ∙ append_assoc (is_bus.published s) _ _,
    )

report_text_ok :
    (str_of : Value → String) (show_error : Error → String) (bus : Bus) (identity : AgentIdentity)
    (text : String) (now : ℕ) (s : bus.State)
    → (s' : bus.State) × (report_text str_of show_error bus identity text now s ≡ (ok tt, s'))
unfolding report_text emit
report_text_ok str_of show_error bus identity text now s =
    elim (Bool-cases (is_empty (rstrip (lstrip text)))) [
      | inl blank ↦ (s, rw blank refl)
      | inr shown ↦
          ((emit bus identity agent_thinking (("text", str text) ∷ []) now s).1, rw shown refl)
    ]

report_usage_ok :
    (str_of : Value → String) (show_error : Error → String) (bus : Bus) (identity : AgentIdentity)
    (k : String) (v : Value) (fs : Fields) (now : ℕ) (s : bus.State)
    → let (r, s') = report_usage str_of show_error bus identity (some (entry k v fs)) now s in
      (r ≡ ok tt)
      × ((is_bus : IsBus bus)
          → is_bus.published s'
            ≡ is_bus.published s
              ++ say identity usage
                  (usage_payload str_of show_error bus identity (entry k v fs))
                  ""
                  now
                ∷ [])
unfolding report_usage emit
report_usage_ok str_of show_error bus identity k v fs now s =
    (refl, λ is_bus. published-emit bus is_bus identity usage _ now s)

-- What a model's turn has used is what the control plane bills for it: where the usage of the turn
-- gives its tokens as numbers, the last event that the turn publishes is one of the agent's project
-- that reports just these.
pub aafter_model-Reports :
    (str_of : Value → String) (show_error : Error → String) (bus : Bus) (is_bus : IsBus bus)
    (identity : AgentIdentity) (content : Value) (k : String) (v : Value) (fs : Fields)
    (input output : ℤ) (now : ℕ) (s : bus.State)
    → to_int (get_field "input_tokens" (int (pos 0)) (obj (entry k v fs))) ≡ ok input
    → to_int (get_field "output_tokens" (int (pos 0)) (obj (entry k v fs))) ≡ ok output
    → let (r, s') =
        aafter_model str_of show_error bus identity
          (some (ai_message content (some (entry k v fs))))
          now
          s in
      (r ≡ ok tt)
      × (before : List Event) × (e : Event) × (is_bus.published s' ≡ before ++ e ∷ [])
      × (e.project_id ≡ identity.project_id)
      × Reports e input output
unfolding aafter_model usage_payload say is_usage lookup ◌>>=◌
aafter_model-Reports str_of show_error bus is_bus identity content k v fs input output now s read_in
      read_out =
    let (s1, said) = report_text_ok str_of show_error bus identity (text_of str_of content) now s in
    let (reported, at_last) = report_usage_ok str_of show_error bus identity k v fs now s1 in
    rw said (
      reported,
      is_bus.published s1,
      say identity usage (usage_payload str_of show_error bus identity (entry k v fs)) "" now,
      at_last is_bus,
      refl,
      (refl, read_in, read_out),
    )
