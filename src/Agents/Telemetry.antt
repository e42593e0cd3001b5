-- ===== src/Agents/Telemetry.antt =====
-- agents/shared/telemetry.py: what an agent reports of its tool calls and of its model's turns.
pub mod Transparent
use agentic_crew.Prelude.{
  ℕ, zero, suc, String, Bool, true, false, Option, none, some, List, [], ◌∷◌, ◌==◌, ◌<>◌, take,
  if◌then◌else◌,
}
use agentic_crew.Exec.{Exec, Error, Result, ok, err, pure, raise, ◌>>=◌, ◌>>◌}
use agentic_crew.Project.{lstrip, rstrip, is_empty}
use agentic_crew.Contract.Value.{
  Value, Fields, Elements, Payload, pos, str, int, bool, null, obj, arr, no_fields, no_elements,
  element, entry,
}
use agentic_crew.Contract.Json.{object, find_field, get_field, is_truthy}
use agentic_crew.Contract.Events.{EventKind, agent_thinking, tool_call, usage}
use agentic_crew.Contract.Identity.{AgentIdentity}
use agentic_crew.Agents.Loop.{say, join_lines}
use agentic_crew.Bus.{Bus}

-- `RESULT_PREVIEW_CHARS`
abbrev pub result_preview_chars : ℕ
result_preview_chars = 300

-- `request.tool_call`, if the request has one, as its fields
abbrev pub ToolRequest : Type 0
ToolRequest = Option Fields

-- What a tool returns: a `ToolMessage` with its content, or something else.
pub data ToolResult : Type 0 where
  tool_message : Value → ToolResult
  other_result : Value → ToolResult

-- The last message of a model's state: the model's own, with its content and its usage, or another.
pub data LastMessage : Type 0 where
  ai_message : Value → Option Fields → LastMessage
  another : LastMessage

-- `str_of` is Python's `str` of a value that is not a text.
module _ (str_of : Value → String) where
  -- `str(value)`
  abbrev pub shown : Value → String
  shown (str s) = s
  shown v = str_of v

  -- `_tool_name`
  unfoldable pub tool_name : ToolRequest → String
  unfolding get_field
  tool_name none = "tool"
  tool_name (some call) = shown (get_field "name" (str "tool") (obj call))

  -- `_tool_args`
  abbrev dict_or_empty : Option Value → Fields
  dict_or_empty (some (obj fs)) = fs
  dict_or_empty _ = no_fields

  unfoldable pub tool_args : ToolRequest → Fields
  tool_args none = no_fields
  tool_args (some call) = dict_or_empty (find_field "args" call)

  abbrev says_text : Option Value → Bool
  says_text (some (str s)) = s == "text"
  says_text _ = false

  -- The parts of a message that are texts.
  abbrev text_parts : Elements → List String
  text_parts no_elements = []
  text_parts (element (str s) more) = s ∷ text_parts more
  text_parts (element (obj fs) more) =
      let rest = text_parts more in
      if says_text (find_field "type" fs)
      then shown (get_field "text" (str "") (obj fs)) ∷ rest
      else rest
  text_parts (element _ more) = text_parts more

  -- `_text`
  unfoldable pub text_of : Value → String
  unfolding get_field
  text_of null = ""
  text_of (str s) = s
  text_of (arr parts) = join_lines (text_parts parts)
  text_of (int n) = str_of (int n)
  text_of (bool b) = str_of (bool b)
  text_of (obj fs) = str_of (obj fs)

  -- `_preview`
  unfoldable pub preview : ToolResult → String
  preview (tool_message content) = take result_preview_chars (text_of content)
  preview (other_result v) = take result_preview_chars (shown v)

-- `try: ...; except Exception: log.warning(...)`
abbrev pub swallowed : {S : Type 0} → Result (Unit {0}) × S → Result (Unit {0}) × S
swallowed (r, s) = (ok tt, s)

module _ (bus : Bus) (identity : AgentIdentity) where
  -- `_emit`, at the moment `now`
  unfoldable pub emit : EventKind → Payload → ℕ → Exec bus.State (Unit {0})
  emit kind payload now s = swallowed (bus.publish (say identity kind payload "" now) s)

module _ (str_of : Value → String) (show_error : Error → String) (bus : Bus)
    (identity : AgentIdentity) where
  abbrev pub started_payload : ToolRequest → Payload
  started_payload request =
      ("tool", str (tool_name str_of request))
      ∷ ("input", obj (tool_args str_of request))
      ∷ ("status", str "started")
      ∷ []

  abbrev pub error_payload : ToolRequest → Error → Payload
  error_payload request e =
      ("tool", str (tool_name str_of request))
      ∷ ("status", str "error")
      ∷ ("error", str (show_error e))
      ∷ []

  abbrev pub finished_payload : ToolRequest → ℕ → ToolResult → Payload
  finished_payload request ms result =
      ("tool", str (tool_name str_of request))
      ∷ ("status", str "finished")
      ∷ ("ms", int (pos ms))
      ∷ ("result_preview", str (preview str_of result))
      ∷ []

  abbrev pub end_payload : ToolRequest → ℕ → Result ToolResult → Payload
  end_payload request ms (ok result) = finished_payload request ms result
  end_payload request ms (err e) = error_payload request e

  -- `try: m`, with what is returned or raised as a value
  abbrev caught : {S A : Type 0} → Exec S A → Exec S (Result A)
  caught m s = let (r, s') = m s in (ok r, s')

  abbrev on_bus : {T A : Type 0} → Exec bus.State A → Exec (bus.State × T) A
  on_bus m (s, t) = let (r, s') = m s in (r, (s', t))

  abbrev on_tool : {T A : Type 0} → Exec T A → Exec (bus.State × T) A
  on_tool m (s, t) = let (r, t') = m t in (r, (s, t'))

  -- What is left once the tool has returned or raised: the report, then the same again.
  unfoldable pub report_end :
      {T : Type 0} → ToolRequest → ℕ → ℕ → Result ToolResult → Exec (bus.State × T) ToolResult
  report_end request at_end ms (ok result) = do
    on_bus (emit bus identity tool_call (finished_payload request ms result) at_end)
    pure result
  report_end request at_end ms (err e) = do
    on_bus (emit bus identity tool_call (error_payload request e) at_end)
    raise e

  -- `awrap_tool_call`, with the moments of its two events and the milliseconds in between
  unfoldable pub awrap_tool_call :
      {T : Type 0}
      → (ToolRequest → Exec T ToolResult)
      → ToolRequest
      → ℕ
      → ℕ
      → ℕ
      → Exec (bus.State × T) ToolResult
  awrap_tool_call handler request at_start at_end ms = do
    on_bus (emit bus identity tool_call (started_payload request) at_start)
    r ← caught (on_tool (handler request))
    report_end request at_end ms r

  -- `usage.get("input_token_details") or {}`
  abbrev or_empty_dict : Value → Value
  or_empty_dict v = if is_truthy v then v else obj no_fields

  abbrev or_value : Value → Value → Value
  or_value v w = if is_truthy v then v else w

  -- What the report of a turn says that it cost.
  unfoldable pub usage_payload : Fields → Payload
  unfolding get_field is_truthy
  usage_payload spent =
      let details = or_empty_dict (get_field "input_token_details" null (obj spent)) in
      let cached =
        or_value (get_field "cache_read" (int (pos 0)) details)
          (get_field "cached_content_token_count" (int (pos 0)) (obj spent)) in
      ("input_tokens", get_field "input_tokens" (int (pos 0)) (obj spent))
      ∷ ("output_tokens", get_field "output_tokens" (int (pos 0)) (obj spent))
      ∷ ("cached_tokens", cached)
      ∷ ("model", str identity.model)
      ∷ []

  unfoldable pub report_usage : Option Fields → ℕ → Exec bus.State (Unit {0})
  report_usage none now = pure tt
  report_usage (some no_fields) now = pure tt
  report_usage (some (entry k v fs)) now =
      emit bus identity usage (usage_payload (entry k v fs)) now

  unfoldable pub report_text : String → ℕ → Exec bus.State (Unit {0})
  report_text text now =
      if is_empty (rstrip (lstrip text))
      then pure tt
      else emit bus identity agent_thinking (("text", str text) ∷ []) now

  -- `aafter_model`, with the last message of the state, if it has one
  unfoldable pub aafter_model : Option LastMessage → ℕ → Exec bus.State (Unit {0})
  aafter_model none now = pure tt
  aafter_model (some another) now = pure tt
  aafter_model (some (ai_message content spent)) now = do
    report_text (text_of str_of content) now
    report_usage spent now
