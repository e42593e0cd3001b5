-- ===== src/Agents/Loop.antt =====
-- agents/shared/agent_loop.py: what an agent listens to, and one turn of it.
pub mod Turns
use Prim.Native.String
use agentic_crew.Prelude.{
  ℕ, String, Bool, true, false, not, ◌&&◌, Option, none, some, List, [], ◌∷◌, ◌++◌, length, last_n,
  lookup, ltb, ◌==◌, ◌<>◌, if◌then◌else◌,
}
use agentic_crew.Exec.{Result, ok, err}
use agentic_crew.Project.{lstrip, rstrip, is_empty}
use agentic_crew.Contract.Value.{Value, Payload, str}
use agentic_crew.Contract.Events.{
  Event, EventKind, kind_value, is_for, is_actionable, agent_message, error,
}
use agentic_crew.Contract.Identity.{AgentIdentity, address}

-- What the connection gives next: nothing in time, a lost connection, a message of another type,
-- or a message with what `_decode` makes of it.
pub data Incoming : Type 0 where
  idle lost other : Incoming
  message : Option Event → Incoming

-- `AgentBus.listen`: the events that are handed to `handle`, in their order.
unfoldable pub heard : String → List Incoming → List Event
heard own [] = []
heard own (message (some event) ∷ more) =
    let rest = heard own more in
    if is_for event own && is_actionable event.kind then event ∷ rest else rest
heard own (_ ∷ more) = heard own more

unfoldable pub listen : AgentIdentity → Option Event → List Incoming → List Event
listen identity none incoming = heard (address identity) incoming
listen identity (some bootstrap) incoming = bootstrap ∷ heard (address identity) incoming

-- `AgentBus.say` at the moment `now`
unfoldable pub say : AgentIdentity → EventKind → Payload → String → ℕ → Event
say identity kind payload to now = record {
  project_id = identity.project_id;
  kind = kind;
  source = address identity;
  payload = payload;
  at = now;
  to = to;
}

-- A message of the model's conversation: what an `AIMessage` holds, or any other message.
pub data Part : Type 0 where
  text_part : String → Part
  other_part : Part

pub data Content : Type 0 where
  words : String → Content
  parts : List Part → Content

pub data Message : Type 0 where
  human other_message : String → Message
  ai : Content → Message

abbrev texts_of : List Part → List String
texts_of [] = []
texts_of (text_part t ∷ ps) = t ∷ texts_of ps
texts_of (other_part ∷ ps) = texts_of ps

-- `"\n".join(xs)`
abbrev pub join_lines : List String → String
join_lines [] = ""
join_lines (x ∷ []) = x
join_lines (x ∷ xs) = x <> ("\n" <> join_lines xs)

strip : String → String
strip text = rstrip (lstrip text)

-- What one message says, if it is the model's and says anything.
unfoldable pub said_in : Message → String
unfolding strip
said_in (ai (words text)) = if is_empty (strip text) then "" else text
said_in (ai (parts ps)) = strip (join_lines (texts_of ps))
said_in _ = ""

-- `_final_text`: the last message that says something.
unfoldable pub final_text : List Message → String
final_text [] = ""
final_text (m ∷ ms) = let rest = final_text ms in if is_empty rest then said_in m else rest

-- `MAX_HISTORY_MESSAGES`
abbrev pub max_messages : ℕ
max_messages = 40

unfoldable pub trimmed : List Message → List Message
trimmed history = if ltb max_messages (length history) then last_n max_messages history else history

abbrev pub Outcome : Type 0
Outcome = List (EventKind × Payload) × List Message

-- What follows a model call, given the history with the prompt: what is said, and the history.
unfoldable pub after_call : List Message → Result (List Message) → String → Outcome
after_call history (err e) reason =
    ((error, ("context", str "model_call") ∷ ("error", str reason) ∷ []) ∷ [], history)
after_call history (ok messages) reason =
    let reply = final_text messages in
    if is_empty reply then ([], trimmed history) else (
      (agent_message, ("text", str reply) ∷ []) ∷ [],
      trimmed (history ++ ai (words reply) ∷ []),
    )

-- `as_prompt` turns an event into a prompt; `invoke` calls the model, and `reason` is the text of
-- the exception that it raised.
module _ (as_prompt : Event → String) (invoke : List Message → Result (List Message))
    (reason : List Message → String) where
  -- `Harness.respond`
  unfoldable pub respond : Event → List Message → Outcome
  respond event history =
      let prompted = history ++ human (as_prompt event) ∷ [] in
      after_call prompted (invoke prompted) (reason prompted)
