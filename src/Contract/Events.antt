-- ===== src/Contract/Events.antt =====
-- contracts/events.py: the envelope, who acts on it, and the channel that carries it.
use Prim.Native.String
use mathlib.Core.Path.{ap₂}
use text.Mathlib.TextPositions.{len-append, slice-append_middle}
use agentic_crew.Prelude.{
  sym, ap, ◌∙◌, ◌+◌, ℕ, String, Bool, false, true, ◌≡◌, arith, ◌==◌, ◌<>◌, if◌then◌else◌, ◌||◌,
}
use agentic_crew.Contract.Value.{Payload}

pub data EventKind : Type 0 where
  founder_message agent_message agent_thinking agent_spawned agent_ready : EventKind
  agent_finished tool_call assignment escalation project_renamed : EventKind
  spawn_refused usage error : EventKind

-- `kind.value`
unfoldable pub kind_value : EventKind → String
kind_value founder_message = "founder_message"
kind_value agent_message = "agent_message"
kind_value agent_thinking = "agent_thinking"
kind_value agent_spawned = "agent_spawned"
kind_value agent_ready = "agent_ready"
kind_value agent_finished = "agent_finished"
kind_value tool_call = "tool_call"
kind_value assignment = "assignment"
kind_value escalation = "escalation"
kind_value project_renamed = "project_renamed"
kind_value spawn_refused = "spawn_refused"
kind_value usage = "usage"
kind_value error = "error"

-- `kind in ACTIONABLE_KINDS`
unfoldable pub is_actionable : EventKind → Bool
is_actionable founder_message = true
is_actionable assignment = true
is_actionable agent_message = true
is_actionable _ = false

-- `at` is a number of microseconds.
pub record Event : Type 0 where
  pub project_id : String
  pub kind : EventKind
  pub source : String
  pub payload : Payload
  pub at : ℕ
  pub to : String

-- `Event.is_for`
unfoldable pub is_for : Event → String → Bool
is_for e agent = if e.source == agent then false else e.to == "" || e.to == agent

unfoldable pub channel_for : String → String
channel_for project_id = "crew/project/" <> project_id <> "/events"

-- Two projects never share a channel.
pub channel_for-injective : (p q : String) → channel_for p ≡ channel_for q → p ≡ q
unfolding channel_for
channel_for-injective p q h =
    sym (slice-append_middle "crew/project/" p "/events")
    ∙ ap₂ (λ (s : String) (n : ℕ). String.slice s 13 (13 + n)) h same_len
    ∙ slice-append_middle "crew/project/" q "/events"
  where
    same_len : String.len p ≡ String.len q
    same_len = omega (
      arith,
      ap String.len h,
      len-append "crew/project/" (p <> "/events"),
      len-append "crew/project/" (q <> "/events"),
      len-append p "/events",
      len-append q "/events",
    )
