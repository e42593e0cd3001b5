-- ===== src/Agents/Loop/Turns.antt =====
-- What an agent takes as a trigger, and how long its history of a conversation grows.
use agentic_crew.Prelude.{
  ℕ, String, false, ◌≡◌, refl, none, some, List, [], ◌∷◌, ◌++◌, eq_refl, arith,
}
use agentic_crew.Contract.Value.{Payload}
use agentic_crew.Contract.Events.{EventKind, is_for}
use agentic_crew.Contract.Identity.{AgentIdentity, address}
use agentic_crew.Agents.Loop.{Incoming, idle, lost, other, message, heard, say}

own_words :
    (identity : AgentIdentity) (kind : EventKind) (payload : Payload) (to : String) (now : ℕ)
    → is_for (say identity kind payload to now) (address identity) ≡ false
unfolding is_for say
own_words identity kind payload to now = ground (arith, eq_refl (address identity))

-- What an agent says itself never triggers it, whatever it says and to whom, and wherever among
-- other messages it comes back.
pub heard-say :
    (identity : AgentIdentity) (kind : EventKind) (payload : Payload) (to : String) (now : ℕ)
    (before after : List Incoming)
    → heard (address identity) (before ++ message (some (say identity kind payload to now)) ∷ after)
      ≡ heard (address identity) (before ++ after)
unfolding heard say is_for
heard-say identity kind payload to now [] after = rw (own_words identity kind payload to now) refl
heard-say identity kind payload to now (message (some e) ∷ is) after =
    ground (arith, heard-say identity kind payload to now is after)
heard-say identity kind payload to now (message none ∷ is) after =
    heard-say identity kind payload to now is after
heard-say identity kind payload to now (idle ∷ is) after =
    heard-say identity kind payload to now is after
heard-say identity kind payload to now (lost ∷ is) after =
    heard-say identity kind payload to now is after
heard-say identity kind payload to now (other ∷ is) after =
    heard-say identity kind payload to now is after
