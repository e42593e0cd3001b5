-- ===== src/Wire.antt =====
-- How events and projects are written as JSON: adapters/redis_store.py, adapters/redis_events.py and
-- `_decode` of agents/shared/agent_loop.py.
pub mod Events
pub mod Projects
pub mod Subscription
pub mod Publishing
use agentic_crew.Prelude.{ℕ, String, Bool, false, true, ◌≡◌}
use agentic_crew.Exec.{Error, Result, ok, err, value_error, key_error, naming_error, type_error}
use agentic_crew.Project.{is_empty}
use agentic_crew.Contract.Value.{Value}

-- What `datetime.fromisoformat` reads: a moment with its zone, or a reading of a clock without a
-- zone, which is counted here as if the clock were set to UTC.
pub data Reading : Type 0 where
  aware naive : ℕ → Reading

-- `json` and the two functions on ISO dates, which are the standard library's.
pub record Codec : Type 1 where
  pub Text : Type 0
  pub dumps : Value → Text
  pub loads : Text → Result Value
  pub is_blank : Text → Bool
  pub isoformat : ℕ → String
  pub fromisoformat : String → Result Reading

-- `except (ValueError, KeyError, TypeError)`
unfoldable pub is_caught : Error → Bool
is_caught (value_error _) = true
is_caught (key_error _) = true
is_caught (naming_error _) = true
is_caught (type_error _) = true
is_caught _ = false

-- What is written is read back; what cannot be read is a `ValueError` or a `TypeError`; nothing is written as an empty text.
pub record IsCodec (c : Codec) : Type 0 where
  pub loads-dumps : (v : Value) → c.loads (c.dumps v) ≡ ok v
  pub loads_raises : (t : c.Text) (e : Error) → c.loads t ≡ err e → is_caught e ≡ true
  pub is_blank-dumps : (v : Value) → c.is_blank (c.dumps v) ≡ false
  pub fromisoformat-isoformat : (t : ℕ) → c.fromisoformat (c.isoformat t) ≡ ok (aware t)
  pub is_empty-isoformat : (t : ℕ) → is_empty (c.isoformat t) ≡ false
