-- ===== src/Store/Redis/Agreement.antt =====
-- The Redis store against the in-memory store: the same calls get the same replies.
use mathlib.Core.Path.{ap₂}
use agentic_crew.Prelude.{String, Option, List, [], ◌∷◌, ◌≡◌, refl, ap}
use agentic_crew.Exec.{Result}
use agentic_crew.Project.{Project}
use agentic_crew.Contract.Value.{ℤ}
use agentic_crew.Contract.Events.{Event}
use agentic_crew.Store.{Store}
use agentic_crew.Store.Memory.{Memory, memory_store}
use agentic_crew.Wire.{Codec, IsCodec}
use agentic_crew.Store.Redis.{redis_store}
use agentic_crew.Store.Redis.Client.{Redis, IsRedis}
use agentic_crew.Store.Redis.Relation.{IsPlain, Agrees, Same}
use agentic_crew.Store.Redis.Saved.{create_agrees, save_agrees, get_agrees}
use agentic_crew.Store.Redis.Histories.{append_agrees, history_agrees}

-- A call of the port, but for `list_active`.
pub data Call : Type 0 where
  create_call save_call : Project → Call
  get_call : String → Call
  append_call : Event → Call
  history_call : String → ℤ → Call

-- What a call returns or raises.
pub data Outcome : Type 0 where
  a_project : Result Project → Outcome
  a_lookup : Result (Option Project) → Outcome
  done : Result (Unit {0}) → Outcome
  some_events : Result (List Event) → Outcome

abbrev tag : {A S : Type 0} → (A → Outcome) → A × S → Outcome × S
tag f (a, s) = (f a, s)

abbrev pub reply : (st : Store) → Call → st.State → Outcome × st.State
reply st (create_call p) s = tag a_project (st.create p s)
reply st (save_call p) s = tag a_project (st.save p s)
reply st (get_call id) s = tag a_lookup (st.get id s)
reply st (append_call e) s = tag done (st.append_event e s)
reply st (history_call id limit) s = tag some_events (st.history id limit s)

unfoldable pub replies : (st : Store) → List Call → st.State → List Outcome
replies st [] s = []
replies st (call ∷ calls) s = (reply st call s).0 ∷ replies st calls (reply st call s).1

abbrev pub CallIsPlain : Call → Type 0
CallIsPlain (create_call p) = IsPlain p.id
CallIsPlain (save_call p) = IsPlain p.id
CallIsPlain (get_call id) = IsPlain id
CallIsPlain (append_call e) = Unit
CallIsPlain (history_call id limit) = Unit

abbrev pub AllPlain : List Call → Type 0
AllPlain [] = Unit
AllPlain (call ∷ calls) = CallIsPlain call × AllPlain calls

module _ (c : Codec) (redis : Redis c.Text) (json : IsCodec c) (laws : IsRedis redis)
    (prefix : String) where
  tagged :
      {A : Type 0} (f : Result A → Outcome) (x : Result A × redis.State) (y : Result A × Memory)
      → Same c redis laws prefix x y
      → ((tag f x).0 ≡ (tag f y).0) × Agrees c redis laws prefix (tag f x).1 (tag f y).1
  tagged f x y h = (ap f h.result, h.agrees)

  reply-Agrees :
      (call : Call) (s : redis.State) (m : Memory)
      → Agrees c redis laws prefix s m
      → CallIsPlain call
      → ((reply (redis_store c redis prefix) call s).0 ≡ (reply memory_store call m).0)
        × Agrees c redis laws prefix
            (reply (redis_store c redis prefix) call s).1
            (reply memory_store call m).1
  reply-Agrees (create_call p) s m a h =
      tagged a_project _ _ (create_agrees c redis json laws prefix s m a p h)
  reply-Agrees (save_call p) s m a h =
      tagged a_project _ _ (save_agrees c redis json laws prefix s m a p h)
  reply-Agrees (get_call id) s m a h =
      tagged a_lookup _ _ (get_agrees c redis json laws prefix s m a id h)
  reply-Agrees (append_call e) s m a h =
      tagged done _ _ (append_agrees c redis json laws prefix s m a e)
  reply-Agrees (history_call id limit) s m a h =
      tagged some_events _ _ (history_agrees c redis json laws prefix s m a id limit)

-- On a Redis that holds what the in-memory store holds, whichever of `create`, `save`, `get`,
-- `append_event` and `history` are called, in whichever order, the Redis store returns and raises
-- what the in-memory store does, if no project's id ends in `:history`.
pub replies-redis_store :
    (c : Codec) (redis : Redis c.Text) (json : IsCodec c) (laws : IsRedis redis) (prefix : String)
    (calls : List Call) (s : redis.State) (m : Memory)
    → Agrees c redis laws prefix s m
    → AllPlain calls
    → replies (redis_store c redis prefix) calls s ≡ replies memory_store calls m
unfolding replies
replies-redis_store c redis json laws prefix [] s m a plain = refl
replies-redis_store c redis json laws prefix (call ∷ calls) s m a (now, later) =
    let (answer, a') = reply-Agrees c redis json laws prefix call s m a now in
    ap₂ (λ x xs. x ∷ xs) answer
      (replies-redis_store c redis json laws prefix calls
        (reply (redis_store c redis prefix) call s).1 (reply memory_store call m).1 a' later)
