-- ===== src/Tests/Stores.antt =====
-- The theorems on the wire format and on the Redis store, at concrete inputs.
use Prim.Native.String
use text.Mathlib.TextPositions.{len-append}
use agentic_crew.Prelude.{
  ℕ, ◌+◌, String, true, none, some, List, [], ◌∷◌, ◌++◌, Dict, lookup, insert, contains, arith,
  ◌==◌, eq_iff, ◌≡◌, ◌≢◌, refl, ap, sym, subst, ◌∙◌, Bool-cases, inl, inr,
}
use agentic_crew.Exec.{ok, err, type_error, ◌>>=◌}
use agentic_crew.Project.{Project, scoping, running}
use agentic_crew.Contract.Value.{Value, pos, int, str}
use agentic_crew.Contract.Json.{subscript}
use agentic_crew.Contract.Events.{Event, usage}
use agentic_crew.Store.Memory.{Memory, memory_store, empty, create as memory_create}
use agentic_crew.Wire.Events.{decode_event-encode_event, decode_event, encode_event, read_event}
use agentic_crew.Wire.Subscription.{
  Poll, message, timed_out, yields, agent_yields, decodable, yields-malformed,
}
use agentic_crew.Store.Redis.{redis_store, active_key, project_key, list_active, create}
use agentic_crew.Store.Redis.Client.{Slot, absent, index_slot}
use agentic_crew.Store.Redis.Relation.{IsPlain, Agrees}
use agentic_crew.Store.Redis.Agreement.{
  Call, create_call, save_call, get_call, append_call, history_call, replies, replies-redis_store,
}
use agentic_crew.Store.Redis.Saved.{create_agrees}
use agentic_crew.Store.Redis.Index.{Known, open_among, list_active-open_among}
use agentic_crew.Tests.Toys.{
  toy_codec, toy_codec-IsCodec, toy_redis, toy_redis-IsRedis, at-toy_redis,
}

abbrev limiter : Project
limiter = record {
  id = "proj-1";
  name = "Rate limiter";
  status = scoping;
  created_at = 1700;
  renamed_at = some 1800;
}

abbrev spent : Event
spent = record {
  project_id = "proj-1";
  kind = usage;
  source = "qa_engineer/qa-1";
  payload = ("input_tokens", int (pos 12)) ∷ [];
  at = 1900;
  to = "";
}

abbrev polled : List (Poll Value)
polled = timed_out ∷ message "pmessage" (encode_event toy_codec spent) ∷ []

junk_fails : decode_event toy_codec (str "junk") ≡ err (type_error "indices must be integers")
unfolding decode_event read_event subscript
junk_fails = refl

polled_fine : (yields toy_codec "pmessage" polled).1 ≡ none
unfolding yields
polled_fine = rw (decode_event-encode_event toy_codec spent toy_codec-IsCodec).0 refl

yields-malformed_example :
    (yields toy_codec "pmessage" (polled ++ message "pmessage" (str "junk") ∷ polled)
      ≡ ((yields toy_codec "pmessage" polled).0, some (type_error "indices must be integers")))
    × (agent_yields toy_codec (polled ++ message "pmessage" (str "junk") ∷ polled)
        ≡ (decodable toy_codec "message" polled ++ decodable toy_codec "message" polled, none))
yields-malformed_example =
    yields-malformed toy_codec "pmessage" polled polled (str "junk")
      (type_error "indices must be integers") toy_codec-IsCodec junk_fails polled_fine

proj_1_IsPlain : IsPlain "proj-1"
proj_1_IsPlain other h =
    let long : String.len other + 8 ≡ 6 =
      sym (len-append other ":history") ∙ sym (ap String.len h) in
    omega arith

abbrev nothing_yet : String → Slot Value
nothing_yet k = absent

nothing-Agrees : Agrees toy_codec toy_redis toy_redis-IsRedis "crew" nothing_yet empty
unfolding lookup
nothing-Agrees = record {
  projects = λ id plain. at-toy_redis nothing_yet _;
  logs = λ id. at-toy_redis nothing_yet _;
  index = ([], at-toy_redis nothing_yet _);
}

abbrev some_calls : List Call
some_calls =
    create_call limiter
    ∷ append_call spent
    ∷ save_call (record limiter { status = running })
    ∷ create_call limiter
    ∷ get_call "proj-1"
    ∷ history_call "proj-1" (pos 10)
    ∷ []

replies-redis_store_example :
    replies (redis_store toy_codec toy_redis "crew") some_calls nothing_yet
    ≡ replies memory_store some_calls empty
replies-redis_store_example =
    replies-redis_store toy_codec toy_redis toy_codec-IsCodec toy_redis-IsRedis "crew" some_calls
      nothing_yet empty nothing-Agrees
      (proj_1_IsPlain, (tt, (proj_1_IsPlain, (proj_1_IsPlain, (proj_1_IsPlain, (tt, tt))))))

abbrev with_limiter : String → Slot Value
with_limiter = (create toy_codec toy_redis "crew" limiter nothing_yet).1

abbrev indexed : Dict ℕ
indexed = ("proj-1", 1700) ∷ []

abbrev kept : Memory
kept = (memory_create limiter empty).1

with_limiter-Agrees : Agrees toy_codec toy_redis toy_redis-IsRedis "crew" with_limiter kept
with_limiter-Agrees =
    (create_agrees toy_codec toy_redis toy_codec-IsCodec toy_redis-IsRedis "crew" nothing_yet empty
      nothing-Agrees limiter proj_1_IsPlain).agrees

with_limiter_index : toy_redis-IsRedis.at with_limiter (active_key "crew") ≡ index_slot indexed
unfolding create active_key project_key insert ◌>>=◌
with_limiter_index = at-toy_redis with_limiter (active_key "crew") ∙ refl

all-Known : (j : String) → lookup j indexed ≢ none → Known kept.projects j
unfolding lookup memory_create insert
all-Known j h = elim (Bool-cases ("proj-1" == j)) [
  | inl e ↦
      subst (λ id. Known kept.projects id) ((eq_iff "proj-1" j).0 e)
        (proj_1_IsPlain, (limiter, refl))
  | inr e ↦ absurd (h (rw e refl))
]

list_active-open_among_example :
    (ids : List String) × (list_active toy_codec toy_redis "crew" with_limiter
      ≡ (ok (open_among kept.projects ids), with_limiter))
    × ((j : String) → contains j ids ≡ true → lookup j indexed ≢ none)
    × ((j : String) → lookup j indexed ≢ none → contains j ids ≡ true)
list_active-open_among_example =
    list_active-open_among toy_codec toy_redis toy_codec-IsCodec toy_redis-IsRedis "crew"
      with_limiter kept indexed with_limiter-Agrees with_limiter_index all-Known
