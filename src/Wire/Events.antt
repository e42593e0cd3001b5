-- ===== src/Wire/Events.antt =====
-- Events on the wire. The store and the bus write the same object, and read it back the same way.
use agentic_crew.Prelude.{
  ℕ, String, true, Option, none, some, List, [], ◌∷◌, ◌≡◌, refl, ap, arith, ◌∙◌, ◌==◌, ◌<>◌,
  if◌then◌else◌,
}
use agentic_crew.Exec.{Error, Result, ok, err, value_error, type_error}
use agentic_crew.Exec.Results.{◌>>=◌}
use agentic_crew.Contract.Value.{Value, Payload, pos, str, int, bool, null, obj, arr, no_fields}
use agentic_crew.Contract.Json.{object, dict, entries, entries-object, subscript, get_field}
use agentic_crew.Contract.Events.{
  Event, EventKind, kind_value, founder_message, agent_message, agent_thinking, agent_spawned,
  agent_ready, agent_finished, tool_call, assignment, escalation, project_renamed, spawn_refused,
  usage, error,
}
use agentic_crew.Wire.{Codec, IsCodec, is_caught}

-- An event as it is read: the dataclass takes the fields as they come, and checks the kind only.
pub record Received : Type 0 where
  pub project_id : Value
  pub kind : EventKind
  pub source : Value
  pub payload : Value
  pub at : Value
  pub to : Value

abbrev all_kinds : List EventKind
all_kinds =
    founder_message ∷ agent_message ∷ agent_thinking ∷ agent_spawned ∷ agent_ready ∷ agent_finished
    ∷ tool_call ∷ assignment ∷ escalation ∷ project_renamed ∷ spawn_refused ∷ usage ∷ error ∷ []

find_kind : String → List EventKind → Option EventKind
find_kind text [] = none
find_kind text (k ∷ ks) = if kind_value k == text then some k else find_kind text ks

abbrev kind_or_raise : String → Option EventKind → Result EventKind
kind_or_raise text none = err (value_error ("'" <> text <> "' is not a valid EventKind"))
kind_or_raise text (some k) = ok k

-- `EventKind(value)`
unfoldable pub event_kind : Value → Result EventKind
unfolding find_kind kind_value
event_kind (str text) = kind_or_raise text (find_kind text all_kinds)
event_kind _ = err (value_error "not a valid EventKind")

pub event_kind-kind_value : (k : EventKind) → event_kind (str (kind_value k)) ≡ ok k
unfolding event_kind kind_value find_kind
event_kind-kind_value founder_message = refl
event_kind-kind_value agent_message = refl
event_kind-kind_value agent_thinking = refl
event_kind-kind_value agent_spawned = refl
event_kind-kind_value agent_ready = refl
event_kind-kind_value agent_finished = refl
event_kind-kind_value tool_call = refl
event_kind-kind_value assignment = refl
event_kind-kind_value escalation = refl
event_kind-kind_value project_renamed = refl
event_kind-kind_value spawn_refused = refl
event_kind-kind_value usage = refl
event_kind-kind_value error = refl

kind_or_raise_raises :
    (text : String) (o : Option EventKind) (e : Error)
    → kind_or_raise text o ≡ err e
    → is_caught e ≡ true
unfolding is_caught
kind_or_raise_raises text none e h = ground arith
kind_or_raise_raises text (some k) e h = cc

pub event_kind_raises : (v : Value) (e : Error) → event_kind v ≡ err e → is_caught e ≡ true
unfolding event_kind is_caught
event_kind_raises (str s) e h = kind_or_raise_raises s (find_kind s all_kinds) e h
event_kind_raises (int n) e h = ground arith
event_kind_raises (bool b) e h = ground arith
event_kind_raises null e h = ground arith
event_kind_raises (obj fs) e h = ground arith
event_kind_raises (arr xs) e h = ground arith

-- `{"project_id": ..., ...}`, which is also `asdict(event)`
unfoldable pub event_value : Event → Value
unfolding object
event_value e = dict (
    ("project_id", str e.project_id)
    ∷ ("kind", str (kind_value e.kind))
    ∷ ("source", str e.source)
    ∷ ("payload", obj (object e.payload))
    ∷ ("at", int (pos e.at))
    ∷ ("to", str e.to)
    ∷ [])

-- The body of each `_decode`, after `json.loads`
unfoldable pub read_event : Value → Result Received
unfolding subscript get_field
read_event raw = do
  project_id ← subscript "project_id" raw
  kind_text ← subscript "kind" raw
  kind ← event_kind kind_text
  source ← subscript "source" raw
  let payload = get_field "payload" (obj no_fields) raw
  at ← subscript "at" raw
  ok (record {
    project_id = project_id;
    kind = kind;
    source = source;
    payload = payload;
    at = at;
    to = get_field "to" (str "") raw;
  })

abbrev as_text : Value → Result String
as_text (str s) = ok s
as_text _ = err (type_error "not a text")

abbrev as_payload : Value → Result Payload
as_payload (obj fs) = ok (entries fs)
as_payload _ = err (type_error "not an object")

abbrev as_moment : Value → Result ℕ
as_moment (int (pos n)) = ok n
as_moment _ = err (type_error "not a moment")

-- An event as its readers take it: with texts where they expect texts, and an object as payload.
-- The readers do not check this; the writers of this program always write it so.
unfoldable pub typed : Received → Result Event
typed r = do
  project_id ← as_text r.project_id
  source ← as_text r.source
  payload ← as_payload r.payload
  at ← as_moment r.at
  to ← as_text r.to
  ok (record {
    project_id = project_id;
    kind = r.kind;
    source = source;
    payload = payload;
    at = at;
    to = to;
  })

-- What an event is when it is read back.
abbrev pub received : Event → Received
received e = record {
  project_id = str e.project_id;
  kind = e.kind;
  source = str e.source;
  payload = obj (object e.payload);
  at = int (pos e.at);
  to = str e.to;
}

pub read_event-event_value : (e : Event) → read_event (event_value e) ≡ ok (received e)
unfolding read_event event_value subscript get_field object
read_event-event_value e = rw (event_kind-kind_value e.kind) refl

pub typed-received : (e : Event) → typed (received e) ≡ ok e
unfolding typed
typed-received e = rw (entries-object e.payload) refl

module _ (c : Codec) where
  -- `_encode_event`, and `json.dumps(asdict(event))`
  unfoldable pub encode_event : Event → c.Text
  encode_event e = c.dumps (event_value e)

  -- `_decode_event` of the store and `_decode` of the bus
  unfoldable pub decode_event : c.Text → Result Received
  decode_event text = c.loads text >>= read_event

-- An event that is written, by an agent, the control plane or the store, is read back with every
-- field as it was, and as the event itself once its fields are taken as texts, moment and object.
pub decode_event-encode_event :
    (c : Codec) (e : Event)
    → IsCodec c
    → (decode_event c (encode_event c e) ≡ ok (received e))
      × ((decode_event c (encode_event c e) >>= typed) ≡ ok e)
unfolding decode_event encode_event
decode_event-encode_event c e laws =
    let read : decode_event c (encode_event c e) ≡ ok (received e) =
      rw (laws.loads-dumps (event_value e)) (read_event-event_value e) in
    (read, ap (λ r. r >>= typed) read ∙ typed-received e)
