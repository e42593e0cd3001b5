-- ===== src/Tests/Starting.antt =====
-- The theorems on an agent's log, on events and on the feed of a tab, at small inputs.
use Prim.Native.Char.{Char, code}
use mathlib.Core.Path.{ap₂}
use agentic_crew.Prelude.{
  sym, ap, lookup, arith, map, ℕ, String, false, ◌≡◌, refl, none, some, List, [], ◌∷◌, ◌++◌, Dict,
  ◌==◌, if◌then◌else◌,
}
use agentic_crew.Exec.{Result, ok}
use agentic_crew.Contract.Value.{Value, Payload, pos}
use agentic_crew.Contract.Events.{Event, founder_message, channel_for}
use agentic_crew.Agents.Logging.{Handler, Stream, format, emit, drain, labels_of}
use agentic_crew.Agents.Logging.Shipping.{Emitted, emit_all, drain-emitted}
use agentic_crew.Api.Stream.{
  Feed, Happening, accepted, publishes, records, reads_history, subscribes, sends, happen, follow,
  feed_of, publications, deliver, send_history, subscribe, send_next,
}
use agentic_crew.Api.Stream.Gap.{follow-misses}
use agentic_crew.Store.{tail_slice}
use agentic_crew.Wire.Events.{received}
use agentic_crew.Wire.Subscription.{yields}
use agentic_crew.Wire.Publishing.{Channels, IsChannels, publish_all, polls_of, publish_all-yields}
use agentic_crew.Tests.Toys.{toy_codec, toy_codec-IsCodec}

abbrev no_line : Payload → Result String
no_line payload = ok "line"

abbrev no_stamp : ℕ → String
no_stamp n = "now"

abbrev said_once : Emitted
said_once = record {
  context = some (("role", "qa_engineer") ∷ []);
  now = 7;
  log_record = record {
    name = "agent";
    level = "INFO";
    message = ok "ready";
    created = 3;
    extras = [];
    exception = none;
  };
}

-- A text of labels from which they can be read: before each character and each label stands a `+`, and
-- a `.` after each text and after the last label.
abbrev plus : Char
plus = "+"

abbrev dot : Char
dot = "."

spelled : String → String → String
spelled String.[] rest = String.◌∷◌ dot rest
spelled (String.◌∷◌ c s) rest = String.◌∷◌ plus (String.◌∷◌ c (spelled s rest))

labels_text : Dict String → String
unfolding spelled
labels_text [] = String.◌∷◌ dot String.[]
labels_text ((k, v) ∷ d) = String.◌∷◌ plus (spelled k (spelled v (labels_text d)))

abbrev first_code : String → ℕ
first_code String.[] = 0
first_code (String.◌∷◌ c s) = code c

abbrev rest_of : String → String
rest_of String.[] = String.[]
rest_of (String.◌∷◌ c s) = s

abbrev first_of : Char → String → Char
first_of c String.[] = c
first_of _ (String.◌∷◌ c s) = c

dot_is_not_plus : (s t : String) → ¬ (String.◌∷◌ dot s ≡ String.◌∷◌ plus t)
dot_is_not_plus s t h = let same : 46 ≡ 43 = ap first_code h in absurd (omega (arith, same))

spelled-injective : (s t x y : String) → spelled s x ≡ spelled t y → (s ≡ t) × (x ≡ y)
unfolding spelled
spelled-injective String.[] String.[] x y h = (refl, ap rest_of h)
spelled-injective String.[] (String.◌∷◌ d t) x y h = absurd (dot_is_not_plus _ _ h)
spelled-injective (String.◌∷◌ c s) String.[] x y h = absurd (dot_is_not_plus _ _ (sym h))
spelled-injective (String.◌∷◌ c s) (String.◌∷◌ d t) x y h =
    let (same, rest) = spelled-injective s t x y (ap (λ u. rest_of (rest_of u)) h) in
    (
      ap₂ (λ (a : Char) (u : String). String.◌∷◌ a u) (ap (λ u. first_of c (rest_of u)) h) same,
      rest,
    )

labels_text-injective : (d e : Dict String) → labels_text d ≡ labels_text e → d ≡ e
unfolding labels_text
labels_text-injective [] [] h = refl
labels_text-injective [] ((j, w) ∷ e) h = absurd (dot_is_not_plus _ _ h)
labels_text-injective ((k, v) ∷ d) [] h = absurd (dot_is_not_plus _ _ (sym h))
labels_text-injective ((k, v) ∷ d) ((j, w) ∷ e) h =
    let (key, more) = spelled-injective k j _ _ (ap rest_of h) in
    let (value, others) = spelled-injective v w _ _ more in
    ap₂ (λ (x : String × String) (xs : Dict String). x ∷ xs)
      (ap₂ (λ (a b : String). (a, b)) key value) (labels_text-injective d e others)

abbrev fresh_handler : Handler
fresh_handler = record { queue = []; max_queue = 2; stopping = false }

abbrev emitted : Handler
emitted =
    emit_all no_line no_stamp (said_once ∷ said_once ∷ [])
      (emit no_line no_stamp said_once.context 7 said_once.log_record fresh_handler)

drain-emitted_example :
    let labels = labels_of said_once.context said_once.log_record in
    (streams : Dict Stream) × (stream : Stream) × (xs ys : List (ℕ × String)) × (drain labels_text
        emitted
      ≡ (some streams, record emitted { queue = [] }))
    × (lookup (labels_text labels) streams ≡ some stream)
    × (stream.values ≡ xs ++ (7, "line") ∷ ys)
    × ((k : String) → lookup k stream.labels ≡ lookup k labels)
unfolding format
drain-emitted_example =
    drain-emitted no_line no_stamp labels_text said_once (said_once ∷ said_once ∷ []) fresh_handler
      "line" (λ d e same k. ap (lookup k) (labels_text-injective d e same)) refl refl

abbrev hello : ℕ → Event
hello n = record {
  project_id = "proj-1";
  kind = founder_message;
  source = "founder";
  payload = [];
  at = n;
  to = "";
}

abbrev joined : Feed
joined = record {
  stage = accepted;
  log = hello 1 ∷ [];
  unrecorded = hello 2 ∷ [];
  inbox = [];
  sent = [];
}

abbrev between : List Happening
between = publishes (hello 3) ∷ records ∷ []

abbrev after : List Happening
after = publishes (hello 4) ∷ sends ∷ records ∷ []

follow-misses_example :
    feed_of (follow after (happen subscribes (follow between (happen reads_history joined))))
    ≡ tail_slice (pos 200) joined.log ++ publications after
unfolding follow happen deliver send_history subscribe send_next
follow-misses_example = follow-misses between after joined refl refl refl refl (λ e. cc)

-- A Redis that is a function from channels to what they have carried.
abbrev carrying : (String → List Value) → String → Value → String → List Value
carrying s channel text other = s other ++ (if channel == other then text ∷ [] else [])

abbrev toy_channels : Channels Value
toy_channels = record {
  State = String → List Value;
  publish = λ channel text s. (ok tt, carrying s channel text);
}

toy_channels-IsChannels : IsChannels toy_channels
toy_channels-IsChannels = record {
  carried = λ s channel. s channel;
  publish_lem = λ s channel text. (carrying s channel text, refl, λ other. refl);
}

abbrev elsewhere : Event
elsewhere = record (hello 9) { project_id = "proj-2" }

abbrev quiet : String → List Value
quiet channel = []

publish_all-yields_example :
    (s' : String → List Value) × (texts : List Value) × (publish_all toy_codec toy_channels
        (hello 1 ∷ elsewhere ∷ hello 2 ∷ [])
        quiet
      ≡ (ok tt, s'))
    × (s' (channel_for "proj-1") ≡ [] ++ texts)
    × (yields toy_codec "message" (polls_of texts) ≡ (map received (hello 1 ∷ hello 2 ∷ []), none))
unfolding toy_channels-IsChannels
publish_all-yields_example =
    publish_all-yields toy_codec toy_codec-IsCodec toy_channels toy_channels-IsChannels "proj-1"
      (hello 1 ∷ elsewhere ∷ hello 2 ∷ []) quiet
