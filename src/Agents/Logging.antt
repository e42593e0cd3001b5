-- ===== src/Agents/Logging.antt =====
-- agents/shared/logging_setup.py: the JSON line of a record, and the queue from which they are shipped.
pub mod Streams
pub mod Shipping
use agentic_crew.Prelude.{
  ℕ, zero, suc, ◌+◌, ◌≤◌, String, Bool, true, false, not, ◌&&◌, Option, none, some, List, [], ◌∷◌,
  ◌++◌, length, Dict, lookup, insert, contains, eqb, leb, ltb, map, ◌==◌, ◌<>◌, if◌then◌else◌,
}
use agentic_crew.Exec.{Result, ok, err}
use agentic_crew.Project.{lstrip, rstrip, is_empty}
use agentic_crew.Contract.Value.{Value, Payload, str}

-- `d.update(other)`, and `{**d, **other}`
abbrev pub update {ℓ} : {V : Type ℓ} → Dict V → Dict V → Dict V
update d [] = d
update d ((k, v) ∷ other) = update (insert k v d) other

abbrev said : Dict String → Dict String
said [] = []
said ((k, v) ∷ d) = if is_empty v then said d else (k, v) ∷ said d

-- `bind_context`: what the context is after it, `none` being a context that was never set.
unfoldable pub bind_context : Option (Dict String) → Dict String → Option (Dict String)
bind_context none fields = some (update [] (said fields))
bind_context (some context) fields = some (update context (said fields))

-- `_CONTEXT.get() or {}`
abbrev pub context_of : Option (Dict String) → Dict String
context_of none = []
context_of (some context) = context

-- A `LogRecord`: `message` is what `getMessage()` gives, `extras` are the attributes that the caller
-- passed, and `exception` is the text of `exc_info`.
pub record LogRecord : Type 0 where
  pub name : String
  pub level : String
  pub message : Result String
  pub created : ℕ
  pub extras : Payload
  pub exception : Option String

as_texts : Dict String → Payload
as_texts [] = []
as_texts ((k, v) ∷ d) = (k, str v) ∷ as_texts d

abbrev with_exception : Option String → Payload → Payload
with_exception none d = d
with_exception (some text) d = insert "exception" (str text) d

-- The dictionary that `JsonFormatter.format` writes; `stamp` prints the moment of a record.
unfoldable pub line_payload : (ℕ → String) → Option (Dict String) → LogRecord → String → Payload
unfolding as_texts
line_payload stamp context record_ message = with_exception record_.exception (
    update
      (update
        (("ts", str (stamp record_.created))
          ∷ ("level", str record_.level)
          ∷ ("logger", str record_.name)
          ∷ ("message", str message)
          ∷ [])
        (as_texts (context_of context)))
      record_.extras)

-- `LokiHandler._LABEL_KEYS`
abbrev pub label_keys : List String
label_keys = "service" ∷ "role" ∷ "project_id" ∷ "level" ∷ []

-- `{k: ctx[k] for k in keys if ctx.get(k)}`
abbrev labels_among : List String → Dict String → Dict String
labels_among [] context = []
labels_among (k ∷ ks) context = elim (lookup k context) [
  | none ↦ labels_among ks context
  | some v ↦ if is_empty v then labels_among ks context else (k, v) ∷ labels_among ks context
]

-- `d.setdefault(k, v)`
abbrev pub set_default {ℓ} : {V : Type ℓ} → String → V → Dict V → Dict V
set_default k v d = elim (lookup k d) [ none ↦ insert k v d | some _ ↦ d ]

unfoldable pub labels_of : Option (Dict String) → LogRecord → Dict String
labels_of context record_ =
    set_default "service" record_.name
      (labels_among label_keys (insert "level" record_.level (context_of context)))

-- What the queue holds: the labels, the moment in nanoseconds, and the line.
pub record Entry : Type 0 where
  pub labels : Dict String
  pub ts : ℕ
  pub line : String

-- `LokiHandler`: the queue with its bound, and whether it is being closed.
pub record Handler : Type 0 where
  pub queue : List Entry
  pub max_queue : ℕ
  pub stopping : Bool

-- `Queue.full`: a queue with the bound 0 is never full.
abbrev pub is_full : Handler → Bool
is_full h = not (eqb h.max_queue 0) && leb h.max_queue (length h.queue)

-- `put_nowait`, whose exception is suppressed
abbrev put : Entry → Handler → Handler
put entry h = if is_full h then h else record h { queue = h.queue ++ entry ∷ [] }

-- A line is queued with the record's labels.
abbrev pub queue_line : Option (Dict String) → ℕ → LogRecord → Result String → Handler → Handler
queue_line context now record_ (err e) h = h
queue_line context now record_ (ok line) h =
    put (record { labels = labels_of context record_; ts = now; line = line }) h

-- `dumps` writes a line, `stamp` prints a moment.
module _ (dumps : Payload → Result String) (stamp : ℕ → String) where
  -- `JsonFormatter.format`
  unfoldable pub format : Option (Dict String) → LogRecord → Result String
  format context record_ = elim record_.message [
    | err e ↦ err e
    | ok message ↦ dumps (line_payload stamp context record_ message)
  ]

  -- `LokiHandler.emit` at the moment `now`: whatever is raised, the record is dropped.
  unfoldable pub emit : Option (Dict String) → ℕ → LogRecord → Handler → Handler
  emit context now record_ h = queue_line context now record_ (format context record_) h

-- One stream of a batch: its labels, and its lines with their moments.
pub record Stream : Type 0 where
  pub labels : Dict String
  pub values : List (ℕ × String)

abbrev pub value_of : Entry → ℕ × String
value_of e = (e.ts, e.line)

-- `streams.setdefault(key, {"stream": labels, "values": []})["values"].append([ts, line])`
unfoldable pub file_under : String → Entry → Dict Stream → Dict Stream
file_under key e [] = (key, record { labels = e.labels; values = value_of e ∷ [] }) ∷ []
file_under key e ((k, s) ∷ d) =
    if k == key
    then (k, record s { values = s.values ++ value_of e ∷ [] }) ∷ d
    else (k, s) ∷ file_under key e d

-- `key_of` is `json.dumps(labels, sort_keys=True)`.
module _ (key_of : Dict String → String) where
  unfoldable pub group : List Entry → Dict Stream → Dict Stream
  group [] streams = streams
  group (e ∷ es) streams = group es (file_under (key_of e.labels) e streams)

  abbrev pub post_batch : List Entry → Handler → Option (Dict Stream) × Handler
  post_batch [] h = (none, h)
  post_batch (e ∷ es) h = (some (group (e ∷ es) []), record h { queue = [] })

  -- `_drain`: the streams that are posted, if the queue held anything, and the handler after it.
  unfoldable pub drain : Handler → Option (Dict Stream) × Handler
  drain h = post_batch h.queue h

  -- `close`: the thread is told to stop, and what is left is posted.
  unfoldable pub close : Handler → Option (Dict Stream) × Handler
  close h = drain (record h { stopping = true })
