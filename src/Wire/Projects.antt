-- ===== src/Wire/Projects.antt =====
-- adapters/redis_store.py: projects as JSON.
use agentic_crew.Prelude.{
  ℕ, String, Option, none, some, [], ◌∷◌, ◌≡◌, refl, ap, ◌==◌, ◌<>◌, if◌then◌else◌,
}
use agentic_crew.Exec.{Result, ok, err, value_error, type_error}
use agentic_crew.Exec.Results.{◌>>=◌}
use agentic_crew.Project.{Project, ProjectStatus, status_value, scoping, running, done, cancelled}
use agentic_crew.Contract.Value.{Value, str, null}
use agentic_crew.Contract.Json.{object, dict, subscript, is_truthy}
use agentic_crew.Wire.{Codec, IsCodec, Reading, aware, naive}

-- A project as it is read: its id and its name are taken as they come.
pub record StoredProject : Type 0 where
  pub id : Value
  pub name : Value
  pub status : ProjectStatus
  pub created_at : ℕ
  pub renamed_at : Option ℕ

-- `ProjectStatus(value)`
unfoldable pub project_status : Value → Result ProjectStatus
project_status (str text) =
    if text == "scoping"
    then ok scoping
    else if text == "running"
    then ok running
    else if text == "done"
    then ok done
    else if text == "cancelled"
    then ok cancelled
    else err (value_error ("'" <> text <> "' is not a valid ProjectStatus"))
project_status _ = err (value_error "not a valid ProjectStatus")

project_status-status_value : (s : ProjectStatus) → project_status (str (status_value s)) ≡ ok s
unfolding project_status status_value
project_status-status_value scoping = refl
project_status-status_value running = refl
project_status-status_value done = refl
project_status-status_value cancelled = refl

-- The readers take a project's id and name as texts without a check.
unfoldable pub typed : StoredProject → Result Project
typed r = do
  id ← as_text r.id
  name ← as_text r.name
  ok (record {
    id = id;
    name = name;
    status = r.status;
    created_at = r.created_at;
    renamed_at = r.renamed_at;
  })
  where
    as_text : Value → Result String
    as_text (str s) = ok s
    as_text _ = err (type_error "not a text")

-- `parsed if parsed.tzinfo else parsed.replace(tzinfo=UTC)`
abbrev in_utc : Reading → ℕ
in_utc (aware t) = t
in_utc (naive t) = t

module _ (c : Codec) where
  -- `value.isoformat() if value else None`
  abbrev iso_or_none : Option ℕ → Value
  iso_or_none none = null
  iso_or_none (some t) = str (c.isoformat t)

  unfoldable pub project_value : Project → Value
  unfolding object
  project_value p = dict (
      ("id", str p.id)
      ∷ ("name", str p.name)
      ∷ ("status", str (status_value p.status))
      ∷ ("created_at", str (c.isoformat p.created_at))
      ∷ ("renamed_at", iso_or_none p.renamed_at)
      ∷ [])

  -- `_encode_project`
  unfoldable pub encode_project : Project → c.Text
  encode_project p = c.dumps (project_value p)

  -- `_parse_time`
  unfoldable pub parse_time : Value → Result ℕ
  parse_time (str text) = c.fromisoformat text >>= λ reading. ok (in_utc reading)
  parse_time _ = err (type_error "fromisoformat: argument must be str")

  -- `_parse_time(value) if value else None`
  abbrev parse_or_none : Value → Result (Option ℕ)
  parse_or_none v = if is_truthy v then parse_time v >>= (λ t. ok (some t)) else ok none

  unfoldable pub read_project : Value → Result StoredProject
  unfolding subscript parse_time
  read_project payload = do
    id ← subscript "id" payload
    name ← subscript "name" payload
    status_text ← subscript "status" payload
    status ← project_status status_text
    created_text ← subscript "created_at" payload
    created_at ← parse_time created_text
    renamed_text ← subscript "renamed_at" payload
    renamed_at ← parse_or_none renamed_text
    ok (record {
      id = id;
      name = name;
      status = status;
      created_at = created_at;
      renamed_at = renamed_at;
    })

  -- `_decode_project`
  unfoldable pub decode_project : c.Text → Result StoredProject
  decode_project raw = c.loads raw >>= read_project

abbrev pub stored : Project → StoredProject
stored p = record {
  id = str p.id;
  name = str p.name;
  status = p.status;
  created_at = p.created_at;
  renamed_at = p.renamed_at;
}

module _ (c : Codec) (laws : IsCodec c) where
  parse_or_none-iso_or_none : (o : Option ℕ) → parse_or_none c (iso_or_none c o) ≡ ok o
  unfolding parse_time is_truthy
  parse_or_none-iso_or_none none = refl
  parse_or_none-iso_or_none (some t) =
      rw (laws.is_empty-isoformat t) (rw (laws.fromisoformat-isoformat t) refl)

  read_project-project_value : (p : Project) → read_project c (project_value c p) ≡ ok (stored p)
  unfolding read_project project_value subscript object parse_time
  read_project-project_value p = rw (project_status-status_value p.status) (
      rw (laws.fromisoformat-isoformat p.created_at)
        (rw (parse_or_none-iso_or_none p.renamed_at) refl))

-- A project that is written is read back with every field as it was, its moments in UTC, and is the
-- project itself once its id and its name are taken as texts.
pub decode_project-encode_project :
    (c : Codec) (p : Project)
    → IsCodec c
    → (decode_project c (encode_project c p) ≡ ok (stored p))
      × ((decode_project c (encode_project c p) >>= typed) ≡ ok p)
unfolding decode_project encode_project typed
decode_project-encode_project c p laws =
    let read : decode_project c (encode_project c p) ≡ ok (stored p) =
      rw (laws.loads-dumps (project_value c p)) (read_project-project_value c laws p) in
    (read, ap (λ r. r >>= typed) read)
