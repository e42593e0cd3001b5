-- ===== src/Store/Redis.antt =====
-- apps/control_plane/adapters/redis_store.py: the ProjectStore over a Redis, which is a parameter.
pub mod Client
pub mod Keys
pub mod Relation
pub mod Saved
pub mod Histories
pub mod Agreement
pub mod Index
use agentic_crew.Prelude.{
  ℕ, zero, suc, String, Bool, not, Option, none, some, List, [], ◌∷◌, ◌++◌, map, ◌<>◌, ◌==◌,
  if◌then◌else◌,
}
use agentic_crew.Exec.{
  Exec, value_error, key_error, Result, ok, err, pure, raise, lift, ◌>>=◌, ◌>>◌,
}
use agentic_crew.Exec.Results.{◌>>=◌ as and_typed}
use agentic_crew.Project.{Project, is_terminal}
use agentic_crew.Contract.Value.{ℤ, pos, negsuc}
use agentic_crew.Contract.Events.{Event}
use agentic_crew.Store.{Store, max_history}
use agentic_crew.Wire.{Codec}
use agentic_crew.Wire.Events
use agentic_crew.Wire.Projects
use agentic_crew.Store.Redis.Client.{Redis, Command, rpush, ltrim}

-- `-n`
abbrev pub minus : ℤ → ℤ
minus (pos zero) = pos 0
minus (pos (suc n)) = negsuc n
minus (negsuc n) = pos (suc n)

-- `_project_key`, `_history_key` and `_active_key`
unfoldable pub project_key : String → String → String
project_key prefix project_id = prefix <> (":project:" <> project_id)

unfoldable pub history_key : String → String → String
history_key prefix project_id = prefix <> (":project:" <> (project_id <> ":history"))

unfoldable pub active_key : String → String
active_key prefix = prefix <> ":projects:active"

-- The last element of a Redis range.
abbrev pub last : ℤ
last = negsuc 0

-- The next of `[f(item) for item in items]`
abbrev pub both : {B : Type 0} → Result B → Result (List B) → Result (List B)
both (err e) rest = err e
both (ok y) (err e) = err e
both (ok y) (ok ys) = ok (y ∷ ys)

-- `[f(item) for item in items]`, where `f` may raise
unfoldable pub read_each : {A B : Type 0} → (A → Result B) → List A → Result (List B)
read_each f [] = ok []
read_each f (x ∷ xs) = both (f x) (read_each f xs)

module _ (c : Codec) where
  abbrev pub project_of : c.Text → Result Project
  project_of raw = and_typed (Projects.decode_project c raw) Projects.typed

  abbrev pub event_of : c.Text → Result Event
  event_of raw = and_typed (Events.decode_event c raw) Events.typed

  -- `_decode_project(raw) if raw else None`
  unfoldable pub project_or_none : Option c.Text → Result (Option Project)
  project_or_none none = ok none
  project_or_none (some raw) =
      if c.is_blank raw then ok none else and_typed (project_of raw) (λ p. ok (some p))

module _ (c : Codec) (redis : Redis c.Text) (prefix : String) where
  unfoldable pub create : Project → Exec redis.State Project
  create project = do
    written ← redis.set_nx (project_key prefix project.id) (Projects.encode_project c project)
    (if written
        then (redis.zadd (active_key prefix) project.id project.created_at >> pure project)
        else raise (value_error ("project " <> project.id <> " already exists")))

  unfoldable pub get : String → Exec redis.State (Option Project)
  get project_id = do raw ← redis.get (project_key prefix project_id); lift (project_or_none c raw)

  unfoldable pub save : Project → Exec redis.State Project
  save project = do
    written ← redis.set_xx (project_key prefix project.id) (Projects.encode_project c project)
    (if written
        then (if is_terminal project.status
            then (redis.zrem (active_key prefix) project.id >> pure project)
            else pure project)
        else raise (key_error ("unknown project " <> project.id)))

  -- One round of the loop: a member of the index without a project is taken out of the index.
  abbrev pub consider : String → Option c.Text → List Project → Exec redis.State (List Project)
  consider project_id none projects = redis.zrem (active_key prefix) project_id >> pure projects
  consider project_id (some raw) projects = do
    project ← lift (project_of c raw)
    pure (if is_terminal project.status then projects else projects ++ project ∷ [])

  -- `for project_id, raw in zip(ids, raws, strict=True)`
  unfoldable pub consider_all :
      List String → List (Option c.Text) → List Project → Exec redis.State (List Project)
  consider_all [] [] projects = pure projects
  consider_all (id ∷ ids) (raw ∷ raws) projects = consider id raw projects >>= consider_all ids raws
  consider_all [] (raw ∷ raws) projects = raise (value_error "zip() argument 2 is longer")
  consider_all (id ∷ ids) [] projects = raise (value_error "zip() argument 2 is shorter")

  abbrev pub read_index : List String → Exec redis.State (List Project)
  read_index [] = pure []
  read_index (id ∷ ids) = do
    raws ← redis.mget (map (project_key prefix) (id ∷ ids))
    consider_all (id ∷ ids) raws []

  unfoldable pub list_active : Exec redis.State (List Project)
  list_active = redis.zrevrange (active_key prefix) (pos 0) last >>= read_index

  unfoldable pub append_event : Event → Exec redis.State (Unit {0})
  append_event event =
      let key = history_key prefix event.project_id in
      redis.execute
        (rpush key (Events.encode_event c event) ∷ ltrim key (minus (pos max_history)) last ∷ [])

  unfoldable pub history : String → ℤ → Exec redis.State (List Event)
  history project_id limit = do
    raw ← redis.lrange (history_key prefix project_id) (minus limit) last
    lift (read_each (event_of c) raw)

  abbrev pub redis_store : Store
  redis_store = record {
    State = redis.State;
    create = create;
    get = get;
    save = save;
    list_active = list_active;
    append_event = append_event;
    history = history;
  }
