-- ===== src/Store/Memory.antt =====
-- apps/control_plane/adapters/memory_store.py: the in-memory ProjectStore.
pub mod Laws
use agentic_crew.Prelude.{
  ℕ, ◌+◌, ◌-◌, String, Bool, not, ◌≡◌, refl, Option, none, some, List, [], ◌∷◌, ◌++◌, length, keep,
  last_n, drop, Dict, lookup, insert, get_or, values, lookup-insert, ltb, arith, ◌==◌, eq_iff, ◌<>◌,
  if◌then◌else◌,
}
use agentic_crew.Exec.{Exec, Error, value_error, key_error, ok, err}
use agentic_crew.Project.{Project, is_terminal}
use agentic_crew.Contract.Value.{ℤ}
use agentic_crew.Contract.Events.{Event}
use agentic_crew.Store.{Store, IsStore, tail_slice, open_count, max_history}

pub record Memory : Type 0 where
  pub projects : Dict Project
  pub events : Dict (List Event)

abbrev pub empty : Memory
empty = record { projects = []; events = [] }

abbrev pub is_open : Project → Bool
is_open p = not (is_terminal p.status)

unfoldable pub create : Project → Exec Memory Project
create p s = elim (lookup p.id s.projects) [
  | some _ ↦ (err (value_error ("project " <> p.id <> " already exists")), s)
  | none ↦ (ok p, record s { projects = insert p.id p s.projects })
]

unfoldable pub get : String → Exec Memory (Option Project)
get id s = (ok (lookup id s.projects), s)

unfoldable pub save : Project → Exec Memory Project
save p s = elim (lookup p.id s.projects) [
  | none ↦ (err (key_error ("unknown project " <> p.id)), s)
  | some _ ↦ (ok p, record s { projects = insert p.id p s.projects })
]

-- `sorted(..., key=created_at, reverse=True)`: newest first, and equal moments in their order.
insert_newest : Project → List Project → List Project
insert_newest p [] = p ∷ []
insert_newest p (q ∷ ps) =
    if ltb p.created_at q.created_at then q ∷ insert_newest p ps else p ∷ q ∷ ps

sort_newest : List Project → List Project
unfolding insert_newest
sort_newest [] = []
sort_newest (p ∷ ps) = insert_newest p (sort_newest ps)

unfoldable pub list_active : Exec Memory (List Project)
unfolding sort_newest
list_active s = (ok (sort_newest (keep is_open (values s.projects))), s)

-- `del log[: len(log) - MAX_HISTORY_PER_PROJECT]`, if the log has grown past it.
unfoldable pub cap_log : List Event → List Event
cap_log log = if ltb max_history (length log) then drop (length log - max_history) log else log

unfoldable pub append_event : Event → Exec Memory (Unit {0})
append_event e s =
    let log = get_or e.project_id [] s.events ++ e ∷ [] in
    (ok tt, record s { events = insert e.project_id (cap_log log) s.events })

-- The `defaultdict` makes an entry for a project that it is asked about.
unfoldable pub history : String → ℤ → Exec Memory (List Event)
history id limit s = elim (lookup id s.events) [
  | none ↦ (ok (tail_slice limit []), record s { events = insert id [] s.events })
  | some log ↦ (ok (tail_slice limit log), s)
]

abbrev pub memory_store : Store
memory_store = record {
  State = Memory;
  create = create;
  get = get;
  save = save;
  list_active = list_active;
  append_event = append_event;
  history = history;
}
