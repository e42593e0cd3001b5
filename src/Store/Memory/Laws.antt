-- ===== src/Store/Memory/Laws.antt =====
-- The in-memory store against the laws of the ProjectStore port.
use agentic_crew.Prelude.{
  ℕ, suc, ◌+◌, ◌-◌, ◌≤◌, String, ◌≡◌, refl, none, some, List, [], ◌∷◌, ◌++◌, length, keep, last_n,
  Dict, lookup, insert, get_or, values, lookup-insert, ltb, arith, ◌==◌, eq_iff, if◌then◌else◌,
  Option-cases, Bool-cases, ◌<>◌, inl, inr, ap, ◌∙◌,
}
use agentic_crew.Exec.{value_error, key_error, ok}
use agentic_crew.Project.{Project}
use agentic_crew.Contract.Value.{ℤ}
use agentic_crew.Contract.Events.{Event}
use agentic_crew.Store.{
  named, if_open, StartsBy, IsNewestFirst, IsStore, tail_slice, open_count, max_history,
}
use agentic_crew.Store.Memory.{
  Memory, is_open, create, get, save, list_active, append_event, history, memory_store,
  insert_newest, sort_newest, cap_log,
}

open_projects : Dict Project → ℕ
open_projects d = length (keep is_open (values d))

length-insert_newest :
    (p : Project) (ps : List Project) → length (insert_newest p ps) ≡ suc (length ps)
unfolding insert_newest
length-insert_newest p [] = refl
length-insert_newest p (q ∷ ps) = ground (arith, length-insert_newest p ps)

length-sort_newest : (ps : List Project) → length (sort_newest ps) ≡ length ps
unfolding sort_newest
length-sort_newest [] = refl
length-sort_newest (p ∷ ps) =
    length-insert_newest p (sort_newest ps) ∙ ap suc (length-sort_newest ps)

open_projects-fresh :
    (k : String) (p : Project) (d : Dict Project)
    → lookup k d ≡ none
    → open_projects (insert k p d) ≡ open_projects d + open_count p
unfolding open_projects lookup insert
open_projects-fresh k p [] h = ground arith
open_projects-fresh k p ((j, q) ∷ d) h = ground (arith, open_projects-fresh k p d)

open_projects-update :
    (k : String) (p q : Project) (d : Dict Project)
    → lookup k d ≡ some q
    → open_projects (insert k p d) + open_count q ≡ open_projects d + open_count p
unfolding open_projects lookup insert
open_projects-update k p q [] h = cc
open_projects-update k p q ((j, r) ∷ d) h = ground (arith, open_projects-update k p q d)

abbrev pub log_of : Memory → String → List Event
log_of s id = get_or id [] s.events

-- `append_event` and `history` see a project's log through `get_or`.
log_of-insert :
    (d : Dict (List Event)) (k j : String) (l : List Event)
    → get_or j [] (insert k l d) ≡ (if k == j then l else get_or j [] d)
log_of-insert d k j l = ground (arith, lookup-insert k j l d)

log_of-insert_nil :
    (d : Dict (List Event)) (k j : String)
    → lookup k d ≡ none
    → get_or j [] (insert k [] d) ≡ get_or j [] d
log_of-insert_nil d k j h = ground (arith, lookup-insert k j [] d, eq_iff k j)

cap_log-eq-last_n : (log : List Event) → cap_log log ≡ last_n max_history log
unfolding cap_log
cap_log-eq-last_n log = elim (Bool-cases (ltb max_history (length log))) [
  | inl e ↦ rw e
  | inr e ↦ let zero_left : length log - max_history ≡ 0 = ground arith in rw e (rw zero_left refl)
]

pub log_of-append_event :
    (s : Memory) (e : Event) (j : String)
    → log_of (append_event e s).1 j
      ≡ (if e.project_id == j then last_n max_history (log_of s j ++ e ∷ []) else log_of s j)
unfolding append_event
log_of-append_event s e j =
    log_of-insert s.events e.project_id j (cap_log (log_of s e.project_id ++ e ∷ []))
    ∙ rw (cap_log-eq-last_n (log_of s e.project_id ++ e ∷ []))
        (elim (Bool-cases (e.project_id == j)) [
          | inl h ↦ rw h (ap (λ k. last_n max_history (log_of s k ++ e ∷ [])) ((eq_iff _ _).0 h))
          | inr h ↦ rw h
        ])

pub log_of-history :
    (s : Memory) (id j : String) (limit : ℤ) → log_of (history id limit s).1 j ≡ log_of s j
unfolding history
log_of-history s id j limit = elim (Option-cases (lookup id s.events)) [
  | inl e ↦ rw (e, history) (log_of-insert_nil s.events id j e)
  | inr (log, e) ↦ rw (e, history)
]

pub history_result :
    (s : Memory) (id : String) (limit : ℤ)
    → (history id limit s).0 ≡ ok (tail_slice limit (log_of s id))
unfolding history
history_result s id limit = ground arith

-- Every project stands under its own id, once.
abbrev pub Keyed : Dict Project → Type 0
Keyed [] = Unit {0}
Keyed ((k, p) ∷ d) = (p.id ≡ k) × (lookup k d ≡ none) × Keyed d

Keyed-insert : (p : Project) (d : Dict Project) → Keyed d → Keyed (insert p.id p d)
unfolding insert lookup
Keyed-insert p [] k = (refl, refl, tt)
Keyed-insert p ((j, q) ∷ d) (own, once, k) = elim (Bool-cases (j == p.id)) [
  | inl same ↦ rw same (ground (arith, eq_iff j p.id), once, k)
  | inr other ↦ rw other (
    own,
    ground (arith, lookup-insert p.id j p d, eq_iff j p.id, eq_iff p.id j),
    Keyed-insert p d k,
  )
]

Keyed-lookup :
    (id : String) (p : Project) (d : Dict Project) → Keyed d → lookup id d ≡ some p → p.id ≡ id
unfolding lookup
Keyed-lookup id p [] k h = cc
Keyed-lookup id p ((j, q) ∷ d) (own, _, k) h = ground (arith, eq_iff j id, Keyed-lookup id p d k)

-- The open projects of the dictionary, by their ids.
named-values :
    (id : String) (d : Dict Project)
    → Keyed d
    → named id (keep is_open (values d)) ≡ if_open (lookup id d)
unfolding lookup
named-values id [] k = refl
named-values id ((j, p) ∷ d) (own, once, k) =
    ground (arith, own, eq_iff j id, eq_iff p.id id, once, named-values id d k)

Distinct : List Project → Type 0
Distinct [] = Unit {0}
Distinct (p ∷ ps) = (named p.id ps ≡ none) × Distinct ps

Distinct-values : (d : Dict Project) → Keyed d → Distinct (keep is_open (values d))
unfolding Distinct
Distinct-values [] k = tt
Distinct-values ((j, p) ∷ d) (own, once, k) = elim (Bool-cases (is_open p)) [
  | inl opened ↦ rw opened (
    ap (λ (t : String). named t (keep is_open (values d))) own
        ∙ named-values j d k
        ∙ ap if_open once,
    Distinct-values d k,
  )
  | inr closed ↦ rw closed (Distinct-values d k)
]

named-insert_newest :
    (id : String) (p : Project) (ps : List Project)
    → named p.id ps ≡ none
    → named id (insert_newest p ps) ≡ (if p.id == id then some p else named id ps)
unfolding insert_newest
named-insert_newest id p [] h = refl
named-insert_newest id p (q ∷ ps) h =
    ground (arith, eq_iff p.id id, eq_iff q.id id, eq_iff q.id p.id, named-insert_newest id p ps)

named-sort_newest :
    (id : String) (ps : List Project) → Distinct ps → named id (sort_newest ps) ≡ named id ps
unfolding sort_newest Distinct
named-sort_newest id [] d = refl
named-sort_newest id (p ∷ ps) (own, d) =
    named-insert_newest id p (sort_newest ps) (named-sort_newest p.id ps d ∙ own)
    ∙ ap (λ o. if p.id == id then some p else o) (named-sort_newest id ps d)

StartsBy-insert_newest :
    (moment : ℕ) (p : Project) (ps : List Project)
    → p.created_at ≤ moment
    → StartsBy moment ps
    → StartsBy moment (insert_newest p ps)
unfolding insert_newest
StartsBy-insert_newest moment p [] le h = le
StartsBy-insert_newest moment p (q ∷ ps) le h = ground arith

IsNewestFirst-insert_newest :
    (p : Project) (ps : List Project) → IsNewestFirst ps → IsNewestFirst (insert_newest p ps)
unfolding insert_newest
IsNewestFirst-insert_newest p [] h = (tt, tt)
IsNewestFirst-insert_newest p (q ∷ ps) (first, more) =
    elim (Bool-cases (ltb p.created_at q.created_at)) [
      | inl older ↦
          let before : p.created_at ≤ q.created_at = ground arith in
          rw older (
            StartsBy-insert_newest q.created_at p ps before first,
            IsNewestFirst-insert_newest p ps more,
          )
      | inr newer ↦ rw newer (ground arith, (first, more))
    ]

sort_newest-IsNewestFirst : (ps : List Project) → IsNewestFirst (sort_newest ps)
unfolding sort_newest
sort_newest-IsNewestFirst [] = tt
sort_newest-IsNewestFirst (p ∷ ps) =
    IsNewestFirst-insert_newest p (sort_newest ps) (sort_newest-IsNewestFirst ps)

memory_laws : IsStore memory_store
unfolding open_projects create get save list_active history append_event
memory_laws = record {
  IsSound = λ s. Keyed s.projects;
  find = λ s id. lookup id s.projects;
  active = λ s. open_projects s.projects;
  log = log_of;
  get_lem = λ s id _. refl;
  find_id = λ s id p k h. Keyed-lookup id p s.projects k h;
  create_taken =
      λ s p q _ h. (value_error ("project " <> p.id <> " already exists"), rw (h, create));
  create_fresh = λ s p k h o. (
    record s { projects = insert p.id p s.projects },
    rw (h, create),
    Keyed-insert p s.projects k,
    λ j. lookup-insert p.id j p s.projects,
    ground (arith, open_projects-fresh p.id p s.projects),
    λ j. refl,
  );
  save_missing = λ s p _ h. (key_error ("unknown project " <> p.id), rw (h, save));
  save_found = λ s p q k h. (
    record s { projects = insert p.id p s.projects },
    rw (h, save),
    Keyed-insert p s.projects k,
    λ j. lookup-insert p.id j p s.projects,
    open_projects-update p.id p q s.projects h,
    λ j. refl,
  );
  list_active_lem = λ s k. (
    sort_newest (keep is_open (values s.projects)),
    refl,
    length-sort_newest (keep is_open (values s.projects)),
    λ id.
        named-sort_newest id (keep is_open (values s.projects)) (Distinct-values s.projects k)
        ∙ named-values id s.projects k,
    sort_newest-IsNewestFirst (keep is_open (values s.projects)),
  );
  append_event_lem =
      λ s e k. ((append_event e s).1, refl, k, λ j. refl, refl, log_of-append_event s e);
  history_lem = λ s id limit k. (
    (history id limit s).1,
    ground (arith, history_result s id limit),
    ground (arith, k),
    λ j. ground arith,
    ground arith,
    λ j. log_of-history s id j limit,
  );
}

-- The in-memory store keeps every promise of the store's port. A client sees its dictionaries: it
-- is sound where each project stands under its own id, once, it finds what the dictionary of projects
-- has, lists the open ones of it, each of them, the newest first, and has the logs of the dictionary
-- of events.
pub memory_store-IsStore :
    (laws : IsStore memory_store) × ((s : Memory) → Keyed s.projects → laws.IsSound s)
    × ((s : Memory) (id : String) → laws.find s id ≡ lookup id s.projects)
    × ((s : Memory) → laws.active s ≡ length (keep is_open (values s.projects)))
    × ((s : Memory) (id : String) → laws.log s id ≡ get_or id [] s.events)
unfolding memory_laws open_projects
memory_store-IsStore = (memory_laws, λ s k. k, λ s id. refl, λ s. refl, λ s id. refl)
