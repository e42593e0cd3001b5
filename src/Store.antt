-- ===== src/Store.antt =====
-- apps/control_plane/ports/store.py: the ProjectStore port, with what its clients rely on.
pub mod Memory
pub mod Redis
use agentic_crew.Prelude.{
  ℕ, zero, suc, ◌+◌, ◌≤◌, String, Bool, false, not, ◌≡◌, Option, none, some, List, [], ◌∷◌, ◌++◌,
  length, last_n, drop, ◌==◌, if◌then◌else◌,
}
use agentic_crew.Exec.{Exec, Error, ok, err}
use agentic_crew.Project.{Project, is_terminal}
use agentic_crew.Contract.Value.{ℤ, pos, negsuc}
use agentic_crew.Contract.Events.{Event}

-- `MAX_HISTORY_PER_PROJECT`
abbrev pub max_history : ℕ
max_history = 1000

-- The operations. Each may raise, and may change the store's state before it does.
pub record Store : Type 1 where
  pub State : Type 0
  pub create : Project → Exec State Project
  pub get : String → Exec State (Option Project)
  pub save : Project → Exec State Project
  pub list_active : Exec State (List Project)
  pub append_event : Event → Exec State (Unit {0})
  pub history : String → ℤ → Exec State (List Event)

-- Python's `xs[-limit:]`, which is the whole list at a limit of 0.
abbrev pub tail_slice {ℓ} : {A : Type ℓ} → ℤ → List A → List A
tail_slice (pos zero) xs = xs
tail_slice (pos (suc n)) xs = last_n (suc n) xs
tail_slice (negsuc n) xs = drop (suc n) xs

-- 1 for a project that is still open, and 0 for one that is closed.
abbrev pub open_count : Project → ℕ
open_count p = if is_terminal p.status then 0 else 1

-- The project of a list that has an id, and a project that is found, if it is open.
abbrev pub named : String → List Project → Option Project
named id [] = none
named id (p ∷ ps) = if p.id == id then some p else named id ps

abbrev pub if_open : Option Project → Option Project
if_open none = none
if_open (some p) = if is_terminal p.status then none else some p

-- No project of the list comes after one that is older.
abbrev pub StartsBy : ℕ → List Project → Type 0
StartsBy moment [] = Unit {0}
StartsBy moment (p ∷ ps) = p.created_at ≤ moment

abbrev pub IsNewestFirst : List Project → Type 0
IsNewestFirst [] = Unit {0}
IsNewestFirst (p ∷ ps) = StartsBy p.created_at ps × IsNewestFirst ps

-- What a store promises, over what a client can see of its state: the projects by their ids, how
-- many are open, and the events of each project. `IsSound` is the store's own invariant.
pub record IsStore (st : Store) : Type 1 where
  pub IsSound : st.State → Type 0
  pub find : st.State → String → Option Project
  pub active : st.State → ℕ
  pub log : st.State → String → List Event
  pub get_lem : (s : st.State) (id : String) → IsSound s → st.get id s ≡ (ok (find s id), s)
  pub find_id :
      (s : st.State) (id : String) (p : Project) → IsSound s → find s id ≡ some p → p.id ≡ id
  pub create_taken :
      (s : st.State) (p q : Project)
      → IsSound s
      → find s p.id ≡ some q
      → (e : Error) × (st.create p s ≡ (err e, s))
  pub create_fresh :
      (s : st.State) (p : Project)
      → IsSound s
      → find s p.id ≡ none
      → is_terminal p.status ≡ false
      → (s' : st.State) × (st.create p s ≡ (ok p, s'))
        × IsSound s'
        × ((j : String) → find s' j ≡ (if p.id == j then some p else find s j))
        × (active s' ≡ active s + 1)
        × ((j : String) → log s' j ≡ log s j)
  pub save_missing :
      (s : st.State) (p : Project)
      → IsSound s
      → find s p.id ≡ none
      → (e : Error) × (st.save p s ≡ (err e, s))
  pub save_found :
      (s : st.State) (p q : Project)
      → IsSound s
      → find s p.id ≡ some q
      → (s' : st.State) × (st.save p s ≡ (ok p, s'))
        × IsSound s'
        × ((j : String) → find s' j ≡ (if p.id == j then some p else find s j))
        × (active s' + open_count q ≡ active s + open_count p)
        × ((j : String) → log s' j ≡ log s j)
  pub list_active_lem :
      (s : st.State)
      → IsSound s
      → (ps : List Project) × (st.list_active s ≡ (ok ps, s))
        × (length ps ≡ active s)
        × ((id : String) → named id ps ≡ if_open (find s id))
        × IsNewestFirst ps
  pub append_event_lem :
      (s : st.State) (e : Event)
      → IsSound s
      → (s' : st.State) × (st.append_event e s ≡ (ok tt, s'))
        × IsSound s'
        × ((j : String) → find s' j ≡ find s j)
        × (active s' ≡ active s)
        × ((j : String)
            → log s' j
              ≡ (if e.project_id == j then last_n max_history (log s j ++ e ∷ []) else log s j))
  pub history_lem :
      (s : st.State) (id : String) (limit : ℤ)
      → IsSound s
      → (s' : st.State) × (st.history id limit s ≡ (ok (tail_slice limit (log s id)), s'))
        × IsSound s'
        × ((j : String) → find s' j ≡ find s j)
        × (active s' ≡ active s)
        × ((j : String) → log s' j ≡ log s j)
