-- ===== src/Store/Redis/Client.antt =====
-- The commands of Redis that the store sends, and what Redis documents of them.
use agentic_crew.Prelude.{
  ℕ, suc, String, Bool, true, false, Option, none, some, List, [], ◌∷◌, ◌++◌, map, Dict, lookup,
  insert, erase, contains, drop, last_n, ◌≡◌, ◌≢◌, ◌==◌, if◌then◌else◌,
}
use agentic_crew.Exec.{Exec, ok}
use agentic_crew.Contract.Value.{ℤ, pos, negsuc}

-- What a key holds: nothing, a string, a list, or a sorted set, as its members with their scores.
pub data Slot (T : Type 0) : Type 0 where
  absent : Slot T
  text : T → Slot T
  items : List T → Slot T
  scores : Dict ℕ → Slot T

-- The commands of a pipeline.
pub data Command (T : Type 0) : Type 0 where
  rpush : String → T → Command T
  ltrim : String → ℤ → ℤ → Command T

pub record Redis (T : Type 0) : Type 1 where
  pub State : Type 0
  pub set_nx : String → T → Exec State Bool
  pub set_xx : String → T → Exec State Bool
  pub get : String → Exec State (Option T)
  pub mget : List String → Exec State (List (Option T))
  pub zadd : String → String → ℕ → Exec State (Unit {0})
  pub zrem : String → String → Exec State (Unit {0})
  pub zrevrange : String → ℤ → ℤ → Exec State (List String)
  pub execute : List (Command T) → Exec State (Unit {0})
  pub lrange : String → ℤ → ℤ → Exec State (List T)

module _ {T : Type 0} where
  -- A list and a sorted set that are empty are not kept.
  abbrev pub list_slot : List T → Slot T
  list_slot [] = absent
  list_slot (x ∷ xs) = items (x ∷ xs)

  abbrev pub index_slot : Dict ℕ → Slot T
  index_slot [] = absent
  index_slot (z ∷ zs) = scores (z ∷ zs)

  -- What `GET` and `MGET` give for a key: a string, or nothing.
  abbrev pub text_in : Slot T → Option T
  text_in (text t) = some t
  text_in _ = none

  -- The range from `start` to the end; a negative `start` counts from the end.
  abbrev pub from_start : ℤ → List T → List T
  from_start (pos n) xs = drop n xs
  from_start (negsuc n) xs = last_n (suc n) xs

-- What Redis documents, over what each key holds. A command on a key that holds another type raises,
-- and nothing is said of it here, but for `SET`, which writes over any type.
pub record IsRedis {T : Type 0} (r : Redis T) : Type 0 where
  pub at : r.State → String → Slot T
  pub set_nx_absent :
      (s : r.State) (k : String) (t : T)
      → at s k ≡ absent
      → (s' : r.State) × (r.set_nx k t s ≡ (ok true, s'))
        × ((j : String) → at s' j ≡ (if k == j then text t else at s j))
  pub set_nx_taken :
      (s : r.State) (k : String) (t : T) → at s k ≢ absent → r.set_nx k t s ≡ (ok false, s)
  pub set_xx_absent :
      (s : r.State) (k : String) (t : T) → at s k ≡ absent → r.set_xx k t s ≡ (ok false, s)
  pub set_xx_taken :
      (s : r.State) (k : String) (t : T)
      → at s k ≢ absent
      → (s' : r.State) × (r.set_xx k t s ≡ (ok true, s'))
        × ((j : String) → at s' j ≡ (if k == j then text t else at s j))
  pub get_absent : (s : r.State) (k : String) → at s k ≡ absent → r.get k s ≡ (ok none, s)
  pub get_text : (s : r.State) (k : String) (t : T) → at s k ≡ text t → r.get k s ≡ (ok (some t), s)
  pub mget_lem :
      (s : r.State) (ks : List String) → r.mget ks s ≡ (ok (map (λ k. text_in (at s k)) ks), s)
  pub zadd_lem :
      (s : r.State) (k member : String) (score : ℕ) (zs : Dict ℕ)
      → at s k ≡ index_slot zs
      → (s' : r.State) × (r.zadd k member score s ≡ (ok tt, s'))
        × ((j : String)
            → at s' j ≡ (if k == j then index_slot (insert member score zs) else at s j))
  pub zrem_lem :
      (s : r.State) (k member : String) (zs : Dict ℕ)
      → at s k ≡ index_slot zs
      → (s' : r.State) × (r.zrem k member s ≡ (ok tt, s'))
        × ((j : String) → at s' j ≡ (if k == j then index_slot (erase member zs) else at s j))
  pub zrevrange_lem :
      (s : r.State) (k : String) (zs : Dict ℕ)
      → at s k ≡ index_slot zs
      → (ids : List String) × (r.zrevrange k (pos 0) (negsuc 0) s ≡ (ok ids, s))
        × ((j : String) → (contains j ids ≡ true) → lookup j zs ≢ none)
        × ((j : String) → lookup j zs ≢ none → contains j ids ≡ true)
  pub execute_push_trim :
      (s : r.State) (k : String) (t : T) (start : ℤ) (xs : List T)
      → at s k ≡ list_slot xs
      → (s' : r.State) × (r.execute (rpush k t ∷ ltrim k start (negsuc 0) ∷ []) s ≡ (ok tt, s'))
        × ((j : String)
            → at s' j ≡ (if k == j then list_slot (from_start start (xs ++ t ∷ [])) else at s j))
  pub lrange_lem :
      (s : r.State) (k : String) (start : ℤ) (xs : List T)
      → at s k ≡ list_slot xs
      → r.lrange k start (negsuc 0) s ≡ (ok (from_start start xs), s)
