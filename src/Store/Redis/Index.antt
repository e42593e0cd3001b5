-- ===== src/Store/Redis/Index.antt =====
-- `list_active` of the Redis store: the index against the projects.
use agentic_crew.Prelude.{
  ℕ, String, true, Option, none, some, List, [], ◌∷◌, ◌++◌, map, Dict, lookup, contains, arith,
  eq_refl, append_nil, append_assoc, ◌≡◌, ◌≢◌, refl, sym, ap, ◌∙◌, if◌then◌else◌, Bool-cases, inl,
  inr,
}
use agentic_crew.Exec.{ok, bind_ok}
use agentic_crew.Project.{Project, is_terminal}
use agentic_crew.Store.Memory.{Memory}
use agentic_crew.Wire.{Codec, IsCodec}
use agentic_crew.Wire.Projects
use agentic_crew.Store.Redis.{
  project_key, active_key, list_active, consider, consider_all, read_index,
}
use agentic_crew.Store.Redis.Client.{Redis, IsRedis, text_in, index_slot}
use agentic_crew.Store.Redis.Relation.{IsPlain, Agrees, project_slot}

abbrev pub with_open : Option Project → List Project → List Project
with_open none ps = ps
with_open (some p) ps = if is_terminal p.status then ps else p ∷ ps

-- Of some ids, the projects that are open, in the order of the ids.
abbrev pub open_among : Dict Project → List String → List Project
open_among d [] = []
open_among d (id ∷ ids) = with_open (lookup id d) (open_among d ids)

-- An id of the index that is not stale.
abbrev pub Known : Dict Project → String → Type 0
Known d id = IsPlain id × ((p : Project) × (lookup id d ≡ some p))

module _ (c : Codec) (redis : Redis c.Text) (json : IsCodec c) (laws : IsRedis redis)
    (prefix : String) (s : redis.State) (m : Memory) (a : Agrees c redis laws prefix s m) where
  abbrev raws_of : List String → List (Option c.Text)
  raws_of ids = map (λ k. text_in (laws.at s k)) (map (project_key prefix) ids)

  consider_known :
      (id : String) (p : Project) (acc : List Project)
      → consider c redis prefix id (some (Projects.encode_project c p)) acc s
        ≡ (ok (if is_terminal p.status then acc else acc ++ p ∷ []), s)
  consider_known id p acc =
      bind_ok _ _ s (ap (λ r. (r, s)) (Projects.decode_project-encode_project c p json).1)

  consider_all-open_among :
      (ids : List String) (acc : List Project)
      → ((j : String) → contains j ids ≡ true → Known m.projects j)
      → consider_all c redis prefix ids (raws_of ids) acc s
        ≡ (ok (acc ++ open_among m.projects ids), s)
  unfolding consider_all contains
  consider_all-open_among [] acc known = ap (λ xs. (ok xs, s)) (sym (append_nil acc))
  consider_all-open_among (id ∷ ids) acc known =
      let (plain, (p, found)) = known id (rw (eq_refl id) refl) in
      let raw : text_in (laws.at s (project_key prefix id)) ≡ some (Projects.encode_project c p) =
        ap text_in (a.projects id plain ∙ ap (project_slot c redis laws prefix) found) in
      let later = λ (j : String) (h : contains j ids ≡ true). known j (ground arith) in
      let first : with_open (lookup id m.projects) (open_among m.projects ids)
          ≡ with_open (some p) (open_among m.projects ids) =
        ap (λ o. with_open o (open_among m.projects ids)) found in
      rw (raw, first)
        (bind_ok _ _ s (consider_known id p acc) ∙ elim (Bool-cases (is_terminal p.status)) [
          | inl over ↦ rw over (consider_all-open_among ids acc later)
          | inr still ↦ rw still (
              consider_all-open_among ids (acc ++ p ∷ []) later
              ∙ ap (λ xs. (ok xs, s)) (append_assoc acc (p ∷ []) (open_among m.projects ids)))
        ])

  read_index-open_among :
      (ids : List String)
      → ((j : String) → contains j ids ≡ true → Known m.projects j)
      → read_index c redis prefix ids s ≡ (ok (open_among m.projects ids), s)
  read_index-open_among [] known = refl
  read_index-open_among (id ∷ ids) known =
      bind_ok _ _ s (laws.mget_lem s (map (project_key prefix) (id ∷ ids)))
      ∙ consider_all-open_among (id ∷ ids) [] known

-- On a Redis that holds what the in-memory store holds, with an index in which no id is stale,
-- `list_active` changes nothing and returns the open projects of some ids, in their order: of every
-- id that the index has, and of no other.
pub list_active-open_among :
    (c : Codec) (redis : Redis c.Text) (json : IsCodec c) (laws : IsRedis redis) (prefix : String)
    (s : redis.State) (m : Memory) (zs : Dict ℕ)
    → Agrees c redis laws prefix s m
    → laws.at s (active_key prefix) ≡ index_slot zs
    → ((j : String) → lookup j zs ≢ none → Known m.projects j)
    → (ids : List String) × (list_active c redis prefix s ≡ (ok (open_among m.projects ids), s))
      × ((j : String) → contains j ids ≡ true → lookup j zs ≢ none)
      × ((j : String) → lookup j zs ≢ none → contains j ids ≡ true)
unfolding list_active
list_active-open_among c redis json laws prefix s m zs a indexed known =
    let (ids, ranged, sound, complete) = laws.zrevrange_lem s (active_key prefix) zs indexed in
    (
      ids,
      bind_ok _ _ s ranged
          ∙ read_index-open_among c redis json laws prefix s m a ids (λ j h. known j (sound j h)),
      sound,
      complete,
    )
