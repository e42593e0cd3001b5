-- ===== src/Store/Redis/Relation.antt =====
-- When a Redis holds what the dictionaries of the in-memory store hold, and which writes keep it so.
use agentic_crew.Prelude.{
  ℕ, String, Bool, true, false, Option, none, some, List, map, Dict, lookup, insert, lookup-insert,
  ◌≡◌, ◌≢◌, refl, sym, ap, subst, ◌∙◌, ◌==◌, ◌<>◌, eq_false, eq_refl, if◌then◌else◌,
}
use agentic_crew.Exec.{Result}
use agentic_crew.Project.{Project}
use agentic_crew.Contract.Events.{Event}
use agentic_crew.Store.Memory.{Memory}
use agentic_crew.Store.Memory.Laws.{log_of}
use agentic_crew.Wire.{Codec}
use agentic_crew.Wire.Events
use agentic_crew.Wire.Projects
use agentic_crew.Store.Redis.{project_key, history_key, active_key}
use agentic_crew.Store.Redis.Client.{Redis, IsRedis, Slot, absent, text, list_slot, index_slot}
use agentic_crew.Store.Redis.Keys.{
  eq-project_key, project_key-history_key, project_key-active_key, history_key-active_key,
}

-- An id that does not end in `:history`, so that its key is the history of no other.
abbrev pub IsPlain : String → Type 0
IsPlain id = (other : String) → id ≢ other <> ":history"

module _ (c : Codec) (redis : Redis c.Text) (laws : IsRedis redis) (prefix : String) where
  abbrev pub project_slot : Option Project → Slot c.Text
  project_slot none = absent
  project_slot (some p) = text (Projects.encode_project c p)

  abbrev pub encoded : List Event → List c.Text
  encoded = map (Events.encode_event c)

  -- Redis holds what the dictionaries hold, as JSON under its keys.
  pub record Agrees (s : redis.State) (m : Memory) : Type 0 where
    pub projects :
        (id : String)
        → IsPlain id
        → laws.at s (project_key prefix id) ≡ project_slot (lookup id m.projects)
    pub logs : (id : String) → laws.at s (history_key prefix id) ≡ list_slot (encoded (log_of m id))
    pub index : (zs : Dict ℕ) × (laws.at s (active_key prefix) ≡ index_slot zs)

  abbrev pub Wrote : redis.State → redis.State → String → Slot c.Text → Type 0
  Wrote s s' k slot = (j : String) → laws.at s' j ≡ (if k == j then slot else laws.at s j)

  pub elsewhere :
      (s s' : redis.State) (k j : String) (slot : Slot c.Text)
      → Wrote s s' k slot
      → k ≢ j
      → laws.at s' j ≡ laws.at s j
  elsewhere s s' k j slot wrote other = wrote j ∙ rw (eq_false k j other) refl

  project_slot-if :
      (b : Bool) (p : Project) (o : Option Project)
      → project_slot (if b then some p else o)
        ≡ (if b then text (Projects.encode_project c p) else project_slot o)
  project_slot-if true p o = refl
  project_slot-if false p o = refl

  pub Agrees-project :
      (s s' : redis.State) (m : Memory) (p : Project)
      → Agrees s m
      → IsPlain p.id
      → Wrote s s' (project_key prefix p.id) (text (Projects.encode_project c p))
      → Agrees s' (record m { projects = insert p.id p m.projects })
  Agrees-project s s' m p a plain wrote = record {
    projects = λ id is_plain.
        wrote (project_key prefix id)
        ∙ rw (eq-project_key prefix p.id id) (
            rw (a.projects id is_plain) (
              sym (
                ap project_slot (lookup-insert p.id id p m.projects)
                ∙ project_slot-if (p.id == id) p (lookup id m.projects))));
    logs = λ id.
        elsewhere s s' (project_key prefix p.id) (history_key prefix id) _ wrote
          (λ h. plain id (project_key-history_key prefix p.id id h))
        ∙ a.logs id;
    index = (
      a.index.0,
      elsewhere s s' (project_key prefix p.id) (active_key prefix) _ wrote
            (project_key-active_key prefix p.id)
          ∙ a.index.1,
    );
  }

  pub Agrees-index :
      (s s' : redis.State) (m : Memory) (zs : Dict ℕ)
      → Agrees s m
      → Wrote s s' (active_key prefix) (index_slot zs)
      → Agrees s' m
  Agrees-index s s' m zs a wrote = record {
    projects = λ id is_plain.
        elsewhere s s' (active_key prefix) (project_key prefix id) _ wrote
          (λ h. project_key-active_key prefix id (sym h))
        ∙ a.projects id is_plain;
    logs = λ id.
        elsewhere s s' (active_key prefix) (history_key prefix id) _ wrote
          (λ h. history_key-active_key prefix id (sym h))
        ∙ a.logs id;
    index = (zs, wrote (active_key prefix) ∙ rw (eq_refl (active_key prefix)) refl);
  }

  pub record Same {A : Type 0} (x : Result A × redis.State) (y : Result A × Memory) : Type 0 where
    pub result : x.0 ≡ y.0
    pub agrees : Agrees x.1 y.1

  pub same :
      {A : Type 0} {x : Result A × redis.State} {y : Result A × Memory} (r : Result A)
      (s' : redis.State) (m' : Memory)
      → x ≡ (r, s')
      → y ≡ (r, m')
      → Agrees s' m'
      → Same x y
  same {A} {x} {y} r s' m' ex ey a =
      subst (λ u. Same u y) (sym ex)
        (subst (λ v. Same (r, s') v) (sym ey) (record { result = refl; agrees = a }))

  pub not_absent : {t : c.Text} {slot : Slot c.Text} → slot ≡ text t → slot ≢ absent
  not_absent h g = cc
