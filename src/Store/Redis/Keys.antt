-- ===== src/Store/Redis/Keys.antt =====
-- The keys of adapters/redis_store.py: which of them can be the same.
use Prim.Native.String
use text.Mathlib.TextPositions.{slice-append_left}
use agentic_crew.Prelude.{
  String, ◌≡◌, ◌≢◌, sym, ap, ◌∙◌, ◌<>◌, eq_iff, eq_false, cancel_left, cancel_right, Bool, true,
  false, ◌==◌, Bool-cases, inl, inr,
}
use agentic_crew.Store.Redis.{project_key, history_key, active_key}

pub project_key-injective :
    (prefix p q : String) → project_key prefix p ≡ project_key prefix q → p ≡ q
unfolding project_key
project_key-injective prefix p q h =
    cancel_left ":project:" p q (cancel_left prefix (":project:" <> p) (":project:" <> q) h)

pub history_key-injective :
    (prefix p q : String) → history_key prefix p ≡ history_key prefix q → p ≡ q
unfolding history_key
history_key-injective prefix p q h = cancel_right ":history" p q (
    cancel_left ":project:" (p <> ":history") (q <> ":history")
      (cancel_left prefix (":project:" <> (p <> ":history")) (":project:" <> (q <> ":history")) h))

-- A project's key is another's history only where its id is the other's with `:history` behind it.
pub project_key-history_key :
    (prefix p q : String) → project_key prefix p ≡ history_key prefix q → p ≡ q <> ":history"
unfolding project_key history_key
project_key-history_key prefix p q h =
    cancel_left ":project:" p (q <> ":history")
      (cancel_left prefix (":project:" <> p) (":project:" <> (q <> ":history")) h)

colon_or_s : (s : String) → ":project:" <> s ≢ ":projects:active"
colon_or_s s h =
    let start : ◌≡◌ {A = String} ":project:" ":projects" =
      sym (slice-append_left ":project:" s) ∙ ap (λ (x : String). String.slice x 0 9) h in
    let same : (":project:" == ":projects") ≡ true = (eq_iff ":project:" ":projects").1 start in cc

pub project_key-active_key : (prefix p : String) → project_key prefix p ≢ active_key prefix
unfolding project_key active_key
project_key-active_key prefix p h =
    colon_or_s p (cancel_left prefix (":project:" <> p) ":projects:active" h)

pub history_key-active_key : (prefix p : String) → history_key prefix p ≢ active_key prefix
unfolding history_key active_key
history_key-active_key prefix p h =
    colon_or_s (p <> ":history")
      (cancel_left prefix (":project:" <> (p <> ":history")) ":projects:active" h)

eq_under :
    (f : String → String)
    → ((s t : String) → f s ≡ f t → s ≡ t)
    → (s t : String) → (f s == f t) ≡ (s == t)
eq_under f injective s t = elim (Bool-cases (s == t)) [
  | inl e ↦ let same : s ≡ t = (eq_iff s t).0 e in e' e ((eq_iff (f s) (f t)).1 (ap f same))
  | inr e ↦ e' e (eq_false (f s) (f t) λ h. differ e (injective s t h))
]
  where
    e' : {b : Bool} → (s == t) ≡ b → (f s == f t) ≡ b → (f s == f t) ≡ (s == t)
    e' h g = g ∙ sym h

    differ : (s == t) ≡ false → s ≢ t
    differ h g = let h' : (s == t) ≡ true = (eq_iff s t).1 g in cc

pub eq-project_key :
    (prefix p q : String) → (project_key prefix p == project_key prefix q) ≡ (p == q)
eq-project_key prefix = eq_under (project_key prefix) (project_key-injective prefix)

pub eq-history_key :
    (prefix p q : String) → (history_key prefix p == history_key prefix q) ≡ (p == q)
eq-history_key prefix = eq_under (history_key prefix) (history_key-injective prefix)
