-- ===== src/Exec/Keeps.antt =====
-- Invariants of the methods of `CrewService`: a method that keeps one is put together from parts
-- that keep it.
use agentic_crew.Prelude.{◌≡◌, subst, sym, Bool, true, false, if◌then◌else◌}
use agentic_crew.Exec.{Exec, Result, ok, err, continue, ◌>>=◌}

-- The state that `m` leaves, by a return or by an exception, is in `P` if the one before was.
pub record Keeps {S A : Type 0} (P : S → Type 0) (m : Exec S A) : Type 0 where
  pub at : (s : S) → P s → P (m s).1

-- What holds of the state that a run is known to end in.
pub after :
    {S A : Type 0} (P : S → Type 0) {x : Result A × S} {r : Result A} {s : S}
    → x ≡ (r, s)
    → P s
    → P x.1
after P eq h = subst (λ y. P y.1) (sym eq) h

module _ {S A B : Type 0} {P : S → Type 0} where
  -- In `m >>= f`, the part after `m` is run only if `m` has returned.
  continue-P :
      (f : A → Exec S B)
      → ((a : A) → Keeps P (f a))
      → (x : Result A × S) → P x.1
      → P (continue x f).1
  continue-P f rest (err e, s) h = h
  continue-P f rest (ok a, s) h = (rest a).at s h

  pub Keeps-bind :
      (next : A → Exec S B) (first : Exec S A)
      → Keeps P first
      → ((v : A) → Keeps P (next v))
      → Keeps P (first >>= next)
  unfolding ◌>>=◌
  Keeps-bind next first held rest = record {
    at = λ s h. continue-P next rest (first s) (held.at s h);
  }

module _ {S A : Type 0} {P : S → Type 0} where
  -- A part that only looks at the state, such as a value that is returned or an exception.
  pub Keeps-still : (f : S → Result A) → Keeps P (λ s. (f s, s))
  Keeps-still f = record { at = λ s h. h }

  pub Keeps-pure : (a : A) → Keeps P (λ s. (ok a, s))
  Keeps-pure a = Keeps-still (λ s. ok a)

  pub Keeps-lift : (r : Result A) → Keeps P (λ s. (r, s))
  Keeps-lift r = Keeps-still (λ s. r)

  pub Keeps-if : (b : Bool) (m n : Exec S A) → Keeps P m → Keeps P n → Keeps P (if b then m else n)
  Keeps-if true m n held other = held
  Keeps-if false m n other held = held
