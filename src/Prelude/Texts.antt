-- ===== src/Prelude/Texts.antt =====
-- Texts: joining, decimal numerals, and Python's `str` operations that the program calls.
use Prim.Native.Char.{code}
use Prim.Native.Nat.{ℕ, zero, suc, ◌+◌, ◌≤◌, ◌/◌, ◌%◌}
use Prim.Native.String.{String}
use Prim.Native.String
use Prim.Native.String.count
use mathlib.Core.Bool.{false}
use mathlib.Core.Logic.{◌≢◌, inl, inr}
use mathlib.Core.Path.{◌≡◌, refl, sym, ap, ap₂, ◌∙◌}
use native.Mathlib.Omega.{arith}
use text.Mathlib.TextPositions.{len-append, slice-append_left, slice-append_right}
use text.Mathlib.Text.{◌==◌}
use text.Mathlib.TextEquality.{eq_iff}
use mathlib.Core.List.{List, [], ◌∷◌}
use agentic_crew.Prelude.Tests.{if◌then◌else◌, eqb, Bool-cases}

infixr 65 ◌<>◌
abbrev pub ◌<>◌ : String → String → String
s <> t = String.◌++◌ s t

-- The code points of a text.
abbrev pub codes : String → List ℕ
codes String.[] = []
codes (String.◌∷◌ c s) = code c ∷ codes s

unfoldable pub digit_text : ℕ → String
digit_text zero = "0"
digit_text (suc zero) = "1"
digit_text (suc (suc zero)) = "2"
digit_text (suc (suc (suc zero))) = "3"
digit_text (suc (suc (suc (suc zero)))) = "4"
digit_text (suc (suc (suc (suc (suc zero))))) = "5"
digit_text (suc (suc (suc (suc (suc (suc zero)))))) = "6"
digit_text (suc (suc (suc (suc (suc (suc (suc zero))))))) = "7"
digit_text (suc (suc (suc (suc (suc (suc (suc (suc zero)))))))) = "8"
digit_text _ = "9"

-- The digits of `n` in front of `acc`; a number has no more digits than its value plus one.
unfoldable pub show_from : ℕ → ℕ → String → String
show_from zero n acc = acc
show_from (suc fuel) n acc =
    let text = digit_text (n % 10) <> acc in
    let rest = show_from fuel (n / 10) text in if eqb (n / 10) 0 then text else rest

-- Python's `str(n)` for a number that is not negative.
unfoldable pub show_nat : ℕ → String
unfolding show_from digit_text
show_nat n = show_from (suc n) n ""

-- Texts that differ compare as different.
pub eq_false : (s t : String) → s ≢ t → (s == t) ≡ false
eq_false s t h = elim (Bool-cases (s == t)) [ inl e ↦ absurd (h ((eq_iff s t).0 e)) | inr e ↦ e ]

pub cancel_left : (s t u : String) → s <> t ≡ s <> u → t ≡ u
cancel_left s t u h =
    sym (slice-append_right s t)
    ∙ ap₂ (λ (x : String) (n : ℕ). String.slice x (String.len s) (String.len s + n)) h same_len
    ∙ slice-append_right s u
  where
    same_len : String.len t ≡ String.len u
    same_len = omega (arith, ap String.len h, len-append s t, len-append s u)

pub cancel_right : (s t u : String) → t <> s ≡ u <> s → t ≡ u
cancel_right s t u h =
    sym (slice-append_left t s)
    ∙ ap₂ (λ (x : String) (n : ℕ). String.slice x 0 n) h same_len
    ∙ slice-append_left u s
  where
    same_len : String.len t ≡ String.len u
    same_len = omega (arith, ap String.len h, len-append t s, len-append u s)

-- `text[:n]`
unfoldable pub take : ℕ → String → String
take zero s = String.[]
take (suc n) String.[] = String.[]
take (suc n) (String.◌∷◌ c s) = String.◌∷◌ c (take n s)

pub count-take-le : (n : ℕ) (s : String) → String.count (take n s) ≤ n
unfolding take
count-take-le zero s = omega (arith, count.nil)
count-take-le (suc n) String.[] = omega (arith, count.nil)
count-take-le (suc n) (String.◌∷◌ c s) = omega (arith, count.cons c (take n s), count-take-le n s)

pub take_all : (n : ℕ) (s : String) → String.count s ≤ n → take n s ≡ s
unfolding take
take_all zero String.[] h = refl
take_all zero (String.◌∷◌ c s) h = absurd (omega (arith, count.cons c s))
take_all (suc n) String.[] h = refl
take_all (suc n) (String.◌∷◌ c s) h =
    ap (λ t. String.◌∷◌ c t) (take_all n s (omega (arith, count.cons c s)))
