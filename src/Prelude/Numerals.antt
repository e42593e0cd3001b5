-- ===== src/Prelude/Numerals.antt =====
-- The digits of a text read back as a number, so that numbered names can be told apart.
use Prim.Native.Char.{code}
use Prim.Native.Nat.{ℕ, zero, suc, ◌+◌, ◌-◌, ◌*◌, ◌/◌, ◌%◌, ◌<◌}
use Prim.Native.String.{String}
use Prim.Native.String.append
use mathlib.Core.Bool.{◌&&◌}
use mathlib.Core.Logic.{inl, inr}
use mathlib.Core.Path.{◌≡◌, ap, ◌∙◌}
use native.Mathlib.Omega.{arith}
use agentic_crew.Prelude.Tests.{leb, eqb, if◌then◌else◌, Bool-cases}
use agentic_crew.Prelude.Texts.{◌<>◌, show_nat, digit_text, show_from}

-- Reads the digits in front of which `acc` has been read, and passes over all else.
unfoldable pub read_digits : ℕ → String → ℕ
read_digits acc String.[] = acc
read_digits acc (String.◌∷◌ c s) =
    read_digits (if leb 48 (code c) && leb (code c) 57 then acc * 10 + (code c - 48) else acc) s

pub read_digits-append :
    (acc : ℕ) (s t : String) → read_digits acc (s <> t) ≡ read_digits (read_digits acc s) t
unfolding read_digits
read_digits-append acc String.[] t = ap (read_digits acc) (append.nil t)
read_digits-append acc (String.◌∷◌ c s) t =
    ap (read_digits acc) (append.cons c s t)
    ∙ read_digits-append
        (if leb 48 (code c) && leb (code c) 57 then acc * 10 + (code c - 48) else acc) s t

read_digits-digit_text : (acc d : ℕ) → d < 10 → read_digits acc (digit_text d) ≡ acc * 10 + d
unfolding read_digits digit_text
read_digits-digit_text acc zero h = omega arith
read_digits-digit_text acc (suc zero) h = omega arith
read_digits-digit_text acc (suc (suc zero)) h = omega arith
read_digits-digit_text acc (suc (suc (suc zero))) h = omega arith
read_digits-digit_text acc (suc (suc (suc (suc zero)))) h = omega arith
read_digits-digit_text acc (suc (suc (suc (suc (suc zero))))) h = omega arith
read_digits-digit_text acc (suc (suc (suc (suc (suc (suc zero)))))) h = omega arith
read_digits-digit_text acc (suc (suc (suc (suc (suc (suc (suc zero))))))) h = omega arith
read_digits-digit_text acc (suc (suc (suc (suc (suc (suc (suc (suc zero)))))))) h = omega arith
read_digits-digit_text acc (suc (suc (suc (suc (suc (suc (suc (suc (suc zero))))))))) h =
    omega arith
read_digits-digit_text acc (suc (suc (suc (suc (suc (suc (suc (suc (suc (suc n)))))))))) h =
    absurd (omega arith)

read_digits-show_from :
    (fuel n : ℕ) (acc : String)
    → n < fuel
    → read_digits 0 (show_from fuel n acc) ≡ read_digits n acc
unfolding show_from
read_digits-show_from zero n acc h = absurd (omega arith)
read_digits-show_from (suc fuel) n acc h = elim (Bool-cases (eqb (n / 10) 0)) [
  | inl e ↦
      let same : 0 * 10 + n % 10 ≡ n = ground arith in
      rw e (digit_first 0 ∙ ap (λ (k : ℕ). read_digits k acc) same)
  | inr e ↦
      let same : n / 10 * 10 + n % 10 ≡ n = omega arith in
      let smaller : n / 10 < fuel = ground arith in
      rw e (
        read_digits-show_from fuel (n / 10) (digit_text (n % 10) <> acc) smaller
        ∙ digit_first (n / 10)
        ∙ ap (λ (k : ℕ). read_digits k acc) same)
]
  where
    digit_first :
        (k : ℕ) → read_digits k (digit_text (n % 10) <> acc) ≡ read_digits (k * 10 + n % 10) acc
    digit_first k =
        read_digits-append k (digit_text (n % 10)) acc
        ∙ ap (λ (m : ℕ). read_digits m acc) (read_digits-digit_text k (n % 10) (omega arith))

-- A printed number reads back as itself.
pub read_digits-show_nat : (n : ℕ) → read_digits 0 (show_nat n) ≡ n
unfolding show_nat read_digits
read_digits-show_nat n = read_digits-show_from (suc n) n "" (omega arith)
