-- ===== src/Prelude/Lists.antt =====
-- Lists measured by native numbers, and Python's list operations over them.
use Prim.Native.Nat.{ℕ, zero, suc, ◌+◌, ◌-◌, ◌≤◌}
use mathlib.Core.Bool.{Bool}
use mathlib.Core.List.{List, [], ◌∷◌, ◌++◌, map}
use mathlib.Core.Path.{◌≡◌, refl, sym, ap, ◌∙◌}
use native.Mathlib.Omega.{arith}
use agentic_crew.Prelude.Tests.{if◌then◌else◌}

module _ {ℓ} {A : Type ℓ} where
  abbrev pub length : List A → ℕ
  length [] = 0
  length (x ∷ xs) = suc (length xs)

  abbrev pub drop : ℕ → List A → List A
  drop zero xs = xs
  drop (suc n) [] = []
  drop (suc n) (x ∷ xs) = drop n xs

  -- `[x for x in xs if p(x)]`
  abbrev pub keep : (A → Bool) → List A → List A
  keep p [] = []
  keep p (x ∷ xs) = if p x then x ∷ keep p xs else keep p xs

  -- Python's `xs[-n:]` for a positive `n`, and `del xs[:len(xs) - n]`.
  abbrev pub last_n : ℕ → List A → List A
  last_n n xs = drop (length xs - n) xs

  pub length-append : (xs ys : List A) → length (xs ++ ys) ≡ length xs + length ys
  length-append [] ys = omega arith
  length-append (x ∷ xs) ys = omega (arith, length-append xs ys)

  pub length-drop : (n : ℕ) (xs : List A) → length (drop n xs) ≡ length xs - n
  length-drop zero xs = omega arith
  length-drop (suc n) [] = omega arith
  length-drop (suc n) (x ∷ xs) = omega (arith, length-drop n xs)

  pub drop-append : (n : ℕ) (xs ys : List A) → n ≤ length xs → drop n (xs ++ ys) ≡ drop n xs ++ ys
  drop-append zero xs ys h = refl
  drop-append (suc n) [] ys h = absurd (omega arith)
  drop-append (suc n) (x ∷ xs) ys h = drop-append n xs ys (omega arith)

  drop-nil : (n : ℕ) → drop n [] ≡ []
  drop-nil zero = refl
  drop-nil (suc n) = refl

  pub drop-drop : (m n : ℕ) (xs : List A) → drop m (drop n xs) ≡ drop (n + m) xs
  drop-drop m zero xs = ap (λ (k : ℕ). drop k xs) (omega arith)
  drop-drop m (suc n) [] = drop-nil m ∙ sym (drop-nil (suc n + m))
  drop-drop m (suc n) (x ∷ xs) =
      let e : suc (n + m) ≡ suc n + m = omega arith in
      drop-drop m n xs ∙ ap (λ (k : ℕ). drop k (x ∷ xs)) e

  pub length-keep-le : (p : A → Bool) (xs : List A) → length (keep p xs) ≤ length xs
  length-keep-le p [] = omega arith
  length-keep-le p (x ∷ xs) = ground (arith, length-keep-le p xs)

  -- Dropping others first leaves no more of the wanted ones.
  pub length-keep-keep-le :
      (p q : A → Bool) (xs : List A) → length (keep p (keep q xs)) ≤ length (keep p xs)
  length-keep-keep-le p q [] = omega arith
  length-keep-keep-le p q (x ∷ xs) = ground (arith, length-keep-keep-le p q xs)

  pub keep-append : (p : A → Bool) (xs ys : List A) → keep p (xs ++ ys) ≡ keep p xs ++ keep p ys
  keep-append p [] ys = refl
  keep-append p (x ∷ xs) ys = ground (arith, keep-append p xs ys)

  pub length-keep-snoc :
      (p : A → Bool) (xs : List A) (x : A)
      → length (keep p (xs ++ x ∷ [])) ≡ length (keep p xs) + (if p x then 1 else 0)
  length-keep-snoc p [] x = ground arith
  length-keep-snoc p (y ∷ xs) x = ground (arith, length-keep-snoc p xs x)

  -- What is kept of a tail and of more is what is kept of the whole.
  pub last_n-append : (n : ℕ) (xs ys : List A) → last_n n (last_n n xs ++ ys) ≡ last_n n (xs ++ ys)
  last_n-append n xs ys =
      let cut = length xs - n in
      let moved = drop-append cut xs ys (omega arith) in
      let start : length xs - n + (length (last_n n xs ++ ys) - n) ≡ length (xs ++ ys) - n = omega (
        arith,
        length-append (last_n n xs) ys,
        length-append xs ys,
        length-drop (length xs - n) xs,
      ) in
      ap (drop (length (last_n n xs ++ ys) - n)) (sym moved)
      ∙ drop-drop (length (last_n n xs ++ ys) - n) cut (xs ++ ys)
      ∙ ap (λ (k : ℕ). drop k (xs ++ ys)) start

  pub last_n-all : (n : ℕ) (xs : List A) → length xs ≤ n → last_n n xs ≡ xs
  last_n-all n xs h =
      let none_left : length xs - n ≡ 0 = omega arith in ap (λ (k : ℕ). drop k xs) none_left

  pub length-last_n-le : (n : ℕ) (xs : List A) → length (last_n n xs) ≤ n
  length-last_n-le n xs = omega (arith, length-drop (length xs - n) xs)

  pub append_nil : (xs : List A) → xs ++ [] ≡ xs
  append_nil [] = refl
  append_nil (x ∷ xs) = ap (λ ys. x ∷ ys) (append_nil xs)

  pub append_assoc : (xs ys zs : List A) → (xs ++ ys) ++ zs ≡ xs ++ (ys ++ zs)
  append_assoc [] ys zs = refl
  append_assoc (x ∷ xs) ys zs = ap (λ us. x ∷ us) (append_assoc xs ys zs)

module _ {ℓ κ} {A : Type ℓ} {B : Type κ} where
  pub length-map : (xs : List A) (f : A → B) → length (map f xs) ≡ length xs
  length-map [] f = refl
  length-map (x ∷ xs) f = ap suc (length-map xs f)

  pub map-drop : (n : ℕ) (xs : List A) (f : A → B) → map f (drop n xs) ≡ drop n (map f xs)
  map-drop zero xs f = refl
  map-drop (suc n) [] f = refl
  map-drop (suc n) (x ∷ xs) f = map-drop n xs f

  pub map-last_n : (n : ℕ) (xs : List A) (f : A → B) → map f (last_n n xs) ≡ last_n n (map f xs)
  map-last_n n xs f =
      map-drop (length xs - n) xs f
      ∙ ap (λ (k : ℕ). drop (k - n) (map f xs)) (sym (length-map xs f))
