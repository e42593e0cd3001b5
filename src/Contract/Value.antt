-- ===== src/Contract/Value.antt =====
-- The values of a payload: what `json.dumps` writes, but for floats, which no payload of the
-- control plane carries.

use mathlib.Core.Option
use agentic_crew.Prelude.{
  ℕ, zero, suc, ◌+◌, ◌-◌, ◌*◌, String, Bool, false, true, ◌&&◌, ◌||◌, Option, none, some, List, [],
  ◌∷◌, Dict, codes, ◌≡◌, refl, leb, show_nat, ◌<>◌, eqb, if◌then◌else◌,
}
use agentic_crew.Project.{lstrip, rstrip, is_space}
use agentic_crew.Exec.{type_error, value_error, Result, ok, err}

-- Python's `int`: `negsuc n` is -(n + 1).
pub data ℤ : Type 0 where
  pos : ℕ → ℤ
  negsuc : ℕ → ℤ

abbrev pub pos_part : ℤ → ℕ
pos_part (pos n) = n
pos_part (negsuc n) = 0

abbrev pub neg_part : ℤ → ℕ
neg_part (pos n) = 0
neg_part (negsuc n) = suc n

-- a - b, as an integer
abbrev pub sub_ℕ : ℕ → ℕ → ℤ
sub_ℕ a b = if leb b a then pos (a - b) else negsuc (b - a - 1)

infixl 65 ◌+ℤ◌
unfoldable pub ◌+ℤ◌ : ℤ → ℤ → ℤ
a +ℤ b = sub_ℕ (pos_part a + pos_part b) (neg_part a + neg_part b)

-- `str(n)`
abbrev pub show_int : ℤ → String
show_int (pos n) = show_nat n
show_int (negsuc n) = "-" <> show_nat (n + 1)

-- a < n, for a bound that is not negative
abbrev pub below : ℤ → ℕ → Bool
below (pos m) n = elim (leb n m) [ true ↦ false | false ↦ true ]
below (negsuc m) n = true

mutual
  pub data Value : Type 0 where
    str : String → Value
    int : ℤ → Value
    bool : Bool → Value
    null : Value
    obj : Fields → Value
    arr : Elements → Value

  pub data Fields : Type 0 where
    no_fields : Fields
    entry : String → Value → Fields → Fields

  pub data Elements : Type 0 where
    no_elements : Elements
    element : Value → Elements → Elements

abbrev pub Payload : Type 0
Payload = Dict Value

-- A list of texts as a value.
unfoldable pub texts : List String → Elements
texts [] = no_elements
texts (x ∷ xs) = element (str x) (texts xs)

is_digit : ℕ → Bool
is_digit c = leb 48 c && leb c 57

-- The digits of a numeral, with single underscores between them; the flag says that the character
-- before was a digit.
numeral : Bool → ℕ → List ℕ → Option ℕ
unfolding is_digit
numeral ended n [] = if ended then some n else none
numeral ended n (c ∷ cs) =
    let rest = numeral (is_digit c) (if is_digit c then n * 10 + (c - 48) else n) cs in
    if is_digit c || (eqb c b'_' && ended) then rest else none

negate : ℕ → ℤ
negate zero = pos 0
negate (suc n) = negsuc n

signed : List ℕ → Option ℤ
signed [] = none
signed (c ∷ cs) =
    if eqb c b'-'
    then Option.map negate (numeral false 0 cs)
    else if eqb c b'+'
    then Option.map pos (numeral false 0 cs)
    else Option.map pos (numeral false 0 (c ∷ cs))

-- Python's `int(value)`. Of a text it reads the digits of ASCII.
unfoldable pub to_int : Value → Result ℤ
unfolding numeral negate signed
to_int null = err (type_error "int() argument must be a number, not 'NoneType'")
to_int (bool true) = ok (pos 1)
to_int (bool false) = ok (pos 0)
to_int (int n) = ok n
to_int (str s) = elim (signed (codes (rstrip (lstrip s)))) [
  | none ↦ err (value_error "invalid literal for int() with base 10")
  | some n ↦ ok n
]
to_int (arr xs) = err (type_error "int() argument must be a number, not 'list'")
to_int (obj fs) = err (type_error "int() argument must be a number, not 'dict'")

to_int_runs : to_int (str " -1_024 ") ≡ ok (negsuc 1023)
unfolding to_int lstrip rstrip is_space
to_int_runs = refl
