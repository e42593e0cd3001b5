-- ===== src/Service/Totals/Sums.antt =====
-- What the events of a log report of tokens, and bills by the ids of their projects.
use agentic_crew.Prelude.{
  eq_iff, String, Bool, true, false, ◌||◌, ◌≡◌, refl, ap, ◌∙◌, Option, none, some, List, [], ◌∷◌,
  ◌==◌, if◌then◌else◌, Dict, lookup, get_or, insert, lookup-insert,
}
use agentic_crew.Exec.{Result, ok, err}
use agentic_crew.Contract.Value.{ℤ, pos, ◌+ℤ◌, int, to_int}
use agentic_crew.Contract.Events.{Event}
use agentic_crew.Service.{is_usage}

-- Input and output tokens, where both can be read.
abbrev pub sum_of : Result ℤ → Result ℤ → Option ℤ
sum_of (ok input) (ok output) = some (input +ℤ output)
sum_of (ok input) (err e) = none
sum_of (err e) output = none

-- The tokens that an event reports, if it reports any.
abbrev pub tokens_of : Event → Option ℤ
tokens_of e =
    if is_usage e.kind
    then sum_of (to_int (get_or "input_tokens" (int (pos 0)) e.payload))
        (to_int (get_or "output_tokens" (int (pos 0)) e.payload))
    else none

abbrev plus : ℤ → Option ℤ → ℤ
plus spent none = spent
plus spent (some tokens) = spent +ℤ tokens

-- A bill and then all that the events report.
unfoldable pub total : ℤ → List Event → ℤ
total spent [] = spent
total spent (e ∷ es) = total (plus spent (tokens_of e)) es

pub or_mono : (a b c : Bool) → (b ≡ true → c ≡ true) → (a || b) ≡ true → (a || c) ≡ true
or_mono true b c f h = refl
or_mono false b c f h = f h

pub or_true : (a b : Bool) → b ≡ true → (a || b) ≡ true
or_true true b h = refl
or_true false b h = h

abbrev or_zero : Option ℤ → ℤ
or_zero none = pos 0
or_zero (some spent) = spent

abbrev pub bill_in : Dict ℤ → String → ℤ
bill_in spend j = get_or j (pos 0) spend

pub bill-insert_own :
    (id j : String) (v : ℤ) (spend : Dict ℤ) → (id == j) ≡ true → bill_in (insert id v spend) j ≡ v
bill-insert_own id j v spend own =
    ap or_zero
      (lookup-insert id j v spend ∙ ap (λ (b : Bool). if b then some v else lookup j spend) own)

pub bill-insert_other :
    (id j : String) (v : ℤ) (spend : Dict ℤ)
    → (id == j) ≡ false
    → bill_in (insert id v spend) j ≡ bill_in spend j
bill-insert_other id j v spend other =
    ap or_zero
      (lookup-insert id j v spend ∙ ap (λ (b : Bool). if b then some v else lookup j spend) other)

abbrev pub with_tokens : String → Option ℤ → Dict ℤ → Dict ℤ
with_tokens id none spend = spend
with_tokens id (some tokens) spend = insert id (bill_in spend id +ℤ tokens) spend

pub bill-with_tokens_own :
    (id j : String) (o : Option ℤ) (spend : Dict ℤ)
    → (id == j) ≡ true
    → bill_in (with_tokens id o spend) j ≡ plus (bill_in spend j) o
bill-with_tokens_own id j none spend own = refl
bill-with_tokens_own id j (some tokens) spend own =
    bill-insert_own id j (bill_in spend id +ℤ tokens) spend own
    ∙ ap (λ k. bill_in spend k +ℤ tokens) ((eq_iff id j).0 own)

pub bill-with_tokens_other :
    (id j : String) (o : Option ℤ) (spend : Dict ℤ)
    → (id == j) ≡ false
    → bill_in (with_tokens id o spend) j ≡ bill_in spend j
bill-with_tokens_other id j none spend other = refl
bill-with_tokens_other id j (some tokens) spend other =
    bill-insert_other id j (bill_in spend id +ℤ tokens) spend other
