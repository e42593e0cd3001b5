-- ===== src/Contract/Json.antt =====
-- JSON objects and arrays as values, and how Python reads a field of a value.
use agentic_crew.Prelude.{
  zero, String, Bool, true, false, not, List, [], ◌∷◌, Dict, Option, none, some, ◌≡◌, refl, ap,
  ◌==◌, if◌then◌else◌,
}
use agentic_crew.Exec.{Result, ok, err, key_error, type_error}
use agentic_crew.Project.{is_empty}
use agentic_crew.Contract.Value.{
  Value, Fields, Elements, Payload, pos, str, int, bool, obj, arr, null, no_fields, entry,
  no_elements, element,
}

-- `{"k": v, ...}` and `[v, ...]`
unfoldable pub object : Dict Value → Fields
object [] = no_fields
object ((k, v) ∷ d) = entry k v (object d)

unfoldable pub array : List Value → Elements
array [] = no_elements
array (v ∷ vs) = element v (array vs)

abbrev pub dict : Dict Value → Value
dict d = obj (object d)

unfoldable pub entries : Fields → Payload
entries no_fields = []
entries (entry k v fs) = (k, v) ∷ entries fs

pub entries-object : (d : Dict Value) → entries (object d) ≡ d
unfolding entries object
entries-object [] = refl
entries-object ((k, v) ∷ d) = ap (λ r. (k, v) ∷ r) (entries-object d)

abbrev pub find_field : String → Fields → Option Value
find_field k no_fields = none
find_field k (entry j v fs) = if j == k then some v else find_field k fs

-- `value["k"]`
unfoldable pub subscript : String → Value → Result Value
subscript k (obj fs) = elim (find_field k fs) [ none ↦ err (key_error k) | some v ↦ ok v ]
subscript k _ = err (type_error "indices must be integers")

-- `value.get("k", default)`, of a value that has been subscripted by a text before.
unfoldable pub get_field : String → Value → Value → Value
get_field k default (obj fs) = elim (find_field k fs) [ none ↦ default | some v ↦ v ]
get_field k default _ = default

-- `bool(value)`
unfoldable pub is_truthy : Value → Bool
unfolding is_empty
is_truthy (str s) = not (is_empty s)
is_truthy (int (pos zero)) = false
is_truthy (int _) = true
is_truthy (bool b) = b
is_truthy null = false
is_truthy (obj no_fields) = false
is_truthy (obj _) = true
is_truthy (arr no_elements) = false
is_truthy (arr _) = true
