-- ===== src/Mocks/Workspace/Listing.antt =====
-- mocks/mcp_sandbox/main.py: the order in which `list_files` names the files.
use Prim.Native.Nat.{Ordering}
use Prim.Native.String
use agentic_crew.Prelude.{
  String, Bool, true, false, ◌||◌, List, [], ◌∷◌, contains, ◌==◌, arith, ◌≡◌, refl, ap, ◌∙◌,
  if◌then◌else◌,
}

-- `x > y`
unfoldable pub is_after : String → String → Bool
is_after x y = elim (String.compare x y) [ Ordering.gt ↦ true | _ ↦ false ]

unfoldable pub place : String → List String → List String
place x [] = x ∷ []
place x (y ∷ ys) = let rest = place x ys in if is_after x y then y ∷ rest else x ∷ y ∷ ys

-- `sorted(names)`
unfoldable pub sorted : List String → List String
sorted [] = []
sorted (x ∷ xs) = place x (sorted xs)

contains-place :
    (name x : String) (ys : List String)
    → contains name (place x ys) ≡ ((x == name) || contains name ys)
unfolding place contains
contains-place name x [] = refl
contains-place name x (y ∷ ys) = ground (arith, contains-place name x ys)

pub contains-sorted :
    (name : String) (xs : List String) → contains name (sorted xs) ≡ contains name xs
unfolding sorted contains
contains-sorted name [] = refl
contains-sorted name (x ∷ xs) =
    contains-place name x (sorted xs) ∙ ap (λ b. (x == name) || b) (contains-sorted name xs)
