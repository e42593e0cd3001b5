-- ===== src/Project/Defs.antt =====
-- The record `Project`, its transitions, and the text operations that `rename` calls.
use Prim.Native.Char.{Char, code}
use Prim.Native.String
use agentic_crew.Prelude.{
  ℕ, ◌+◌, String, Bool, false, true, ◌&&◌, ◌||◌, Option, none, some, List, [], ◌∷◌, map, ltb, leb,
  eqb, codes, ◌<>◌, show_nat, if◌then◌else◌,
}
use agentic_crew.Exec.{value_error, naming_error, Result, ok, err}

pub data ProjectStatus : Type 0 where
  scoping running done cancelled : ProjectStatus

unfoldable pub status_value : ProjectStatus → String
status_value scoping = "scoping"
status_value running = "running"
status_value done = "done"
status_value cancelled = "cancelled"

-- `ProjectStatus.is_terminal`
unfoldable pub is_terminal : ProjectStatus → Bool
is_terminal done = true
is_terminal cancelled = true
is_terminal _ = false

-- A datetime is the number of its microseconds.
pub record Project : Type 0 where
  pub id : String
  pub name : String
  pub status : ProjectStatus
  pub created_at : ℕ
  pub renamed_at : Option ℕ

abbrev pub provisional_name : String
provisional_name = "New Project"

abbrev pub max_name_length : ℕ
max_name_length = 60

-- `Project(id=...)`, opened at the moment `now`
unfoldable pub new_project : String → ℕ → Project
new_project id now = record {
  id = id;
  name = provisional_name;
  status = scoping;
  created_at = now;
  renamed_at = none;
}

unfoldable pub is_named : Project → Bool
is_named p = elim p.renamed_at [ none ↦ false | some _ ↦ true ]

-- The characters that `\s` matches in a Python text, which are those that `str.strip` removes.
unfoldable pub is_space : ℕ → Bool
is_space c =
    (leb 0x09 c && leb c 0x0d)
    || (leb 0x1c c && leb c 0x20)
    || eqb c 0x85
    || eqb c 0xa0
    || eqb c 0x1680
    || (leb 0x2000 c && leb c 0x200a)
    || eqb c 0x2028
    || eqb c 0x2029
    || eqb c 0x202f
    || eqb c 0x205f
    || eqb c 0x3000

abbrev pub space : Char
space = " "

-- `_WHITESPACE.sub(" ", text)`; the flag says that the character before was white space.
unfoldable pub sub_spaces : Bool → String → String
sub_spaces in_run String.[] = String.[]
sub_spaces in_run (String.◌∷◌ c s) =
    let rest = sub_spaces (is_space (code c)) s in
    if is_space (code c) then if in_run then rest else String.◌∷◌ space rest else String.◌∷◌ c rest

unfoldable pub lstrip : String → String
lstrip String.[] = String.[]
lstrip (String.◌∷◌ c s) = if is_space (code c) then lstrip s else String.◌∷◌ c s

unfoldable pub is_empty : String → Bool
is_empty String.[] = true
is_empty (String.◌∷◌ c s) = false

unfoldable pub rstrip : String → String
unfolding is_empty
rstrip String.[] = String.[]
rstrip (String.◌∷◌ c s) =
    let rest = rstrip s in
    if is_space (code c) && is_empty rest then String.[] else String.◌∷◌ c rest

-- `_WHITESPACE.sub(" ", proposed).strip()`
unfoldable pub normalize : String → String
normalize proposed = rstrip (lstrip (sub_spaces false proposed))

to_lower : ℕ → ℕ
to_lower c = if leb b'A' c && leb c b'Z' then c + 32 else c

same_codes : List ℕ → List ℕ → Bool
same_codes [] [] = true
same_codes (a ∷ as') (b ∷ bs) = eqb a b && same_codes as' bs
same_codes _ _ = false

-- `name.casefold() == PROVISIONAL_NAME.casefold()`. No character outside ASCII folds into the
-- letters of the placeholder, so the letters of ASCII are all that count.
unfoldable pub is_placeholder : String → Bool
unfolding to_lower same_codes
is_placeholder name = same_codes (map to_lower (codes name)) (codes "new project")

unfoldable pub rename : Project → String → ℕ → Result Project
rename p proposed now =
    let name = normalize proposed in
    if is_empty name
    then err (naming_error "a project name cannot be empty")
    else if ltb max_name_length (String.count name)
    then err (
        naming_error (
          "project name is "
          <> show_nat (String.count name)
          <> " characters; the limit is "
          <> show_nat max_name_length))
    else if is_placeholder name
    then err (
        naming_error (
          "'" <> provisional_name <> "' is the placeholder, not a name. "
          <> "Name the project after what is being built."))
    else ok (record p { name = name; renamed_at = some now })

unfoldable pub start : Project → Result Project
unfolding is_terminal
start p =
    if is_terminal p.status
    then err (value_error ("project " <> p.id <> " is already " <> status_value p.status))
    else ok (record p { status = running })

unfoldable pub finish : Project → Bool → Project
finish p is_cancelled = record p { status = if is_cancelled then cancelled else done }
