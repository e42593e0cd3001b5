-- ===== src/Agents/Gate.antt =====
-- agents/shared/skill_gated_tools.py: tools that are hidden until a skill that claims them is read.
pub mod Shown
use Prim.Native.String
use Prim.Native.Char.{Char, code}
use agentic_crew.Prelude.{
  ℕ, ◌-◌, String, Bool, true, false, not, ◌&&◌, ◌||◌, ◌≡◌, refl, sym, ap, ◌∙◌, Option, none, some,
  List, [], ◌∷◌, ◌++◌, contains, keep, map, drop, eqb, ◌==◌, if◌then◌else◌, arith,
}
use agentic_crew.Exec.{Exec, Result, ok, err, type_error}
use agentic_crew.Project.{lstrip, rstrip, is_empty}
use agentic_crew.Contract.Value.{
  ℤ, pos, negsuc, Value, Elements, Fields, null, bool, int, str, arr, obj, no_elements, element,
  no_fields, entry,
}

-- `SKILL_FILE` and `TRIGGER_TOOL`
abbrev pub skill_file : String
skill_file = "SKILL.md"

abbrev pub trigger_tool : String
trigger_tool = "read_file"

strip : String → String
strip text = rstrip (lstrip text)

-- `text.split(",")`
unfoldable split_commas : String → List String
split_commas String.[] = "" ∷ []
split_commas (String.◌∷◌ c s) =
    let rest = split_commas s in
    if eqb (code c) b','
    then "" ∷ rest
    else (elim rest [ [] ↦ String.◌∷◌ c String.[] ∷ [] | part ∷ parts ↦ String.◌∷◌ c part ∷ parts ])

-- `path.endswith(suffix)`
unfoldable pub ends_with : String → String → Bool
ends_with String.[] suffix = "" == suffix
ends_with (String.◌∷◌ c s) suffix =
    let rest = ends_with s suffix in String.◌∷◌ c s == suffix || rest

unfoldable pub get_field : String → Fields → Value
get_field key no_fields = null
get_field key (entry k v fs) = if k == key then v else get_field key fs

unfoldable keys : Fields → List String
keys no_fields = []
keys (entry k v fs) = k ∷ keys fs

is_zero : ℤ → Bool
is_zero (pos n) = eqb n 0
is_zero (negsuc n) = false

-- `value or []`, as something that a loop can run through: what is falsy is empty, and a number or
-- a truth value is not iterable. `show` is Python's `str`.
unfoldable pub names_in : (Value → String) → Value → Result (List String)
unfolding split_commas strip keys is_zero
names_in show null = ok []
names_in show (bool false) = ok []
names_in show (bool true) = err (type_error "'bool' object is not iterable")
names_in show (int n) = if is_zero n then ok [] else err (type_error "'int' object is not iterable")
names_in show (str text) = if is_empty text then ok [] else ok (map strip (split_commas text))
names_in show (arr items) = ok (shown items)
  where
    shown : Elements → List String
    shown no_elements = []
    shown (element v vs) = show v ∷ shown vs
names_in show (obj fields) = ok (keys fields)

abbrev stripped : Result (List String) → Result (List String)
stripped (ok names) = ok (keep (λ n. not (is_empty n)) (map strip names))
stripped (err e) = err e

-- `set(xs) - set(ys)`
abbrev pub minus : List String → List String → List String
minus xs ys = keep (λ x. not (contains x ys)) xs

-- A call of a tool: its name, its `file_path`, and what the handler returns or raises.
pub record Call : Type 0 where
  pub name : String
  pub file_path : String
  pub result : Result String

-- A call unlocks what a skill declares which it has read.
abbrev pub reads_skill : Call → Bool
reads_skill c = c.name == trigger_tool && ends_with c.file_path skill_file

-- The parts that others supply: the regular expression `_FRONTMATTER`, which finds the front
-- matter of a text, `yaml.safe_load`, which may fail, and Python's `str` of a value.
module _ (front_matter : String → Option String) (safe_load : String → Option Value)
    (show : Value → String) where
  abbrev declared_in : Option Value → Result (List String)
  declared_in (some (obj fields)) = stripped (names_in show (get_field "allowed-tools" fields))
  declared_in _ = ok []

  unfoldable pub allowed_tools_in : String → Result (List String)
  unfolding strip
  allowed_tools_in content = elim (front_matter content) [
    | none ↦ ok []
    | some text ↦ declared_in (safe_load text)
  ]

  abbrev pub add_all : List String → Result (List String) → String → Result String × List String
  add_all unlocked (ok declared) content = (ok content, unlocked ++ minus declared unlocked)
  add_all unlocked (err e) content = (err e, unlocked)

  unfoldable pub after_call : Call → Result String → Exec (List String) String
  after_call c (err e) unlocked = (err e, unlocked)
  after_call c (ok content) unlocked =
      if reads_skill c
      then add_all unlocked (allowed_tools_in content) content
      else (ok content, unlocked)

  -- `wrap_tool_call`, over the set `unlocked`
  unfoldable pub wrap_tool_call : Call → Exec (List String) String
  unfolding after_call
  wrap_tool_call c = after_call c c.result

  unfoldable pub run : List Call → List String → List String
  run [] unlocked = unlocked
  run (c ∷ cs) unlocked = run cs (wrap_tool_call c unlocked).1

-- Every name that some skill claims.
abbrev pub claimed : List (List String) → List String
claimed [] = []
claimed (names ∷ more) = names ++ claimed more

-- `harness` is what `FilesystemMiddleware` supplies, and `read_file`; `skills` is the
-- `allowed_tools` of each skill that the agent can see.
module _ (harness : List String) (skills : List (List String)) where
  unfoldable pub gated_names : List String
  gated_names = minus (claimed skills) (trigger_tool ∷ harness)

  -- `visible`: of the tools that the agent has, those that are not gated, or unlocked by now. A
  -- tool without a name is never gated.
  abbrev pub shows : List String → Option String → Bool
  shows unlocked none = true
  shows unlocked (some name) = not (contains name (minus gated_names unlocked))

  unfoldable pub visible : List (Option String) → List String → List (Option String)
  visible tools unlocked = keep (shows unlocked) tools
