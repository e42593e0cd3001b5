-- ===== src/Mocks/Workspace/Files.antt =====
-- What mocks/mcp_sandbox/main.py asks of `pathlib`, and what Python documents of it.
use Prim.Native.Char.{code}
use text.Mathlib.Text.{starts_with}
use agentic_crew.Prelude.{
  String, Bool, true, false, Option, none, some, List, contains, ◌==◌, ◌<>◌, eqb, ◌≡◌,
  if◌then◌else◌,
}
use agentic_crew.Exec.{Exec, ok}

-- A disk, by the texts of resolved paths. `make_dir` is `mkdir` with parents where a directory may be
-- there already, and `files_below` the regular files that `rglob("*")` finds, by their paths from
-- there on.
pub record Disk : Type 1 where
  pub State : Type 0
  pub parent : String → String
  pub make_dir : String → Exec State (Unit {0})
  pub is_file : String → State → Bool
  pub write_text : String → String → Exec State (Unit {0})
  pub read_text : String → Exec State String
  pub files_below : String → Exec State (List String)

abbrev pub is_there : Option String → Bool
is_there none = false
is_there (some content) = true

-- What a file that is opened as text is read as: a carriage return, and one with the line feed after it,
-- is one line feed.
unfoldable pub newlines : String → String
newlines String.[] = String.[]
newlines (String.◌∷◌ c s) =
    let rest = newlines s in
    if eqb (code c) 13
    then (if starts_with s "\n" then rest else "\n" <> rest)
    else String.◌∷◌ c rest

-- A disk that has room, permits all that is asked and has no links: what its regular files hold, and
-- which paths are directories. A directory is made with no file changed, and one that is there stays as
-- it is; a path that is no directory is written to where its parent is one; reading changes nothing.
pub record IsDisk (disk : Disk) : Type 1 where
  pub holds : disk.State → String → Option String
  pub is_dir : disk.State → String → Bool
  pub make_dir_there :
      (s : disk.State) (path : String) → is_dir s path ≡ true → disk.make_dir path s ≡ (ok tt, s)
  pub make_dir_lem :
      (s s' : disk.State) (path : String)
      → disk.make_dir path s ≡ (ok tt, s')
      → (is_dir s' path ≡ true)
        × ((other : String) → is_dir s other ≡ true → is_dir s' other ≡ true)
        × ((other : String) → holds s' other ≡ holds s other)
  pub write_text_lem :
      (s : disk.State) (path content : String)
      → is_dir s (disk.parent path) ≡ true
      → is_dir s path ≡ false
      → (s' : disk.State) × (disk.write_text path content s ≡ (ok tt, s'))
        × ((other : String)
            → holds s' other ≡ (if path == other then some content else holds s other))
        × ((other : String) → is_dir s' other ≡ is_dir s other)
  pub is_file_lem : (s : disk.State) (path : String) → disk.is_file path s ≡ is_there (holds s path)
  pub read_text_lem :
      (s : disk.State) (path content : String)
      → holds s path ≡ some content
      → disk.read_text path s ≡ (ok (newlines content), s)
  pub files_below_lem :
      (s : disk.State) (base : String)
      → (names : List String) × (disk.files_below base s ≡ (ok names, s))
        × ((name : String) → contains name names ≡ is_there (holds s ((base <> "/") <> name)))
