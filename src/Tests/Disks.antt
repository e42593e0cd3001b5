-- ===== src/Tests/Disks.antt =====
-- The theorem on the files of the projects, on a disk that is a list of files and a list of directories.
use Prim.Native.String
use text.Mathlib.Text.{starts_with}
use text.Mathlib.TextEquality.{starts_with_iff}
use text.Mathlib.TextPositions.{len-append, slice-append_right, starts_with-append}
use agentic_crew.Prelude.{
  String, true, false, Option, none, some, List, [], ◌∷◌, Dict, lookup, insert, contains, ◌==◌,
  ◌<>◌, eq_iff, eq_refl, lookup-insert, cancel_left, eq_false, arith, ◌≡◌, refl, sym, subst, ap,
  ◌∙◌, Bool-cases, inl, inr, if◌then◌else◌,
}
use agentic_crew.Exec.{Exec, Result, ok, err, type_error}
use agentic_crew.Mocks.Workspace.Files.{Disk, IsDisk, is_there, newlines}
use agentic_crew.Mocks.Workspace.{
  Written, write_file, read_file, list_files, lstrip_slash, read_file-write_file,
}

-- What comes after a prefix: `str(path.relative_to(base))` for the prefix `base/`
abbrev after : String → String → String
after prefix path = String.slice path (String.len prefix) (String.len path)

-- The files whose paths begin with `prefix`, without it.
unfoldable pub names_below : String → Dict String → List String
names_below prefix [] = []
names_below prefix ((path, content) ∷ files) =
    let rest = names_below prefix files in
    if starts_with path prefix then after prefix path ∷ rest else rest

after-append : (prefix rest : String) → after prefix (prefix <> rest) ≡ rest
after-append prefix rest =
    ap (λ n. String.slice (prefix <> rest) (String.len prefix) n) (len-append prefix rest)
    ∙ slice-append_right prefix rest

-- Tests that hold of the same texts are the same.
test_same : (a b c d : String) → (a ≡ b → c ≡ d) → (c ≡ d → a ≡ b) → (a == b) ≡ (c == d)
test_same a b c d f g = ground (arith, eq_iff a b, eq_iff c d, f, g)

-- A path below a prefix has a name exactly where it is the prefix and the name.
named_same :
    (prefix path name : String)
    → starts_with path prefix ≡ true
    → (after prefix path == name) ≡ (path == prefix <> name)
named_same prefix path name h =
    let (rest, e) = (starts_with_iff path prefix).0 h in
    let named = ap (after prefix) (sym e) ∙ after-append prefix rest in
    test_same (after prefix path) name path (prefix <> name)
      (λ same. sym e ∙ ap (λ (r : String). prefix <> r) (sym named ∙ same))
      (λ same. named ∙ cancel_left prefix rest name (e ∙ same))

not_named :
    (prefix path name : String) → starts_with path prefix ≡ false → (path == prefix <> name) ≡ false
not_named prefix path name h = eq_false path (prefix <> name) (λ same.
    let begins = ap (λ (t : String). starts_with t prefix) same ∙ starts_with-append prefix name in
    cc)

contains-names_below :
    (prefix name : String) (files : Dict String)
    → contains name (names_below prefix files) ≡ is_there (lookup (prefix <> name) files)
unfolding names_below contains lookup
contains-names_below prefix name [] = refl
contains-names_below prefix name ((path, content) ∷ files) =
    elim (Bool-cases (starts_with path prefix)) [
      | inl e ↦
          rw (e, named_same prefix path name e)
            (elim (Bool-cases (path == prefix <> name)) [
              | inl h ↦ rw h refl
              | inr h ↦ rw h (contains-names_below prefix name files)
            ])
      | inr e ↦ rw (e, not_named prefix path name e) (contains-names_below prefix name files)
    ]

-- The files by their paths, and the directories.
record Tree : Type 0 where
  files : Dict String
  dirs : List String

-- The directory of a path below `/workspace/proj-10`, and of any other path the root's.
abbrev toy_parent : String → String
toy_parent path = if starts_with path "/workspace/proj-10/" then "/workspace/proj-10" else "/"

abbrev with_dir : String → Tree → Tree
with_dir path s = if contains path s.dirs then s else record s { dirs = path ∷ s.dirs }

abbrev toy_make_dir : String → Exec Tree (Unit {0})
toy_make_dir path s = (ok tt, with_dir path s)

abbrev toy_write : String → String → Exec Tree (Unit {0})
toy_write path content s =
    if contains path s.dirs
    then (err (type_error "is a directory"), s)
    else (ok tt, record s { files = insert path content s.files })

abbrev content_or : Option String → Tree → Result String × Tree
content_or none s = (err (type_error "no such file"), s)
content_or (some content) s = (ok (newlines content), s)

abbrev toy_read : String → Exec Tree String
toy_read path s = content_or (lookup path s.files) s

abbrev toy_disk : Disk
toy_disk = record {
  State = Tree;
  parent = toy_parent;
  make_dir = toy_make_dir;
  is_file = λ path s. is_there (lookup path s.files);
  write_text = toy_write;
  read_text = toy_read;
  files_below = λ base s. (ok (names_below (base <> "/") s.files), s);
}

abbrev IsWith : String → Tree → Tree → Type 0
IsWith path s t =
    (contains path t.dirs ≡ true)
    × ((other : String) → contains other s.dirs ≡ true → contains other t.dirs ≡ true)
    × ((other : String) → lookup other t.files ≡ lookup other s.files)

with_dir-IsWith : (path : String) (s : Tree) → IsWith path s (with_dir path s)
unfolding contains
with_dir-IsWith path s = elim (Bool-cases (contains path s.dirs)) [
  | inl there ↦ rw there (there, λ other h. h, λ other. refl)
  | inr new ↦ rw new (rw (eq_refl path) refl, λ other h. ground (arith, h), λ other. refl)
]

toy_disk-IsDisk : IsDisk toy_disk
toy_disk-IsDisk = record {
  holds = λ s path. lookup path s.files;
  is_dir = λ s path. contains path s.dirs;
  make_dir_there = λ s path h. rw h refl;
  make_dir_lem =
      λ s s' path made. subst (IsWith path s) (ap (λ x. x.1) made) (with_dir-IsWith path s);
  write_text_lem = λ s path content parented plain. (
    record s { files = insert path content s.files },
    rw plain refl,
    λ other. lookup-insert path other content s.files,
    λ other. refl,
  );
  is_file_lem = λ s path. refl;
  read_text_lem = λ s path content h. ap (λ o. content_or o s) h;
  files_below_lem = λ s base. (
    names_below (base <> "/") s.files,
    refl,
    λ name. contains-names_below (base <> "/") name s.files,
  );
}

-- The directories of two projects, one of which has an id that goes on from the other's.
abbrev resolved : String → String → String
resolved base relative =
    if relative == "../proj-10/app.py"
    then "/workspace/proj-10/app.py"
    else base <> ("/" <> relative)

abbrev bare : Tree
bare = record { files = []; dirs = [] }

abbrev one_dir : Tree
one_dir = record bare { dirs = "/workspace/proj-1" ∷ [] }

abbrev two_dirs : Tree
two_dirs = record bare { dirs = "/workspace/proj-10" ∷ "/workspace/proj-1" ∷ [] }

-- Python's text `pass`, with the line ended as on Windows.
abbrev source : String
source = "pass\r\n"

read_file-write_file_example :
    (w : Written) × (s' : Tree) × (write_file resolved "/workspace" toy_disk "proj-1"
        "../proj-10/app.py" source bare
      ≡ (ok w, s'))
    × (read_file resolved "/workspace" toy_disk "proj-1" "../proj-10/app.py" s'
        ≡ (ok (newlines source), s'))
    × ((other : String)
        → lookup other s'.files ≡ (
            if resolved "/workspace" "proj-1" <> "0/app.py" == other
            then some source
            else lookup other []))
    × ((names : List String) × (list_files resolved "/workspace" toy_disk "proj-1" s'
          ≡ (ok names, s'))
        × ((name : String)
            → contains name names
              ≡ is_there (lookup ((resolved "/workspace" "proj-1" <> "/") <> name) s'.files)))
unfolding lstrip_slash contains lookup toy_disk-IsDisk
read_file-write_file_example =
    read_file-write_file resolved "/workspace" "proj-1" "../proj-10/app.py" source "0/app.py"
      toy_disk toy_disk-IsDisk bare one_dir two_dirs refl refl escaped refl refl refl
  where
    escaped :
        resolved (resolved "/workspace" "proj-1") (lstrip_slash "../proj-10/app.py")
        ≡ resolved "/workspace" "proj-1" <> "0/app.py"
    escaped = refl
