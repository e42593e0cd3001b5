-- ===== src/Mocks/Workspace.antt =====
-- mocks/mcp_sandbox/main.py: the files of the projects, and commands in a sandbox.
pub mod Files
pub mod Listing
use Prim.Native.String
use text.Mathlib.Text.{starts_with}
use text.Mathlib.TextPositions.{starts_with-append}
use agentic_crew.Prelude.{
  ℕ, String, Bool, true, false, some, List, [], ◌∷◌, contains, ltb, ◌==◌, ◌<>◌, show_nat, eq_refl,
  ◌≡◌, refl, ap, ◌∙◌, if◌then◌else◌,
}
use agentic_crew.Exec.{Exec, Result, ok, err, http_error, bind_ok, raise, pure, gets, ◌>>=◌, ◌>>◌}
use agentic_crew.Sandbox
use agentic_crew.Sandbox.{Cluster, ExecResult}
use agentic_crew.Sandbox.Manifest.{Settings}
use agentic_crew.Mocks.Workspace.Files.{Disk, IsDisk, is_there, newlines}
use agentic_crew.Mocks.Workspace.Listing.{sorted, contains-sorted}

-- `MAX_FILE_BYTES`
abbrev pub max_file_bytes : ℕ
max_file_bytes = 2097152

-- `text.lstrip("/")`
unfoldable pub lstrip_slash : String → String
lstrip_slash String.[] = String.[]
lstrip_slash (String.◌∷◌ c s) =
    if String.◌∷◌ c String.[] == "/" then lstrip_slash s else String.◌∷◌ c s

pub record Written : Type 0 where
  pub path : String
  pub bytes : ℕ

-- `resolve a b` is `str((Path(a) / b).resolve())`, and `workspace` is `str(WORKSPACE.resolve())`.
module _ (resolve : String → String → String) (workspace : String) (disk : Disk) where
  -- `_project_dir`
  unfoldable pub project_dir : String → Exec disk.State String
  project_dir project_id =
      let base = resolve workspace project_id in
      if starts_with base workspace
      then (do disk.make_dir base; pure base)
      else raise (http_error 400 "invalid project id")

  unfoldable pub contained : String → String → Exec disk.State String
  contained relative base =
      let target = resolve base (lstrip_slash relative) in
      if starts_with target base
      then pure target
      else raise (http_error 400 ("path escapes the project workspace: " <> relative))

  -- `_resolve`
  unfoldable pub resolve_in : String → String → Exec disk.State String
  resolve_in project_id relative = project_dir project_id >>= contained relative

  -- `write_file`; `bytes` is the number of characters.
  unfoldable pub write_file : String → String → String → Exec disk.State Written
  write_file project_id path content =
      if ltb max_file_bytes (String.len content)
      then raise (http_error 413 ("file exceeds " <> (show_nat max_file_bytes <> " bytes")))
      else (do
        target ← resolve_in project_id path
        disk.make_dir (disk.parent target)
        disk.write_text target content
        pure (record { path = path; bytes = String.count content }))

  abbrev read_if : String → String → Bool → Exec disk.State String
  read_if path target false = raise (http_error 404 ("no such file: " <> path))
  read_if path target true = disk.read_text target

  -- `read_file`
  unfoldable pub read_file : String → String → Exec disk.State String
  read_file project_id path = do
    target ← resolve_in project_id path
    here ← gets (λ s. disk.is_file target s)
    read_if path target here

  -- `list_files`, below a directory that is not the root of the file system
  unfoldable pub list_files : String → Exec disk.State (List String)
  list_files project_id = do
    base ← project_dir project_id
    names ← disk.files_below base
    pure (sorted names)

-- `cleanup`
unfoldable pub cleanup : (cluster : Cluster) → String → Exec cluster.State (Unit {0})
cleanup cluster project_id = Sandbox.destroy cluster (Sandbox.create project_id)

-- `exec_command`: `split` is `shlex.split`, and `token` the random token of the sandbox.
module _ (split : String → Result (List String)) (show_error : String) (settings : Settings)
    (cluster : Cluster) where
  abbrev run_argv : String → String → ℕ → Result (List String) → Exec cluster.State ExecResult
  run_argv token project_id timeout_s (err e) =
      raise (http_error 400 ("could not parse command: " <> show_error))
  run_argv token project_id timeout_s (ok []) = raise (http_error 400 "empty command")
  run_argv token project_id timeout_s (ok (program ∷ args)) =
      Sandbox.exec cluster settings token (Sandbox.create project_id) (program ∷ args) timeout_s

  unfoldable pub exec_command : String → String → String → ℕ → Exec cluster.State ExecResult
  exec_command token project_id command timeout_s =
      run_argv token project_id timeout_s (split command)

module _ (resolve : String → String → String) (workspace : String) (disk : Disk) where
  abbrev base_of : String → String
  base_of id = resolve workspace id

  project_dir_lem :
      (id : String) (s s' : disk.State)
      → starts_with (base_of id) workspace ≡ true
      → disk.make_dir (base_of id) s ≡ (ok tt, s')
      → project_dir resolve workspace disk id s ≡ (ok (base_of id), s')
  unfolding project_dir
  project_dir_lem id s s' inside made = rw inside (bind_ok (disk.make_dir (base_of id)) _ s made)

  resolve_in_lem :
      (id path rest : String) (s s' : disk.State)
      → starts_with (base_of id) workspace ≡ true
      → resolve (base_of id) (lstrip_slash path) ≡ base_of id <> rest
      → disk.make_dir (base_of id) s ≡ (ok tt, s')
      → resolve_in resolve workspace disk id path s ≡ (ok (base_of id <> rest), s')
  unfolding resolve_in contained
  resolve_in_lem id path rest s s' inside target made =
      bind_ok _ _ s (project_dir_lem id s s' inside made)
      ∙ rw (target, starts_with-append (base_of id) rest) refl

-- On a disk that works, where the project's directory and then the target's parent can be made and the
-- target is no directory, a file that is written in the name of a project is read back with the content
-- that it was given, its carriage returns read as line feeds, and no other file has changed; the list
-- of the project's files then names just the files that are there below the project's directory. All
-- that is asked of the path besides is that it begins with the text of the project's directory: a path
-- into a directory whose name goes on from there, which is another project's where that project's id
-- goes on from this one's, is written and read too.
pub read_file-write_file :
    (resolve : String → String → String) (workspace id path content rest : String) (disk : Disk)
    (works : IsDisk disk) (s s1 s2 : disk.State)
    → ltb max_file_bytes (String.len content) ≡ false
    → starts_with (resolve workspace id) workspace ≡ true
    → resolve (resolve workspace id) (lstrip_slash path) ≡ resolve workspace id <> rest
    → disk.make_dir (resolve workspace id) s ≡ (ok tt, s1)
    → disk.make_dir (disk.parent (resolve workspace id <> rest)) s1 ≡ (ok tt, s2)
    → works.is_dir s2 (resolve workspace id <> rest) ≡ false
    → (w : Written) × (s' : disk.State) × (write_file resolve workspace disk id path content s
        ≡ (ok w, s'))
      × (read_file resolve workspace disk id path s' ≡ (ok (newlines content), s'))
      × ((other : String)
          → works.holds s' other
            ≡ (if resolve workspace id <> rest == other then some content else works.holds s other))
      × ((names : List String) × (list_files resolve workspace disk id s' ≡ (ok names, s'))
          × ((name : String)
              → contains name names
                ≡ is_there (works.holds s' ((resolve workspace id <> "/") <> name))))
unfolding write_file read_file list_files
read_file-write_file resolve workspace id path content rest disk works s s1 s2 small inside target
      made placed plain =
    let base = resolve workspace id in
    let file = base <> rest in
    let (based, _, same1) = works.make_dir_lem s s1 base made in
    let (parented, still, same2) = works.make_dir_lem s1 s2 (disk.parent file) placed in
    let (s', wrote, holds', dirs') = works.write_text_lem s2 file content parented plain in
    let there = works.make_dir_there s' base (dirs' base ∙ still base based) in
    let held : works.holds s' file ≡ some content =
      holds' file
      ∙ ap (λ (b : Bool). if b then some content else works.holds s2 file) (eq_refl file) in
    let (names, listed, named) = works.files_below_lem s' base in
    (
      record { path = path; bytes = String.count content },
      s',
      rw small (
          bind_ok _ _ s (resolve_in_lem resolve workspace disk id path rest s s1 inside target made)
          ∙ (bind_ok _ _ s1 placed ∙ bind_ok _ _ s2 wrote)),
      bind_ok _ _ s' (resolve_in_lem resolve workspace disk id path rest s' s' inside target there)
          ∙ (bind_ok (gets (λ t. disk.is_file file t))
                (λ b. read_if resolve workspace disk path file b) s' refl
              ∙ ap (λ b. read_if resolve workspace disk path file b s')
                  (works.is_file_lem s' file ∙ ap is_there held)
              ∙ works.read_text_lem s' file content held),
      λ other.
          holds' other
          ∙ ap (λ o. if file == other then some content else o) (same2 other ∙ same1 other),
      (
        sorted names,
        bind_ok _ _ s' (project_dir_lem resolve workspace disk id s' s' inside there)
            ∙ bind_ok _ _ s' listed,
        λ name. contains-sorted name names ∙ named name,
      ),
    )
