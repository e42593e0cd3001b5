-- ===== src/Mocks/Jira.antt =====
-- mocks/mcp_jira/main.py: the issue tracker.
use agentic_crew.Prelude.{
  ℕ, ◌+◌, String, Bool, true, false, ◌&&◌, ◌≡◌, refl, ◌∙◌, Option, none, some, List, [], ◌∷◌, ◌==◌,
  ◌<>◌, Dict, lookup, insert, get_or, values, keep, length, show_nat, if◌then◌else◌, lookup-insert,
  eq_refl, arith,
}
use agentic_crew.Exec.{Exec, ok, err, http_error, bind_ok, ◌>>=◌}

pub record CreateIssue : Type 0 where
  pub project : String
  pub kind : String
  pub summary : String
  pub description : String
  pub priority : String
  pub labels : List String
  pub reporter : String
  pub linked_to : List String

pub record Issue : Type 0 where
  pub key : String
  pub project : String
  pub kind : String
  pub summary : String
  pub description : String
  pub priority : String
  pub labels : List String
  pub reporter : String
  pub linked_to : List String
  pub status : String
  pub created_at : ℕ
  pub transitioned_at : Option ℕ

-- `_issues` and `_next`
pub record Jira : Type 0 where
  pub issues : Dict Issue
  pub next : Dict ℕ

abbrev pub empty : Jira
empty = record { issues = []; next = ("TECH", 100) ∷ ("FEAT", 100) ∷ ("BUG", 100) ∷ [] }

-- A filter that is empty, or not given, lets everything pass.
abbrev passes : Option String → String → Bool
passes none text = true
passes (some wanted) text = if wanted == "" then true else text == wanted

unfoldable pub health : Jira → ℕ
health s = length s.issues

unfoldable pub read_issue : String → Exec Jira Issue
read_issue key s = elim (lookup key s.issues) [
  | none ↦ (err (http_error 404 "issue not found"), s)
  | some issue ↦ (ok issue, s)
]

unfoldable pub transition : String → String → ℕ → Exec Jira Issue
transition key new_status now s = elim (lookup key s.issues) [
  | none ↦ (err (http_error 404 "issue not found"), s)
  | some issue ↦
      let moved : Issue = record issue { status = new_status; transitioned_at = some now } in
      (ok moved, record s { issues = insert key moved s.issues })
]

-- `upper` is Python's `str.upper`.
module _ (upper : String → String) where
  abbrev pub key_of : String → ℕ → String
  key_of project n = project <> ("-" <> show_nat n)

  abbrev pub issue_of : CreateIssue → ℕ → ℕ → Issue
  issue_of req number now = record {
    key = key_of (upper req.project) number;
    project = upper req.project;
    kind = req.kind;
    summary = req.summary;
    description = req.description;
    priority = req.priority;
    labels = req.labels;
    reporter = req.reporter;
    linked_to = req.linked_to;
    status = "Open";
    created_at = now;
    transitioned_at = none;
  }

  -- A project that has no numbers yet begins at 100.
  abbrev pub next_number : CreateIssue → Jira → ℕ
  next_number req s = get_or (upper req.project) 100 s.next

  unfoldable pub create_issue : CreateIssue → ℕ → Exec Jira Issue
  create_issue req now s =
      let number = next_number req s in
      let issue = issue_of req number now in
      (
        ok issue,
        record {
          issues = insert issue.key issue s.issues;
          next = insert issue.project (number + 1) s.next;
        },
      )

  abbrev upper_of : Option String → Option String
  upper_of none = none
  upper_of (some text) = if text == "" then none else some (upper text)

  unfoldable pub list_issues :
      Option String → Option String → Option String → Exec Jira (List Issue)
  list_issues project kind status s = (
    ok (
        keep
          (λ i. passes (upper_of project) i.project && passes kind i.kind && passes status i.status)
          (values s.issues)),
    s,
  )

  transition_found :
      (key status : String) (later : ℕ) (issue : Issue) (s : Jira)
      → lookup key s.issues ≡ some issue
      → let moved : Issue = record issue { status = status; transitioned_at = some later } in
        transition key status later s ≡ (ok moved, record s { issues = insert key moved s.issues })
  unfolding transition
  transition_found key status later issue s h = rw (h, transition)

  read_issue_answer :
      (key : String) (s t : Jira)
      → lookup key s.issues ≡ lookup key t.issues
      → (read_issue key s).0 ≡ (read_issue key t).0
  unfolding read_issue
  read_issue_answer key s t h = ground (arith, h)

  read_issue_found :
      (key : String) (issue : Issue) (s : Jira)
      → lookup key s.issues ≡ some issue
      → read_issue key s ≡ (ok issue, s)
  unfolding read_issue
  read_issue_found key issue s h = rw (h, read_issue)

  -- The issue that is filed and then moved reads as it was filed, but for its status and the
  -- moment it was moved; every issue under another key reads as it did before.
  pub create_issue-transition :
      (req : CreateIssue) (now later : ℕ) (status : String) (s : Jira)
      → let issue = issue_of req (next_number req s) now in
        let moved : Issue = record issue { status = status; transitioned_at = some later } in
        (s' : Jira) × ((create_issue req now >>= λ filed. transition filed.key status later) s
          ≡ (ok moved, s'))
        × (read_issue issue.key s' ≡ (ok moved, s'))
        × ((j : String) → (issue.key == j) ≡ false → (read_issue j s').0 ≡ (read_issue j s).0)
  unfolding create_issue
  create_issue-transition req now later status s =
      let issue = issue_of req (next_number req s) now in
      let moved : Issue = record issue { status = status; transitioned_at = some later } in
      let filed = insert issue.key issue s.issues in
      let s1 : Jira = record {
        issues = filed;
        next = insert issue.project (next_number req s + 1) s.next;
      } in
      let there : lookup issue.key filed ≡ some issue =
        lookup-insert issue.key issue.key issue s.issues ∙ rw (eq_refl issue.key) in
      let s2 : Jira = record s1 { issues = insert issue.key moved filed } in
      let there' : lookup issue.key (insert issue.key moved filed) ≡ some moved =
        lookup-insert issue.key issue.key moved filed ∙ rw (eq_refl issue.key) in
      (
        s2,
        bind_ok (create_issue req now) (λ i. transition i.key status later) s refl
            ∙ transition_found issue.key status later issue s1 there,
        read_issue_found issue.key moved s2 there',
        λ j other. read_issue_answer j s2 s (
            lookup-insert issue.key j moved filed
            ∙ rw other (lookup-insert issue.key j issue s.issues ∙ rw other)),
      )
