-- ===== src/Mocks/Github.antt =====
-- mocks/mcp_github/main.py: the files and the pull requests of the code host.
use Prim.Native.String
use agentic_crew.Prelude.{
  ℕ, ◌+◌, ◌≤◌, String, Bool, not, ◌≡◌, refl, ◌∙◌, Option, none, some, List, [], ◌∷◌, ◌++◌, eqb,
  ◌==◌, Dict, insert, get_or, length, if◌then◌else◌, arith, leb, Bool-cases, Option-cases, inl, inr,
}
use agentic_crew.Contract.Value.{ℤ}
use agentic_crew.Exec.{Exec, ok, err, http_error}

pub record Remark : Type 0 where
  pub author : String
  pub line : ℤ
  pub path : String
  pub body : String
  pub at : ℕ

-- The keys that a review adds are `none` until it has.
pub record PullRequest : Type 0 where
  pub pr_number : ℕ
  pub branch : String
  pub title : String
  pub body : String
  pub status : String
  pub review_status : String
  pub diff : String
  pub comments : List Remark
  pub created_at : ℕ
  pub approved_by : Option String
  pub changes_requested_by : Option String
  pub change_summary : Option String

-- `_prs`, keyed by number
abbrev pub Prs : Type 0
Prs = List (ℕ × PullRequest)

unfoldable pub find_pr : ℕ → Prs → Option PullRequest
find_pr n [] = none
find_pr n ((k, pr) ∷ prs) = if eqb k n then some pr else find_pr n prs

unfoldable pub put_pr : ℕ → PullRequest → Prs → Prs
put_pr n pr [] = (n, pr) ∷ []
put_pr n pr ((k, old) ∷ prs) = if eqb k n then (k, pr) ∷ prs else (k, old) ∷ put_pr n pr prs

pub find_pr-put_pr :
    (n m : ℕ) (pr : PullRequest) (prs : Prs)
    → find_pr m (put_pr n pr prs) ≡ (if eqb n m then some pr else find_pr m prs)
unfolding find_pr put_pr
find_pr-put_pr n m pr [] = refl
find_pr-put_pr n m pr ((k, old) ∷ prs) = ground (arith, find_pr-put_pr n m pr prs)

-- `_files`, `_prs` and `_next_pr`
pub record Host : Type 0 where
  pub files : Dict String
  pub prs : Prs
  pub next_pr : ℕ

abbrev pub empty : Host
empty = record { files = []; prs = []; next_pr = 4821 }

unfoldable pub health : Host → ℕ × ℕ
health s = (length s.files, length s.prs)

-- The content of a path, and whether it exists: an empty file does not.
unfoldable pub read_file : String → Exec Host (String × Bool)
read_file path s = let content = get_or path "" s.files in (ok (content, not (content == "")), s)

-- The answer is the path and the length of the content.
unfoldable pub write_file : String → String → Exec Host (String × ℕ)
write_file path content s =
    (ok (path, String.count content), record s { files = insert path content s.files })

-- The pull request of a number is changed in place; the answer is made of what it has become.
abbrev on_pr : {A : Type 0} → ℕ → (PullRequest → PullRequest) → (PullRequest → A) → Exec Host A
on_pr n change answer s = elim (find_pr n s.prs) [
  | none ↦ (err (http_error 404 "pr not found"), s)
  | some pr ↦ (ok (answer (change pr)), record s { prs = put_pr n (change pr) s.prs })
]

abbrev approved : String → PullRequest → PullRequest
approved reviewer pr = record pr { review_status = "approved"; approved_by = some reviewer }

abbrev sent_back : String → String → PullRequest → PullRequest
sent_back reviewer summary pr = record pr {
  review_status = "changes_requested";
  changes_requested_by = some reviewer;
  change_summary = some summary;
}

abbrev commented : Remark → PullRequest → PullRequest
commented remark pr = record pr { comments = pr.comments ++ remark ∷ [] }

unfoldable pub approve : ℕ → String → Exec Host PullRequest
approve n reviewer = on_pr n (approved reviewer) (λ pr. pr)

unfoldable pub request_changes : ℕ → String → String → Exec Host PullRequest
request_changes n reviewer summary = on_pr n (sent_back reviewer summary) (λ pr. pr)

unfoldable pub post_comment : ℕ → Remark → Exec Host Remark
post_comment n remark = on_pr n (commented remark) (λ pr. remark)

unfoldable pub read_pr : ℕ → Exec Host PullRequest
read_pr n s = elim (find_pr n s.prs) [
  | none ↦ (err (http_error 404 "pr not found"), s)
  | some pr ↦ (ok pr, s)
]

-- The requests that change the host.
pub data Op : Type 0 where
  opens : String → String → String → ℕ → Op
  comments : ℕ → Remark → Op
  approves : ℕ → String → Op
  sends_back : ℕ → String → String → Op
  writes : String → String → Op

-- `demo_diff` is the text of `_DEMO_PR_DIFF`.
module _ (demo_diff : String) where
  abbrev opened : String → String → String → ℕ → Host → PullRequest
  opened branch title body now s = record {
    pr_number = s.next_pr;
    branch = branch;
    title = title;
    body = body;
    status = "open";
    review_status = "pending";
    diff = demo_diff;
    comments = [];
    created_at = now;
    approved_by = none;
    changes_requested_by = none;
    change_summary = none;
  }

  unfoldable pub open_pr : String → String → String → ℕ → Exec Host PullRequest
  open_pr branch title body now s =
      let pr = opened branch title body now s in
      (ok pr, record s { prs = put_pr s.next_pr pr s.prs; next_pr = s.next_pr + 1 })

  unfoldable pub step : Op → Host → Host
  step (opens branch title body now) s = (open_pr branch title body now s).1
  step (comments n remark) s = (post_comment n remark s).1
  step (approves n reviewer) s = (approve n reviewer s).1
  step (sends_back n reviewer summary) s = (request_changes n reviewer summary s).1
  step (writes path content) s = (write_file path content s).1

  unfoldable pub run : List Op → Host → Host
  run [] s = s
  run (op ∷ ops) s = run ops (step op s)

  -- No pull request has a number that is still to be given.
  abbrev pub IsNumbered : Host → Type 0
  IsNumbered s = (n : ℕ) → s.next_pr ≤ n → find_pr n s.prs ≡ none

  put_pr-IsNumbered :
      (n : ℕ) (pr q : PullRequest) (s : Host)
      → IsNumbered s
      → find_pr n s.prs ≡ some pr
      → IsNumbered (record s { prs = put_pr n q s.prs })
  put_pr-IsNumbered n pr q s h found m le = elim (Bool-cases (leb s.next_pr n)) [
    | inl late ↦ absurd (ground (arith, h n (ground arith), found))
    | inr early ↦ find_pr-put_pr n m q s.prs ∙ ground (arith, h m le)
  ]

  on_pr-IsNumbered :
      {A : Type 0} (n : ℕ) (change : PullRequest → PullRequest) (answer : PullRequest → A)
      (s : Host)
      → IsNumbered s
      → IsNumbered (on_pr n change answer s).1
  on_pr-IsNumbered n change answer s h = elim (Option-cases (find_pr n s.prs)) [
    | inl gone ↦ rw (gone, on_pr) h
    | inr (pr, found) ↦ rw (found, on_pr) (put_pr-IsNumbered n pr (change pr) s h found)
  ]

  open_pr-IsNumbered :
      (branch title body : String) (now : ℕ) (s : Host)
      → IsNumbered s
      → IsNumbered (open_pr branch title body now s).1
  unfolding open_pr
  open_pr-IsNumbered branch title body now s h m le =
      find_pr-put_pr s.next_pr m _ s.prs ∙ ground (arith, h m (omega arith))

  step-IsNumbered : (op : Op) (s : Host) → IsNumbered s → IsNumbered (step op s)
  unfolding step post_comment approve request_changes write_file
  step-IsNumbered (opens branch title body now) s h = open_pr-IsNumbered branch title body now s h
  step-IsNumbered (comments n remark) s h = on_pr-IsNumbered n (commented remark) (λ pr. remark) s h
  step-IsNumbered (approves n reviewer) s h = on_pr-IsNumbered n (approved reviewer) (λ pr. pr) s h
  step-IsNumbered (sends_back n reviewer summary) s h =
      on_pr-IsNumbered n (sent_back reviewer summary) (λ pr. pr) s h
  step-IsNumbered (writes path content) s h = h

  run-IsNumbered : (ops : List Op) (s : Host) → IsNumbered s → IsNumbered (run ops s)
  unfolding run
  run-IsNumbered [] s h = h
  run-IsNumbered (op ∷ ops) s h = run-IsNumbered ops (step op s) (step-IsNumbered op s h)

  read_pr_found :
      (n : ℕ) (pr : PullRequest) (s : Host) → find_pr n s.prs ≡ some pr → read_pr n s ≡ (ok pr, s)
  unfolding read_pr
  read_pr_found n pr s h = rw (h, read_pr)

  -- Whatever has been done to the host since it was empty, a pull request that is opened gets a
  -- number that no other has: it reads as it was opened, and every other reads as it did before.
  pub run-open_pr-read_pr :
      (ops : List Op) (branch title body : String) (now : ℕ)
      → let s = run ops empty in
        (pr : PullRequest) × (s' : Host) × (open_pr branch title body now s ≡ (ok pr, s'))
        × (find_pr pr.pr_number s.prs ≡ none)
        × (read_pr pr.pr_number s' ≡ (ok pr, s'))
        × ((m : ℕ) (q : PullRequest) → find_pr m s.prs ≡ some q → read_pr m s' ≡ (ok q, s'))
  unfolding open_pr find_pr
  run-open_pr-read_pr ops branch title body now =
      let s = run ops empty in
      let free = run-IsNumbered ops empty (λ n le. refl) s.next_pr (omega arith) in
      let pr = opened branch title body now s in
      let s' : Host = record s { prs = put_pr s.next_pr pr s.prs; next_pr = s.next_pr + 1 } in
      (
        pr,
        s',
        refl,
        free,
        read_pr_found s.next_pr pr s' (find_pr-put_pr s.next_pr s.next_pr pr s.prs ∙ ground arith),
        λ m q h. read_pr_found m q s' (
            find_pr-put_pr s.next_pr m pr s.prs ∙ elim (Bool-cases (eqb s.next_pr m)) [
              | inl same ↦ absurd (ground (arith, free, h))
              | inr other ↦ rw other h
            ]),
      )
