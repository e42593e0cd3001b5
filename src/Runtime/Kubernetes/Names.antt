-- ===== src/Runtime/Kubernetes/Names.antt =====
-- k8s_runtime.py: the name of an agent's Job, which is cut at 63 characters.
use Prim.Native.Char.{code}
use Prim.Native.String
use Prim.Native.String.count
use text.Mathlib.TextLemmas.{length-append}
use agentic_crew.Prelude.{
  ◌+◌, ◌≤◌, String, ◌&&◌, eqb, arith, ◌<>◌, cancel_left, take, take_all, count-take-le, ◌≡◌, sym,
  ◌∙◌, Bool-cases, inl, inr,
}
use agentic_crew.Caps.{
  AgentRole, role_value, engineering_manager, product_manager, backend_engineer, frontend_engineer,
  qa_engineer, code_reviewer,
}
use agentic_crew.Project.{is_empty}
use agentic_crew.Runtime.Kubernetes.Manifest.{
  job_name, untruncated, hyphenated, project_part, lstrip_dash, rstrip_dash,
}

count-lstrip_dash-le : (s : String) → String.count (lstrip_dash s) ≤ String.count s
unfolding lstrip_dash
count-lstrip_dash-le String.[] = omega arith
count-lstrip_dash-le (String.◌∷◌ c s) = elim (Bool-cases (eqb (code c) b'-')) [
  | inl e ↦ rw e (omega (arith, count.cons c s, count-lstrip_dash-le s))
  | inr e ↦ rw e (omega arith)
]

count-rstrip_dash-le : (s : String) → String.count (rstrip_dash s) ≤ String.count s
unfolding rstrip_dash
count-rstrip_dash-le String.[] = omega arith
count-rstrip_dash-le (String.◌∷◌ c s) =
    elim (Bool-cases (eqb (code c) b'-' && is_empty (rstrip_dash s))) [
      | inl e ↦ rw e (omega (arith, count.nil))
      | inr e ↦
          rw e (omega (arith, count.cons c s, count.cons c (rstrip_dash s), count-rstrip_dash-le s))
    ]

count-project_part-le :
    (lower : String → String) (id : String) → String.count (project_part lower id) ≤ 16
unfolding project_part
count-project_part-le lower id =
    let cut = take 16 (lower (hyphenated id)) in
    omega (
      arith,
      count-rstrip_dash-le (lstrip_dash cut),
      count-lstrip_dash-le cut,
      count-take-le 16 (lower (hyphenated id)),
    )

count-role-le : (role : AgentRole) → String.count (hyphenated (role_value role)) ≤ 19
unfolding hyphenated role_value
count-role-le engineering_manager = omega arith
count-role-le product_manager = omega arith
count-role-le backend_engineer = omega arith
count-role-le frontend_engineer = omega arith
count-role-le qa_engineer = omega arith
count-role-le code_reviewer = omega arith

count-untruncated-le :
    (lower : String → String) (role : AgentRole) (id token : String)
    → String.count (untruncated lower role id token) ≤ 37 + String.count token
unfolding untruncated
count-untruncated-le lower role id token = omega (
  arith,
  length-append (hyphenated (role_value role)) ("-" <> (project_part lower id <> ("-" <> token))),
  length-append "-" (project_part lower id <> ("-" <> token)),
  length-append (project_part lower id) ("-" <> token),
  length-append "-" token,
  count-role-le role,
  count-project_part-le lower id,
)

cancel_token :
    (lower : String → String) (role : AgentRole) (id token token' : String)
    → untruncated lower role id token ≡ untruncated lower role id token'
    → token ≡ token'
unfolding untruncated
cancel_token lower role id token token' e =
    let part = project_part lower id in
    cancel_left "-" token token' (
      cancel_left part ("-" <> token) ("-" <> token') (
        cancel_left "-" (part <> ("-" <> token)) (part <> ("-" <> token'))
          (cancel_left (hyphenated (role_value role)) _ _ e)))

-- A Job's name is at most 63 characters, which Kubernetes asks for; and the cut never takes anything
-- of the random token, so that Jobs of one role and project have different names where the tokens
-- differ, for tokens of at most 26 characters.
pub job_name_bounds :
    (lower : String → String) (role : AgentRole) (id token token' : String)
    → String.count token ≤ 26
    → String.count token' ≤ 26
    → (String.count (job_name lower role id token) ≤ 63)
      × (job_name lower role id token ≡ untruncated lower role id token)
      × (job_name lower role id token ≡ job_name lower role id token' → token ≡ token')
unfolding job_name
job_name_bounds lower role id token token' short short' = (
  count-take-le 63 (untruncated lower role id token),
  whole token short,
  λ same.
      cancel_token lower role id token token'
        (sym (whole token short) ∙ same ∙ whole token' short'),
)
  where
    whole :
        (text : String)
        → String.count text ≤ 26
        → take 63 (untruncated lower role id text) ≡ untruncated lower role id text
    whole text h =
        take_all 63 (untruncated lower role id text)
          (omega (arith, count-untruncated-le lower role id text))
