-- ===== src/Agents/RoleTools.antt =====
-- agents/shared/agent_tools.py and agent_loop.py: the tools of a role, and what one turn may cost.
use agentic_crew.Prelude.{
  ℕ, String, Bool, true, false, ◌&&◌, ◌≡◌, refl, Option, none, some, List, [], ◌∷◌, Dict, get_or,
  lookup, contains, keep, ◌==◌, arith, eq_iff, Bool-cases, inl, inr, sym, ap, subst, ◌∙◌, ◌≢◌,
}

-- `ROLE_TOOLS`
abbrev pub role_tools : Dict (List String)
role_tools =
    (
      "engineering_manager",
      "read_ticket" ∷ "write_ticket" ∷ "add_ticket_comment" ∷ "jira_create_issue" ∷ "spawn_agent"
          ∷ "escalate_to_founder" ∷ "name_project" ∷ "delegate_to" ∷ [],
    )
    ∷ ("product_manager", "read_ticket" ∷ "add_ticket_comment" ∷ [])
    ∷ ("backend_engineer", "read_ticket" ∷ "sandbox_exec" ∷ "github_open_pr" ∷ [])
    ∷ ("frontend_engineer", "read_ticket" ∷ "sandbox_exec" ∷ "github_open_pr" ∷ [])
    ∷ ("qa_engineer", "read_ticket" ∷ "add_ticket_comment" ∷ "sandbox_exec" ∷ [])
    ∷ (
      "code_reviewer",
      "read_ticket" ∷ "github_read_pr" ∷ "github_post_comment" ∷ "github_approve"
          ∷ "github_request_changes" ∷ "sandbox_exec" ∷ [],
    )
    ∷ []

-- The keys of `catalog`
abbrev pub catalog : List String
catalog =
    "read_ticket" ∷ "write_ticket" ∷ "add_ticket_comment" ∷ "sandbox_exec" ∷ "navigate"
    ∷ "screenshot_and_annotate" ∷ "github_open_pr" ∷ "github_read_pr" ∷ "github_post_comment"
    ∷ "github_approve" ∷ "github_request_changes" ∷ "jira_create_issue" ∷ "name_project"
    ∷ "delegate_to" ∷ "spawn_agent" ∷ "escalate_to_founder" ∷ []

-- The names of the tools that `build_role_tools` returns.
unfoldable pub tools_of : String → List String
tools_of role = keep (λ n. contains n catalog) (get_or role [] role_tools)

-- `CALLS_PER_TURN`
unfoldable pub calls_per_turn : String → ℕ
calls_per_turn role = get_or role 40 (
    ("engineering_manager", 24)
    ∷ ("product_manager", 8)
    ∷ ("backend_engineer", 16)
    ∷ ("frontend_engineer", 16)
    ∷ ("qa_engineer", 8)
    ∷ [])

-- What is done with a project and its crew as a whole.
abbrev pub is_lead : String → Bool
is_lead name =
    contains name
      ("spawn_agent" ∷ "name_project" ∷ "write_ticket" ∷ "escalate_to_founder" ∷ "delegate_to" ∷ [])

lookup_hit :
    (j k : String) (v : List String) (d : Dict (List String))
    → (j == k) ≡ true
    → lookup k ((j, v) ∷ d) ≡ some v
unfolding lookup
lookup_hit j k v d h = rw h

lookup_miss :
    (j k : String) (v : List String) (d : Dict (List String))
    → (j == k) ≡ false
    → lookup k ((j, v) ∷ d) ≡ lookup k d
unfolding lookup
lookup_miss j k v d h = rw h

-- The names that a table gives to a role are free of what is looked for, if every row of it is.
abbrev all_free : (String → Bool) → Dict (List String) → Bool
all_free p [] = true
all_free p ((j, xs) ∷ d) = is_none (keep p xs) && all_free p d
  where
    is_none : List String → Bool
    is_none [] = true
    is_none (x ∷ xs) = false

abbrev Frees : (String → Bool) → Option (List String) → Type 0
Frees p o = keep p (elim o [ none ↦ [] | some xs ↦ xs ]) ≡ []

free_rows :
    (p : String → Bool) (role : String) (d : Dict (List String))
    → all_free p d ≡ true
    → Frees p (lookup role d)
unfolding lookup
free_rows p role [] h = refl
free_rows p role ((j, xs) ∷ d) h = elim (Bool-cases (j == role)) [
  | inl hit ↦ subst (Frees p) (sym (lookup_hit j role xs d hit)) (ground (arith, h))
  | inr miss ↦
      subst (Frees p) (sym (lookup_miss j role xs d miss)) (free_rows p role d (ground (arith, h)))
]

keep-keep : (p q : String → Bool) (xs : List String) → keep p xs ≡ [] → keep p (keep q xs) ≡ []
keep-keep p q [] h = refl
keep-keep p q (x ∷ xs) h = ground (arith, keep-keep p q xs)

others : Dict (List String)
others = elim role_tools [ [] ↦ [] | _ ∷ rows ↦ rows ]

no_lead :
    (role : String) → ("engineering_manager" == role) ≡ false → keep is_lead (tools_of role) ≡ []
unfolding tools_of contains others
no_lead role em =
    keep-keep is_lead (λ n. contains n catalog) (get_or role [] role_tools)
      (subst (Frees is_lead) (sym (lookup_miss "engineering_manager" role _ others em))
        (free_rows is_lead role others refl))

kept_some :
    (p : String → Bool) (name : String) (xs : List String)
    → contains name xs ≡ true
    → p name ≡ true
    → keep p xs ≢ []
unfolding contains
kept_some p name [] h wanted none_left = ground arith
kept_some p name (x ∷ xs) h wanted none_left = elim (Bool-cases (x == name)) [
  | inl same ↦
      let own : p x ≡ true = ap p ((eq_iff x name).0 same) ∙ wanted in
      ground (arith, own, none_left)
  | inr other ↦ elim (Bool-cases (p x)) [
    | inl own ↦ ground (arith, own, none_left)
    | inr not_own ↦ kept_some p name xs (rw other at h) wanted (rw not_own at none_left)
  ]
]

-- Whatever a role is called, only the engineering manager is given a tool that spawns an agent,
-- names the project, writes its ticket, escalates to the founder, or delegates.
pub tools_of-lead :
    (role name : String)
    → is_lead name ≡ true
    → contains name (tools_of role) ≡ true
    → role ≡ "engineering_manager"
tools_of-lead role name lead given = elim (Bool-cases ("engineering_manager" == role)) [
  | inl em ↦ sym ((eq_iff "engineering_manager" role).0 em)
  | inr other ↦ absurd (kept_some is_lead name (tools_of role) given lead (no_lead role other))
]
