-- ===== src/Agents/Start/Prompts.antt =====
-- Which roles have a system prompt, and the prompt of the assignment with which an agent starts.
use agentic_crew.Prelude.{
  Dict, ◌⊎◌, String, ◌≡◌, ◌↔◌, refl, sym, ap, ◌∙◌, Option, none, some, [], ◌∷◌, lookup, eq_iff,
  arith, inl, inr,
}
use agentic_crew.Caps.{
  AgentRole, engineering_manager, product_manager, backend_engineer, frontend_engineer, qa_engineer,
  code_reviewer, role_value,
}
use agentic_crew.Agents.Start.{read_prompt, prompt_dirs, prompt, no_prompt, load_system_prompt}

-- The directory of a role.
abbrev pub prompt_dir : AgentRole → String
prompt_dir engineering_manager = "em"
prompt_dir product_manager = "pm"
prompt_dir backend_engineer = "backend"
prompt_dir frontend_engineer = "frontend"
prompt_dir qa_engineer = "qa"
prompt_dir code_reviewer = "reviewer"

lookup_cons :
    (k j v w : String) (d : Dict String)
    → lookup k ((j, v) ∷ d) ≡ some w
    → ((k ≡ j) × (w ≡ v)) ⊎ (lookup k d ≡ some w)
unfolding lookup
lookup_cons k j v w d h = ground (arith, eq_iff j k)

none_left : (k w : String) → ¬ (lookup k [] ≡ some w)
unfolding lookup
none_left k w h = cc

known :
    (role : String) (d : String)
    → lookup role prompt_dirs ≡ some d
    → (r : AgentRole) × (role ≡ role_value r) × (d ≡ prompt_dir r)
unfolding role_value
known role d h = elim (lookup_cons role _ _ d _ h) [
  | inl (e, f) ↦ (engineering_manager, e, f)
  | inr h0 ↦ elim (lookup_cons role _ _ d _ h0) [
    | inl (e, f) ↦ (product_manager, e, f)
    | inr h1 ↦ elim (lookup_cons role _ _ d _ h1) [
      | inl (e, f) ↦ (backend_engineer, e, f)
      | inr h2 ↦ elim (lookup_cons role _ _ d _ h2) [
        | inl (e, f) ↦ (frontend_engineer, e, f)
        | inr h3 ↦ elim (lookup_cons role _ _ d _ h3) [
          | inl (e, f) ↦ (qa_engineer, e, f)
          | inr h4 ↦ elim (lookup_cons role _ _ d _ h4) [
            | inl (e, f) ↦ (code_reviewer, e, f)
            | inr h5 ↦ absurd (none_left role d h5)
          ]
        ]
      ]
    ]
  ]
]

own_dir : (r : AgentRole) → lookup (role_value r) prompt_dirs ≡ some (prompt_dir r)
unfolding lookup role_value
own_dir engineering_manager = refl
own_dir product_manager = refl
own_dir backend_engineer = refl
own_dir frontend_engineer = refl
own_dir qa_engineer = refl
own_dir code_reviewer = refl

read_prompt-prompt :
    (read : String → Option String) (role text : String) (o : Option String)
    → read_prompt read role o ≡ prompt text
    → (d : String) × (o ≡ some d) × (read d ≡ some text)
read_prompt-prompt read role text none h = absurd (cc)
read_prompt-prompt read role text (some d) h = (d, refl, ground arith)

-- An agent gets its system prompt exactly where its role is one of the control plane's and the file of
-- that role is there; it is then the text of that file.
pub load_system_prompt-prompt_iff :
    (read : String → Option String) (role text : String)
    → (load_system_prompt read role ≡ prompt text)
      ↔ ((r : AgentRole) × (role ≡ role_value r) × (read (prompt_dir r) ≡ some text))
unfolding load_system_prompt
load_system_prompt-prompt_iff read role text = (
  λ h.
      let (d, found, there) = read_prompt-prompt read role text (lookup role prompt_dirs) h in
      let (r, e, f) = known role d found in (r, e, ap read (sym f) ∙ there),
  λ (r, e, there).
      ap (λ k. read_prompt read k (lookup k prompt_dirs)) e
      ∙ ap (read_prompt read (role_value r)) (own_dir r)
      ∙ ap (λ o. elim o [ none ↦ no_prompt (role_value r) (prompt_dir r) | some t ↦ prompt t ])
          there,
)
