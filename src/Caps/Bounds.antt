-- ===== src/Caps/Bounds.antt =====
-- What `check_spawn` of domain/caps.py allows and refuses, against the limits as numbers.
use agentic_crew.Prelude.{
  ℕ, ◌≤◌, ◌<◌, Bool, false, true, ◌≡◌, ◌↔◌, ◌⊎◌, ◌≢◌, none, some, arith, eq_iff,
}
use agentic_crew.Caps.{
  Census, Refusal, per_project_limit, global_limit, check_spawn, check_new_project,
  max_concurrent_projects,
}

-- There is room for one more agent, `override` lifting the limit of the project and no other.
abbrev pub HasRoom : Census → Bool → Type 0
HasRoom c override =
    (0 < per_project_limit c.role)
    × (c.everywhere < global_limit c.role)
    × ((c.in_project < per_project_limit c.role) ⊎ (override ≡ true))

-- A spawn is allowed exactly when the role is in use, the cluster has room, and the project has
-- room or the founder overrides its limit.
pub check_spawn-none_iff :
    (c : Census) (override : Bool) → (check_spawn c override ≡ none) ↔ HasRoom c override
unfolding check_spawn
check_spawn-none_iff c override = (λ h. ground arith, λ h. ground arith)

-- A refusal reports a limit that the count has reached.
pub check_spawn-limit-le-current :
    (c : Census) (override : Bool) (r : Refusal)
    → check_spawn c override ≡ some r
    → r.limit ≤ r.current
unfolding check_spawn
check_spawn-limit-le-current c override r h = ground arith

-- The founder's override turns exactly the refusals of scope "project" into permissions, and
-- leaves every other answer as it was.
pub check_spawn_override :
    (c : Census) (r : Refusal)
    → check_spawn c false ≡ some r
    → ((r.scope ≡ "project") × (check_spawn c true ≡ none))
      ⊎ ((r.scope ≢ "project") × (check_spawn c true ≡ some r))
unfolding check_spawn
check_spawn_override c r h = ground (arith, eq_iff "role" "project", eq_iff "global" "project")

pub check_new_project-none_iff :
    (n : ℕ) → (check_new_project n ≡ none) ↔ (n < max_concurrent_projects)
unfolding check_new_project
check_new_project-none_iff n = (λ h. ground arith, λ h. ground arith)
