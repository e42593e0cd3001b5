-- ===== src/Caps.antt =====
-- apps/control_plane/domain/caps.py: the roles, the two ceilings of each, and the spawn rules.
pub mod Bounds
use agentic_crew.Prelude.{
  ℕ, String, Bool, false, true, not, ◌&&◌, Option, none, some, List, [], ◌∷◌, leb, eqb, ◌<>◌,
  show_nat, arith, ◌≡◌, if◌then◌else◌,
}

pub data AgentRole : Type 0 where
  engineering_manager product_manager backend_engineer : AgentRole
  frontend_engineer qa_engineer code_reviewer : AgentRole

-- `role.value`
unfoldable pub role_value : AgentRole → String
role_value engineering_manager = "engineering_manager"
role_value product_manager = "product_manager"
role_value backend_engineer = "backend_engineer"
role_value frontend_engineer = "frontend_engineer"
role_value qa_engineer = "qa_engineer"
role_value code_reviewer = "code_reviewer"

-- The members in the order of the enum, as `for role in AgentRole` runs through them.
abbrev pub all_roles : List AgentRole
all_roles =
    engineering_manager ∷ product_manager ∷ backend_engineer ∷ frontend_engineer ∷ qa_engineer
    ∷ code_reviewer ∷ []

-- `a is b`
unfoldable pub same_role : AgentRole → AgentRole → Bool
same_role engineering_manager engineering_manager = true
same_role product_manager product_manager = true
same_role backend_engineer backend_engineer = true
same_role frontend_engineer frontend_engineer = true
same_role qa_engineer qa_engineer = true
same_role code_reviewer code_reviewer = true
same_role _ _ = false

-- `PER_PROJECT_LIMITS`
unfoldable pub per_project_limit : AgentRole → ℕ
per_project_limit engineering_manager = 1
per_project_limit product_manager = 1
per_project_limit backend_engineer = 1
per_project_limit frontend_engineer = 1
per_project_limit qa_engineer = 1
per_project_limit code_reviewer = 0

-- `GLOBAL_LIMITS`
unfoldable pub global_limit : AgentRole → ℕ
global_limit engineering_manager = 3
global_limit product_manager = 3
global_limit backend_engineer = 3
global_limit frontend_engineer = 3
global_limit qa_engineer = 1
global_limit code_reviewer = 0

abbrev pub max_concurrent_projects : ℕ
max_concurrent_projects = 1

pub record Census : Type 0 where
  pub role : AgentRole
  pub in_project : ℕ
  pub everywhere : ℕ

pub record Refusal : Type 0 where
  pub scope : String
  pub limit : ℕ
  pub current : ℕ
  pub message : String

abbrev pub no_role : Census → Refusal
no_role census = record {
  scope = "role";
  limit = 0;
  current = census.in_project;
  message =
      "This crew has no "
      <> role_value census.role
      <> " role. Do not spawn one and do not "
      <> "retry. If the work needs checking, do it yourself before you finish.";
}

abbrev pub global_full : Census → Refusal
global_full census = record {
  scope = "global";
  limit = global_limit census.role;
  current = census.everywhere;
  message =
      show_nat census.everywhere
      <> " "
      <> role_value census.role
      <> " agents are already running across "
      <> "all projects, which is the cluster-wide limit of "
      <> show_nat (global_limit census.role)
      <> ". "
      <> "This cannot be overridden. Wait for one to finish.";
}

abbrev pub project_full : Census → Refusal
project_full census = record {
  scope = "project";
  limit = per_project_limit census.role;
  current = census.in_project;
  message =
      "This project already has "
      <> show_nat census.in_project
      <> " of "
      <> show_nat (per_project_limit census.role)
      <> " "
      <> role_value census.role
      <> " agents. Give the work to one of them, or split it "
      <> "differently. Do not retry this spawn — ask the founder to approve "
      <> "an override if you genuinely need another.";
}

unfoldable pub check_spawn : Census → Bool → Option Refusal
check_spawn census override =
    if eqb (per_project_limit census.role) 0
    then some (no_role census)
    else if leb (global_limit census.role) census.everywhere
    then some (global_full census)
    else if leb (per_project_limit census.role) census.in_project && not override
    then some (project_full census)
    else none

abbrev pub projects_full : ℕ → Refusal
projects_full active_projects = record {
  scope = "projects";
  limit = max_concurrent_projects;
  current = active_projects;
  message =
      show_nat active_projects
      <> " projects are already running, which is the "
      <> "limit of "
      <> show_nat max_concurrent_projects
      <> ". Finish or cancel one first.";
}

unfoldable pub check_new_project : ℕ → Option Refusal
check_new_project active_projects =
    if leb max_concurrent_projects active_projects
    then some (projects_full active_projects)
    else none

pub same_role-eq : (a b : AgentRole) → same_role a b ≡ true → a ≡ b
unfolding same_role
same_role-eq a b h = ground arith

pub same_role_refl : (a : AgentRole) → same_role a a ≡ true
unfolding same_role
same_role_refl a = ground arith
