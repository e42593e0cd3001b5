-- ===== src/Service/Interleaved/Starts.antt =====
-- Which interleaved calls are about to launch an agent, and of which role.
use agentic_crew.Prelude.{
  ◌&&◌, ℕ, String, Bool, true, false, ◌≡◌, ◌⊎◌, refl, Option, none, some, inl, inr, Bool-cases,
  if◌then◌else◌,
}
use agentic_crew.Caps.{AgentRole, Refusal, same_role}
use agentic_crew.Project.{Project}
use agentic_crew.Runtime.{AgentHandle}
use agentic_crew.Service.Agents.{is_scoping}
use agentic_crew.Service.Interleaved.{
  Request, Task, lists, creates, greets, requires, counts_project, counts_all, refuses, launches,
  announces, saves, ended, admit_if, settle,
}

-- A call that is about to launch an agent of the role.
abbrev pub starts : AgentRole → Task → Bool
starts role (launches r _) = same_role r.role role
starts role (lists _) = false
starts role (creates _) = false
starts role (greets _ _) = false
starts role (requires _) = false
starts role (counts_project _ _) = false
starts role (counts_all _ _ _) = false
starts role (refuses _ _) = false
starts role (announces _ _ _) = false
starts role (saves _ _) = false
starts role (ended _) = false

pub starts-admit_if :
    (role : AgentRole) (text : String) (o : Option Refusal) → starts role (admit_if text o) ≡ false
starts-admit_if role text (some refusal) = refl
starts-admit_if role text none = refl

pub starts-settle :
    (role : AgentRole) (project : Project) (handle : AgentHandle)
    → starts role (settle project handle) ≡ false
starts-settle role project handle = elim (Bool-cases (is_scoping project.status)) [
  | inl new ↦ rw new refl
  | inr old ↦ rw old refl
]

pub launches-cases :
    (t : Task)
    → ((role : AgentRole) → starts role t ≡ false)
      ⊎ ((r : Request) × (p : Project) × (t ≡ launches r p))
launches-cases (launches r p) = inr (r, p, refl)
launches-cases (lists _) = inl (λ role. refl)
launches-cases (creates _) = inl (λ role. refl)
launches-cases (greets _ _) = inl (λ role. refl)
launches-cases (requires _) = inl (λ role. refl)
launches-cases (counts_project _ _) = inl (λ role. refl)
launches-cases (counts_all _ _ _) = inl (λ role. refl)
launches-cases (refuses _ _) = inl (λ role. refl)
launches-cases (announces _ _ _) = inl (λ role. refl)
launches-cases (saves _ _) = inl (λ role. refl)
launches-cases (ended _) = inl (λ role. refl)

abbrev pub one_if : Bool → ℕ
one_if b = if b then 1 else 0

pub one_if-and_true : (b : Bool) → one_if (b && true) ≡ one_if b
one_if-and_true true = refl
one_if-and_true false = refl
