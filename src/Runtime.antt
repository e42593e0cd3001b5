-- ===== src/Runtime.antt =====
-- apps/control_plane/ports/runtime.py: the AgentRuntime port, with what its clients rely on.
pub mod Fake
pub mod Kubernetes
use agentic_crew.Prelude.{
  ℕ, ◌+◌, ◌⊎◌, String, Bool, false, true, not, ◌&&◌, ◌||◌, ◌≡◌, Option, none, some, List, [], ◌∷◌,
  ◌++◌, length, keep, ◌==◌, contains, arith, eq_iff, if◌then◌else◌,
}
use agentic_crew.Exec.{Exec, ok}
use agentic_crew.Caps.{AgentRole, same_role, same_role-eq}

pub data AgentState : Type 0 where
  pending running succeeded failed : AgentState

unfoldable pub state_value : AgentState → String
state_value pending = "pending"
state_value running = "running"
state_value succeeded = "succeeded"
state_value failed = "failed"

-- `AgentState.is_terminal`
unfoldable pub is_over : AgentState → Bool
is_over succeeded = true
is_over failed = true
is_over _ = false

pub record AgentStatus : Type 0 where
  pub state : AgentState
  pub reason : String
  pub detail : String

-- `AgentStatus(state)`
abbrev pub plain_status : AgentState → AgentStatus
plain_status state = record { state = state; reason = ""; detail = "" }

-- `_STUCK_REASONS`
abbrev pub stuck_reasons : List String
stuck_reasons =
    "CreateContainerConfigError" ∷ "ImagePullBackOff" ∷ "ErrImagePull" ∷ "InvalidImageName"
    ∷ "CreateContainerError" ∷ []

is_pending : AgentState → Bool
is_pending pending = true
is_pending _ = false

-- `AgentStatus.is_stuck`
unfoldable pub is_stuck : AgentStatus → Bool
unfolding is_pending contains
is_stuck s = is_pending s.state && contains s.reason stuck_reasons

pub record AgentSpec : Type 0 where
  pub role : AgentRole
  pub project_id : String
  pub assignment : String

pub record AgentHandle : Type 0 where
  pub id : String
  pub name : String
  pub role : AgentRole
  pub project_id : String

pub record Runtime : Type 1 where
  pub State : Type 0
  pub launch : AgentSpec → Exec State AgentHandle
  pub status : AgentHandle → Exec State AgentStatus
  pub census : AgentRole → Option String → Exec State ℕ
  pub handles : AgentRole → String → Exec State (List AgentHandle)
  pub stop_project : String → Exec State ℕ

-- An agent that a census of a role asks for, on one project or on all.
abbrev pub on_project : Option String → String → Bool
on_project none id = true
on_project (some wanted) id = id == wanted

abbrev pub is_wanted : AgentRole → Option String → AgentHandle → Bool
is_wanted role project_id h = same_role h.role role && on_project project_id h.project_id

pub is_wanted-role :
    (role : AgentRole) (o : Option String) (h : AgentHandle)
    → is_wanted role o h ≡ true
    → h.role ≡ role
is_wanted-role role o h wanted = same_role-eq h.role role (ground arith)

pub is_wanted-project :
    (role : AgentRole) (id : String) (h : AgentHandle)
    → is_wanted role (some id) h ≡ true
    → h.project_id ≡ id
is_wanted-project role id h wanted = (eq_iff h.project_id id).0 (ground arith)

abbrev pub IsAmong : AgentHandle → List AgentHandle → Type 0
IsAmong h [] = ¬ Unit {0}
IsAmong h (k ∷ hs) = (k ≡ h) ⊎ IsAmong h hs

-- What a runtime promises, over the list of the agents that are alive in its state, and the number of
-- those of a project that have ended by themselves and that it still has. `IsSound` is the runtime's
-- own invariant.
pub record IsRuntime (rt : Runtime) : Type 1 where
  pub IsSound : rt.State → Type 0
  pub live : rt.State → List AgentHandle
  pub ended : rt.State → String → ℕ
  pub census_lem :
      (s : rt.State) (role : AgentRole) (project_id : Option String)
      → IsSound s
      → rt.census role project_id s ≡ (ok (length (keep (is_wanted role project_id) (live s))), s)
  pub handles_lem :
      (s : rt.State) (role : AgentRole) (project_id : String)
      → IsSound s
      → rt.handles role project_id s ≡ (ok (keep (is_wanted role (some project_id)) (live s)), s)
  pub status_lem :
      (s : rt.State) (h : AgentHandle)
      → IsSound s
      → (st : AgentStatus) × (rt.status h s ≡ (ok st, s))
        × (IsAmong h (live s) → is_over st.state ≡ false)
  pub launch_lem :
      (s : rt.State) (spec : AgentSpec)
      → IsSound s
      → (h : AgentHandle) × (s' : rt.State) × (rt.launch spec s ≡ (ok h, s'))
        × IsSound s'
        × (h.role ≡ spec.role)
        × (h.project_id ≡ spec.project_id)
        × (live s' ≡ live s ++ h ∷ [])
  pub stop_project_lem :
      (s : rt.State) (project_id : String)
      → IsSound s
      → (n : ℕ) × (s' : rt.State) × (rt.stop_project project_id s ≡ (ok n, s'))
        × (n ≡ length (keep (λ h. h.project_id == project_id) (live s)) + ended s project_id)
        × (ended s' project_id ≡ 0)
        × IsSound s'
        × (live s' ≡ keep (λ h. not (h.project_id == project_id)) (live s))
