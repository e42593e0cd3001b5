-- ===== src/Service/Ceilings.antt =====
-- The two ceilings of `domain/caps.py` on the live agents, over all that `CrewService` is called for.
use agentic_crew.Prelude.{
  ℕ, ◌≤◌, String, Bool, true, false, ◌≡◌, sym, subst, ◌∙◌, inl, inr, none, some, List, [], ◌∷◌,
  ◌++◌, length, keep, arith, Bool-cases, length-keep-keep-le, length-keep-snoc, ◌<◌,
}
use agentic_crew.Caps.{AgentRole, per_project_limit, global_limit}
use agentic_crew.Runtime.{AgentHandle, is_wanted, is_wanted-role, is_wanted-project}
use agentic_crew.Service.World.{Host}
use agentic_crew.Service.Steps.{Ports, Crew, IsSound, live}
use agentic_crew.Service.Calls.{Run}
use agentic_crew.Service.Kept.{IsKept}
use agentic_crew.Service.KeptCalls.{Run-Holds}

abbrev pub WithinGlobal : List AgentHandle → Type 0
WithinGlobal hs = (role : AgentRole) → length (keep (is_wanted role none) hs) ≤ global_limit role

abbrev pub WithinProject : List AgentHandle → Type 0
WithinProject hs =
    (role : AgentRole) (id : String)
    → length (keep (is_wanted role (some id)) hs) ≤ per_project_limit role

-- A further agent is counted where it is wanted, and then room for it has been found.
one_more_le :
    (p : AgentHandle → Bool) (hs : List AgentHandle) (h : AgentHandle) {n : ℕ}
    → length (keep p hs) ≤ n
    → (p h ≡ true → length (keep p hs) < n)
    → length (keep p (hs ++ h ∷ [])) ≤ n
one_more_le p hs h k room = elim (Bool-cases (p h)) [
  | inl wanted ↦ ground (arith, length-keep-snoc p hs h, room wanted)
  | inr other ↦ ground (arith, length-keep-snoc p hs h)
]

IsKept-WithinGlobal : (ports : Ports) → IsKept ports true WithinGlobal
IsKept-WithinGlobal ports = record {
  fewer =
      λ stays hs k role. omega (arith, k role, length-keep-keep-le (is_wanted role none) stays hs);
  one_more = λ w role id override h may room same_r same_p k r.
      one_more_le (is_wanted r none) (live ports w) h (k r) (λ wanted.
        subst (λ a. length (keep (is_wanted a none) (live ports w)) < global_limit a)
          (sym same_r ∙ is_wanted-role r none h wanted) room.1);
}

IsKept-WithinProject : (ports : Ports) → IsKept ports false WithinProject
IsKept-WithinProject ports = record {
  fewer = λ stays hs k role id.
      omega (arith, k role id, length-keep-keep-le (is_wanted role (some id)) stays hs);
  one_more = λ w role id override h may room same_r same_p k r i.
      one_more_le (is_wanted r (some i)) (live ports w) h (k r i) (λ wanted.
        let fits : length (keep (is_wanted role (some id)) (live ports w))
            < per_project_limit role =
          ground (arith, room.2) in
        subst (λ j. length (keep (is_wanted r (some j)) (live ports w)) < per_project_limit r)
          (sym same_p ∙ is_wanted-project r i h wanted)
          (subst (λ a. length (keep (is_wanted a (some id)) (live ports w)) < per_project_limit a)
            (sym same_r ∙ is_wanted-role r (some i) h wanted) fits));
}

-- Start from a state where no role has more live agents than its cluster-wide limit. Whatever
-- calls are made, with any overrides, and whichever agents end between them, no role ever has
-- more live agents than that.
pub Run-WithinGlobal :
    (ports : Ports) (host : Host) (w v : Crew ports)
    → IsSound ports w
    → WithinGlobal (live ports w)
    → Run ports host true w v
    → WithinGlobal (live ports v)
Run-WithinGlobal ports host w v sound within run =
    (Run-Holds ports host true WithinGlobal (IsKept-WithinGlobal ports) run (sound, within)).1

-- Start from a state where no project has more live agents of a role than the role's limit per
-- project. Whatever calls are made without the founder's override, and whichever agents end
-- between them, no project ever has more.
pub Run-WithinProject :
    (ports : Ports) (host : Host) (w v : Crew ports)
    → IsSound ports w
    → WithinProject (live ports w)
    → Run ports host false w v
    → WithinProject (live ports v)
Run-WithinProject ports host w v sound within run =
    (Run-Holds ports host false WithinProject (IsKept-WithinProject ports) run (sound, within)).1
