-- ===== src/Service/Kept.antt =====
-- The methods of `CrewService` that ask, message and spawn, and what of the live agents they keep.
use agentic_crew.Prelude.{
  String, Bool, true, not, ◌||◌, ◌≡◌, sym, subst, inl, inr, List, [], ◌∷◌, ◌++◌, keep, Option-cases,
}
use agentic_crew.Exec.Keeps.{Keeps, Keeps-pure, Keeps-if, Keeps-bind, after}
use agentic_crew.Caps.{AgentRole, check_spawn}
use agentic_crew.Caps.Bounds.{HasRoom, check_spawn-none_iff}
use agentic_crew.Runtime.{AgentHandle}
use agentic_crew.Service.Steady.{Holds}
use agentic_crew.Service.Steady
use agentic_crew.Service.World.{Host, in_runtime, in_runtime_lem}
use agentic_crew.Service.Agents.{spawn, rows_of, roster_from, role_address, founder_says, deliver}
use agentic_crew.Service.Steps.{Ports, Crew, find, live}
use agentic_crew.Service.Spawn.{census_of, spawn_allowed, spawn_refused, spawn_missing}

-- A property of the live agents that is lost neither when some of them end nor when a spawn that
-- the caps allow adds one.
pub record IsKept (ports : Ports) (lifts : Bool) (Q : List AgentHandle → Type 0) : Type 0 where
  pub fewer : (stays : AgentHandle → Bool) (hs : List AgentHandle) → Q hs → Q (keep stays hs)
  pub one_more :
      (w : Crew ports) (role : AgentRole) (id : String) (override : Bool) (h : AgentHandle)
      → (lifts || not override) ≡ true
      → HasRoom (census_of ports w role id) override
      → h.role ≡ role
      → h.project_id ≡ id
      → Q (live ports w)
      → Q (live ports w ++ h ∷ [])

module _ (ports : Ports) (host : Host) (lifts : Bool) (Q : List AgentHandle → Type 0)
    (kept : IsKept ports lifts Q) where
  open ports use {st, rt, bus, is_store, is_runtime, is_bus}

  pub Keeps-stop_project : (id : String) → Keeps (Holds ports Q) (in_runtime (rt.stop_project id))
  Keeps-stop_project id = record {
    at = λ w k.
        let (n, s', eq, _, _, sound, left) = is_runtime.stop_project_lem w.runtime id k.0.1 in
        after (Holds ports Q) (in_runtime_lem (rt.stop_project id) w eq)
          ((k.0.0, sound), subst Q (sym left) (kept.fewer _ (live ports w) k.1));
  }

  -- A spawn asks for room before it launches.
  pub Keeps-spawn :
      (id : String) (role : AgentRole) (assignment : String) (override : Bool)
      → (lifts || not override) ≡ true
      → Keeps (Holds ports Q) (spawn host id role assignment override)
  Keeps-spawn id role assignment override may = record {
    at = λ w k. elim (Option-cases (find ports w id)) [
      | inl gone ↦
          after (Holds ports Q) (spawn_missing ports host w id role assignment override k.0 gone) k
      | inr (p, here) ↦ elim (Option-cases (check_spawn (census_of ports w role id) override)) [
        | inl allowed ↦
            let room = (check_spawn-none_iff (census_of ports w role id) override).0 allowed in
            let (r, w', eq, spawned) =
              spawn_allowed ports host w id role assignment override p k.0 here room in
            after (Holds ports Q) eq (
              spawned.sound,
              subst Q (sym spawned.agents) (
                  kept.one_more w role id override r.handle may room spawned.handle_role
                    spawned.handle_project k.1),
            )
        | inr (refusal, full) ↦
            let (w', eq, refused) =
              spawn_refused ports host w id role assignment override p refusal k.0 here full in
            after (Holds ports Q) eq (
              (
                subst is_store.IsSound (sym refused.same_store) k.0.0,
                subst is_runtime.IsSound (sym refused.same_runtime) k.0.1,
              ),
              subst (λ s. Q (is_runtime.live s)) (sym refused.same_runtime) k.1,
            )
      ]
    ];
  }

  pub Keeps-rows_of :
      (role : AgentRole) (hs : List AgentHandle) → Keeps (Holds ports Q) (rows_of role hs)
  unfolding rows_of
  Keeps-rows_of role [] = Keeps-pure _
  Keeps-rows_of role (h ∷ hs) =
      Keeps-bind _ _ (Steady.Keeps-status ports Q h)
        (λ _. Keeps-bind _ _ (Keeps-rows_of role hs) (λ _. Keeps-pure _))

  pub Keeps-roster_from :
      (roles : List AgentRole) (id : String) → Keeps (Holds ports Q) (roster_from roles id)
  unfolding roster_from
  Keeps-roster_from [] id = Keeps-pure _
  Keeps-roster_from (role ∷ roles) id = Keeps-bind _ _ (Steady.Keeps-handles ports Q role id) (λ hs.
      Keeps-bind _ _ (Keeps-rows_of role hs)
        (λ _. Keeps-bind _ _ (Keeps-roster_from roles id) (λ _. Keeps-pure _)))

  pub Keeps-role_address :
      (id : String) (role : AgentRole) → Keeps (Holds ports Q) (role_address id role)
  unfolding role_address
  Keeps-role_address id role =
      Keeps-bind _ _ (Steady.Keeps-handles ports Q role id) (λ _. Keeps-pure _)

  pub Keeps-founder_says :
      (id : String) (text : String) → Keeps (Holds ports Q) (founder_says host id text)
  unfolding founder_says
  Keeps-founder_says id text =
      Keeps-bind _ _ (Keeps-role_address id _) (λ _. Steady.Keeps-emit ports Q host _ _ _ _ _)

  pub Keeps-deliver :
      (id sender : String) (to_role : AgentRole) (text : String)
      → Keeps (Holds ports Q) (deliver host id sender to_role text)
  unfolding deliver
  Keeps-deliver id sender to_role text = Keeps-bind _ _ (Keeps-role_address id to_role) (λ _.
      Keeps-if _ _ _ (Keeps-pure _)
        (Keeps-bind _ _ (Steady.Keeps-emit ports Q host _ _ _ _ _) (λ _. Keeps-pure _)))
