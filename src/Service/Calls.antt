-- ===== src/Service/Calls.antt =====
-- The calls that `CrewService` is given, one after the other, and what the cluster does meanwhile.
use agentic_crew.Prelude.{arith, String, Bool, Option, List, ◌≡◌, keep, true, not, ◌||◌}
use agentic_crew.Caps.{AgentRole}
use agentic_crew.Contract.Value.{ℤ}
use agentic_crew.Contract.Events.{Event}
use agentic_crew.Runtime.{AgentHandle}
use agentic_crew.Service.World.{Host}
use agentic_crew.Service.Agents.{spawn, roster, founder_says, deliver}
use agentic_crew.Service.Projects.{
  open_project, get_project, list_active, rename_project, finish_project, escalate, history,
}
use agentic_crew.Service.Budget.{record_one}
use agentic_crew.Service.Steps.{Ports, Crew, live}

pub data Call : Type 0 where
  opens : String → Call
  gets : String → Call
  lists : Call
  renames : String → String → Call
  finishes : String → Bool → Call
  spawns : String → AgentRole → String → Bool → Call
  asks_roster : String → Call
  says : String → String → Call
  delivers : String → String → AgentRole → String → Call
  escalates : String → String → String → Option (List String) → Call
  reads : String → ℤ → Call
  records : Event → Call

-- Without `lifts`, the calls of `spawn` with an override are left out.
unfoldable pub is_permitted : Bool → Call → Bool
is_permitted lifts (spawns _ _ _ override) = lifts || not override
is_permitted lifts _ = true

pub is_permitted_all : (c : Call) → is_permitted true c ≡ true
unfolding is_permitted
is_permitted_all c = ground arith

module _ (ports : Ports) (host : Host) where
  open ports use {rt, is_runtime}

  -- The state after a call, whether it returned or raised.
  unfoldable pub step : Call → Crew ports → Crew ports
  step (opens request) w = (open_project host request w).1
  step (gets id) w = (get_project id w).1
  step lists w = (list_active w).1
  step (renames id name) w = (rename_project host id name w).1
  step (finishes id is_cancelled) w = (finish_project id is_cancelled w).1
  step (spawns id role assignment override) w = (spawn host id role assignment override w).1
  step (asks_roster id) w = (roster id w).1
  step (says id text) w = (founder_says host id text w).1
  step (delivers id sender to_role text) w = (deliver host id sender to_role text w).1
  step (escalates id question context options) w = (escalate host id question context options w).1
  step (reads id limit) w = (history id limit w).1
  step (records event) w = record_one host event w

  -- Between two calls agents may end: of the live ones, some are kept. `lifts` says whether the
  -- founder's override is used at all.
  pub data Step (lifts : Bool) (w : Crew ports) : Crew ports → Type 0 where
    call : (c : Call) → is_permitted lifts c ≡ true → Step lifts w (step c w)
    ending :
        (s : rt.State) (stays : AgentHandle → Bool)
        → is_runtime.IsSound s
        → is_runtime.live s ≡ keep stays (live ports w)
        → Step lifts w (record w { runtime = s })

  -- The states that a sequence of steps leads to.
  pub data Run (lifts : Bool) (w : Crew ports) : Crew ports → Type 0 where
    start : Run lifts w w
    more : {v u : Crew ports} → Run lifts w v → Step lifts v u → Run lifts w u
