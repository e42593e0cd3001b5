-- ===== src/Agents/Toolbox/Teammates.antt =====
-- From a model's call of `spawn_agent` in agent_tools.py, over HTTP, to the route of api/routes.py and the
-- caps behind it, and back.
use agentic_crew.Prelude.{
  String, Bool, true, false, [], ◌∷◌, ◌++◌, ◌≡◌, ◌⊎◌, refl, sym, ap, ◌∙◌, subst, inl, inr, none,
  some, arith, ◌<>◌,
}
use agentic_crew.Caps.{AgentRole, Refusal, role_value, check_spawn}
use agentic_crew.Caps.Bounds.{HasRoom}
use agentic_crew.Contract.Value.{Value, pos, str, int}
use agentic_crew.Contract.Json.{dict, object, get_field}
use agentic_crew.Contract.Identity.{AgentIdentity}
use agentic_crew.Runtime.{AgentHandle}
use agentic_crew.Service.World.{Host}
use agentic_crew.Service.Steps.{Ports, Crew, IsSound, find, live}
use agentic_crew.Service.Spawn.{census_of}
use agentic_crew.Api
use agentic_crew.Api.{AgentReply, replied, failed, crashed, refusal, message, invalid, not_found}
use agentic_crew.Api.Replies.{spawn_agent-replies}
use agentic_crew.Agents.Requests
use agentic_crew.Agents.Requests.{Servers}
use agentic_crew.Agents.Toolbox.{Http, returned, spawn_agent, request_of, call_tool, refused}
use agentic_crew.Agents.Toolbox.Answers.{Told, answered, capped, failing, call_tool-spawn_agent}

-- The body of the spawn route's answer
abbrev pub agent_value : AgentReply → Value
agent_value a = dict (("agent", str a.agent) ∷ ("role", str a.role) ∷ [])

-- The detail of `_refused`
abbrev pub refusal_value : Refusal → Value
refusal_value r = dict (
    ("scope", str r.scope)
    ∷ ("limit", int (pos r.limit))
    ∷ ("current", int (pos r.current))
    ∷ ("message", str r.message)
    ∷ [])

module _ (http : Http) where
  -- What a response says of the reply of the route that it answers with.
  abbrev pub Carries : http.Response → Api.Reply AgentReply → Type 0
  Carries resp (replied code a) =
      (http.is_error resp ≡ false) × (http.json resp ≡ returned (agent_value a))
  Carries resp (failed code (refusal r)) =
      (http.is_error resp ≡ true)
      × (http.status_code resp ≡ code)
      × (http.json resp ≡ returned (dict (("detail", refusal_value r) ∷ [])))
  Carries resp (failed code (message text)) =
      (http.is_error resp ≡ true) × (http.status_code resp ≡ code)
  Carries resp (failed code invalid) = (http.is_error resp ≡ true) × (http.status_code resp ≡ code)
  Carries resp (crashed e) = (http.is_error resp ≡ true) × (http.status_code resp ≡ 500)

  -- Of a connection to a control plane that is up: the request of `spawn_agent` for a project reaches
  -- the route, and the route's reply comes back.
  pub record Serves (ports : Ports) (host : Host) (servers : Servers) (id : String) : Type 0 where
    pub crew_of : http.State → Crew ports
    pub spawn_agent_lem :
        (role : AgentRole) (assignment : String) (override : Bool) (s : http.State)
        → let (reply, w) = Api.spawn_agent host id role assignment override (crew_of s) in
          (resp : http.Response) × (s' : http.State) × (http.send
              (Requests.spawn_agent servers id (role_value role) assignment override)
              s
            ≡ (returned resp, s'))
          × (crew_of s' ≡ w)
          × Carries resp reply

module _ (ports : Ports) (host : Host) (http : Http) (servers : Servers) (identity : AgentIdentity)
    (serves : Serves http ports host servers identity.project_id) where
  open serves use {crew_of, spawn_agent_lem}

  -- What a model is to be told, and what becomes of the agents, by what the caps say of those alive.
  abbrev pub Decided : AgentRole → Crew ports → Value → Crew ports → Type 0
  Decided role w v w' =
      ((find ports w identity.project_id ≡ none)
        × (text : String) × (v
            ≡ dict (("error", str ("spawn_agent" <> (" failed: " <> text))) ∷ []))
        × (live ports w' ≡ live ports w))
      ⊎ ((r : Refusal) × (check_spawn (census_of ports w role identity.project_id) false ≡ some r)
          × (v ≡ refused (str r.scope) (str r.message))
          × (live ports w' ≡ live ports w))
      ⊎ ((h : AgentHandle) × HasRoom (census_of ports w role identity.project_id) false
          × (v ≡ agent_value (record { agent = h.name; role = role_value role }))
          × (live ports w' ≡ live ports w ++ h ∷ []))

  -- A model that asks for a teammate gets what the caps decide of the agents that are alive: where they
  -- refuse, it is told the scope and the words of the refusal, and no agent starts; where they have
  -- room, one agent more of the role is alive and it is told its name; and where its project is not
  -- known, it is told that the tool has failed, and no agent starts.
  pub call_tool-check_spawn :
      (upper : String → String) (role : AgentRole) (assignment : String) (s : http.State)
      → IsSound ports (crew_of s)
      → let (v, s') =
          call_tool http servers upper identity (spawn_agent (role_value role) assignment) s in
        Decided role (crew_of s) v (crew_of s')
  unfolding request_of get_field object
  call_tool-check_spawn upper role assignment s sound =
      let (resp, s', sent, there, carried) = spawn_agent_lem role assignment false s in
      let tells =
        λ (v : Value) (told : Told http (role_value role) (returned resp) v)
            (decided : Decided role (crew_of s) v (crew_of s')).
          subst (λ (x : Value × http.State). Decided role (crew_of s) x.0 (crew_of x.1))
            (sym (
              call_tool-spawn_agent http servers upper identity (role_value role) assignment s s'
                (returned resp) v sent told))
            decided in
      elim (spawn_agent-replies ports host (crew_of s) identity.project_id role assignment false
        sound) [
          | inl (gone, same) ↦
              let (bad, code) = subst (Carries http resp) (ap (λ x. x.0) same) carried in
              tells _ (failing bad (λ e. omega (arith, code, e))) (
                inl
                  (gone, http.show_error resp, refl, ap (live ports) (there ∙ ap (λ x. x.1) same)))
          | inr (inl (r, full, same, kept)) ↦
              let (bad, code, body) = subst (Carries http resp) same carried in
              tells _ (capped bad code body refl)
                (inr (inl (r, full, refl, ap (live ports) there ∙ kept)))
          | inr (inr (h, room, same, grown)) ↦
              let (good, body) = subst (Carries http resp) same carried in
              tells _ (answered good body)
                (inr (inr (h, room, refl, ap (live ports) there ∙ grown)))
        ]
