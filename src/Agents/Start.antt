-- ===== src/Agents/Start.antt =====
-- agents/main.py, and how agents/shared/agent_loop.py starts an agent and serves it its events. What
-- telemetry and the tools publish while the model is called is not among the events here.
pub mod Prompts
pub mod Assigned
use Prim.Native.String
use agentic_crew.Prelude.{
  ℕ, ◌+◌, String, Bool, true, false, not, Option, none, some, List, [], ◌∷◌, ◌++◌, Dict, lookup,
  keep, map, ltb, length, last_n, ◌==◌, ◌<>◌, if◌then◌else◌,
}
use agentic_crew.Exec.{Exec, Error, Result, ok, err, pure, modify, ◌>>=◌, ◌>>◌}
use agentic_crew.Project.{is_empty}
use agentic_crew.Contract.Value.{Value, Payload, str, arr, texts}
use agentic_crew.Contract.Json.{is_truthy}
use agentic_crew.Contract.Events.{
  Event, EventKind, kind_value, agent_ready, agent_message, assignment, error,
}
use agentic_crew.Contract.Identity.{AgentIdentity, address}
use agentic_crew.Agents.Loop.{Incoming, Message, human, ai, words, say, trimmed, final_text, listen}
use agentic_crew.Bus.{Bus}

-- `PROMPT_DIRS`
abbrev pub prompt_dirs : Dict String
prompt_dirs =
    ("engineering_manager", "em")
    ∷ ("product_manager", "pm")
    ∷ ("backend_engineer", "backend")
    ∷ ("frontend_engineer", "frontend")
    ∷ ("qa_engineer", "qa")
    ∷ ("code_reviewer", "reviewer")
    ∷ []

-- What `load_system_prompt` comes to: a prompt, or a `SystemExit` with the role, or with the role and
-- the directory that has no prompt.
pub data Loaded : Type 0 where
  prompt : String → Loaded
  unknown_role : String → Loaded
  no_prompt : String → String → Loaded

-- `read` gives the text of the file `system_prompt.md` of a directory, if there is one.
abbrev read_prompt : (String → Option String) → String → Option String → Loaded
read_prompt read role none = unknown_role role
read_prompt read role (some directory) = elim (read directory) [
  | none ↦ no_prompt role directory
  | some text ↦ prompt text
]

unfoldable pub load_system_prompt : (String → Option String) → String → Loaded
load_system_prompt read role = read_prompt read role (lookup role prompt_dirs)

-- `text.replace("_", "-")`
unfoldable pub dashed : String → String
dashed String.[] = String.[]
dashed (String.◌∷◌ c s) =
    (if String.◌∷◌ c String.[] == "_" then "-" else String.◌∷◌ c String.[]) <> dashed s

-- `SKILLS_MOUNT`
abbrev pub skills_mount : String
skills_mount = "/skills"

-- `_skill_sources`: `is_dir` says of a path below the skills' root whether it is a directory.
unfoldable pub skill_sources : (String → Bool) → String → List String
skill_sources is_dir role =
    map (λ rel. skills_mount <> ("/" <> rel))
      (keep is_dir ("base" ∷ ("roles/" <> dashed role) ∷ []))

-- `d.get(k)`, and `a or b`
abbrev field_or : Option Value → Value → Value
field_or none other = other
field_or (some v) other = if is_truthy v then v else other

-- `str_of` is `str` of a value that is not a text, and `dumps` is `json.dumps(payload, indent=2)`.
module _ (str_of : Value → String) (dumps : Payload → String) where
  abbrev text_of : Value → String
  text_of (str s) = s
  text_of v = str_of v

  -- `_as_prompt`
  unfoldable pub as_prompt : Event → String
  as_prompt event =
      let text =
        field_or (lookup "text" event.payload)
          (field_or (lookup "assignment" event.payload) (str "")) in
      let body = if is_truthy text then text_of text else dumps event.payload in
      "From " <> (event.source <> (" (" <> (kind_value event.kind <> ("):\n\n" <> body))))

-- The state of an agent: its history, its bus, and how often the clock was read.
pub record Agent (bus : Bus) : Type 0 where
  pub history : List Message
  pub events : bus.State
  pub reads : ℕ

-- What an agent is given: the clock, the prompt of an event, and for each moment what the model would
-- answer to a history, or the exception that its call would raise and the text of it.
pub record Mind : Type 0 where
  pub clock : ℕ → ℕ
  pub as_prompt : Event → String
  pub invoke : ℕ → List Message → Result (List Message)
  pub reason : ℕ → List Message → String

-- The event with which an agent starts, if it was launched with an assignment.
unfoldable pub bootstrap : AgentIdentity → ℕ → Option Event
bootstrap identity now =
    if is_empty identity.assignment
    then none
    else some (record {
      project_id = identity.project_id;
      kind = assignment;
      source = "control-plane";
      payload = ("assignment", str identity.assignment) ∷ [];
      at = now;
      to = address identity;
    })

abbrev pub ready_payload : AgentIdentity → List String → Payload
ready_payload identity tools =
    ("role", str identity.role) ∷ ("agent", str identity.name) ∷ ("tools", arr (texts tools)) ∷ []

module _ {bus : Bus} (mind : Mind) (identity : AgentIdentity) where
  -- `AgentBus.say`
  unfoldable pub say_now : EventKind → Payload → Exec (Agent bus) (Unit {0})
  say_now kind payload s =
      let (r, events) = bus.publish (say identity kind payload "" (mind.clock s.reads)) s.events in
      (r, record s { events = events; reads = s.reads + 1 })

  -- What `respond` does with a reply, and with the answer of the model.
  unfoldable pub reply_with : String → Exec (Agent bus) (Unit {0})
  reply_with reply = if is_empty reply then pure tt else (do
    say_now agent_message (("text", str reply) ∷ [])
    modify (λ s. record s { history = s.history ++ ai (words reply) ∷ [] }))

  unfoldable pub after_invoke : String → Result (List Message) → Exec (Agent bus) (Unit {0})
  after_invoke reason (err e) =
      say_now error (("context", str "model_call") ∷ ("error", str reason) ∷ [])
  after_invoke reason (ok messages) = do
    reply_with (final_text messages)
    modify (λ s. record s { history = trimmed s.history })

  -- `Harness.respond`
  unfoldable pub respond : Event → Exec (Agent bus) (Unit {0})
  respond event s =
      let prompted = s.history ++ human (mind.as_prompt event) ∷ [] in
      after_invoke (mind.reason s.reads prompted) (mind.invoke s.reads prompted)
        (record s { history = prompted })

  -- `handle`: what `respond` raises is reported, and what the report raises is raised.
  abbrev pub report : Result (Unit {0}) × Agent bus → Result (Unit {0}) × Agent bus
  report (ok r, s) = (ok r, s)
  report (err e, s) = say_now error (("context", str "handler") ∷ []) s

  unfoldable pub handle : Event → Exec (Agent bus) (Unit {0})
  handle event s = report (respond event s)

  unfoldable pub handle_all : List Event → Exec (Agent bus) (Unit {0})
  handle_all [] = pure tt
  handle_all (event ∷ events) = do handle event; handle_all events

  -- `run_agent` with the tools of the harness and with what its connection gives, in order.
  unfoldable pub run_agent : List String → List Incoming → Exec (Agent bus) (Unit {0})
  run_agent tools incoming = do
    say_now agent_ready (ready_payload identity tools)
    (λ s.
        handle_all (listen identity (bootstrap identity (mind.clock s.reads)) incoming)
          (record s { reads = if is_empty identity.assignment then s.reads else s.reads + 1 }))
