-- ===== src/Agents/Start/Assigned.antt =====
-- An assignment on its way from the Job of an agent to the agent's first turn.
use text.Mathlib.TextLemmas.{append_assoc}
use agentic_crew.Prelude.{
  ℕ, String, false, not, ◌≡◌, refl, sym, ap, ◌∙◌, List, [], ◌∷◌, Dict, lookup, ◌<>◌, if◌then◌else◌,
}
use agentic_crew.Exec.{ok}
use agentic_crew.Caps.{role_value}
use agentic_crew.Project.{is_empty}
use agentic_crew.Contract.Json.{is_truthy}
use agentic_crew.Contract.Value.{Value, Payload, str}
use agentic_crew.Contract.Events.{Event, assignment, kind_value}
use agentic_crew.Contract.Identity.{AgentIdentity, from_env, address}
use agentic_crew.Runtime.{AgentSpec}
use agentic_crew.Runtime.Kubernetes.Manifest.{Settings, manifest, job_name}
use agentic_crew.Runtime.Kubernetes.Launching.{Provides, has_dollar, from_env-manifest}
use agentic_crew.Agents.Loop.{Incoming, heard, listen}
use agentic_crew.Agents.Start.{as_prompt, bootstrap}

regroup :
    (a : String)
    → "From " <> ("control-plane" <> (" (" <> ("assignment" <> ("):\n\n" <> a))))
      ≡ "From control-plane (assignment):\n\n" <> a
regroup a = sym (
    append_assoc "From " "control-plane (assignment):\n\n" a
    ∙ ap (λ t. "From " <> t)
        (append_assoc "control-plane" " (assignment):\n\n" a
          ∙ ap (λ t. "control-plane" <> t)
              (append_assoc " (" "assignment):\n\n" a
                ∙ ap (λ t. " (" <> t) (append_assoc "assignment" "):\n\n" a))))

module _ (str_of : Value → String) (dumps : Payload → String) where
  first_event :
      (identity : AgentIdentity) (now : ℕ) (incoming : List Incoming)
      → is_empty identity.assignment ≡ false
      → (e : Event) × (listen identity (bootstrap identity now) incoming
          ≡ e ∷ heard (address identity) incoming)
        × (e.to ≡ address identity)
        × (as_prompt str_of dumps e ≡ "From control-plane (assignment):\n\n" <> identity.assignment)
  unfolding listen bootstrap as_prompt lookup is_truthy kind_value
  first_event identity now incoming given =
      let event : Event = record {
        project_id = identity.project_id;
        kind = assignment;
        source = "control-plane";
        payload = ("assignment", str identity.assignment) ∷ [];
        at = now;
        to = address identity;
      } in
      rw given (
        event,
        refl,
        refl,
        rw given (
            ap
              (λ b.
                "From "
                <> ("control-plane"
                    <> (" ("
                        <> ("assignment"
                            <> ("):\n\n"
                                <> (if not b
                                    then identity.assignment
                                    else dumps (("assignment", str identity.assignment) ∷ [])))))))
              given
            ∙ regroup identity.assignment),
      )

  -- Where no `$` is in the project's id, in the Job's name and in the assignment, an agent that was
  -- launched with an assignment takes the assignment as its first event, addressed to itself, before
  -- all that it hears, and the first prompt of its model ends with the assignment as
  -- it was given to the launch.
  pub listen-assigned :
      (settings : Settings) (lower : String → String) (spec : AgentSpec) (token : String)
      (environ : Dict String) (now : ℕ) (incoming : List Incoming)
      → Provides (manifest settings (job_name lower spec.role spec.project_id token) spec) environ
      → has_dollar spec.project_id ≡ false
      → has_dollar (job_name lower spec.role spec.project_id token) ≡ false
      → has_dollar spec.assignment ≡ false
      → is_empty spec.assignment ≡ false
      → (identity : AgentIdentity) × (e : Event) × (from_env environ ≡ ok identity)
        × (listen identity (bootstrap identity now) incoming ≡ e ∷ heard e.to incoming)
        × (e.to ≡ role_value spec.role <> ("/" <> job_name lower spec.role spec.project_id token))
        × (as_prompt str_of dumps e ≡ "From control-plane (assignment):\n\n" <> spec.assignment)
  listen-assigned settings lower spec token environ now incoming provides plain_id plain_name
        plain_text given =
      let (identity, read, role, project, same, own, redis, plane, model) =
        from_env-manifest settings lower spec token environ provides plain_id plain_name
          plain_text in
      let (e, first, to, prompt) = first_event identity now incoming (ap is_empty same ∙ given) in
      (
        identity,
        e,
        read,
        first ∙ ap (λ a. e ∷ heard a incoming) (sym to),
        to ∙ own,
        prompt ∙ ap (λ (t : String). "From control-plane (assignment):\n\n" <> t) same,
      )
