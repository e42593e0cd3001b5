-- ===== src/Wire/Publishing.antt =====
-- adapters/redis_events.py: `RedisEventBus.publish` over a Redis that carries messages by channel, and
-- what the subscription to a project then yields.
use agentic_crew.Prelude.{
  String, Bool, true, false, ◌≡◌, refl, sym, ap, ◌∙◌, none, List, [], ◌∷◌, ◌++◌, map, keep, ◌==◌,
  eq_iff, eq_refl, eq_false, append_nil, append_assoc, if◌then◌else◌, Bool-cases, inl, inr,
}
use agentic_crew.Exec.{Exec, ok, pure, bind_ok, ◌>>◌}
use agentic_crew.Contract.Events.{Event, channel_for, channel_for-injective}
use agentic_crew.Bus.{Bus}
use agentic_crew.Wire.{Codec, IsCodec}
use agentic_crew.Wire.Events.{received, encode_event, decode_event-encode_event}
use agentic_crew.Wire.Subscription.{Poll, message, yields}

-- The command PUBLISH of a Redis.
pub record Channels (Text : Type 0) : Type 1 where
  pub State : Type 0
  pub publish : String → Text → Exec State (Unit {0})

-- Who is subscribed to a channel is given what is published on it, in order, and nothing else.
pub record IsChannels {Text : Type 0} (ch : Channels Text) : Type 1 where
  pub carried : ch.State → String → List Text
  pub publish_lem :
      (s : ch.State) (channel : String) (text : Text)
      → (s' : ch.State) × (ch.publish channel text s ≡ (ok tt, s'))
        × ((other : String)
            → carried s' other ≡ carried s other ++ (if channel == other then text ∷ [] else []))

module _ (c : Codec) (ch : Channels c.Text) where
  -- `RedisEventBus.publish`
  unfoldable pub publish : Event → Exec ch.State (Unit {0})
  publish event = ch.publish (channel_for event.project_id) (encode_event c event)

  -- The bus of the control plane, as its port.
  abbrev pub redis_bus : Bus
  redis_bus = record { State = ch.State; publish = publish }

  unfoldable pub publish_all : List Event → Exec ch.State (Unit {0})
  publish_all [] = pure tt
  publish_all (event ∷ events) = do publish event; publish_all events

abbrev pub of_project : String → List Event → List Event
of_project project_id events = keep (λ e. e.project_id == project_id) events

-- What a subscriber polls, where each poll finds the next message.
abbrev pub polls_of : {Text : Type 0} → List Text → List (Poll Text)
polls_of texts = map (message "message") texts

module _ (c : Codec) (laws : IsCodec c) (ch : Channels c.Text) (works : IsChannels ch) where
  open works use {carried}

  same_channel : (p q : String) → (channel_for p == channel_for q) ≡ (p == q)
  same_channel p q = elim (Bool-cases (p == q)) [
    | inl same ↦
        ap (λ (t : String). channel_for p == channel_for t) (sym ((eq_iff p q).0 same))
        ∙ eq_refl (channel_for p)
        ∙ sym same
    | inr other ↦
        eq_false (channel_for p) (channel_for q) (λ e. cc (channel_for-injective p q e, eq_refl p))
        ∙ sym other
  ]

  picked :
      (e : Event) (events : List Event) (b : Bool)
      → (if b then encode_event c e ∷ [] else []) ++ map (encode_event c) events
        ≡ map (encode_event c) (if b then e ∷ events else events)
  picked e events true = refl
  picked e events false = refl

  publish_all_lem :
      (project_id : String) (events : List Event) (s : ch.State)
      → (s' : ch.State) × (publish_all c ch events s ≡ (ok tt, s'))
        × (carried s' (channel_for project_id)
            ≡ carried s (channel_for project_id)
              ++ map (encode_event c) (of_project project_id events))
  unfolding publish_all publish
  publish_all_lem project_id [] s = (s, refl, sym (append_nil (carried s (channel_for project_id))))
  publish_all_lem project_id (e ∷ events) s =
      let (s1, sent, more) = works.publish_lem s (channel_for e.project_id) (encode_event c e) in
      let (s2, rest, others) = publish_all_lem project_id events s1 in
      (
        s2,
        bind_ok (publish c ch e) (λ _. publish_all c ch events) s sent ∙ rest,
        others
            ∙ ap (λ ts. ts ++ map (encode_event c) (of_project project_id events))
                (more (channel_for project_id))
            ∙ append_assoc (carried s (channel_for project_id)) _ _
            ∙ ap (λ ts. carried s (channel_for project_id) ++ ts)
                (ap
                    (λ b.
                      (if b then encode_event c e ∷ [] else [])
                      ++ map (encode_event c) (of_project project_id events))
                    (same_channel e.project_id project_id)
                  ∙ picked e (of_project project_id events) (e.project_id == project_id)),
      )

  yields-encoded :
      (events : List Event)
      → yields c "message" (polls_of (map (encode_event c) events)) ≡ (map received events, none)
  unfolding yields
  yields-encoded [] = refl
  yields-encoded (e ∷ events) =
      rw ((decode_event-encode_event c e laws).0, yields-encoded events) refl

  -- Whatever events are published one after the other, of any projects, on a Redis that carries messages
  -- by channel: publishing succeeds, and what it adds to a project's channel makes a subscription to the
  -- project yield just the events of that project, each with its fields, in their order.
  pub publish_all-yields :
      (project_id : String) (events : List Event) (s : ch.State)
      → (s' : ch.State) × (texts : List c.Text) × (publish_all c ch events s ≡ (ok tt, s'))
        × (carried s' (channel_for project_id) ≡ carried s (channel_for project_id) ++ texts)
        × (yields c "message" (polls_of texts)
            ≡ (map received (of_project project_id events), none))
  publish_all-yields project_id events s =
      let (s', sent, more) = publish_all_lem project_id events s in
      (
        s',
        map (encode_event c) (of_project project_id events),
        sent,
        more,
        yields-encoded (of_project project_id events),
      )
