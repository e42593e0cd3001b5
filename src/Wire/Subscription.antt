-- ===== src/Wire/Subscription.antt =====
-- adapters/redis_events.py, `subscribe` and `subscribe_all`, and what agent_loop.py reads of the same
-- messages.
use agentic_crew.Prelude.{
  String, true, Option, none, some, List, [], ◌∷◌, ◌++◌, ◌≡◌, refl, ap, ◌∙◌, arith, ◌==◌, eq_refl,
  append_nil, if◌then◌else◌, Bool-cases, inl, inr,
}
use agentic_crew.Exec.{Error, Result, ok, err}
use agentic_crew.Exec.Results.{◌>>=◌}
use agentic_crew.Contract.Value.{Value, str, int, bool, obj, arr, null}
use agentic_crew.Contract.Json.{subscript}
use agentic_crew.Wire.{Codec, IsCodec, is_caught}
use agentic_crew.Wire.Events.{Received, decode_event, read_event, event_kind, event_kind_raises}

-- What `get_message` gives: a timeout, nothing, a message with its type and its data, or the exception
-- of a connection that is lost.
pub data Poll (T : Type 0) : Type 0 where
  timed_out nothing : Poll T
  message : String → T → Poll T
  lost : Error → Poll T

-- The events that are yielded, and the exception that ends the iteration, if one does.
abbrev pub Yielded : Type 0
Yielded = List Received × Option Error

abbrev pub also : Received → Yielded → Yielded
also r (rs, e) = (r ∷ rs, e)

abbrev deliver : Result Received → Yielded → Yielded
deliver (err e) rest = ([], some e)
deliver (ok r) rest = also r rest

-- `try: return r; except (ValueError, KeyError, TypeError): return None`
abbrev unless_caught : Result Received → Result (Option Received)
unless_caught (ok r) = ok (some r)
unless_caught (err e) = if is_caught e then ok none else err e

abbrev with_decoded : Result Received → List Received → List Received
with_decoded (ok r) rest = r ∷ rest
with_decoded (err e) rest = rest

module _ (c : Codec) where
  -- The loop of `subscribe`, with the type "message", and of `subscribe_all`, with "pmessage".
  unfoldable pub yields : String → List (Poll c.Text) → Yielded
  yields wanted [] = ([], none)
  yields wanted (message type text ∷ polls) =
      let rest = yields wanted polls in
      if type == wanted then deliver (decode_event c text) rest else rest
  yields wanted (lost e ∷ polls) = ([], some e)
  yields wanted (_ ∷ polls) = yields wanted polls

  -- `_decode` of agent_loop.py
  unfoldable pub agent_decode : c.Text → Result (Option Received)
  agent_decode text = unless_caught (decode_event c text)

abbrev agent_deliver : Result (Option Received) → Yielded → Yielded
agent_deliver (err e) rest = ([], some e)
agent_deliver (ok none) rest = rest
agent_deliver (ok (some r)) rest = also r rest

module _ (c : Codec) where
  -- The events that `AgentBus.listen` looks at, before it asks whom they are for. After a connection
  -- that is lost it goes on.
  unfoldable pub agent_yields : List (Poll c.Text) → Yielded
  unfolding agent_decode
  agent_yields [] = ([], none)
  agent_yields (message type text ∷ polls) =
      let rest = agent_yields polls in
      if type == "message" then agent_deliver (agent_decode c text) rest else rest
  agent_yields (_ ∷ polls) = agent_yields polls

  -- The messages of a type that can be decoded, in their order.
  unfoldable pub decodable : String → List (Poll c.Text) → List Received
  decodable wanted [] = []
  decodable wanted (message type text ∷ polls) =
      let rest = decodable wanted polls in
      if type == wanted then with_decoded (decode_event c text) rest else rest
  decodable wanted (_ ∷ polls) = decodable wanted polls

subscript_raises : (k : String) (v : Value) (e : Error) → subscript k v ≡ err e → is_caught e ≡ true
unfolding subscript is_caught
subscript_raises k (obj fs) e h = ground arith
subscript_raises k (str s) e h = ground arith
subscript_raises k (int n) e h = ground arith
subscript_raises k (bool b) e h = ground arith
subscript_raises k null e h = ground arith
subscript_raises k (arr xs) e h = ground arith

-- A step of a chain and the rest of it raise what is caught only.
module _ {A B : Type 0} where
  bind_raises :
      (m : Result A) (f : A → Result B) (e : Error)
      → ((e' : Error) → m ≡ err e' → is_caught e' ≡ true)
      → ((a : A) (e' : Error) → f a ≡ err e' → is_caught e' ≡ true)
      → (m >>= f) ≡ err e
      → is_caught e ≡ true
  bind_raises (ok a) f e first rest h = rest a e h
  bind_raises (err e') f e first rest h =
      let own : is_caught e' ≡ true = first e' refl in let same : e' ≡ e = cc in cc

read_event_raises : (v : Value) (e : Error) → read_event v ≡ err e → is_caught e ≡ true
unfolding read_event
read_event_raises v e h =
    bind_raises (subscript "project_id" v) _ e (subscript_raises "project_id" v)
      (λ project_id e1.
        bind_raises (subscript "kind" v) _ e1 (subscript_raises "kind" v) (λ kind_text e2.
          bind_raises (event_kind kind_text) _ e2 (event_kind_raises kind_text) (λ kind e3.
            bind_raises (subscript "source" v) _ e3 (subscript_raises "source" v) (λ source e4.
              bind_raises (subscript "at" v) _ e4 (subscript_raises "at" v) (λ at e5 g. cc)))))
      h

module _ (c : Codec) (laws : IsCodec c) where
  decode_event_raises : (t : c.Text) (e : Error) → decode_event c t ≡ err e → is_caught e ≡ true
  unfolding decode_event
  decode_event_raises t e h = bind_raises (c.loads t) _ e (laws.loads_raises t) read_event_raises h

  agent_deliver_caught :
      (r : Result Received) (rs : List Received)
      → ((e : Error) → r ≡ err e → is_caught e ≡ true)
      → agent_deliver (unless_caught r) (rs, none) ≡ (with_decoded r rs, none)
  agent_deliver_caught (ok r) rs raises = refl
  agent_deliver_caught (err e) rs raises = rw (raises e refl) refl

  -- The agent's reader never ends with an exception: it looks at every message that it can decode.
  agent_yields-decodable :
      (polls : List (Poll c.Text)) → agent_yields c polls ≡ (decodable c "message" polls, none)
  unfolding agent_yields decodable agent_decode
  agent_yields-decodable [] = refl
  agent_yields-decodable (timed_out ∷ polls) = agent_yields-decodable polls
  agent_yields-decodable (nothing ∷ polls) = agent_yields-decodable polls
  agent_yields-decodable (lost e ∷ polls) = agent_yields-decodable polls
  agent_yields-decodable (message type text ∷ polls) =
      let rest = agent_yields-decodable polls in
      elim (Bool-cases (type == "message")) [
        | inl e ↦
            rw (e, rest)
              (agent_deliver_caught (decode_event c text) (decodable c "message" polls)
                (decode_event_raises text))
        | inr e ↦ rw (e) rest
      ]

module _ (c : Codec) (wanted : String) where
  deliver-append :
      (r : Result Received) (rest more : Yielded)
      → (deliver r rest).1 ≡ none
      → deliver r (rest.0 ++ more.0, more.1) ≡ ((deliver r rest).0 ++ more.0, more.1)
  deliver-append (ok r) rest more h = refl
  deliver-append (err e) rest more h = cc

  deliver-rest : (r : Result Received) (rest : Yielded) → (deliver r rest).1 ≡ none → rest.1 ≡ none
  deliver-rest (ok r) rest h = h
  deliver-rest (err e) rest h = cc

  yields-append :
      (before after : List (Poll c.Text))
      → (yields c wanted before).1 ≡ none
      → yields c wanted (before ++ after)
        ≡ ((yields c wanted before).0 ++ (yields c wanted after).0, (yields c wanted after).1)
  unfolding yields
  yields-append [] after h = refl
  yields-append (timed_out ∷ ps) after h = yields-append ps after h
  yields-append (nothing ∷ ps) after h = yields-append ps after h
  yields-append (lost e ∷ ps) after h = cc
  yields-append (message type text ∷ ps) after h = elim (Bool-cases (type == wanted)) [
    | inl e ↦
        let h' : (deliver (decode_event c text) (yields c wanted ps)).1 ≡ none = rw e at h in
        let rest =
          yields-append ps after (deliver-rest (decode_event c text) (yields c wanted ps) h') in
        rw (e, rest)
          (deliver-append (decode_event c text) (yields c wanted ps) (yields c wanted after) h')
    | inr e ↦ let h' : (yields c wanted ps).1 ≡ none = rw e at h in rw e (yields-append ps after h')
  ]

  with_decoded-append :
      (r : Result Received) (xs ys : List Received)
      → with_decoded r (xs ++ ys) ≡ with_decoded r xs ++ ys
  with_decoded-append (ok r) xs ys = refl
  with_decoded-append (err e) xs ys = refl

  decodable-append :
      (before after : List (Poll c.Text))
      → decodable c wanted (before ++ after) ≡ decodable c wanted before ++ decodable c wanted after
  unfolding decodable
  decodable-append [] after = refl
  decodable-append (timed_out ∷ ps) after = decodable-append ps after
  decodable-append (nothing ∷ ps) after = decodable-append ps after
  decodable-append (lost e ∷ ps) after = decodable-append ps after
  decodable-append (message type text ∷ ps) after =
      let rest = decodable-append ps after in
      elim (Bool-cases (type == wanted)) [
        | inl e ↦
            rw (e, rest)
              (with_decoded-append (decode_event c text) (decodable c wanted ps)
                (decodable c wanted after))
        | inr e ↦ rw e rest
      ]

  module _ (text : c.Text) (e : Error) (bad : decode_event c text ≡ err e) where
    yields-bad :
        (after : List (Poll c.Text)) → yields c wanted (message wanted text ∷ after) ≡ ([], some e)
    unfolding yields
    yields-bad after = rw (eq_refl wanted) (rw bad refl)

    decodable-bad :
        (type : String) (after : List (Poll c.Text))
        → decodable c wanted (message type text ∷ after) ≡ decodable c wanted after
    unfolding decodable
    decodable-bad type after = elim (Bool-cases (type == wanted)) [
      | inl same ↦ rw same (rw bad refl)
      | inr other ↦ rw other refl
    ]

-- One message that cannot be decoded: the control plane's subscription ends there with the
-- exception, having yielded what came before it, whatever comes after; an agent's reader passes over
-- it and goes on with what comes after.
pub yields-malformed :
    (c : Codec) (wanted : String) (before after : List (Poll c.Text)) (text : c.Text) (e : Error)
    → IsCodec c
    → decode_event c text ≡ err e
    → (yields c wanted before).1 ≡ none
    → (yields c wanted (before ++ message wanted text ∷ after)
        ≡ ((yields c wanted before).0, some e))
      × (agent_yields c (before ++ message wanted text ∷ after)
          ≡ (decodable c "message" before ++ decodable c "message" after, none))
yields-malformed c wanted before after text e laws bad fine = (
  yields-append c wanted before (message wanted text ∷ after) fine
      ∙ rw (yields-bad c wanted text e bad after)
          (ap (λ rs. (rs, some e)) (append_nil (yields c wanted before).0)),
  agent_yields-decodable c laws (before ++ message wanted text ∷ after)
      ∙ ap (λ rs. (rs, none))
          (decodable-append c "message" before (message wanted text ∷ after)
            ∙ ap (λ rs. decodable c "message" before ++ rs)
                (decodable-bad c "message" text e bad wanted after)),
)
