-- ===== src/Api/Stream/Gap.antt =====
-- Which events a tab is shown, and which it misses.
use mathlib.Core.Path.{ap₂}
use agentic_crew.Prelude.{
  subst, ◌≡◌, ◌≢◌, ◌⊎◌, inl, inr, refl, sym, ap, ◌∙◌, List, [], ◌∷◌, ◌++◌, append_nil, append_assoc,
  arith,
}
use agentic_crew.Contract.Value.{pos}
use agentic_crew.Contract.Events.{Event}
use agentic_crew.Store.{tail_slice}
use agentic_crew.Api.Stream.{
  accepted, caught_up, live, over, Feed, Happening, publishes, records, reads_history, subscribes,
  sends, closes, deliver, record_next, send_history, subscribe, send_next, send_from, happen,
  follow, publications, feed_of,
}

happen-over : (h : Happening) (f : Feed) → f.stage ≡ over → (happen h f).stage ≡ over
unfolding happen send_history subscribe send_next deliver
happen-over h f e = ground arith

follow-over : (hs : List Happening) (f : Feed) → f.stage ≡ over → (follow hs f).stage ≡ over
unfolding follow
follow-over [] f e = e
follow-over (h ∷ hs) f e = follow-over hs (happen h f) (happen-over h f e)

abbrev GoesOn : Feed → Feed → Type 0
GoesOn f g = ((g.stage ≡ live) × (feed_of g ≡ feed_of f ++ [])) ⊎ (g.stage ≡ over)

unmoved : (f : Feed) → f.stage ≡ live → GoesOn f f
unmoved f e = inl (e, sym (append_nil (feed_of f)))

-- On the live feed each event that is published is added, and nothing else.
happen-live :
    (h : Happening) (f : Feed)
    → f.stage ≡ live
    → (((happen h f).stage ≡ live) × (feed_of (happen h f) ≡ feed_of f ++ publications (h ∷ [])))
      ⊎ ((happen h f).stage ≡ over)
unfolding happen send_history subscribe send_next deliver
happen-live (publishes event) f e = inl (e, rw e (sym (append_assoc f.sent f.inbox (event ∷ []))))
happen-live records f e = inl (recorded f.unrecorded)
  where
    recorded :
        (es : List Event)
        → ((record_next es f).stage ≡ live) × (feed_of (record_next es f) ≡ feed_of f ++ [])
    recorded [] = (e, sym (append_nil (feed_of f)))
    recorded (x ∷ es) = (e, sym (append_nil (feed_of f)))
happen-live reads_history f e = subst (λ st. GoesOn f (send_history st f)) (sym e) (unmoved f e)
happen-live subscribes f e = subst (λ st. GoesOn f (subscribe st f)) (sym e) (unmoved f e)
happen-live sends f e = subst (λ st. GoesOn f (send_next st f)) (sym e) (inl (sent f.inbox refl))
  where
    sent :
        (es : List Event)
        → f.inbox ≡ es
        → ((send_from es f).stage ≡ live) × (feed_of (send_from es f) ≡ feed_of f ++ [])
    sent [] same = (e, sym (append_nil (feed_of f)))
    sent (x ∷ es) same = (
      e,
      append_assoc f.sent (x ∷ []) es
          ∙ ap (λ more. f.sent ++ more) (sym same)
          ∙ sym (append_nil (feed_of f)),
    )
happen-live closes f e = inr refl

happen-caught_up :
    (h : Happening) (f : Feed)
    → f.stage ≡ caught_up
    → (((happen h f).stage ≡ caught_up) × (feed_of (happen h f) ≡ feed_of f))
      ⊎ (((happen h f).stage ≡ live) ⊎ ((happen h f).stage ≡ over))
unfolding happen send_history subscribe send_next deliver
happen-caught_up h f e = ground arith

publications-cons :
    (h : Happening) (hs : List Happening)
    → publications (h ∷ []) ++ publications hs ≡ publications (h ∷ hs)
publications-cons (publishes e) hs = refl
publications-cons records hs = refl
publications-cons reads_history hs = refl
publications-cons subscribes hs = refl
publications-cons sends hs = refl
publications-cons closes hs = refl

follow-live :
    (hs : List Happening) (f : Feed)
    → f.stage ≡ live
    → ((follow hs f).stage ≡ live) × (feed_of (follow hs f) ≡ feed_of f ++ publications hs)
      ⊎ ((follow hs f).stage ≡ over)
unfolding follow
follow-live [] f e = inl (e, sym (append_nil (feed_of f)))
follow-live (h ∷ hs) f e = elim (happen-live h f e) [
  | inr gone ↦ inr (follow-over hs (happen h f) gone)
  | inl (on, more) ↦ elim (follow-live hs (happen h f) on) [
    | inr gone ↦ inr gone
    | inl (still, rest) ↦ inl (
      still,
      rest
          ∙ ap (λ es. es ++ publications hs) more
          ∙ append_assoc (feed_of f) (publications (h ∷ [])) (publications hs)
          ∙ ap (λ es. feed_of f ++ es) (publications-cons h hs),
    )
  ]
]

follow-caught_up :
    (hs : List Happening) (f : Feed)
    → f.stage ≡ caught_up
    → (follow hs f).stage ≡ caught_up
    → feed_of (follow hs f) ≡ feed_of f
unfolding follow
follow-caught_up [] f e last = refl
follow-caught_up (h ∷ hs) f e last = elim (happen-caught_up h f e) [
  | inl (still, same) ↦ follow-caught_up hs (happen h f) still last ∙ same
  | inr (inr gone) ↦ absurd (cc (follow-over hs (happen h f) gone))
  | inr (inl on) ↦ elim (follow-live hs (happen h f) on) [
    | inl (later, _) ↦ absurd (cc)
    | inr gone ↦ absurd (cc)
  ]
]

history_sent :
    (f : Feed)
    → f.stage ≡ accepted
    → f.sent ≡ []
    → f.inbox ≡ []
    → ((happen reads_history f).stage ≡ caught_up)
      × (feed_of (happen reads_history f) ≡ tail_slice (pos 200) f.log)
unfolding happen send_history
history_sent f start nothing_sent nothing_waits =
    subst
      (λ st.
        ((send_history st f).stage ≡ caught_up)
        × (feed_of (send_history st f) ≡ tail_slice (pos 200) f.log))
      (sym start)
      (
        refl,
        ap₂ (λ (xs ys : List Event). (xs ++ tail_slice (pos 200) f.log) ++ ys) nothing_sent
              nothing_waits
            ∙ append_nil (tail_slice (pos 200) f.log),
      )

subscribed :
    (f : Feed)
    → f.stage ≡ caught_up
    → ((happen subscribes f).stage ≡ live) × (feed_of (happen subscribes f) ≡ feed_of f)
unfolding happen subscribe
subscribed f e =
    subst (λ st. ((subscribe st f).stage ≡ live) × (feed_of (subscribe st f) ≡ feed_of f)) (sym e)
      (refl, refl)

-- A tab that is not closed is sent, or has on its way to it, the last 200 events that the store held
-- when the route read the history, followed by all that is published after the route has subscribed,
-- each once and in order. It gets nothing else: not an event that was published before the history was
-- read and not yet recorded, and none that is published between the reading and the subscription.
pub follow-misses :
    (between after : List Happening) (f : Feed)
    → f.stage ≡ accepted
    → f.sent ≡ []
    → f.inbox ≡ []
    → (follow between (happen reads_history f)).stage ≡ caught_up
    → let last = follow after (happen subscribes (follow between (happen reads_history f))) in
      last.stage ≢ over → feed_of last ≡ tail_slice (pos 200) f.log ++ publications after
follow-misses between after f start nothing_sent nothing_waits read still_open =
    let f1 = happen reads_history f in
    let (history, shown) = history_sent f start nothing_sent nothing_waits in
    let f2 = follow between f1 in
    let waited = follow-caught_up between f1 history read in
    let (on, same) = subscribed f2 read in
    elim (follow-live after (happen subscribes f2) on) [
      | inr gone ↦ absurd (still_open gone)
      | inl (still, more) ↦ more ∙ ap (λ es. es ++ publications after) (same ∙ waited ∙ shown)
    ]
