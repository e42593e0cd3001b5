-- ===== src/Api/Stream.antt =====
-- apps/control_plane/api/routes.py, `stream`, with `CrewService.watch` and the recorder: one tab that
-- follows a project while its agents publish and the recorder writes.
pub mod Gap
use agentic_crew.Prelude.{
  ℕ, ◌≡◌, refl, sym, ap, ◌∙◌, List, [], ◌∷◌, ◌++◌, last_n, append_nil, append_assoc, arith,
}
use agentic_crew.Contract.Value.{pos}
use agentic_crew.Contract.Events.{Event}
use agentic_crew.Store.{max_history, tail_slice}

-- Where the route stands: it has accepted the socket, has sent the history, follows the live feed, or
-- has ended because the tab was closed.
pub data Stage : Type 0 where
  accepted caught_up live over : Stage

-- `log` is what the store has of the project, `unrecorded` what was published and is still on its way
-- to the recorder, `inbox` what the subscription has for the route, `sent` what the tab was sent.
pub record Feed : Type 0 where
  pub stage : Stage
  pub log : List Event
  pub unrecorded : List Event
  pub inbox : List Event
  pub sent : List Event

-- Somebody publishes, the recorder takes the next event, the route reads the history and sends it, it
-- subscribes, it sends the next event of the feed, or the tab is closed.
pub data Happening : Type 0 where
  publishes : Event → Happening
  records reads_history subscribes sends closes : Happening

-- A message reaches those who are subscribed when it is published.
unfoldable pub deliver : Stage → Event → List Event → List Event
deliver live event inbox = inbox ++ event ∷ []
deliver _ event inbox = inbox

-- `append_event` of the recorder
abbrev pub record_next : List Event → Feed → Feed
record_next [] f = f
record_next (event ∷ more) f = record f {
  log = last_n max_history (f.log ++ event ∷ []);
  unrecorded = more;
}

-- `for past in await service.history(project_id): await ws.send_text(...)`
unfoldable pub send_history : Stage → Feed → Feed
send_history accepted f = record f {
  stage = caught_up;
  sent = f.sent ++ tail_slice (pos 200) f.log;
}
send_history _ f = f

-- The first step of `async for event in service.watch(project_id)`
unfoldable pub subscribe : Stage → Feed → Feed
subscribe caught_up f = record f { stage = live }
subscribe _ f = f

abbrev send_from : List Event → Feed → Feed
send_from [] f = f
send_from (event ∷ more) f = record f { inbox = more; sent = f.sent ++ event ∷ [] }

-- `await ws.send_text(_encode(event))`
unfoldable pub send_next : Stage → Feed → Feed
send_next live f = send_from f.inbox f
send_next _ f = f

unfoldable pub happen : Happening → Feed → Feed
happen (publishes event) f = record f {
  unrecorded = f.unrecorded ++ event ∷ [];
  inbox = deliver f.stage event f.inbox;
}
happen records f = record_next f.unrecorded f
happen reads_history f = send_history f.stage f
happen subscribes f = subscribe f.stage f
happen sends f = send_next f.stage f
happen closes f = record f { stage = over }

unfoldable pub follow : List Happening → Feed → Feed
follow [] f = f
follow (h ∷ hs) f = follow hs (happen h f)

-- The events that are published.
abbrev pub publications : List Happening → List Event
publications [] = []
publications (publishes event ∷ hs) = event ∷ publications hs
publications (_ ∷ hs) = publications hs

-- What the tab was sent and what the route still has for it.
abbrev pub feed_of : Feed → List Event
feed_of f = f.sent ++ f.inbox
