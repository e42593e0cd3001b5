-- ===== src/Mocks/Tickets.antt =====
-- mocks/mcp_tickets/main.py: the ticket store, one ticket for each project.
use Prim.Native.Char.{code}
use agentic_crew.Prelude.{
  ℕ, String, Bool, true, ◌≡◌, ap, ◌∙◌, Option, none, some, List, [], ◌∷◌, ◌++◌, eqb, ◌==◌, ◌<>◌,
  Dict, lookup, insert, values, keep, if◌then◌else◌, lookup-insert, eq_refl, length, Bool-cases,
  inl, inr,
}
use agentic_crew.Exec.{Exec, ok, err, http_error, bind_ok, ◌>>◌}

pub record Comment : Type 0 where
  pub author : String
  pub body : String
  pub at : ℕ

pub record TicketBody : Type 0 where
  pub project_id : String
  pub title : String
  pub api_contract : String
  pub acceptance_criteria : List String
  pub assignments : Dict String
  pub evidence_cited : List String
  pub status : String

pub record Ticket : Type 0 where
  pub ticket_id : String
  pub project_id : String
  pub title : String
  pub api_contract : String
  pub acceptance_criteria : List String
  pub assignments : Dict String
  pub evidence_cited : List String
  pub status : String
  pub comments : List Comment
  pub updated_at : ℕ

after_last : String → String → String
after_last best String.[] = best
after_last best (String.◌∷◌ c s) =
    let here = after_last s s in
    let there = after_last best s in if eqb (code c) b'-' then here else there

-- `text.split('-')[-1]`
unfoldable pub last_part : String → String
unfolding after_last
last_part text = after_last text text

-- `_tickets.get(ticket_id, {}).get("comments", [])`
abbrev pub comments_of : Option Ticket → List Comment
comments_of none = []
comments_of (some t) = t.comments

-- `_tickets`
abbrev pub Tickets : Type 0
Tickets = Dict Ticket

-- `project_id` empty, or not given, filters nothing.
abbrev is_of : Option String → Ticket → Bool
is_of none t = true
is_of (some project_id) t = if project_id == "" then true else t.project_id == project_id

unfoldable pub health : Tickets → ℕ
health s = length s

unfoldable pub read_ticket : String → Exec Tickets Ticket
read_ticket ticket_id s = elim (lookup ticket_id s) [
  | none ↦ (err (http_error 404 "ticket not found"), s)
  | some t ↦ (ok t, s)
]

unfoldable pub list_tickets : Option String → Exec Tickets (List Ticket)
list_tickets project_id s = (ok (keep (is_of project_id) (values s)), s)

-- `time.time()` is the argument `now`.
unfoldable pub add_comment : String → String → String → ℕ → Exec Tickets Comment
add_comment ticket_id author body now s =
    let entry : Comment = record { author = author; body = body; at = now } in
    elim (lookup ticket_id s) [
      | none ↦ (err (http_error 404 "ticket not found"), s)
      | some t ↦ (ok entry, insert ticket_id (record t { comments = t.comments ++ entry ∷ [] }) s)
    ]

-- `upper` is Python's `str.upper`.
module _ (upper : String → String) where
  abbrev pub ticket_id_of : String → String
  ticket_id_of project_id = "TICKET-" <> upper (last_part project_id)

  -- What is written for a body; the comments are those that the ticket had.
  abbrev pub ticket_of : TicketBody → ℕ → List Comment → Ticket
  ticket_of body now comments = record {
    ticket_id = ticket_id_of body.project_id;
    project_id = body.project_id;
    title = body.title;
    api_contract = body.api_contract;
    acceptance_criteria = body.acceptance_criteria;
    assignments = body.assignments;
    evidence_cited = body.evidence_cited;
    status = body.status;
    comments = comments;
    updated_at = now;
  }

  unfoldable pub write_ticket : TicketBody → ℕ → Exec Tickets Ticket
  write_ticket body now s =
      let id = ticket_id_of body.project_id in
      let ticket = ticket_of body now (comments_of (lookup id s)) in (ok ticket, insert id ticket s)

  -- A ticket that has been commented on is written again. It has the new body, and the comments it
  -- had with the new one at the end; every other ticket is as it was.
  pub add_comment-write_ticket :
      (body : TicketBody) (now at : ℕ) (author text : String) (t : Ticket) (s : Tickets)
      → lookup (ticket_id_of body.project_id) s ≡ some t
      → let comment : Comment = record { author = author; body = text; at = at } in
        let ticket = ticket_of body now (t.comments ++ comment ∷ []) in
        (s' : Tickets) × ((add_comment (ticket_id_of body.project_id) author text at
              >> write_ticket body now)
            s
          ≡ (ok ticket, s'))
        × ((j : String)
            → lookup j s' ≡ (if ticket_id_of body.project_id == j then some ticket else lookup j s))
  unfolding add_comment write_ticket
  add_comment-write_ticket body now at author text t s h =
      let id = ticket_id_of body.project_id in
      let comment : Comment = record { author = author; body = text; at = at } in
      let t' : Ticket = record t { comments = t.comments ++ comment ∷ [] } in
      let ticket = ticket_of body now t'.comments in
      let now_there : lookup id (insert id t' s) ≡ some t' =
        lookup-insert id id t' s ∙ rw (eq_refl id) in
      (
        insert id ticket (insert id t' s),
        bind_ok (add_comment id author text at) (λ _. write_ticket body now) s {a = comment}
              {s' = insert id t' s} (rw (h, add_comment))
            ∙ ap
                (λ o. (
                  ok (ticket_of body now (comments_of o)),
                  insert id (ticket_of body now (comments_of o)) (insert id t' s),
                ))
                now_there,
        λ j. lookup-insert id j ticket (insert id t' s) ∙ elim (Bool-cases (id == j)) [
          | inl same ↦ rw same
          | inr other ↦ rw other (lookup-insert id j t' s ∙ rw other)
        ],
      )
