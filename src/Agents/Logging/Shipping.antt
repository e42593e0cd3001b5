-- ===== src/Agents/Logging/Shipping.antt =====
-- The queue of `LokiHandler`: its bound, and that a line which was queued is posted.
use agentic_crew.Prelude.{
  ℕ, ◌≤◌, ◌<◌, String, false, ◌≡◌, refl, sym, ap, ◌∙◌, Option, some, List, [], ◌∷◌, ◌++◌, length,
  length-append, Dict, lookup, ◌==◌, eq_refl, arith, append_nil, append_assoc, if◌then◌else◌,
  Bool-cases, inl, inr,
}
use agentic_crew.Exec.{Result, ok, err}
use agentic_crew.Contract.Value.{Payload}
use agentic_crew.Agents.Logging.{
  Entry, Handler, Stream, LogRecord, value_of, is_full, put, labels_of, format, queue_line,
  post_batch, emit, group, drain,
}
use agentic_crew.Agents.Logging.Streams.{lines_of, group-lines_of, group-stream}

-- A record with the context and the moment in which it is emitted.
pub record Emitted : Type 0 where
  pub context : Option (Dict String)
  pub now : ℕ
  pub log_record : LogRecord

module _ (dumps : Payload → Result String) (stamp : ℕ → String) where
  abbrev emit_one : Emitted → Handler → Handler
  emit_one e = emit dumps stamp e.context e.now e.log_record

  unfoldable pub emit_all : List Emitted → Handler → Handler
  emit_all [] h = h
  emit_all (e ∷ es) h = emit_all es (emit_one e h)

  -- A record is queued last or dropped; nothing else changes, and the bound is kept.
  pub record Grows (h h' : Handler) : Type 0 where
    pub more : (zs : List Entry) × (h'.queue ≡ h.queue ++ zs)
    pub same_bound : h'.max_queue ≡ h.max_queue
    pub same_stopping : h'.stopping ≡ h.stopping
    pub within : 0 < h.max_queue → length h.queue ≤ h.max_queue → length h'.queue ≤ h.max_queue

  Grows-refl : (h : Handler) → Grows h h
  Grows-refl h = record {
    more = ([], sym (append_nil h.queue));
    same_bound = refl;
    same_stopping = refl;
    within = λ _ k. k;
  }

  Grows-trans : (h i j : Handler) → Grows h i → Grows i j → Grows h j
  Grows-trans h i j a b =
      let (xs, e) = a.more in
      let (ys, f) = b.more in
      record {
        more = (xs ++ ys, f ∙ ap (λ q. q ++ ys) e ∙ append_assoc h.queue xs ys);
        same_bound = b.same_bound ∙ a.same_bound;
        same_stopping = b.same_stopping ∙ a.same_stopping;
        within = λ p k.
            let positive : 0 < i.max_queue = omega (arith, a.same_bound) in
            let fits : length i.queue ≤ i.max_queue = omega (arith, a.same_bound, a.within p k) in
            omega (arith, b.within positive fits, a.same_bound);
      }

  put-Grows : (e : Entry) (h : Handler) → Grows h (put e h)
  put-Grows e h = elim (Bool-cases (is_full h)) [
    | inl full ↦ rw full (Grows-refl h)
    | inr room ↦ rw room (record {
      more = (e ∷ [], refl);
      same_bound = refl;
      same_stopping = refl;
      within = λ p k. ground (arith, room, length-append h.queue (e ∷ []));
    })
  ]

  emit-Grows : (e : Emitted) (h : Handler) → Grows h (emit_one e h)
  unfolding emit
  emit-Grows e h = queued (format dumps stamp e.context e.log_record)
    where
      queued : (r : Result String) → Grows h (queue_line e.context e.now e.log_record r h)
      queued (err x) = Grows-refl h
      queued (ok line) = put-Grows _ h

  emit_all-Grows : (es : List Emitted) (h : Handler) → Grows h (emit_all es h)
  unfolding emit_all
  emit_all-Grows [] h = Grows-refl h
  emit_all-Grows (e ∷ es) h =
      Grows-trans h (emit_one e h) (emit_all es (emit_one e h)) (emit-Grows e h)
        (emit_all-Grows es (emit_one e h))

  -- However many records are emitted, in whatever contexts and whether or not they can be formatted,
  -- a queue with a bound stays within it, and what was in the queue stays in front in its order.
  pub emit_all-within :
      (es : List Emitted) (h : Handler)
      → 0 < h.max_queue
      → length h.queue ≤ h.max_queue
      → (length (emit_all es h).queue ≤ h.max_queue)
        × ((zs : List Entry) × ((emit_all es h).queue ≡ h.queue ++ zs))
  emit_all-within es h p k = let grown = emit_all-Grows es h in (grown.within p k, grown.more)

  module _ (key_of : Dict String → String) where
    emit-queued :
        (e : Emitted) (h : Handler) (line : String)
        → format dumps stamp e.context e.log_record ≡ ok line
        → is_full h ≡ false
        → (emit_one e h).queue
          ≡ h.queue
            ++ record { labels = labels_of e.context e.log_record; ts = e.now; line = line } ∷ []
    unfolding emit
    emit-queued e h line formatted room =
        let entry : Entry = record {
          labels = labels_of e.context e.log_record;
          ts = e.now;
          line = line;
        } in
        ap (λ r. (queue_line e.context e.now e.log_record r h).queue) formatted
        ∙ ap (λ b. (if b then h else record h { queue = h.queue ++ entry ∷ [] }).queue) room

    post_batch-middle :
        (entry : Entry) (before after : List Entry) (h : Handler)
        → post_batch key_of (before ++ entry ∷ after) h
          ≡ (some (group key_of (before ++ entry ∷ after) []), record h { queue = [] })
    post_batch-middle entry [] after h = refl
    post_batch-middle entry (e ∷ before) after h = refl

    lines_of-middle :
        (entry : Entry) (before after : List Entry)
        → let key = key_of entry.labels in
          lines_of key_of key (before ++ entry ∷ after)
          ≡ lines_of key_of key before ++ value_of entry ∷ lines_of key_of key after
    lines_of-middle entry [] after = rw (eq_refl (key_of entry.labels)) refl
    lines_of-middle entry (e ∷ before) after =
        elim (Bool-cases (key_of e.labels == key_of entry.labels)) [
          | inl asked ↦ rw asked (ap (λ xs. value_of e ∷ xs) (lines_of-middle entry before after))
          | inr other ↦ rw other (lines_of-middle entry before after)
        ]

    -- A batch that holds an entry is posted, with the entry in a stream of its key.
    drain-entry :
        (entry : Entry) (before after : List Entry) (h : Handler)
        → h.queue ≡ before ++ entry ∷ after
        → (streams : Dict Stream) × (stream : Stream) × (xs ys : List (ℕ × String)) × (drain key_of
              h
            ≡ (some streams, record h { queue = [] }))
          × (lookup (key_of entry.labels) streams ≡ some stream)
          × (stream.values ≡ xs ++ value_of entry ∷ ys)
          × (key_of stream.labels ≡ key_of entry.labels)
    unfolding drain
    drain-entry entry before after h e =
        let batch = before ++ entry ∷ after in
        let before_it = lines_of key_of (key_of entry.labels) before in
        let after_it = lines_of key_of (key_of entry.labels) after in
        let (stream, posted, holds, labelled) =
          group-stream key_of (key_of entry.labels) batch (value_of entry) before_it after_it (
            (group-lines_of key_of (key_of entry.labels) batch).0
            ∙ lines_of-middle entry before after) in
        (
          group key_of batch [],
          stream,
          before_it,
          after_it,
          ap (λ q. post_batch key_of q h) e ∙ post_batch-middle entry before after h,
          posted,
          holds,
          labelled,
        )

    -- Where the texts that are written of two dictionaries of labels are the same only for dictionaries
    -- that say the same, a record that can be formatted and finds room in the queue is shipped: whatever
    -- is emitted after it, the next drain posts a stream that has just the record's labels, with the
    -- record's line and moment among its values, and leaves the queue empty.
    pub drain-emitted :
        (e : Emitted) (es : List Emitted) (h : Handler) (line : String)
        → ((d d' : Dict String) → key_of d ≡ key_of d' → (k : String) → lookup k d ≡ lookup k d')
        → format dumps stamp e.context e.log_record ≡ ok line
        → is_full h ≡ false
        → let h' = emit_all es (emit_one e h) in
          let labels = labels_of e.context e.log_record in
          (streams : Dict Stream) × (stream : Stream) × (xs ys : List (ℕ × String)) × (drain key_of
              h'
            ≡ (some streams, record h' { queue = [] }))
          × (lookup (key_of labels) streams ≡ some stream)
          × (stream.values ≡ xs ++ (e.now, line) ∷ ys)
          × ((k : String) → lookup k stream.labels ≡ lookup k labels)
    drain-emitted e es h line telling formatted room =
        let grown = emit_all-Grows es (emit_one e h) in
        let (zs, kept) = grown.more in
        let entry : Entry = record {
          labels = labels_of e.context e.log_record;
          ts = e.now;
          line = line;
        } in
        let (streams, stream, xs, ys, drained, posted, holds, labelled) =
          drain-entry entry h.queue zs (emit_all es (emit_one e h)) (
            kept
            ∙ ap (λ q. q ++ zs) (emit-queued e h line formatted room)
            ∙ append_assoc h.queue _ zs) in
        (
          streams,
          stream,
          xs,
          ys,
          drained,
          posted,
          holds,
          telling stream.labels (labels_of e.context e.log_record) labelled,
        )
