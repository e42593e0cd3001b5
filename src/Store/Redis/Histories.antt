-- ===== src/Store/Redis/Histories.antt =====
-- `append_event` and `history` of the Redis store return what those of the in-memory store do.
use mathlib.Core.List.{map-append}
use agentic_crew.Prelude.{
  zero, suc, String, List, [], ◌∷◌, ◌++◌, map-last_n, map-drop, last_n, lookup, ◌≡◌, refl, sym, ap,
  ◌∙◌, ◌==◌, eq_iff, Bool-cases, Option-cases, inl, inr,
}
use agentic_crew.Exec.{ok, bind_ok}
use agentic_crew.Contract.Value.{ℤ, pos, negsuc}
use agentic_crew.Contract.Events.{Event}
use agentic_crew.Store.{tail_slice, max_history}
use agentic_crew.Store.Memory.{history as memory_history, append_event as memory_append}
use agentic_crew.Store.Memory.{Memory}
use agentic_crew.Store.Memory.Laws.{log_of, log_of-append_event, log_of-history, history_result}
use agentic_crew.Wire.{Codec, IsCodec}
use agentic_crew.Wire.Events
use agentic_crew.Store.Redis.{
  project_key, history_key, active_key, minus, event_of, read_each, append_event, history,
}
use agentic_crew.Store.Redis.Client.{Redis, IsRedis, list_slot, from_start}
use agentic_crew.Store.Redis.Relation.{Agrees, Same, same, project_slot, encoded, Wrote, elsewhere}
use agentic_crew.Store.Redis.Keys.{eq-history_key, project_key-history_key, history_key-active_key}

module _ (c : Codec) (redis : Redis c.Text) (json : IsCodec c) (laws : IsRedis redis)
    (prefix : String) (s : redis.State) (m : Memory) (a : Agrees c redis laws prefix s m) where
  append_log :
      (e : Event) (s' : redis.State)
      → Wrote c redis laws prefix s s' (history_key prefix e.project_id) (
          list_slot (
            last_n max_history (
              encoded c redis laws prefix (log_of m e.project_id) ++ Events.encode_event c e ∷ [])))
      → (id : String)
      → laws.at s' (history_key prefix id)
        ≡ list_slot (encoded c redis laws prefix (log_of (memory_append e m).1 id))
  append_log e s' wrote id =
      wrote (history_key prefix id)
      ∙ rw (eq-history_key prefix e.project_id id, log_of-append_event m e id)
          (elim (Bool-cases (e.project_id == id)) [
            | inr other ↦ rw other (a.logs id)
            | inl own ↦ rw own (
                ap
                  (λ k. list_slot (
                    last_n max_history
                      (encoded c redis laws prefix (log_of m k) ++ Events.encode_event c e ∷ [])))
                  ((eq_iff _ _).0 own)
                ∙ ap (λ xs. list_slot (last_n max_history xs))
                    (sym (map-append (Events.encode_event c) (log_of m id) (e ∷ [])))
                ∙ ap list_slot
                    (sym (map-last_n max_history (log_of m id ++ e ∷ []) (Events.encode_event c))))
          ])

  pub append_agrees :
      (e : Event) → Same c redis laws prefix (append_event c redis prefix e s) (memory_append e m)
  unfolding append_event memory_append
  append_agrees e =
      let key = history_key prefix e.project_id in
      let (s1, run, wrote) =
        laws.execute_push_trim s key (Events.encode_event c e) (minus (pos max_history)) _
          (a.logs e.project_id) in
      same c redis laws prefix (ok tt) s1 (memory_append e m).1 run refl (record {
        projects = λ id plain.
            elsewhere c redis laws prefix s s1 key (project_key prefix id) _ wrote
              (λ h. plain e.project_id (project_key-history_key prefix id e.project_id (sym h)))
            ∙ a.projects id plain;
        logs = append_log e s1 wrote;
        index = (
          a.index.0,
          elsewhere c redis laws prefix s s1 key (active_key prefix) _ wrote
                (history_key-active_key prefix e.project_id)
              ∙ a.index.1,
        );
      })

  read_each-encoded :
      (es : List Event) → read_each (event_of c) (encoded c redis laws prefix es) ≡ ok es
  unfolding read_each
  read_each-encoded [] = refl
  read_each-encoded (e ∷ es) =
      rw (Events.decode_event-encode_event c e json).1 (rw (read_each-encoded es) refl)

  encoded-tail_slice :
      (limit : ℤ) (es : List Event)
      → from_start (minus limit) (encoded c redis laws prefix es)
        ≡ encoded c redis laws prefix (tail_slice limit es)
  encoded-tail_slice (pos zero) es = refl
  encoded-tail_slice (pos (suc n)) es = sym (map-last_n (suc n) es (Events.encode_event c))
  encoded-tail_slice (negsuc n) es = sym (map-drop (suc n) es (Events.encode_event c))

  projects-history : (id : String) (limit : ℤ) → (memory_history id limit m).1.projects ≡ m.projects
  unfolding memory_history
  projects-history id limit = elim (Option-cases (lookup id m.events)) [
    | inl e ↦ rw (e, memory_history) refl
    | inr (log, e) ↦ rw (e, memory_history) refl
  ]

  pub history_agrees :
      (id : String) (limit : ℤ)
      → Same c redis laws prefix (history c redis prefix id limit s) (memory_history id limit m)
  unfolding history
  history_agrees id limit =
      let log = log_of m id in
      let ranged = laws.lrange_lem s (history_key prefix id) (minus limit) _ (a.logs id) in
      let decoded : read_each (event_of c)
            (from_start (minus limit) (encoded c redis laws prefix log))
          ≡ ok (tail_slice limit log) =
        ap (read_each (event_of c)) (encoded-tail_slice limit log)
        ∙ read_each-encoded (tail_slice limit log) in
      let m' = (memory_history id limit m).1 in
      same c redis laws prefix (ok (tail_slice limit log)) s m'
        (bind_ok (redis.lrange _ _ _) _ s ranged ∙ ap (λ r. (r, s)) decoded)
        (ap (λ r. (r, m')) (history_result m id limit))
        (record {
          projects = λ j plain.
              a.projects j plain
              ∙ ap (λ d. project_slot c redis laws prefix (lookup j d))
                  (sym (projects-history id limit));
          logs = λ j.
              a.logs j
              ∙ ap (λ es. list_slot (encoded c redis laws prefix es))
                  (sym (log_of-history m id j limit));
          index = a.index;
        })
