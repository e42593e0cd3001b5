-- ===== src/Store/Redis/Saved.antt =====
-- `create`, `save` and `get` of the Redis store return what those of the in-memory store do.
use agentic_crew.Prelude.{
  String, none, some, lookup, insert, ◌≡◌, refl, ap, ◌∙◌, ◌<>◌, Bool-cases, Option-cases, inl, inr,
}
use agentic_crew.Exec.{ok, err, bind_ok, value_error, key_error}
use agentic_crew.Exec.Results.{◌>>=◌ as and_typed}
use agentic_crew.Project.{Project, is_terminal}
use agentic_crew.Store.Memory.{create as memory_create, save as memory_save, get as memory_get}
use agentic_crew.Store.Memory.{Memory}
use agentic_crew.Wire.{Codec, IsCodec}
use agentic_crew.Wire.Projects
use agentic_crew.Store.Redis.{project_key, active_key, project_or_none, create, get, save}
use agentic_crew.Store.Redis.Client.{Redis, IsRedis}
use agentic_crew.Store.Redis.Relation.{
  IsPlain, Agrees, Agrees-project, Agrees-index, Same, same, not_absent, project_slot,
}

module _ (c : Codec) (redis : Redis c.Text) (json : IsCodec c) (laws : IsRedis redis)
    (prefix : String) (s : redis.State) (m : Memory) (a : Agrees c redis laws prefix s m) where
  pub create_agrees :
      (p : Project)
      → IsPlain p.id
      → Same c redis laws prefix (create c redis prefix p s) (memory_create p m)
  unfolding create memory_create
  create_agrees p plain = elim (Option-cases (lookup p.id m.projects)) [
    | inr (q, e) ↦
        let slot = a.projects p.id plain ∙ ap (project_slot c redis laws prefix) e in
        same c redis laws prefix (err (value_error ("project " <> p.id <> " already exists"))) s m
          (bind_ok (redis.set_nx _ _) _ s
            (laws.set_nx_taken s _ _ (not_absent c redis laws prefix slot)))
          (rw (e, memory_create) refl) a
    | inl e ↦
        let slot = a.projects p.id plain ∙ ap (project_slot c redis laws prefix) e in
        let (s1, set_eq, wrote) =
          laws.set_nx_absent s (project_key prefix p.id) (Projects.encode_project c p) slot in
        let a1 = Agrees-project c redis laws prefix s s1 m p a plain wrote in
        let (s2, add_eq, added) =
          laws.zadd_lem s1 (active_key prefix) p.id p.created_at a1.index.0 a1.index.1 in
        same c redis laws prefix (ok p) s2 (record m { projects = insert p.id p m.projects })
          (bind_ok (redis.set_nx _ _) _ s set_eq ∙ bind_ok (redis.zadd _ _ _) _ s1 add_eq)
          (rw (e, memory_create) refl)
          (Agrees-index c redis laws prefix s1 s2 (record m { projects = insert p.id p m.projects })
            _ a1 added)
  ]

  pub save_agrees :
      (p : Project)
      → IsPlain p.id
      → Same c redis laws prefix (save c redis prefix p s) (memory_save p m)
  unfolding save memory_save
  save_agrees p plain = elim (Option-cases (lookup p.id m.projects)) [
    | inl e ↦
        let slot = a.projects p.id plain ∙ ap (project_slot c redis laws prefix) e in
        same c redis laws prefix (err (key_error ("unknown project " <> p.id))) s m
          (bind_ok (redis.set_xx _ _) _ s (laws.set_xx_absent s _ _ slot))
          (rw (e, memory_save) refl) a
    | inr (q, e) ↦
        let slot = a.projects p.id plain ∙ ap (project_slot c redis laws prefix) e in
        let (s1, set_eq, wrote) =
          laws.set_xx_taken s (project_key prefix p.id) (Projects.encode_project c p)
            (not_absent c redis laws prefix slot) in
        let a1 = Agrees-project c redis laws prefix s s1 m p a plain wrote in
        let (s2, rem_eq, removed) =
          laws.zrem_lem s1 (active_key prefix) p.id a1.index.0 a1.index.1 in
        elim (Bool-cases (is_terminal p.status)) [
          | inl over ↦
              same c redis laws prefix (ok p) s2 (record m { projects = insert p.id p m.projects })
                (bind_ok (redis.set_xx _ _) _ s set_eq
                  ∙ rw over (bind_ok (redis.zrem _ _) _ s1 rem_eq))
                (rw (e, memory_save) refl)
                (Agrees-index c redis laws prefix s1 s2
                  (record m { projects = insert p.id p m.projects }) _ a1 removed)
          | inr still ↦
              same c redis laws prefix (ok p) s1 (record m { projects = insert p.id p m.projects })
                (bind_ok (redis.set_xx _ _) _ s set_eq ∙ rw still refl) (rw (e, memory_save) refl)
                a1
        ]
  ]

  project_or_none-encode :
      (p : Project) → project_or_none c (some (Projects.encode_project c p)) ≡ ok (some p)
  unfolding project_or_none Projects.encode_project
  project_or_none-encode p =
      rw (json.is_blank-dumps _) (
        ap (λ r. and_typed r (λ q. ok (some q)))
          (Projects.decode_project-encode_project c p json).1)

  pub get_agrees :
      (id : String)
      → IsPlain id
      → Same c redis laws prefix (get c redis prefix id s) (memory_get id m)
  unfolding get memory_get project_or_none
  get_agrees id plain = elim (Option-cases (lookup id m.projects)) [
    | inl e ↦
        let slot = a.projects id plain ∙ ap (project_slot c redis laws prefix) e in
        same c redis laws prefix (ok none) s m
          (bind_ok (redis.get _) _ s (laws.get_absent s _ slot)) (rw e refl) a
    | inr (p, e) ↦
        let slot = a.projects id plain ∙ ap (project_slot c redis laws prefix) e in
        same c redis laws prefix (ok (some p)) s m
          (bind_ok (redis.get _) _ s (laws.get_text s _ _ slot)
            ∙ ap (λ r. (r, s)) (project_or_none-encode p))
          (rw e refl) a
  ]
