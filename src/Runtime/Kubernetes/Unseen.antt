-- ===== src/Runtime/Kubernetes/Unseen.antt =====
-- k8s_runtime.py: what `census` says of an agent that has just been launched.
use agentic_crew.Prelude.{
  ℕ, String, Bool, true, false, Option, List, [], ◌∷◌, ◌++◌, length, keep, keep-append, append_nil,
  ◌≡◌, refl, ap, sym, ◌∙◌, ◌⊎◌, Bool-cases, inl, inr,
}
use agentic_crew.Exec.{Result, ok, bind_ok}
use agentic_crew.Caps.{AgentRole}
use agentic_crew.Sandbox.Manifest.{is_selected}
use agentic_crew.Runtime.{AgentSpec, AgentHandle}
use agentic_crew.Runtime.Kubernetes.{launch, census, live_jobs, live_selector}
use agentic_crew.Runtime.Kubernetes.Cluster.{Client, Answers, Creates, Job, is_active, untouched}
use agentic_crew.Runtime.Kubernetes.Manifest.{Settings, manifest, job_name}

module _ {ℓ} {A : Type ℓ} (p q : A → Bool) where
  keep-keep-snoc :
      (xs : List A) (x : A) → p x ≡ false → keep p (keep q (xs ++ x ∷ [])) ≡ keep p (keep q xs)
  keep-keep-snoc xs x idle =
      ap (keep p) (keep-append q xs (x ∷ []))
      ∙ keep-append p (keep q xs) (keep q (x ∷ []))
      ∙ ap (λ ys. keep p (keep q xs) ++ ys) (dropped (Bool-cases (q x)))
      ∙ append_nil (keep p (keep q xs))
    where
      dropped : (q x ≡ true) ⊎ (q x ≡ false) → keep p (keep q (x ∷ [])) ≡ []
      dropped (inl e) = rw e (rw idle refl)
      dropped (inr e) = rw e refl

module _ (client : Client) (answers : Answers client) where
  census_lem :
      (role : AgentRole) (project_id : Option String) (s : client.State)
      → census client role project_id s ≡ (
        ok (
            length (
              keep is_active
                (keep (λ j. is_selected (live_selector role project_id) j.body) (answers.jobs s)))),
        s,
      )
  unfolding census live_jobs
  census_lem role project_id s =
      bind_ok _ _ s (bind_ok _ _ s (answers.list_jobs_lem s (live_selector role project_id)))

-- A launch makes one Job more, that of the manifest, and returns its handle at once, and every census, of the agent's own role and
-- project too, is after it what it was before, until the Job controller has made a pod.
pub launch-census :
    (client : Client) (answers : Answers client) (creates : Creates client answers)
    (settings : Settings) (lower : String → String) (token : String) (spec : AgentSpec)
    (s : client.State)
    → (h : AgentHandle) × (s' : client.State) × (launch client settings lower token spec s
        ≡ (ok h, s'))
      × (h.name ≡ job_name lower spec.role spec.project_id token)
      × (name : String) × (answers.jobs s'
          ≡ answers.jobs s
            ++ record {
              body = manifest settings (job_name lower spec.role spec.project_id token) spec;
              name = name;
              status = untouched;
            }
              ∷ [])
      × ((role : AgentRole) (project_id : Option String)
          → (census client role project_id s').0 ≡ (census client role project_id s).0)
unfolding launch
launch-census client answers creates settings lower token spec s =
    let body = manifest settings (job_name lower spec.role spec.project_id token) spec in
    let (s', name, made, there) = creates.create_job_lem s body in
    (
      _,
      s',
      bind_ok (client.create_job body) _ s made,
      refl,
      name,
      there,
      λ role project_id.
          let selected = λ (j : Job). is_selected (live_selector role project_id) j.body in
          ap (λ (r : Result ℕ × client.State). r.0) (census_lem client answers role project_id s')
          ∙ ap (λ (jobs : List Job). ok (length jobs))
              (ap (λ jobs. keep is_active (keep selected jobs)) there
                ∙ keep-keep-snoc is_active selected (answers.jobs s)
                    (record { body = body; name = name; status = untouched }) refl)
          ∙ ap (λ (r : Result ℕ × client.State). r.0)
              (sym (census_lem client answers role project_id s)),
    )
