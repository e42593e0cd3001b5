-- ===== src/Runtime/Kubernetes/Counting.antt =====
-- k8s_runtime.py: which Jobs the selectors of `census`, `handles` and `stop_project` take.
use agentic_crew.Prelude.{
  ℕ, String, Bool, true, false, ◌&&◌, not, some, List, [], ◌∷◌, length, length-map, keep, arith,
  ◌==◌, eq_iff, ◌≡◌, ◌≢◌, refl, ap, sym, ◌∙◌, Bool-cases, inl, inr,
}
use agentic_crew.Exec.{Result, ok, bind_ok}
use agentic_crew.Caps.{AgentRole, role_value}
use agentic_crew.Project.{is_empty}
use agentic_crew.Contract.Value.{Value, str, int, bool, null, obj, arr}
use agentic_crew.Contract.Json.{object}
use agentic_crew.Sandbox.Manifest.{at_key, is_selected, says}
use agentic_crew.Runtime.{AgentSpec, AgentHandle}
use agentic_crew.Runtime.Kubernetes.{
  live_selector, stop_selector, live_jobs, census, handles, stop_project,
}
use agentic_crew.Runtime.Kubernetes.Cluster.{Client, Answers, Job, is_active}
use agentic_crew.Runtime.Kubernetes.Manifest.{Settings, manifest, label_managed, label_project}

module _ {ℓ} {A : Type ℓ} (p q : A → Bool) where
  keep-keep_none :
      (xs : List A) → ((x : A) → p x ≡ true → q x ≡ true) → keep p (keep (λ x. not (q x)) xs) ≡ []
  keep-keep_none [] within = refl
  keep-keep_none (x ∷ xs) within = ground (arith, keep-keep_none xs within, within x)

  keep-keep_all :
      (xs : List A)
      → ((x : A) → p x ≡ true → q x ≡ false)
      → keep p (keep (λ x. not (q x)) xs) ≡ keep p xs
  keep-keep_all [] apart = refl
  keep-keep_all (x ∷ xs) apart = ground (arith, keep-keep_all xs apart, apart x)

-- A value is one text only.
says-says : (v w : String) (x : Value) → says v x ≡ true → says w x ≡ true → v ≡ w
says-says v w (str s) h g = sym ((eq_iff s v).0 h) ∙ (eq_iff s w).0 g
says-says v w (int n) h g = cc
says-says v w (bool b) h g = cc
says-says v w null h g = cc
says-says v w (obj fs) h g = cc
says-says v w (arr xs) h g = cc

and_true : (a b : Bool) → (a && b) ≡ true → (a ≡ true) × (b ≡ true)
and_true true b h = (refl, h)
and_true false b h = cc

-- What a Job says of its project and of who manages it.
abbrev label_of : String → Value → Value
label_of k job = at_key k (at_key "labels" (at_key "metadata" job))

module _ (role : AgentRole) (id : String) (named : is_empty id ≡ false) (job : Value) where
  live-labels :
      is_selected (live_selector role (some id)) job ≡ true
      → (says "control-plane" (label_of label_managed job) ≡ true)
        × (says id (label_of label_project job) ≡ true)
  unfolding is_selected live_selector
  live-labels h =
      let h' = rw named at h in
      let (managed, more) = and_true _ _ h' in
      let (_, owned) = and_true _ _ more in (managed, (and_true _ _ owned).0)

  live-within-stop :
      is_selected (live_selector role (some id)) job ≡ true
      → is_selected (stop_selector id) job ≡ true
  unfolding is_selected stop_selector
  live-within-stop h = let (managed, owned) = live-labels h in rw managed (rw owned refl)

  live-apart-stop :
      (other : String)
      → other ≢ id
      → is_selected (live_selector role (some id)) job ≡ true
      → is_selected (stop_selector other) job ≡ false
  unfolding is_selected stop_selector
  live-apart-stop other differ h = elim (Bool-cases (says other (label_of label_project job))) [
    | inl e ↦ absurd (differ (says-says other id (label_of label_project job) e (live-labels h).1))
    | inr e ↦ let (managed, _) = live-labels h in rw managed (rw e refl)
  ]

-- The selector of `census` and `handles` takes the Job of an agent exactly where role and project are
-- the agent's.
pub is_selected-live_selector :
    (settings : Settings) (name id : String) (spec : AgentSpec) (role : AgentRole)
    → is_empty id ≡ false
    → is_selected (live_selector role (some id)) (manifest settings name spec)
      ≡ ((role_value spec.role == role_value role) && (spec.project_id == id))
unfolding is_selected live_selector manifest object
is_selected-live_selector settings name id spec role named = rw named (ground arith)

module _ (client : Client) (answers : Answers client) where
  abbrev live_of : AgentRole → String → List Job → List Job
  live_of role id jobs =
      keep is_active (keep (λ j. is_selected (live_selector role (some id)) j.body) jobs)

  census-live :
      (role : AgentRole) (id : String) (s : client.State)
      → census client role (some id) s ≡ (ok (length (live_of role id (answers.jobs s))), s)
  unfolding census live_jobs
  census-live role id s =
      bind_ok _ _ s (bind_ok _ _ s (answers.list_jobs_lem s (live_selector role (some id))))

  handles-live :
      (role : AgentRole) (id : String) (s : client.State)
      → (hs : List AgentHandle) × (handles client role id s ≡ (ok hs, s))
        × (length hs ≡ length (live_of role id (answers.jobs s)))
  unfolding handles live_jobs
  handles-live role id s = (
    _,
    bind_ok _ _ s (bind_ok _ _ s (answers.list_jobs_lem s (live_selector role (some id)))),
    length-map (live_of role id (answers.jobs s)) _,
  )

-- `stop_project` returns how many Jobs the project has, those that have ended among them. After it no
-- agent of the project is counted in any role, and as many as before of any other project.
pub stop_project-census :
    (client : Client) (answers : Answers client) (id : String) (s : client.State)
    → is_empty id ≡ false
    → (s' : client.State) × (stop_project client id s
        ≡ (ok (length (keep (λ j. is_selected (stop_selector id) j.body) (answers.jobs s))), s'))
      × ((role : AgentRole) → census client role (some id) s' ≡ (ok 0, s'))
      × ((role : AgentRole) (other : String)
          → is_empty other ≡ false
          → other ≢ id
          → (census client role (some other) s').0 ≡ (census client role (some other) s).0)
unfolding stop_project
stop_project-census client answers id s named =
    let (s', deleted, left) = answers.delete_jobs_lem s (stop_selector id) in
    (
      s',
      bind_ok _ _ s (answers.list_jobs_lem s (stop_selector id)) ∙ bind_ok _ _ s deleted,
      λ role.
          census-live client answers role id s'
          ∙ ap (λ jobs. (ok (length (keep is_active jobs)), s'))
              (ap (keep (λ (j : Job). is_selected (live_selector role (some id)) j.body)) left
                ∙ keep-keep_none (λ (j : Job). is_selected (live_selector role (some id)) j.body)
                    (λ j. is_selected (stop_selector id) j.body) (answers.jobs s)
                    (λ j. live-within-stop role id named j.body)),
      λ role other given differ.
          ap (λ (r : Result ℕ × client.State). r.0) (census-live client answers role other s')
          ∙ ap (λ (jobs : List Job). ok (length (keep is_active jobs)))
              (ap (keep (λ (j : Job). is_selected (live_selector role (some other)) j.body)) left
                ∙ keep-keep_all (λ (j : Job). is_selected (live_selector role (some other)) j.body)
                    (λ j. is_selected (stop_selector id) j.body) (answers.jobs s)
                    (λ j. live-apart-stop role other given j.body id (λ e. differ (sym e))))
          ∙ ap (λ (r : Result ℕ × client.State). r.0)
              (sym (census-live client answers role other s)),
    )

-- Counting and listing agree: there are as many handles as the census says.
pub length-handles :
    (client : Client) (answers : Answers client) (role : AgentRole) (id : String) (s : client.State)
    → (hs : List AgentHandle) × (handles client role id s ≡ (ok hs, s))
      × (census client role (some id) s ≡ (ok (length hs), s))
length-handles client answers role id s =
    let (hs, listed, same_length) = handles-live client answers role id s in
    (hs, listed, census-live client answers role id s ∙ ap (λ n. (ok n, s)) (sym same_length))
