-- ===== src/Mocks/Browser/Pages.antt =====
-- mocks/mcp_browser/main.py: what becomes of a page and of the evidence, whatever the browser does.
use agentic_crew.Prelude.{
  ℕ, String, Bool, false, List, [], ◌∷◌, ◌++◌, get_or, lookup-insert, ◌<>◌, ◌==◌, arith, eq_iff,
  ◌≡◌, refl, ap, sym, ◌∙◌, Option, none, some, lookup, true, if◌then◌else◌,
}
use agentic_crew.Exec.{
  Exec, Error, Result, ok, err, bind_ok, bind_err, continue, raise, http_error, ◌>>=◌, ◌>>◌,
}
use agentic_crew.Sandbox.{finally}
use agentic_crew.Mocks.Browser.{
  Driver, Evidence, Manager, get_context, screenshot_and_annotate, list_evidence, except_any,
  capture, give_up, in_browser, append_evidence, cited, evidence_dir, file_screenshot, keep_context,
  found_context,
}

-- Closing a page works, also a second time, and the page is closed then; making a directory opens and
-- closes no page.
pub record Closes (driver : Driver) : Type 0 where
  pub is_open : driver.State → driver.Page → Bool
  pub close_page_lem :
      (s : driver.State) (page : driver.Page)
      → (s' : driver.State) × (driver.close_page page s ≡ (ok tt, s')) × (is_open s' page ≡ false)
  pub make_dir_lem :
      (s : driver.State) (path : String) (page : driver.Page)
      → is_open (driver.make_dir path s).1 page ≡ is_open s page

-- A trail after a call: longer by what the call has returned, and as it was where the call has raised.
abbrev pub trail_after : Result Evidence → Bool → List Evidence → List Evidence
trail_after (ok entry) own trail = if own then trail ++ entry ∷ [] else trail
trail_after (err e) own trail = trail

module _ {S A : Type 0} where
  finally_lem :
      (m : Exec S A) (d : Exec S (Unit {0})) (s s' : S)
      → d (m s).1 ≡ (ok tt, s')
      → finally m d s ≡ ((m s).0, s')
  unfolding finally
  finally_lem m d s s' h = rw h refl

module _ (driver : Driver) (show_error : Error → String) (agent_id : String) where
  list_evidence-append :
      (w : Manager driver) (entry : Evidence) (j : String)
      → list_evidence driver show_error j (append_evidence driver show_error agent_id entry w).1
        ≡ trail_after (ok entry) (agent_id == j) (list_evidence driver show_error j w)
  unfolding list_evidence
  list_evidence-append w entry j = ground (
    arith,
    lookup-insert agent_id j (get_or agent_id [] w.evidence ++ entry ∷ []) w.evidence,
    eq_iff agent_id j,
  )

  -- What is done with the title, or with the exception, once the page is closed.
  filed :
      (r : Result String) (w : Manager driver) (entry_of : String → Evidence)
      → (m : Exec (Manager driver) String) (w0 : Manager driver) → m w0 ≡ (r, w)
      → (res : Result Evidence) × (w' : Manager driver) × ((m >>= λ title.
              append_evidence driver show_error agent_id (entry_of title))
            w0
          ≡ (res, w'))
        × (w'.browser ≡ w.browser)
        × ((j : String)
            → list_evidence driver show_error j w'
              ≡ trail_after res (agent_id == j) (list_evidence driver show_error j w))
  filed (ok title) w entry_of m w0 h =
      (_, _, bind_ok m _ w0 h, refl, list_evidence-append w (entry_of title))
  filed (err e) w entry_of m w0 h = (err e, w, bind_err m _ w0 h, refl, λ j. refl)

  -- Having a context for an agent adds to no trail.
  evidence-get_context :
      (w : Manager driver) → (get_context driver show_error agent_id w).1.evidence ≡ w.evidence
  unfolding get_context ◌>>=◌
  evidence-get_context w = ready w.is_ready
    where
      opened :
          (x : Result driver.Context × driver.State)
          → (continue {S = Manager driver}
              (x.0, record w { browser = x.1 })
              (keep_context driver show_error agent_id)).1.evidence
            ≡ w.evidence
      opened (ok ctx, s) = refl
      opened (err e, s) = refl

      known :
          (o : Option driver.Context)
          → (found_context driver show_error agent_id o w).1.evidence ≡ w.evidence
      known none = opened (driver.new_context w.browser)
      known (some ctx) = refl

      ready :
          (b : Bool)
          → ((if b
                then found_context driver show_error agent_id (lookup agent_id w.contexts)
                else raise (http_error 503 "browser is still starting"))
              w).1.evidence
            ≡ w.evidence
      ready true = known (lookup agent_id w.contexts)
      ready false = refl

-- The exception of a call, as that of another.
abbrev raised_again : {A B : Type 0} → Error → Result A → Result B
raised_again default (err e) = err e
raised_again default (ok a) = err default

list_evidence-same :
    (driver : Driver) (show_error : Error → String) (w w' : Manager driver)
    → w.evidence ≡ w'.evidence
    → (j : String) → list_evidence driver show_error j w ≡ list_evidence driver show_error j w'
unfolding list_evidence
list_evidence-same driver show_error w w' same j = ap (get_or j []) same

module _ (driver : Driver) (show_error : Error → String) (laws : Closes driver) (token : String)
    (now : ℕ) (agent_id url looking_for finding cite_as : String) where
  file_screenshot-closes :
      (page : driver.Page) (w : Manager driver)
      → (r : Result Evidence) × (w' : Manager driver) × (file_screenshot driver show_error token now
            page agent_id url looking_for finding cite_as w
          ≡ (r, w'))
        × (laws.is_open w'.browser page ≡ false)
        × ((j : String)
            → list_evidence driver show_error j w'
              ≡ trail_after r (agent_id == j) (list_evidence driver show_error j w))
  unfolding file_screenshot list_evidence
  file_screenshot-closes page w =
      let rel_path = "evidence/" <> (agent_id <> ("/" <> (("evidence-" <> token) <> ".png"))) in
      let shoot : Exec driver.State String = λ t.
        except_any (give_up driver show_error page)
          (capture driver show_error page url ("/workspace/" <> rel_path) t) in
      let (s', closed, shut) = laws.close_page_lem (shoot w.browser).1 page in
      let ended = finally_lem shoot (driver.close_page page) w.browser s' closed in
      let (r, w', run, same, trail) =
        filed driver show_error agent_id (shoot w.browser).0 (record w { browser = s' })
          (λ title. record {
            screenshot_id = "evidence-" <> token;
            url = url;
            page_title = title;
            captured_at = now;
            looking_for = looking_for;
            finding = finding;
            cite_as = cited cite_as ("evidence-" <> token);
            screenshot_path = rel_path;
          })
          (in_browser driver show_error (finally shoot (driver.close_page page))) w
          (ap (λ (x : Result String × driver.State). (x.0, record w { browser = x.1 })) ended) in
      (r, w', run, ap (λ t. laws.is_open t page) same ∙ shut, trail)

-- A screenshot for which a page was opened, and whose directory can be made, ends with that page closed,
-- by a return or by an exception. Where the directory cannot be made, the call raises what making it has
-- raised, and the page is as open as it was. Either way the agent's trail of evidence is longer by what
-- is returned, and is as it was where the call raises, and every other agent's trail is as it was.
pub screenshot_and_annotate-closes :
    (driver : Driver) (show_error : Error → String) (laws : Closes driver) (token : String)
    (now : ℕ) (agent_id url looking_for finding cite_as : String) (w w1 : Manager driver)
    (ctx : driver.Context) (page : driver.Page) (s : driver.State)
    → get_context driver show_error agent_id w ≡ (ok ctx, w1)
    → driver.new_page ctx w1.browser ≡ (ok page, s)
    → let made = (driver.make_dir (evidence_dir driver show_error agent_id) s).0 in
      (r : Result Evidence) × (w' : Manager driver) × (screenshot_and_annotate driver show_error
          token now agent_id url looking_for finding cite_as w
        ≡ (r, w'))
      × (made ≡ ok tt → laws.is_open w'.browser page ≡ false)
      × ((e : Error)
          → made ≡ err e
          → (r ≡ err e) × (laws.is_open w'.browser page ≡ laws.is_open s page))
      × ((j : String)
          → list_evidence driver show_error j w'
            ≡ trail_after r (agent_id == j) (list_evidence driver show_error j w))
unfolding screenshot_and_annotate
screenshot_and_annotate-closes driver show_error laws token now agent_id url looking_for finding
      cite_as w w1 ctx page s got opened =
    ended (driver.make_dir (evidence_dir driver show_error agent_id) s) refl
  where
    same_trail :
        (t : driver.State) (j : String)
        → list_evidence driver show_error j (record w1 { browser = t })
          ≡ list_evidence driver show_error j w
    same_trail t =
        list_evidence-same driver show_error (record w1 { browser = t }) w
          (ap (λ (x : Result driver.Context × Manager driver). x.1.evidence) (sym got)
            ∙ evidence-get_context driver show_error agent_id w)

    up_to_page :
        screenshot_and_annotate driver show_error token now agent_id url looking_for finding cite_as
          w
        ≡ (in_browser driver show_error (driver.make_dir (evidence_dir driver show_error agent_id))
              >> file_screenshot driver show_error token now page agent_id url looking_for finding
                  cite_as)
            (record w1 { browser = s })
    up_to_page =
        bind_ok (get_context driver show_error agent_id) _ w got
        ∙ bind_ok (in_browser driver show_error (driver.new_page ctx)) _ w1 (
            ap (λ (x : Result driver.Page × driver.State). (x.0, record w1 { browser = x.1 }))
              opened)

    ended :
        (x : Result (Unit {0}) × driver.State)
        → driver.make_dir (evidence_dir driver show_error agent_id) s ≡ x
        → (r : Result Evidence) × (w' : Manager driver) × (screenshot_and_annotate driver show_error
              token now agent_id url looking_for finding cite_as w
            ≡ (r, w'))
          × ((driver.make_dir (evidence_dir driver show_error agent_id) s).0 ≡ ok tt
              → laws.is_open w'.browser page ≡ false)
          × ((e : Error)
              → (driver.make_dir (evidence_dir driver show_error agent_id) s).0 ≡ err e
              → (r ≡ err e) × (laws.is_open w'.browser page ≡ laws.is_open s page))
          × ((j : String)
              → list_evidence driver show_error j w'
                ≡ trail_after r (agent_id == j) (list_evidence driver show_error j w))
    ended (ok _, s2) made =
        let (r, w', run, closed, trail) =
          file_screenshot-closes driver show_error laws token now agent_id url looking_for finding
            cite_as page (record w1 { browser = s2 }) in
        (
          r,
          w',
          up_to_page
              ∙ bind_ok (in_browser driver show_error (driver.make_dir _)) _
                  (record w1 { browser = s })
                  (ap (λ (x : Result (Unit {0}) × driver.State). (x.0, record w1 { browser = x.1 }))
                    made)
              ∙ run,
          λ _. closed,
          λ e failed. cc (ap (λ x. x.0) made, failed),
          λ j. trail j ∙ ap (trail_after r (agent_id == j)) (same_trail s2 j),
        )
    ended (err x, s2) made = (
      err x,
      record w1 { browser = s2 },
      up_to_page
          ∙ bind_err (in_browser driver show_error (driver.make_dir _)) _
              (record w1 { browser = s })
              (ap (λ (x : Result (Unit {0}) × driver.State). (x.0, record w1 { browser = x.1 }))
                made),
      λ fine. cc (ap (λ x. x.0) made, fine),
      λ e failed. (
        ap (raised_again x) (sym (ap (λ x. x.0) made) ∙ failed),
        ap (λ (x : Result (Unit {0}) × driver.State). laws.is_open x.1 page) (sym made)
            ∙ laws.make_dir_lem s (evidence_dir driver show_error agent_id) page,
      ),
      same_trail s2,
    )
