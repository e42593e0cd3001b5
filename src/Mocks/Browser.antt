-- ===== src/Mocks/Browser.antt =====
-- mocks/mcp_browser/main.py: one browser, with a context and a trail of evidence for each agent. The
-- driver of the browser is a parameter.
pub mod Pages
use Prim.Native.String
use agentic_crew.Prelude.{
  ℕ, ◌+◌, String, Bool, Option, none, some, List, [], ◌∷◌, ◌++◌, Dict, lookup, insert, erase,
  get_or, values, length, take, ltb, ◌<>◌, if◌then◌else◌,
}
use agentic_crew.Exec.{Exec, Error, Result, ok, err, http_error, pure, raise, ◌>>=◌, ◌>>◌}
use agentic_crew.Project.{is_empty}
use agentic_crew.Sandbox.{finally}

-- What `playwright` does, and `Path.mkdir` with parents. Any of it may raise.
pub record Driver : Type 1 where
  pub State : Type 0
  pub Context : Type 0
  pub Page : Type 0
  pub new_context : Exec State Context
  pub new_page : Context → Exec State Page
  pub goto : Page → String → Exec State (Unit {0})
  pub title : Page → Exec State String
  pub inner_text : Page → Exec State String
  pub screenshot : Page → String → Exec State (Unit {0})
  pub make_dir : String → Exec State (Unit {0})
  pub close_page : Page → Exec State (Unit {0})
  pub close_context : Context → Exec State (Unit {0})

pub record Evidence : Type 0 where
  pub screenshot_id : String
  pub url : String
  pub page_title : String
  pub captured_at : ℕ
  pub looking_for : String
  pub finding : String
  pub cite_as : String
  pub screenshot_path : String

-- What `navigate` returns: a page's text, cut, or what went wrong.
pub data Visit : Type 0 where
  visited : String → String → String → Bool → Visit
  failed_visit : String → String → Visit

-- `BrowserManager`, with the browser's own state; `is_ready` says that `_browser` is there.
pub record Manager (driver : Driver) : Type 0 where
  pub is_ready : Bool
  pub contexts : Dict driver.Context
  pub evidence : Dict (List Evidence)
  pub browser : driver.State

pub record Health : Type 0 where
  pub active_contexts : ℕ
  pub evidence_total : ℕ
  pub engine : String

abbrev pub page_text_limit : ℕ
page_text_limit = 5000

abbrev sum_lengths : List (List Evidence) → ℕ
sum_lengths [] = 0
sum_lengths (es ∷ more) = length es + sum_lengths more

-- `try: m; except Exception as e: handle(e)`
abbrev pub except_any : {S A : Type 0} → (Error → Exec S A) → Result A × S → Result A × S
except_any handle (ok a, s) = (ok a, s)
except_any handle (err e, s) = handle e s

-- `cite_as or screenshot_id`
abbrev pub cited : String → String → String
cited cite_as screenshot_id = if is_empty cite_as then screenshot_id else cite_as

module _ (driver : Driver) (show_error : Error → String) where
  open driver use {
    State, Context, Page, new_context, new_page, goto, title, inner_text, screenshot, make_dir,
    close_page, close_context,
  }

  abbrev pub in_browser : {A : Type 0} → Exec State A → Exec (Manager driver) A
  in_browser m w = let (r, s) = m w.browser in (r, record w { browser = s })

  abbrev keep_context : String → Context → Exec (Manager driver) Context
  keep_context agent_id ctx w = (ok ctx, record w { contexts = insert agent_id ctx w.contexts })

  abbrev found_context : String → Option Context → Exec (Manager driver) Context
  found_context agent_id (some ctx) = pure ctx
  found_context agent_id none = in_browser new_context >>= keep_context agent_id

  -- `_get_context`
  unfoldable pub get_context : String → Exec (Manager driver) Context
  get_context agent_id w =
      (if w.is_ready
          then found_context agent_id (lookup agent_id w.contexts)
          else raise (http_error 503 "browser is still starting"))
        w

  abbrev visit : Page → String → Exec State Visit
  visit page url = do
    goto page url
    page_title ← title page
    text ← inner_text page
    pure (
        visited url page_title (take page_text_limit text)
          (ltb page_text_limit (String.count text)))

  -- `navigate`
  unfoldable pub navigate : String → String → Exec (Manager driver) Visit
  navigate agent_id url = do
    ctx ← get_context agent_id
    page ← in_browser (new_page ctx)
    in_browser (
        finally (λ s. except_any (λ e. pure (failed_visit url (show_error e))) (visit page url s))
          (close_page page))

  abbrev pub capture : Page → String → String → Exec State String
  capture page url path = do goto page url; screenshot page path; title page

  -- The page is closed before the exception is raised, and once more by `finally`.
  abbrev pub give_up : Page → Error → Exec State String
  give_up page e = close_page page >> raise (http_error 500 ("screenshot failed: " <> show_error e))

  abbrev pub append_evidence : String → Evidence → Exec (Manager driver) Evidence
  append_evidence agent_id entry w = (
    ok entry,
    record w {
      evidence = insert agent_id (get_or agent_id [] w.evidence ++ entry ∷ []) w.evidence;
    },
  )

  -- `abs_path.parent`
  abbrev pub evidence_dir : String → String
  evidence_dir agent_id = "/workspace/evidence/" <> agent_id

  -- What is done once the page is there and the directory is made.
  unfoldable pub file_screenshot :
      String
      → ℕ
      → Page
      → String
      → String
      → String
      → String
      → String
      → Exec (Manager driver) Evidence
  file_screenshot token now page agent_id url looking_for finding cite_as =
      let screenshot_id = "evidence-" <> token in
      let rel_path = "evidence/" <> (agent_id <> ("/" <> (screenshot_id <> ".png"))) in
      do
        page_title ← in_browser (
            finally
              (λ s. except_any (give_up page) (capture page url ("/workspace/" <> rel_path) s))
              (close_page page))
        append_evidence agent_id (record {
          screenshot_id = screenshot_id;
          url = url;
          page_title = page_title;
          captured_at = now;
          looking_for = looking_for;
          finding = finding;
          cite_as = cited cite_as screenshot_id;
          screenshot_path = rel_path;
        })

  -- `screenshot_and_annotate`, with the random token of the screenshot and the moment `now`
  unfoldable pub screenshot_and_annotate :
      String → ℕ → String → String → String → String → String → Exec (Manager driver) Evidence
  screenshot_and_annotate token now agent_id url looking_for finding cite_as = do
    ctx ← get_context agent_id
    page ← in_browser (new_page ctx)
    in_browser (make_dir (evidence_dir agent_id))
    file_screenshot token now page agent_id url looking_for finding cite_as

  -- `list_evidence`
  unfoldable pub list_evidence : String → Manager driver → List Evidence
  list_evidence agent_id w = get_or agent_id [] w.evidence

  abbrev close_found : Option Context → Exec State (Unit {0})
  close_found none = pure tt
  close_found (some ctx) = close_context ctx

  -- `close_agent`
  unfoldable pub close_agent : String → Exec (Manager driver) (Unit {0})
  close_agent agent_id w =
      in_browser (close_found (lookup agent_id w.contexts))
        (record w { contexts = erase agent_id w.contexts })

  -- `health`
  unfoldable pub health : Manager driver → Health
  health w = record {
    active_contexts = length w.contexts;
    evidence_total = sum_lengths (values w.evidence);
    engine = if w.is_ready then "chromium" else "not-ready";
  }
