-- ===== src/Tests/Browsing.antt =====
-- The theorem on the browser, over one that can reach nothing.
use agentic_crew.Prelude.{String, Bool, true, false, [], ◌∷◌, lookup, ◌==◌, ◌≡◌, refl}
use agentic_crew.Exec.{Error, Result, ok, err, type_error}
use agentic_crew.Mocks.Browser.{
  Driver, Evidence, Manager, get_context, list_evidence, screenshot_and_annotate,
}
use agentic_crew.Mocks.Browser.Pages.{Closes, trail_after, screenshot_and_annotate-closes}

abbrev show_error : Error → String
show_error e = "error"

-- A browser with one page, which is open or closed, and on which nothing can be reached.
abbrev blank_driver : Driver
blank_driver = record {
  State = Bool;
  Context = String;
  Page = String;
  new_context = λ s. (ok "context", s);
  new_page = λ ctx s. (ok "page", true);
  goto = λ page url s. (err (type_error "net::ERR_NAME_NOT_RESOLVED"), s);
  title = λ page s. (ok "", s);
  inner_text = λ page s. (ok "", s);
  screenshot = λ page path s. (ok tt, s);
  make_dir = λ path s. (ok tt, s);
  close_page = λ page s. (ok tt, false);
  close_context = λ ctx s. (ok tt, s);
}

blank_driver-Closes : Closes blank_driver
blank_driver-Closes = record {
  is_open = λ s page. s;
  close_page_lem = λ s page. (false, refl, refl);
  make_dir_lem = λ s path page. refl;
}

abbrev browsing : Manager blank_driver
browsing = record {
  is_ready = true;
  contexts = ("pm-1", "context") ∷ [];
  evidence = [];
  browser = false;
}

browsing-context : get_context blank_driver show_error "pm-1" browsing ≡ (ok "context", browsing)
unfolding get_context lookup
browsing-context = refl

abbrev directory_made : Result (Unit {0})
directory_made = ok tt

screenshot_and_annotate-closes_example :
    (r : Result Evidence) × (w' : Manager blank_driver) × (screenshot_and_annotate blank_driver
        show_error "a1b2c3" 7 "pm-1" "https://example.com" "prices" "none" "" browsing
      ≡ (r, w'))
    × (directory_made ≡ ok tt → blank_driver-Closes.is_open w'.browser "page" ≡ false)
    × ((e : Error)
        → directory_made ≡ err e
        → (r ≡ err e) × (blank_driver-Closes.is_open w'.browser "page" ≡ true))
    × ((j : String)
        → list_evidence blank_driver show_error j w'
          ≡ trail_after r ("pm-1" == j) (list_evidence blank_driver show_error j browsing))
unfolding blank_driver-Closes
screenshot_and_annotate-closes_example =
    screenshot_and_annotate-closes blank_driver show_error blank_driver-Closes "a1b2c3" 7 "pm-1"
      "https://example.com" "prices" "none" "" browsing browsing "context" "page" true
      browsing-context refl
