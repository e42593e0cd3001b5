-- ===== src/Agents/Gate/Shown.antt =====
-- Which tools a model is shown, after any calls of tools.
use agentic_crew.Prelude.{
  String, Bool, false, not, ◌&&◌, ◌||◌, ◌≡◌, refl, ap, Option, some, List, [], ◌∷◌, ◌++◌, inl, inr,
  contains, ◌==◌, eq_iff, if◌then◌else◌, Bool-cases, arith,
}
use agentic_crew.Exec.{Result, ok, err}
use agentic_crew.Contract.Value.{Value}
use agentic_crew.Agents.Gate.{
  trigger_tool, minus, allowed_tools_in, Call, reads_skill, add_all, after_call, wrap_tool_call,
  run, gated_names, claimed, shows,
}

contains-append :
    (n : String) (xs ys : List String) → contains n (xs ++ ys) ≡ (contains n xs || contains n ys)
unfolding contains
contains-append n [] ys = refl
contains-append n (x ∷ xs) ys = ground (arith, contains-append n xs ys)

contains-minus :
    (n : String) (xs ys : List String)
    → contains n (minus xs ys) ≡ (contains n xs && not (contains n ys))
unfolding contains
contains-minus n [] ys = refl
contains-minus n (x ∷ xs) ys = elim (Bool-cases (x == n)) [
  | inl same ↦
      let own : contains x ys ≡ contains n ys = ap (λ a. contains a ys) ((eq_iff x n).0 same) in
      ground (arith, contains-minus n xs ys, own)
  | inr other ↦ ground (arith, contains-minus n xs ys)
]

module _ (front_matter : String → Option String) (safe_load : String → Option Value)
    (show : Value → String) where
  abbrev names_of : Result (List String) → List String
  names_of (ok names) = names
  names_of (err e) = []

  -- The names that a call declares: it has read a skill, the reading succeeded, and the skill
  -- can be understood.
  abbrev declared_of : Call → Result String → List String
  declared_of c (err e) = []
  declared_of c (ok content) =
      if reads_skill c then names_of (allowed_tools_in front_matter safe_load show content) else []

  abbrev pub declared_by : Call → List String
  declared_by c = declared_of c c.result

  abbrev pub any_declares : String → List (Call) → Bool
  any_declares n [] = false
  any_declares n (c ∷ cs) = contains n (declared_by c) || any_declares n cs

  contains-add_all :
      (n content : String) (u : List String) (r : Result (List String))
      → contains n (add_all front_matter safe_load show u r content).1
        ≡ (contains n u || contains n (names_of r))
  unfolding contains
  contains-add_all n content u (err e) = ground arith
  contains-add_all n content u (ok names) =
      ground (arith, contains-append n u (minus names u), contains-minus n names u)

  contains-after_call :
      (n : String) (u : List String) (c : Call) (r : Result String)
      → contains n (after_call front_matter safe_load show c r u).1
        ≡ (contains n u || contains n (declared_of c r))
  unfolding after_call contains
  contains-after_call n u c (err e) = ground arith
  contains-after_call n u c (ok content) = elim (Bool-cases (reads_skill c)) [
    | inl reads ↦
        rw reads
          (contains-add_all n content u (allowed_tools_in front_matter safe_load show content))
    | inr other ↦ rw other (ground arith)
  ]

  contains-wrap_tool_call :
      (n : String) (u : List String) (c : Call)
      → contains n (wrap_tool_call front_matter safe_load show c u).1
        ≡ (contains n u || contains n (declared_by c))
  unfolding wrap_tool_call
  contains-wrap_tool_call n u c = contains-after_call n u c c.result

  contains-run :
      (n : String) (u : List String) (cs : List (Call))
      → contains n (run front_matter safe_load show cs u) ≡ (contains n u || any_declares n cs)
  unfolding run contains
  contains-run n u [] = ground arith
  contains-run n u (c ∷ cs) = ground (
    arith,
    contains-run n (wrap_tool_call front_matter safe_load show c u).1 cs,
    contains-wrap_tool_call n u c,
  )

  -- After any calls of tools, of which some may have failed, a tool is shown to the model exactly
  -- where no skill claims it, or the harness supplies it, or one of the calls has read a skill
  -- that declares it.
  pub run-shows :
      (harness : List String) (skills : List (List String)) (name : String) (cs : List (Call))
      → shows harness skills (run front_matter safe_load show cs []) (some name) ≡ (
          not (contains name (claimed skills))
          || contains name (trigger_tool ∷ harness)
          || any_declares name cs)
  unfolding gated_names contains
  run-shows harness skills name cs =
      let unlocked = run front_matter safe_load show cs [] in
      ground (
        arith,
        contains-minus name (gated_names harness skills) unlocked,
        contains-minus name (claimed skills) (trigger_tool ∷ harness),
        contains-run name [] cs,
      )
