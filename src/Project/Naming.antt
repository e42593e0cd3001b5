-- ===== src/Project/Naming.antt =====
-- What `rename` of domain/project.py lets through: tidy names, within the limit, not the placeholder.
use Prim.Native.Char.{Char, code}
use Prim.Native.String
use text.Mathlib.TextEquality.{Char-path}
use agentic_crew.Prelude.{
  ℕ, ◌≤◌, String, Bool, false, true, not, ◌&&◌, ◌≡◌, ◌↔◌, refl, sym, ap, ◌∙◌, ◌⊎◌, inl, inr, some,
  arith, eqb, if◌then◌else◌, Bool-cases,
}
use agentic_crew.Exec.{ok}
use agentic_crew.Project.Defs.{
  Project, max_name_length, is_named, is_space, space, sub_spaces, lstrip, rstrip, is_empty,
  normalize, is_placeholder, rename,
}

-- No white space but single blanks between characters; the flag says that a blank may not follow.
abbrev pub single_spaced : Bool → String → Bool
single_spaced b String.[] = true
single_spaced b (String.◌∷◌ c s) =
    if is_space (code c)
    then not b && (eqb (code c) 32 && single_spaced true s)
    else single_spaced false s

-- The same, with no blank at the end.
abbrev pub tidy : Bool → String → Bool
tidy b String.[] = not b
tidy b (String.◌∷◌ c s) =
    if is_space (code c) then not b && (eqb (code c) 32 && tidy true s) else tidy false s

is_space-blank : is_space 32 ≡ true
unfolding is_space
is_space-blank = refl

sub_spaces-single_spaced : (b : Bool) (s : String) → single_spaced b (sub_spaces b s) ≡ true
unfolding sub_spaces
sub_spaces-single_spaced b String.[] = refl
sub_spaces-single_spaced b (String.◌∷◌ c s) =
    ground (arith, is_space-blank, sub_spaces-single_spaced (is_space (code c)) s)

lstrip-single_spaced :
    (b : Bool) (s : String) → single_spaced b s ≡ true → single_spaced true (lstrip s) ≡ true
unfolding lstrip
lstrip-single_spaced b String.[] h = refl
lstrip-single_spaced b (String.◌∷◌ c s) h = ground (arith, lstrip-single_spaced true s)

-- What `rstrip` makes of a character and of the rest, which is stripped already.
abbrev rstrip_step : Char → String → String
rstrip_step c r = if is_space (code c) && is_empty r then String.[] else String.◌∷◌ c r

abbrev EmptyOrTidy : Bool → String → Type 0
EmptyOrTidy b s = (is_empty s ≡ true) ⊎ (tidy b s ≡ true)

rstrip_step-tidy :
    (b : Bool) (c : Char) (s r : String)
    → (single_spaced true s ≡ true → EmptyOrTidy true r)
    → (single_spaced false s ≡ true → EmptyOrTidy false r)
    → single_spaced b (String.◌∷◌ c s) ≡ true
    → EmptyOrTidy b (rstrip_step c r)
unfolding is_empty
rstrip_step-tidy b c s String.[] after_blank after_char h = elim (Bool-cases (is_space (code c))) [
  | inl e ↦ inl (rw e)
  | inr e ↦ inr (rw e (rw e refl))
]
rstrip_step-tidy b c s (String.◌∷◌ d r) after_blank after_char h =
    ground (arith, after_blank, after_char)

rstrip-tidy : (b : Bool) (s : String) → single_spaced b s ≡ true → EmptyOrTidy b (rstrip s)
unfolding rstrip
rstrip-tidy b String.[] h = inl refl
rstrip-tidy b (String.◌∷◌ c s) h =
    rstrip_step-tidy b c s (rstrip s) (rstrip-tidy true s) (rstrip-tidy false s) h

normalize-tidy : (s : String) → (is_empty (normalize s) ≡ true) ⊎ (tidy true (normalize s) ≡ true)
unfolding normalize
normalize-tidy s =
    rstrip-tidy true (lstrip (sub_spaces false s))
      (lstrip-single_spaced false (sub_spaces false s) (sub_spaces-single_spaced false s))

-- A text that is tidy already is left alone.
sub_spaces-fixed : (b : Bool) (s : String) → tidy b s ≡ true → sub_spaces b s ≡ s
unfolding sub_spaces
sub_spaces-fixed b String.[] h = refl
sub_spaces-fixed b (String.◌∷◌ c s) h =
    ground (arith, Char-path c space, sub_spaces-fixed true s, sub_spaces-fixed false s)

lstrip-fixed : (s : String) → tidy true s ≡ true → lstrip s ≡ s
unfolding lstrip
lstrip-fixed String.[] h = refl
lstrip-fixed (String.◌∷◌ c s) h = ground arith

rstrip_step-fixed :
    (b : Bool) (c : Char) (s : String)
    → tidy b (String.◌∷◌ c s) ≡ true
    → rstrip_step c s ≡ String.◌∷◌ c s
unfolding is_empty
rstrip_step-fixed b c String.[] h = ground arith
rstrip_step-fixed b c (String.◌∷◌ d s) h = ground arith

rstrip-fixed : (b : Bool) (s : String) → tidy b s ≡ true → rstrip s ≡ s
unfolding rstrip
rstrip-fixed b String.[] h = refl
rstrip-fixed b (String.◌∷◌ c s) h = elim (Bool-cases (is_space (code c))) [
  | inl e ↦ ap (rstrip_step c) (rstrip-fixed true s (ground arith)) ∙ rstrip_step-fixed b c s h
  | inr e ↦ ap (rstrip_step c) (rstrip-fixed false s (ground arith)) ∙ rstrip_step-fixed b c s h
]

tidy-false : (s : String) → tidy true s ≡ true → tidy false s ≡ true
tidy-false String.[] h = refl
tidy-false (String.◌∷◌ c s) h = ground arith

normalize-fixed : (s : String) → tidy true s ≡ true → normalize s ≡ s
unfolding normalize
normalize-fixed s h =
    rw (sub_spaces-fixed false s (tidy-false s h), lstrip-fixed s h) (rstrip-fixed true s h)

-- Nothing but white space.
abbrev pub blank : String → Bool
blank String.[] = true
blank (String.◌∷◌ c s) = is_space (code c) && blank s

blank-sub_spaces : (b : Bool) (s : String) → blank (sub_spaces b s) ≡ blank s
unfolding sub_spaces
blank-sub_spaces b String.[] = refl
blank-sub_spaces b (String.◌∷◌ c s) =
    ground (arith, is_space-blank, blank-sub_spaces (is_space (code c)) s)

blank-lstrip : (s : String) → blank (lstrip s) ≡ blank s
unfolding lstrip
blank-lstrip String.[] = refl
blank-lstrip (String.◌∷◌ c s) = ground (arith, blank-lstrip s)

is_empty-rstrip : (s : String) → is_empty (rstrip s) ≡ blank s
unfolding rstrip
is_empty-rstrip String.[] = refl
is_empty-rstrip (String.◌∷◌ c s) = elim (Bool-cases (is_space (code c) && is_empty (rstrip s))) [
  | inl e ↦ rw (e, rstrip) (rw (is_empty-rstrip s) at (sym e))
  | inr e ↦ rw (e, rstrip) (rw (is_empty-rstrip s) at (sym e))
]

is_empty-normalize : (s : String) → is_empty (normalize s) ≡ blank s
unfolding normalize
is_empty-normalize s =
    is_empty-rstrip (lstrip (sub_spaces false s))
    ∙ blank-lstrip (sub_spaces false s)
    ∙ blank-sub_spaces false s

-- A name that the project ends up with: tidy, within the limit, and not the placeholder.
pub record IsName (name : String) : Type 0 where
  pub tidy_name : tidy true name ≡ true
  pub fits : String.count name ≤ max_name_length
  pub chosen : is_placeholder name ≡ false

-- `rename` succeeds exactly when the proposal has a character that is no white space, and its
-- normal form has at most 60 characters and is not the placeholder in any case of its letters.
pub rename-ok_iff :
    (p : Project) (proposed : String) (now : ℕ)
    → ((q : Project) × (rename p proposed now ≡ ok q)) ↔ (
        (blank proposed ≡ false)
        × (String.count (normalize proposed) ≤ max_name_length)
        × (is_placeholder (normalize proposed) ≡ false))
unfolding rename
rename-ok_iff p proposed now = (
  λ h. ground (arith, h.1, is_empty-normalize proposed),
  λ h. (
    record p { name = normalize proposed; renamed_at = some now },
    ground (arith, is_empty-normalize proposed),
  ),
)

-- A renamed project has a name that is non-empty, trimmed, single-spaced, at most 60 characters
-- long and not the placeholder, counts as named, and is otherwise what it was.
pub rename-IsName :
    (p : Project) (proposed : String) (now : ℕ) (q : Project)
    → rename p proposed now ≡ ok q
    → IsName q.name
      × (is_named q ≡ true)
      × (q ≡ record p { name = normalize proposed; renamed_at = some now })
unfolding rename is_named
rename-IsName p proposed now q h = ground (arith, normalize-tidy proposed)

-- The name of a renamed project is accepted again as it stands.
pub rename_again :
    (p : Project) (proposed : String) (now later : ℕ) (q : Project)
    → rename p proposed now ≡ ok q
    → rename q q.name later ≡ ok (record q { renamed_at = some later })
rename_again p proposed now later q h =
    let (name, _, _) = rename-IsName p proposed now q h in
    let fixed = normalize-fixed q.name name.tidy_name in
    unfold rename in ground (arith, fixed, name)
