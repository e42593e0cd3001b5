-- ===== src/Agents/Logging/Streams.antt =====
-- How `_drain` groups the lines of a batch.
use agentic_crew.Prelude.{
  ℕ, ◌+◌, length, length-append, String, Bool, true, false, ◌≡◌, refl, sym, ap, ◌∙◌, Option, none,
  some, List, [], ◌∷◌, ◌++◌, map, keep, Dict, lookup, ◌==◌, eq_iff, arith, append_nil, append_assoc,
  if◌then◌else◌, Bool-cases, inl, inr,
}
use agentic_crew.Agents.Logging.{Entry, Stream, value_of, file_under, group}

-- The values that a dictionary of streams has under a key.
abbrev pub values_in : Option Stream → List (ℕ × String)
values_in none = []
values_in (some s) = s.values

abbrev pub values_under : String → Dict Stream → List (ℕ × String)
values_under k d = values_in (lookup k d)

-- How many lines a dictionary of streams holds.
abbrev pub lines_in : Dict Stream → ℕ
lines_in [] = 0
lines_in ((k, s) ∷ d) = length s.values + lines_in d

hit :
    (k j : String) (s : Stream) (d : Dict Stream) → (j == k) ≡ true → lookup k ((j, s) ∷ d) ≡ some s
unfolding lookup
hit k j s d h = rw h

miss :
    (k j : String) (s : Stream) (d : Dict Stream)
    → (j == k) ≡ false
    → lookup k ((j, s) ∷ d) ≡ lookup k d
unfolding lookup
miss k j s d h = rw h

values_hit :
    (k j : String) (s : Stream) (d : Dict Stream)
    → (j == k) ≡ true
    → values_under k ((j, s) ∷ d) ≡ s.values
values_hit k j s d h = ap values_in (hit k j s d h)

values_miss :
    (k j : String) (s : Stream) (d : Dict Stream)
    → (j == k) ≡ false
    → values_under k ((j, s) ∷ d) ≡ values_under k d
values_miss k j s d h = ap values_in (miss k j s d h)

values_none : (k : String) → values_under k [] ≡ []
unfolding lookup
values_none k = refl

-- The value of an entry, where its key is the one asked for.
abbrev if_asked : Entry → Bool → List (ℕ × String)
if_asked e b = if b then value_of e ∷ [] else []

file_under-values :
    (k key : String) (e : Entry) (d : Dict Stream)
    → values_under k (file_under key e d) ≡ values_under k d ++ if_asked e (key == k)
unfolding file_under
file_under-values k key e [] = elim (Bool-cases (key == k)) [
  | inl asked ↦
      values_hit k key _ [] asked
      ∙ ap (λ b. if_asked e b) (sym asked)
      ∙ ap (λ xs. xs ++ if_asked e (key == k)) (sym (values_none k))
  | inr other ↦
      values_miss k key _ [] other
      ∙ values_none k
      ∙ ap (λ b. if_asked e b) (sym other)
      ∙ ap (λ xs. xs ++ if_asked e (key == k)) (sym (values_none k))
]
file_under-values k key e ((j, s) ∷ d) =
    let s' : Stream = record s { values = s.values ++ value_of e ∷ [] } in
    elim (Bool-cases (j == key)) [
      | inl same ↦
          let key_is : (j == k) ≡ (key == k) =
            ap (λ (t : String). t == k) ((eq_iff j key).0 same) in
          rw same (elim (Bool-cases (j == k)) [
            | inl here ↦
                values_hit k j s' d here
                ∙ ap (λ xs. xs ++ value_of e ∷ []) (sym (values_hit k j s d here))
                ∙ ap (λ b. values_under k ((j, s) ∷ d) ++ if_asked e b) (sym here ∙ key_is)
            | inr other ↦
                values_miss k j s' d other
                ∙ sym (values_miss k j s d other)
                ∙ sym (append_nil (values_under k ((j, s) ∷ d)))
                ∙ ap (λ b. values_under k ((j, s) ∷ d) ++ if_asked e b) (sym other ∙ key_is)
          ])
      | inr differ ↦ rw differ (elim (Bool-cases (j == k)) [
        | inl here ↦
            let elsewhere : (key == k) ≡ false =
              ground (arith, eq_iff key k, eq_iff j k, eq_iff j key) in
            values_hit k j s _ here
            ∙ sym (values_hit k j s d here)
            ∙ sym (append_nil (values_under k ((j, s) ∷ d)))
            ∙ ap (λ b. values_under k ((j, s) ∷ d) ++ if_asked e b) (sym elsewhere)
        | inr other ↦
            values_miss k j s _ other
            ∙ file_under-values k key e d
            ∙ ap (λ xs. xs ++ if_asked e (key == k)) (sym (values_miss k j s d other))
      ])
    ]

file_under-lines :
    (key : String) (e : Entry) (d : Dict Stream) → lines_in (file_under key e d) ≡ lines_in d + 1
unfolding file_under
file_under-lines key e [] = refl
file_under-lines key e ((j, s) ∷ d) = elim (Bool-cases (j == key)) [
  | inl same ↦ rw same (omega (arith, length-append s.values (value_of e ∷ [])))
  | inr differ ↦ rw differ (omega (arith, file_under-lines key e d))
]

module _ (key_of : Dict String → String) where
  abbrev pub lines_of : String → List Entry → List (ℕ × String)
  lines_of k es = map value_of (keep (λ e. key_of e.labels == k) es)

  group-values-from :
      (k : String) (es : List Entry) (d : Dict Stream)
      → values_under k (group key_of es d) ≡ values_under k d ++ lines_of k es
  unfolding group
  group-values-from k [] d = sym (append_nil _)
  group-values-from k (e ∷ es) d =
      group-values-from k es (file_under (key_of e.labels) e d)
      ∙ ap (λ xs. xs ++ lines_of k es) (file_under-values k (key_of e.labels) e d)
      ∙ append_assoc (values_under k d) _ (lines_of k es)
      ∙ ap (λ xs. values_under k d ++ xs) (kept (key_of e.labels == k))
    where
      kept :
          (b : Bool)
          → (if b then value_of e ∷ [] else []) ++ lines_of k es
            ≡ map value_of (
                if b
                then e ∷ keep (λ e. key_of e.labels == k) es
                else keep (λ e. key_of e.labels == k) es)
      kept true = refl
      kept false = refl

  group-lines-from :
      (es : List Entry) (d : Dict Stream) → lines_in (group key_of es d) ≡ lines_in d + length es
  unfolding group
  group-lines-from [] d = omega arith
  group-lines-from (e ∷ es) d = omega (
    arith,
    group-lines-from es (file_under (key_of e.labels) e d),
    file_under-lines (key_of e.labels) e d,
  )

  -- In what is posted for a batch, the stream of each key holds the batch's lines with that key, each
  -- with its moment and in their order, and all streams together hold as many lines as the batch.
  pub group-lines_of :
      (k : String) (es : List Entry)
      → (values_under k (group key_of es []) ≡ lines_of k es)
        × (lines_in (group key_of es []) ≡ length es)
  unfolding lookup
  group-lines_of k es = (group-values-from k es [], omega (arith, group-lines-from es []))

  -- Each stream has the labels that its key is written from.
  Labelled : Dict Stream → Type 0
  Labelled [] = Unit {0}
  Labelled ((k, s) ∷ d) = (key_of s.labels ≡ k) × Labelled d

  file_under-Labelled :
      (e : Entry) (d : Dict Stream) → Labelled d → Labelled (file_under (key_of e.labels) e d)
  unfolding file_under Labelled
  file_under-Labelled e [] h = (refl, tt)
  file_under-Labelled e ((j, s) ∷ d) (own, h) = elim (Bool-cases (j == key_of e.labels)) [
    | inl same ↦ rw same (own, h)
    | inr other ↦ rw other (own, file_under-Labelled e d h)
  ]

  group-Labelled : (es : List Entry) (d : Dict Stream) → Labelled d → Labelled (group key_of es d)
  unfolding group
  group-Labelled [] d h = h
  group-Labelled (e ∷ es) d h =
      group-Labelled es (file_under (key_of e.labels) e d) (file_under-Labelled e d h)

  lookup-Labelled :
      (k : String) (s : Stream) (d : Dict Stream)
      → Labelled d
      → lookup k d ≡ some s
      → key_of s.labels ≡ k
  unfolding Labelled lookup
  lookup-Labelled k s [] h found = cc
  lookup-Labelled k s ((j, x) ∷ d) (own, h) found = elim (Bool-cases (j == k)) [
    | inl same ↦
        let is : x ≡ s = ground (arith, same, found) in
        ap (λ (t : Stream). key_of t.labels) (sym is) ∙ own ∙ (eq_iff j k).0 same
    | inr other ↦ lookup-Labelled k s d h (ground (arith, other, found))
  ]

  -- A key with a line in what is posted for a batch is that of a stream that is posted, with labels
  -- from which the key is written.
  pub group-stream :
      (k : String) (es : List Entry) (v : ℕ × String) (xs ys : List (ℕ × String))
      → values_under k (group key_of es []) ≡ xs ++ v ∷ ys
      → (s : Stream) × (lookup k (group key_of es []) ≡ some s)
        × (s.values ≡ xs ++ v ∷ ys)
        × (key_of s.labels ≡ k)
  unfolding Labelled
  group-stream k es v xs ys h = found (lookup k (group key_of es [])) refl
    where
      nonempty : (zs : List (ℕ × String)) → ¬ ([] ≡ zs ++ v ∷ ys)
      nonempty [] e = cc
      nonempty (z ∷ zs) e = cc

      found :
          (o : Option Stream)
          → lookup k (group key_of es []) ≡ o
          → (s : Stream) × (lookup k (group key_of es []) ≡ some s)
            × (s.values ≡ xs ++ v ∷ ys)
            × (key_of s.labels ≡ k)
      found none e = absurd (nonempty xs (ap values_in (sym e) ∙ h))
      found (some s) e = (
        s,
        e,
        ap values_in (sym e) ∙ h,
        lookup-Labelled k s (group key_of es []) (group-Labelled es [] tt) e,
      )
