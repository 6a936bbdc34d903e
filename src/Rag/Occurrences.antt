-- ===== src/Rag/Occurrences.antt =====
-- extractCitationIds of packages/rag/src/answer-validation.ts against what is written in the text.
use mathlib.Core.Path.{subst}
use tech_p.Base.{
  ℕ, ◌≡◌, refl, sym, ◌∙◌, ap, inl, inr, ◌↔◌, true, false, ◌&&◌, ◌||◌, Option, none, some, List, [],
  ◌∷◌, ◌++◌, arith, ◌==◌, Bool-cases, Option-cases, any, all, some_injective, Text, eq_text,
  eq_text_iff, eq_text_refl, eq_text_sym,
}
use tech_p.Rag.Citations.{
  is_digit, digits_closed, id_of, match_at, cons_some, matches, has_text, distinct,
  extract_citation_ids,
}

-- `C` and at least one digit.
abbrev pub IsCitation : Text → Type 0
IsCitation id = (d : ℕ) × (ds : Text) × (id ≡ b'C' ∷ d ∷ ds) × (all is_digit (d ∷ ds) ≡ true)

-- `[id]` is written somewhere in the text.
abbrev pub Written : Text → Text → Type 0
Written id text =
    (before : Text) × (behind : Text) × (text ≡ before ++ b'[' ∷ (id ++ b']' ∷ behind))

digits_closed_sound :
    (s ds : Text)
    → digits_closed s ≡ some ds
    → (behind : Text) × (s ≡ ds ++ b']' ∷ behind) × (all is_digit ds ≡ true)
unfolding digits_closed all
digits_closed_sound [] ds e = cc
digits_closed_sound (c ∷ s) ds e = elim (Bool-cases (c == b']')) [
  | inl shut ↦
      let none_left : [] ≡ ds = some_injective (rw shut at e) in
      (s, ground arith, ap (all is_digit) (sym none_left))
  | inr open_still ↦ elim (Bool-cases (is_digit c)) [
    | inr other ↦ let no : none ≡ some ds = rw (open_still, other) at e in cc
    | inl digit ↦ elim (Option-cases (digits_closed s)) [
      | inl unclosed ↦ let no : none ≡ some ds = rw (open_still, digit, unclosed) at e in cc
      | inr (more, f) ↦
          let (behind, split, digits) = digits_closed_sound s more f in
          let this : c ∷ more ≡ ds = some_injective (rw (open_still, digit, f) at e) in
          (
            behind,
            ap (λ t. c ∷ t) split ∙ ap (λ t. t ++ b']' ∷ behind) this,
            sym (ap (all is_digit) this) ∙ rw digit digits,
          )
    ]
  ]
]

digits_closed_complete :
    (ds behind : Text) → all is_digit ds ≡ true → digits_closed (ds ++ b']' ∷ behind) ≡ some ds
unfolding digits_closed all
digits_closed_complete [] behind h = refl
digits_closed_complete (d ∷ ds) behind h = ground (arith, digits_closed_complete ds behind)

-- A match at the start of a text is a citation that is written there.
match_at_sound :
    (t id : Text)
    → match_at t ≡ some id
    → (behind : Text) × (t ≡ b'[' ∷ (id ++ b']' ∷ behind)) × IsCitation id
unfolding match_at
match_at_sound [] id e = cc
match_at_sound (a ∷ []) id e = cc
match_at_sound (a ∷ b ∷ s) id e = elim (Bool-cases (a == b'[' && b == b'C')) [
  | inr other ↦ let no : none ≡ some id = rw other at e in cc
  | inl opened ↦ named opened (digits_closed s) refl (rw opened at e)
]
  where
    named :
        a == b'[' && b == b'C' ≡ true
        → (o : Option Text) → digits_closed s ≡ o
        → id_of o ≡ some id
        → (behind : Text) × (a ∷ b ∷ s ≡ b'[' ∷ (id ++ b']' ∷ behind)) × IsCitation id
    named opened none f g = cc
    named opened (some []) f g = cc
    named opened (some (d ∷ ds)) f g =
        let (behind, split, digits) = digits_closed_sound s (d ∷ ds) f in
        let this : b'C' ∷ d ∷ ds ≡ id = some_injective g in
        (
          behind,
          subst (λ i. a ∷ b ∷ s ≡ b'[' ∷ (i ++ b']' ∷ behind)) this (ground (arith, split)),
          (d, ds, sym this, digits),
        )

match_at_complete :
    (id behind : Text) → IsCitation id → match_at (b'[' ∷ (id ++ b']' ∷ behind)) ≡ some id
unfolding match_at
match_at_complete id behind (d, ds, named, digits) =
    subst (λ t. match_at (b'[' ∷ (t ++ b']' ∷ behind)) ≡ some t) (sym named)
      (ap id_of (digits_closed_complete (d ∷ ds) behind digits))

has_text-append :
    (t : Text) (xs ys : List Text) → has_text t (xs ++ ys) ≡ (has_text t xs || has_text t ys)
unfolding any
has_text-append t [] ys = refl
has_text-append t (x ∷ xs) ys = ground (arith, has_text-append t xs ys)

matches_sound :
    (text id : Text) → has_text id (matches text) ≡ true → IsCitation id × Written id text
unfolding matches any
matches_sound [] id e = cc
matches_sound (c ∷ s) id e = here (λ h. matches_sound s id h) (match_at (c ∷ s)) refl e
  where
    later : IsCitation id × Written id s → IsCitation id × Written id (c ∷ s)
    later both =
        let (cited, written) = both in
        (cited, (c ∷ written.0, written.1, ap (λ t. c ∷ t) written.2))

    here :
        (has_text id (matches s) ≡ true → IsCitation id × Written id s)
        → (o : Option Text) → match_at (c ∷ s) ≡ o
        → has_text id (cons_some o (matches s)) ≡ true
        → IsCitation id × Written id (c ∷ s)
    here rest none f h = later (rest h)
    here rest (some x) f h = elim (Bool-cases (eq_text x id)) [
      | inr other ↦ later (rest (rw other at h))
      | inl this ↦
          let (behind, split, cited) = match_at_sound (c ∷ s) x f in
          let same = (eq_text_iff x id).0 this in
          (
            subst IsCitation same cited,
            ([], behind, subst (λ i. c ∷ s ≡ b'[' ∷ (i ++ b']' ∷ behind)) same split),
          )
    ]

has_text-cons_some :
    (t : Text) (o : Option Text) (ids : List Text)
    → has_text t ids ≡ true
    → has_text t (cons_some o ids) ≡ true
unfolding any
has_text-cons_some t none ids h = h
has_text-cons_some t (some x) ids h = ground arith

matches_complete :
    (before : Text) (id behind : Text)
    → IsCitation id
    → has_text id (matches (before ++ b'[' ∷ (id ++ b']' ∷ behind))) ≡ true
unfolding matches any
matches_complete [] id behind cited =
    subst (λ o. has_text id (cons_some o (matches (id ++ b']' ∷ behind))) ≡ true)
      (sym (match_at_complete id behind cited)) (rw (eq_text_refl id) refl)
matches_complete (c ∷ before) id behind cited =
    has_text-cons_some id (match_at (c ∷ (before ++ b'[' ∷ (id ++ b']' ∷ behind)))) _
      (matches_complete before id behind cited)

same_text :
    (id t : Text) (seen : List Text) → has_text id seen ≡ true → id ≡ t → has_text t seen ≡ true
same_text id t seen h e = ap (λ u. has_text u seen) (sym e) ∙ h

distinct-has_text :
    (t : Text) (seen ids : List Text)
    → has_text t (distinct seen ids) ≡ (has_text t seen || has_text t ids)
unfolding distinct any
distinct-has_text t seen [] = ground arith
distinct-has_text t seen (id ∷ ids) = elim (Bool-cases (has_text id seen)) [
  | inl old ↦
      rw (old, distinct)
        (distinct-has_text t seen ids ∙ ground (arith, eq_text_iff id t, same_text id t seen old))
  | inr new ↦
      rw (new, distinct)
        (distinct-has_text t (seen ++ id ∷ []) ids
          ∙ ground (arith, has_text-append t seen (id ∷ [])))
]

-- No id is in the list twice.
abbrev pub NoRepeats : List Text → Type 0
NoRepeats [] = Unit
NoRepeats (t ∷ ts) = (has_text t ts ≡ false) × NoRepeats ts

NoRepeats-append :
    (ts : List Text) (t : Text) → NoRepeats ts → has_text t ts ≡ false → NoRepeats (ts ++ t ∷ [])
unfolding any
NoRepeats-append [] t h new = (refl, tt)
NoRepeats-append (x ∷ xs) t h new = (
  ground (arith, has_text-append x xs (t ∷ []), eq_text_sym x t),
  NoRepeats-append xs t h.1 (ground arith),
)

distinct-NoRepeats : (seen ids : List Text) → NoRepeats seen → NoRepeats (distinct seen ids)
unfolding distinct
distinct-NoRepeats seen [] h = h
distinct-NoRepeats seen (id ∷ ids) h = elim (Bool-cases (has_text id seen)) [
  | inl old ↦ rw (old, distinct) (distinct-NoRepeats seen ids h)
  | inr new ↦
      rw (new, distinct) (distinct-NoRepeats (seen ++ id ∷ []) ids (NoRepeats-append seen id h new))
]

-- The ids that are extracted from an answer are exactly those, of the letter C and at least one digit, that
-- are written in it between brackets, and each is extracted once.
pub extract_citation_ids_complete :
    (text : Text)
    → ((id : Text)
        → (has_text id (extract_citation_ids text) ≡ true) ↔ (IsCitation id × Written id text))
      × NoRepeats (extract_citation_ids text)
unfolding extract_citation_ids any
extract_citation_ids_complete text = (
  λ id.
      let same = distinct-has_text id [] (matches text) in
      (λ h. matches_sound text id (sym same ∙ h), λ both. same ∙ found id both.0 both.1),
  distinct-NoRepeats [] (matches text) tt,
)
  where
    found : (id : Text) → IsCitation id → Written id text → has_text id (matches text) ≡ true
    found id cited written =
        ap (λ t. has_text id (matches t)) written.2 ∙ matches_complete written.0 id written.1 cited
