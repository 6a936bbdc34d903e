-- ===== src/Rag/Spacing.antt =====
-- White space in the contents that packages/rag/src/context-assembly.ts compares: `replace(/\s+/gu, ' ')` and
-- `trim` against a description that reads the words of a text one after the other.
use mathlib.Core.List.{reverse, reverse-cons, reverse-append}
use tech_p.Base.{
  ℕ, ◌≡◌, refl, ◌∙◌, ap, Bool, true, false, not, ◌&&◌, [], ◌∷◌, ◌++◌, if◌then◌else◌, Bool-cases,
  inl, inr, Text, is_space, trim, trim_start,
}
use tech_p.Rag.Context.{collapse_spaces}

abbrev pub has_some : Text → Bool
has_some [] = false
has_some (c ∷ s) = true

-- The words of a text with one space between two of them: a space stands only behind a word and before another.
unfoldable pub spaced : Bool → Text → Text
spaced in_word [] = []
spaced in_word (c ∷ s) =
    let next = spaced false s in
    let more = spaced true s in
    if is_space c then (if in_word && has_some next then 32 ∷ next else next) else c ∷ more

trim_end : Text → Text
trim_end s = reverse (trim_start (reverse s))

-- White space before the end of a text goes on only if nothing else stands there.
trim_start-snoc :
    (s : Text) (c : ℕ)
    → trim_start (s ++ c ∷ []) ≡ (
        if has_some (trim_start s)
        then trim_start s ++ c ∷ []
        else (if is_space c then [] else c ∷ []))
unfolding trim_start
trim_start-snoc [] c = refl
trim_start-snoc (d ∷ s) c = elim (Bool-cases (is_space d)) [
  | inl blank ↦ rw blank (trim_start-snoc s c)
  | inr mark ↦ rw mark refl
]

has_some-snoc : (s : Text) (c : ℕ) → has_some (s ++ c ∷ []) ≡ true
has_some-snoc [] c = refl
has_some-snoc (d ∷ s) c = refl

has_some-reverse : (s : Text) → has_some (reverse s) ≡ has_some s
has_some-reverse [] = refl
has_some-reverse (c ∷ s) = ap has_some (reverse-cons c s) ∙ has_some-snoc (reverse s) c

none_left : (s : Text) → has_some s ≡ false → s ≡ []
none_left [] h = refl
none_left (c ∷ s) h = absurd cc

trim_end-cons :
    (c : ℕ) (s : Text)
    → trim_end (c ∷ s)
      ≡ (if has_some (trim_end s) then c ∷ trim_end s else (if is_space c then [] else c ∷ []))
unfolding trim_end
trim_end-cons c s =
    ap (λ t. reverse (trim_start t)) (reverse-cons c s)
    ∙ (ap reverse (trim_start-snoc (reverse s) c) ∙ go (trim_start (reverse s)))
  where
    go :
        (t : Text)
        → reverse (if has_some t then t ++ c ∷ [] else (if is_space c then [] else c ∷ []))
          ≡ (if has_some (reverse t) then c ∷ reverse t else (if is_space c then [] else c ∷ []))
    go [] = elim (Bool-cases (is_space c)) [ inl blank ↦ rw blank refl | inr mark ↦ rw mark refl ]
    go (d ∷ t) = reverse-append (d ∷ t) (c ∷ []) ∙ rw (has_some-reverse (d ∷ t)) refl

word :
    (c : ℕ) (s : Text)
    → is_space c ≡ false
    → trim_end (collapse_spaces false s) ≡ spaced true s
    → trim_end (c ∷ collapse_spaces false s) ≡ c ∷ spaced true s
word c s mark rest =
    trim_end-cons c (collapse_spaces false s) ∙ go (trim_end (collapse_spaces false s)) rest
  where
    go :
        (t : Text)
        → t ≡ spaced true s
        → (if has_some t then c ∷ t else (if is_space c then [] else c ∷ [])) ≡ c ∷ spaced true s
    go [] e = rw mark (ap (λ (u : Text). c ∷ u) e)
    go (d ∷ t) e = ap (λ (u : Text). c ∷ u) e

gap :
    (s : Text)
    → trim_end (collapse_spaces true s) ≡ spaced false s
    → trim_end (32 ∷ collapse_spaces true s)
      ≡ (if has_some (spaced false s) then 32 ∷ spaced false s else spaced false s)
unfolding is_space
gap s rest =
    trim_end-cons 32 (collapse_spaces true s)
    ∙ (ap (λ (t : Text). if has_some t then 32 ∷ t else []) rest ∙ go (spaced false s))
  where
    go : (t : Text) → (if has_some t then 32 ∷ t else []) ≡ (if has_some t then 32 ∷ t else t)
    go [] = refl
    go (d ∷ t) = refl

trim_end-collapse :
    (in_word : Bool) (s : Text) → trim_end (collapse_spaces (not in_word) s) ≡ spaced in_word s
unfolding trim_end collapse_spaces spaced trim_start
trim_end-collapse in_word [] = refl
trim_end-collapse false (c ∷ s) = elim (Bool-cases (is_space c)) [
  | inl blank ↦ rw blank (trim_end-collapse false s)
  | inr mark ↦ rw mark (word c s mark (trim_end-collapse true s))
]
trim_end-collapse true (c ∷ s) = elim (Bool-cases (is_space c)) [
  | inl blank ↦ rw blank (gap s (trim_end-collapse false s))
  | inr mark ↦ rw mark (word c s mark (trim_end-collapse true s))
]

-- What starts behind white space starts with none.
trim_start-collapse : (s : Text) → trim_start (collapse_spaces true s) ≡ collapse_spaces true s
unfolding trim_start collapse_spaces
trim_start-collapse [] = refl
trim_start-collapse (c ∷ s) = elim (Bool-cases (is_space c)) [
  | inl blank ↦ rw blank (trim_start-collapse s)
  | inr mark ↦ rw (mark, mark) refl
]

trim_start-first : (s : Text) → trim_start (collapse_spaces false s) ≡ collapse_spaces true s
unfolding trim_start collapse_spaces is_space
trim_start-first [] = refl
trim_start-first (c ∷ s) = elim (Bool-cases (is_space c)) [
  | inl blank ↦ rw blank (trim_start-collapse s)
  | inr mark ↦ rw (mark, mark) refl
]

pub trim-collapse_spaces : (s : Text) → trim (collapse_spaces false s) ≡ spaced false s
unfolding trim trim_end
trim-collapse_spaces s =
    ap (λ t. reverse (trim_start (reverse t))) (trim_start-first s) ∙ trim_end-collapse false s
