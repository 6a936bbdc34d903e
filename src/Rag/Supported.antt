-- ===== src/Rag/Supported.antt =====
-- When validateAnswerDraft of packages/rag/src/answer-validation.ts accepts an answer.
use tech_p.Base.{
  ℕ, ◌≤◌, ◌<◌, ◌≡◌, ◌≢◌, refl, sym, ◌∙◌, ap, inl, inr, ◌↔◌, Bool, true, false, not, ◌&&◌, Option,
  none, some, List, [], ◌∷◌, ◌++◌, arith, if◌then◌else◌, Bool-cases, All, Date, at, Text,
  starts_with, includes,
}
use tech_p.Rag.Citations.{extract_citation_ids}
use tech_p.Rag.Drafts.{
  ContextChunk, TimeRange, Reason, DraftInput, is_inside_range, not_after, is_before, excerpt_of,
  is_empty, chunk_for, range_reasons, excerpt_reasons, chunk_reasons, all_reasons, has_none,
  citation_reasons, validate_answer_draft,
}

-- The excerpt stands in the content, word for word.
abbrev pub Quotes : Text → Text → Type 0
Quotes content excerpt =
    (before : Text) × (behind : Text) × (content ≡ before ++ (excerpt ++ behind))

starts_with_sound : (p s : Text) → starts_with p s ≡ true → (behind : Text) × (s ≡ p ++ behind)
unfolding starts_with
starts_with_sound [] s h = (s, refl)
starts_with_sound (c ∷ p) [] h = cc
starts_with_sound (c ∷ p) (d ∷ s) h =
    let (behind, e) = starts_with_sound p s (ground arith) in (behind, ground arith)

starts_with_complete : (p behind : Text) → starts_with p (p ++ behind) ≡ true
unfolding starts_with
starts_with_complete [] behind = refl
starts_with_complete (c ∷ p) behind = ground (arith, starts_with_complete p behind)

includes-Quotes : (s p : Text) → includes s p ≡ true → Quotes s p
unfolding includes
includes-Quotes [] p h = let (behind, e) = starts_with_sound p [] h in ([], behind, e)
includes-Quotes (c ∷ s) p h = elim (Bool-cases (starts_with p (c ∷ s))) [
  | inl here ↦ let (behind, e) = starts_with_sound p (c ∷ s) here in ([], behind, e)
  | inr later ↦
      let (before, behind, e) = includes-Quotes s p (ground arith) in
      (c ∷ before, behind, ap (λ t. c ∷ t) e)
]

Quotes-includes : (before p behind : Text) → includes (before ++ (p ++ behind)) p ≡ true
unfolding includes
Quotes-includes [] p behind = at_start (p ++ behind) (starts_with_complete p behind)
  where
    at_start : (s : Text) → starts_with p s ≡ true → includes s p ≡ true
    at_start [] h = h
    at_start (c ∷ s) h = rw h refl
Quotes-includes (c ∷ before) p behind = ground (arith, Quotes-includes before p behind)

-- A date that is given is valid and lies in the range, whose end is not in it.
abbrev pub Bounds : Date → Date → ℕ → Type 0
Bounds (at f) (at u) t = (f ≤ t) × (t < u)
Bounds _ _ t = ⊥

abbrev pub Within : TimeRange → Option Date → Type 0
Within range none = Unit
Within range (some (at t)) = Bounds range.from range.until t
Within range (some Date.invalid) = ⊥

inside-Bounds :
    (f u : Date) (t : ℕ) → (not_after f (at t) && is_before (at t) u ≡ true) ↔ Bounds f u t
inside-Bounds (at f) (at u) t = (λ h. ground arith, λ h. ground arith)
inside-Bounds (at f) Date.invalid t = (λ h. ground arith, λ h. absurd h)
inside-Bounds Date.invalid (at u) t = (λ h. cc, λ h. absurd h)
inside-Bounds Date.invalid Date.invalid t = (λ h. cc, λ h. absurd h)

is_inside_range_iff :
    (date : Option Date) (range : TimeRange)
    → (is_inside_range date range ≡ true) ↔ Within range date
unfolding is_inside_range
is_inside_range_iff none range = (λ h. tt, λ h. refl)
is_inside_range_iff (some (at t)) range = inside-Bounds range.from range.until t
is_inside_range_iff (some Date.invalid) range = (λ h. no_date range.from h, λ h. absurd h)
  where
    no_date : (f : Date) → not_after f Date.invalid && is_before Date.invalid range.until ≡ true → ⊥
    no_date (at f) h = cc
    no_date Date.invalid h = cc

-- What a citation needs: a chunk of its key, published in the range where that is asked for, and quoted
-- where it may only be quoted.
abbrev pub Supports : DraftInput → Text → Type 0
Supports input key =
    (chunk : ContextChunk) × (chunk_for key input.chunks_by_citation ≡ some chunk)
    × (input.enforce_time_range ≡ true → Within input.range chunk.published_at)
    × (chunk.is_verbatim_only ≡ true
        → excerpt_of chunk ≢ []
        → Quotes input.content (excerpt_of chunk))

has_none-append : (xs ys : List Reason) → has_none (xs ++ ys) ≡ (has_none xs && has_none ys)
has_none-append [] ys = refl
has_none-append (x ∷ xs) ys = refl

range_reasons_iff :
    (input : DraftInput) (key : Text) (chunk : ContextChunk)
    → (has_none (range_reasons input key chunk) ≡ true)
      ↔ (input.enforce_time_range ≡ true → Within input.range chunk.published_at)
unfolding range_reasons
range_reasons_iff input key chunk = (
  λ h asked. (is_inside_range_iff chunk.published_at input.range).0 (ground arith),
  λ h. elim (Bool-cases input.enforce_time_range) [
    | inl asked ↦
        let inside = (is_inside_range_iff chunk.published_at input.range).1 (h asked) in
        ground arith
    | inr free ↦ ground arith
  ],
)

quoted_iff :
    (content excerpt : Text) (only : Bool) (r : Reason)
    → (has_none (
          if only && (not (is_empty excerpt) && not (includes content excerpt)) then r ∷ [] else [])
        ≡ true)
      ↔ (only ≡ true → excerpt ≢ [] → Quotes content excerpt)
quoted_iff content [] false r = (λ h only some_text. cc, λ h. refl)
quoted_iff content (c ∷ e) false r = (λ h only some_text. cc, λ h. refl)
quoted_iff content [] true r = (λ h only some_text. absurd (some_text refl), λ h. refl)
quoted_iff content (c ∷ e) true r = (
  λ h only some_text. includes-Quotes content (c ∷ e) (ground arith),
  λ h.
      let (before, behind, split) = h refl (λ no. cc) in
      let there : includes content (c ∷ e) ≡ true =
        ap (λ t. includes t (c ∷ e)) split ∙ Quotes-includes before (c ∷ e) behind in
      ground arith,
)

excerpt_reasons_iff :
    (input : DraftInput) (key : Text) (chunk : ContextChunk)
    → (has_none (excerpt_reasons input key chunk) ≡ true) ↔ (
        chunk.is_verbatim_only ≡ true
        → excerpt_of chunk ≢ []
        → Quotes input.content (excerpt_of chunk))
unfolding excerpt_reasons
excerpt_reasons_iff input key chunk =
    quoted_iff input.content (excerpt_of chunk) chunk.is_verbatim_only
      (Reason.verbatim_excerpt_missing key)

chunk_reasons_sound :
    (input : DraftInput) (key : Text) (o : Option ContextChunk)
    → chunk_for key input.chunks_by_citation ≡ o
    → has_none (chunk_reasons input key o) ≡ true
    → Supports input key
unfolding chunk_reasons
chunk_reasons_sound input key none f h = cc
chunk_reasons_sound input key (some chunk) f h =
    let both =
      sym (has_none-append (range_reasons input key chunk) (excerpt_reasons input key chunk)) ∙ h in
    (
      chunk,
      f,
      (range_reasons_iff input key chunk).0 (ground arith),
      (excerpt_reasons_iff input key chunk).0 (ground arith),
    )

chunk_reasons_complete :
    (input : DraftInput) (key : Text)
    → Supports input key
    → has_none (chunk_reasons input key (chunk_for key input.chunks_by_citation)) ≡ true
unfolding chunk_reasons
chunk_reasons_complete input key (chunk, f, in_range, quoted) =
    let first = (range_reasons_iff input key chunk).1 in_range in
    let second = (excerpt_reasons_iff input key chunk).1 quoted in
    rw f (
      has_none-append (range_reasons input key chunk) (excerpt_reasons input key chunk)
      ∙ rw (first, second) refl)

all_reasons_iff :
    (input : DraftInput) (keys : List Text)
    → (has_none (all_reasons input keys) ≡ true) ↔ All (Supports input) keys
unfolding all_reasons
all_reasons_iff input [] = (λ h. tt, λ h. refl)
all_reasons_iff input (key ∷ keys) =
    let rest = all_reasons_iff input keys in
    let reasons = chunk_reasons input key (chunk_for key input.chunks_by_citation) in
    let split = has_none-append reasons (all_reasons input keys) in
    (
      λ h.
          let both = sym split ∙ h in
          (chunk_reasons_sound input key _ refl (ground arith), rest.0 (ground arith)),
      λ h.
          let first = chunk_reasons_complete input key h.0 in
          let others = rest.1 h.1 in split ∙ rw (first, others) refl,
    )

-- An answer is valid exactly when it cites something and each id that it cites has a chunk, whose date, if
-- it has one and the range is enforced, is valid and lies in the range, and whose excerpt, if the chunk
-- may only be quoted and has one, stands in the answer word for word.
pub validate_answer_draft_iff :
    (input : DraftInput)
    → ((validate_answer_draft input).valid ≡ true) ↔ (
        (extract_citation_ids input.content ≢ [])
        × All (Supports input) (extract_citation_ids input.content))
unfolding validate_answer_draft citation_reasons
validate_answer_draft_iff input = go (extract_citation_ids input.content)
  where
    go :
        (keys : List Text)
        → (has_none (citation_reasons input keys) ≡ true)
          ↔ ((keys ≢ []) × All (Supports input) keys)
    go [] = (λ h. cc, λ h. absurd (h.0 refl))
    go (key ∷ keys) =
        let each = all_reasons_iff input (key ∷ keys) in
        (λ h. (λ no. cc, each.0 h), λ h. each.1 h.1)
