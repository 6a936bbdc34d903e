-- ===== src/Rag/Drafts.antt =====
-- validateAnswerDraft of packages/rag/src/answer-validation.ts.
use tech_p.Base.{
  ℕ, suc, Bool, true, false, not, ◌&&◌, Option, none, some, List, [], ◌∷◌, ◌++◌, if◌then◌else◌, leb,
  ltb, Date, at, Text, eq_text, trim, includes,
}
use tech_p.Rag.Citations.{extract_citation_ids}

-- ResolvedContextChunk, as far as it is read here.
pub record ContextChunk : Type 0 where
  pub content : Text
  pub published_at : Option Date
  pub is_verbatim_only : Bool

pub record TimeRange : Type 0 where
  pub from : Date
  pub until : Date

pub data Reason : Type 0 where
  missing_citation : Reason
  unknown_citation out_of_range_citation verbatim_excerpt_missing : Text → Reason

pub record DraftInput : Type 0 where
  pub content : Text
  pub chunks_by_citation : List (Text × ContextChunk)
  pub range : TimeRange
  pub enforce_time_range : Bool

pub record DraftResult : Type 0 where
  pub valid : Bool
  pub cited_keys : List Text
  pub reasons : List Reason

-- `a <= b` and `a < b` of two times, which are false if either is NaN.
abbrev pub not_after : Date → Date → Bool
not_after (at a) (at b) = leb a b
not_after _ _ = false

abbrev pub is_before : Date → Date → Bool
is_before (at a) (at b) = ltb a b
is_before _ _ = false

-- isInsideRange
unfoldable pub is_inside_range : Option Date → TimeRange → Bool
is_inside_range none range = true
is_inside_range (some date) range = not_after range.from date && is_before date range.until

-- `s.slice(0, n)`
unfoldable pub slice_to : ℕ → Text → Text
slice_to Prim.Native.Nat.zero s = []
slice_to (suc n) [] = []
slice_to (suc n) (c ∷ s) = c ∷ slice_to n s

unfoldable pub excerpt_of : ContextChunk → Text
unfolding slice_to
excerpt_of chunk = trim (slice_to 300 chunk.content)

abbrev pub is_empty : Text → Bool
is_empty [] = true
is_empty (c ∷ s) = false

-- `chunksByCitation.get(key)`
unfoldable pub chunk_for : Text → List (Text × ContextChunk) → Option ContextChunk
chunk_for key [] = none
chunk_for key ((k, chunk) ∷ rest) = if eq_text k key then some chunk else chunk_for key rest

unfoldable pub range_reasons : DraftInput → Text → ContextChunk → List Reason
unfolding is_inside_range
range_reasons input key chunk =
    if input.enforce_time_range && not (is_inside_range chunk.published_at input.range)
    then Reason.out_of_range_citation key ∷ []
    else []

unfoldable pub excerpt_reasons : DraftInput → Text → ContextChunk → List Reason
unfolding excerpt_of includes
excerpt_reasons input key chunk =
    if chunk.is_verbatim_only
      && (not (is_empty (excerpt_of chunk)) && not (includes input.content (excerpt_of chunk)))
    then Reason.verbatim_excerpt_missing key ∷ []
    else []

-- One round of the loop over the cited keys.
unfoldable pub chunk_reasons : DraftInput → Text → Option ContextChunk → List Reason
unfolding range_reasons excerpt_reasons
chunk_reasons input key none = Reason.unknown_citation key ∷ []
chunk_reasons input key (some chunk) =
    range_reasons input key chunk ++ excerpt_reasons input key chunk

unfoldable pub all_reasons : DraftInput → List Text → List Reason
unfolding chunk_reasons chunk_for
all_reasons input [] = []
all_reasons input (key ∷ keys) =
    chunk_reasons input key (chunk_for key input.chunks_by_citation) ++ all_reasons input keys

abbrev pub has_none {ℓ} : {A : Type ℓ} → List A → Bool
has_none [] = true
has_none (x ∷ xs) = false

unfoldable pub citation_reasons : DraftInput → List Text → List Reason
unfolding all_reasons
citation_reasons input [] = Reason.missing_citation ∷ []
citation_reasons input (key ∷ keys) = all_reasons input (key ∷ keys)

unfoldable pub validate_answer_draft : DraftInput → DraftResult
unfolding extract_citation_ids citation_reasons
validate_answer_draft input = record {
  valid = has_none (citation_reasons input (extract_citation_ids input.content));
  cited_keys = extract_citation_ids input.content;
  reasons = citation_reasons input (extract_citation_ids input.content);
}
