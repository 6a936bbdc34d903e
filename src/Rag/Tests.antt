-- ===== src/Rag/Tests.antt =====
-- Runs of packages/rag on concrete inputs, and each property of it at an input that it covers.
use tech_p.Base.{
  ℕ, ◌+◌, ◌-◌, ◌≤◌, ◌≡◌, ◌≢◌, refl, ◌↔◌, ◌⊎◌, true, false, none, some, List, [], ◌∷◌, any, find,
  keep_if, length, max, min, get_or_else, All, at, Text, codes, eq_text, is_space, trim, trim_start,
  ltb,
}
use tech_p.Rag.Citations.{extract_citation_ids, has_text}
use tech_p.Rag.Occurrences.{IsCitation, Written, NoRepeats, extract_citation_ids_complete}
use tech_p.Rag.Drafts.{Reason, DraftInput, validate_answer_draft}
use tech_p.Rag.Supported.{Supports, validate_answer_draft_iff}
use tech_p.Rag.Hits.{SearchHit, distinct_count}
use tech_p.Rag.Context.{Platform, QueryIntent, AssemblyOptions, eligible, assemble_context_evidence}
use tech_p.Rag.Budgeted.{
  tokens_of, IsSub, AllDiffer, context_within_budget, assemble_context_evidence-Independent,
}
use tech_p.Rag.Fusion.{Scoring, FusionOptions, cluster_key, source_key, fuse_retrieval_candidates}
use tech_p.Rag.Capped.{count_by, revision_key}
use tech_p.Rag.Diversity.{Covered, source_cap, fusion_is_greedy}
use tech_p.Rag.Represented.{InLists, AllIn}

abbrev answer : Text
answer = codes "Released [C1], then [C12] and [C1]. [C] [Cx1] [[C3]]"

extracts : extract_citation_ids answer ≡ codes "C1" ∷ codes "C12" ∷ codes "C3" ∷ []
unfolding extract_citation_ids eq_text any
extracts = refl

extract_citation_ids_complete_example :
    ((id : Text)
      → (has_text id (extract_citation_ids answer) ≡ true) ↔ (IsCitation id × Written id answer))
    × NoRepeats (extract_citation_ids answer)
extract_citation_ids_complete_example = extract_citation_ids_complete answer

-- A chunk that may only be quoted, and one that was published too late.
abbrev draft : DraftInput
draft = record {
  content = codes "It says so [C1] and [C2].";
  chunks_by_citation =
      (
        codes "C1",
        record { content = codes " says so "; published_at = none; is_verbatim_only = true },
      )
      ∷ (codes "C2", record { content = []; published_at = some (at 20); is_verbatim_only = false })
      ∷ [];
  range = record { from = at 10; until = at 20 };
  enforce_time_range = true;
}

reports_range :
    (validate_answer_draft draft).reasons ≡ Reason.out_of_range_citation (codes "C2") ∷ []
unfolding validate_answer_draft eq_text any trim trim_start is_space
reports_range = refl

validate_answer_draft_iff_example : ((validate_answer_draft draft).valid ≡ true) ↔ (
    (extract_citation_ids draft.content ≢ [])
    × All (Supports draft) (extract_citation_ids draft.content))
validate_answer_draft_iff_example = validate_answer_draft_iff draft

abbrev platform : Platform
platform = record { lower = λ t. t; parse_url = λ t. none }

abbrev hit : SearchHit
hit = record {
  canonical_url = none;
  source_key = some (codes "arxiv");
  chunk_id = codes "a";
  document_id = codes "d";
  duplicate_cluster_id = none;
  document_revision_id = codes "r";
  title = codes "t";
  content = codes "one";
  heading_path = [];
  ordinal = some 1;
  token_count = some 40;
  published_at = some (at 5);
}

-- The chunk that follows it in its document, another document with the same text, and a long one.
abbrev hits : List SearchHit
hits =
    record hit {
      chunk_id = codes "b";
      ordinal = some 2;
      content = codes "two";
      token_count = some 20;
    }
    ∷ hit
    ∷ record hit { chunk_id = codes "c"; document_revision_id = codes "s"; content = codes "x y" }
    ∷ record hit { chunk_id = codes "e"; document_revision_id = codes "u"; content = codes "x  y" }
    ∷ record hit { chunk_id = codes "f"; document_revision_id = codes "v"; token_count = some 90 }
    ∷ []

abbrev options : AssemblyOptions
options = record {
  intent = QueryIntent.compare_interest;
  entity_count = 2;
  latest_only = false;
  repository_target = none;
  max_context_tokens = some 100;
}

assembles :
    ((assemble_context_evidence platform options hits).total_estimated_tokens ≡ 100)
    × ((assemble_context_evidence platform options hits).dropped_for_budget ≡ 1)
    × ((assemble_context_evidence platform options hits).suppressed_duplicates ≡ 1)
    × ((assemble_context_evidence platform options hits).sufficiency.sufficient ≡ true)
unfolding assemble_context_evidence any eq_text find keep_if trim trim_start is_space
assembles = (refl, refl, refl, refl)

context_within_budget_example :
    ((assemble_context_evidence platform options hits).total_estimated_tokens
      ≡ tokens_of (assemble_context_evidence platform options hits).evidence)
    × ((assemble_context_evidence platform options hits).total_estimated_tokens
        ≤ max 1 (get_or_else (some 100) 4000))
    × IsSub
        (assemble_context_evidence platform options hits).evidence
        (eligible platform options hits)
    × (length (assemble_context_evidence platform options hits).evidence
          + (assemble_context_evidence platform options hits).dropped_for_budget
          + (assemble_context_evidence platform options hits).suppressed_duplicates
        ≡ length (eligible platform options hits))
context_within_budget_example = context_within_budget platform options hits

assemble_context_evidence-Independent_example :
    AllDiffer platform (assemble_context_evidence platform options hits).evidence
assemble_context_evidence-Independent_example =
    assemble_context_evidence-Independent platform options hits

-- Scores as whole numbers, a share of which falls with the rank.
abbrev scoring : Scoring
scoring = record {
  Score = ℕ;
  zero_score = 0;
  add_score = λ a b. a + b;
  share = λ k i. 1000 - i;
  recency = λ now time half k. 0;
  goes_first = λ x p y q. ltb q p;
}

abbrev fusion : FusionOptions
fusion = record {
  limit = some 3;
  rrf_k = none;
  max_chunks_per_revision = some 1;
  max_per_duplicate_cluster = some 5;
  max_per_source = none;
  recency_half_life_days = none;
  now = at 100;
}

abbrev lists : List (List SearchHit)
lists = hits ∷ (hit ∷ []) ∷ []

-- The first two hits are of one revision, and the one in both lists goes first.
fuses :
    any (λ h. eq_text h.chunk_id (codes "b")) (fuse_retrieval_candidates scoring fusion lists)
    ≡ false
unfolding fuse_retrieval_candidates any eq_text distinct_count
fuses = refl

fusion_is_greedy_example :
    All (λ h. InLists h lists) (fuse_retrieval_candidates scoring fusion lists)
    × (length (fuse_retrieval_candidates scoring fusion lists)
        ≤ max 1 (min (get_or_else (some 3) 10) 50))
    × ((k : Text)
        → count_by revision_key k (fuse_retrieval_candidates scoring fusion lists)
          ≤ max 1 (get_or_else (some 1) 2))
    × ((k : Text)
        → count_by cluster_key k (fuse_retrieval_candidates scoring fusion lists)
          ≤ max 1 (get_or_else (some 5) 2))
    × ((k : Text)
        → count_by source_key k (fuse_retrieval_candidates scoring fusion lists)
          ≤ source_cap scoring fusion lists)
    × ((max 1 (min (get_or_else (some 3) 10) 50)
          ≤ length (fuse_retrieval_candidates scoring fusion lists))
        ⊎ AllIn
            (λ h.
              Covered
                (max 1 (get_or_else (some 1) 2))
                (max 1 (get_or_else (some 5) 2))
                (source_cap scoring fusion lists)
                lists
                (fuse_retrieval_candidates scoring fusion lists)
                h.chunk_id)
            lists)
fusion_is_greedy_example = fusion_is_greedy scoring fusion lists
