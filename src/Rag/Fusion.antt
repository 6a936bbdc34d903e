-- ===== src/Rag/Fusion.antt =====
-- fuseRetrievalCandidates of packages/rag/src/retrieval-fusion.ts. Scores are floating point numbers, whose
-- operations are a parameter; the limits are natural numbers.
use tech_p.Base.{
  ℕ, ◌+◌, ◌*◌, ◌/◌, Bool, ◌||◌, Option, some, List, [], ◌∷◌, if◌then◌else◌, leb, ltb, max, min,
  get_or_else, Date, at, Text, codes, eq_text,
}
use tech_p.Rag.Hits.{SearchHit, distinct_count, cons_named}

-- The arithmetic of scores, and the comparison of ids in the collation of the platform.
pub record Scoring : Type 1 where
  pub Score : Type 0
  pub zero_score : Score
  pub add_score : Score → Score → Score
  -- `1 / (rrfK + index + 1)`
  pub share : ℕ → ℕ → Score
  -- what the age of a document adds: now, when it was published, the half life in days, rrfK
  pub recency : Date → ℕ → ℕ → ℕ → Score
  -- the comparison of two hits with their scores: whether the first goes first
  pub goes_first : SearchHit → Score → SearchHit → Score → Bool

pub record FusionOptions : Type 0 where
  pub limit : Option ℕ
  pub rrf_k : Option ℕ
  pub max_chunks_per_revision : Option ℕ
  pub max_per_duplicate_cluster : Option ℕ
  pub max_per_source : Option ℕ
  pub recency_half_life_days : Option ℕ
  pub now : Date

-- `Math.max(1, Math.min(options.limit ?? 10, 50))`, and so on
abbrev pub fusion_limit : FusionOptions → ℕ
fusion_limit o = max 1 (min (get_or_else o.limit 10) 50)

abbrev pub at_least_one : Option ℕ → ℕ → ℕ
at_least_one o default = max 1 (get_or_else o default)

-- `limit * 0.6` rounded up, which the multiplication gives exactly up to 50, if there is more than one source
abbrev pub source_share : ℕ → ℕ → ℕ
source_share sources limit = if ltb 1 sources then (3 * limit + 4) / 5 else limit

-- The three caps of the selection.
pub record Caps : Type 0 where
  pub per_revision : ℕ
  pub per_cluster : ℕ
  pub per_source : ℕ

-- `new Map<string, number>()`: what has no entry counts as 0.
abbrev pub Counts : Type 0
Counts = Text → ℕ

abbrev pub bump : Text → Counts → Counts
bump key counts k = if eq_text key k then counts k + 1 else counts k

pub record Tally : Type 0 where
  pub revisions : Counts
  pub clusters : Counts
  pub sources : Counts

abbrev pub no_counts : Tally
no_counts = record { revisions = λ k. 0; clusters = λ k. 0; sources = λ k. 0 }

-- `hit.duplicateClusterId ?? hit.documentId` and `hit.sourceKey ?? 'unknown'`
abbrev pub cluster_key : SearchHit → Text
cluster_key hit = get_or_else hit.duplicate_cluster_id hit.document_id

abbrev pub source_key : SearchHit → Text
source_key hit = get_or_else hit.source_key (codes "unknown")

abbrev pub is_capped : Caps → Tally → SearchHit → Bool
is_capped caps t hit =
    leb caps.per_revision (t.revisions hit.document_revision_id)
    || leb caps.per_cluster (t.clusters (cluster_key hit))
    || leb caps.per_source (t.sources (source_key hit))

abbrev pub counted : SearchHit → Tally → Tally
counted hit t = record {
  revisions = bump hit.document_revision_id t.revisions;
  clusters = bump (cluster_key hit) t.clusters;
  sources = bump (source_key hit) t.sources;
}

-- The loop of the selection; `taken` are selected already, fewer than the limit.
unfoldable pub select_from : Caps → ℕ → ℕ → Tally → List SearchHit → List SearchHit
select_from caps limit taken t [] = []
select_from caps limit taken t (hit ∷ hits) =
    let skipped = select_from caps limit taken t hits in
    let more = hit ∷ select_from caps limit (taken + 1) (counted hit t) hits in
    if is_capped caps t hit then skipped else (if leb limit (taken + 1) then hit ∷ [] else more)

module _ (scoring : Scoring) where
  open scoring use {Score, zero_score, add_score, share, recency, goes_first}

  pub record Scored : Type 0 where
    pub hit : SearchHit
    pub score : Score

  -- `byChunk.set(hit.chunkId, …)`: an entry keeps its place in the map, and takes the later hit.
  unfoldable pub put_hit : SearchHit → Score → List Scored → List Scored
  put_hit hit points [] = record { hit = hit; score = add_score zero_score points } ∷ []
  put_hit hit points (s ∷ rest) =
      if eq_text s.hit.chunk_id hit.chunk_id
      then record { hit = hit; score = add_score s.score points } ∷ rest
      else s ∷ put_hit hit points rest

  unfoldable pub rank_list : ℕ → ℕ → List SearchHit → List Scored → List Scored
  unfolding put_hit
  rank_list k index [] scored = scored
  rank_list k index (hit ∷ hits) scored =
      rank_list k (index + 1) hits (put_hit hit (share k index) scored)

  unfoldable pub rank_lists : ℕ → List (List SearchHit) → List Scored → List Scored
  unfolding rank_list
  rank_lists k [] scored = scored
  rank_lists k (list ∷ lists) scored = rank_lists k lists (rank_list k 0 list scored)

  -- A hit with no date, or an invalid one, keeps its score.
  unfoldable pub aged : FusionOptions → Option Date → Score → Score
  aged o (some (at time)) score =
      add_score score
        (recency o.now time (at_least_one o.recency_half_life_days 30) (at_least_one o.rrf_k 60))
  aged o _ score = score

  unfoldable pub with_recency : FusionOptions → List Scored → List Scored
  unfolding aged
  with_recency o [] = []
  with_recency o (s ∷ rest) =
      record s { score = aged o s.hit.published_at s.score } ∷ with_recency o rest

  -- The stable sort.
  unfoldable pub insert_scored : Scored → List Scored → List Scored
  insert_scored s [] = s ∷ []
  insert_scored s (x ∷ xs) =
      if goes_first x.hit x.score s.hit s.score then x ∷ insert_scored s xs else s ∷ x ∷ xs

  unfoldable pub sort_scored : List Scored → List Scored
  unfolding insert_scored
  sort_scored [] = []
  sort_scored (s ∷ rest) = insert_scored s (sort_scored rest)

  unfoldable pub hits_of : List Scored → List SearchHit
  hits_of [] = []
  hits_of (s ∷ rest) = s.hit ∷ hits_of rest

  unfoldable pub named_sources : List SearchHit → List Text
  named_sources [] = []
  named_sources (hit ∷ hits) = cons_named hit.source_key (named_sources hits)

  unfoldable pub candidates : FusionOptions → List (List SearchHit) → List SearchHit
  unfolding rank_lists with_recency sort_scored hits_of
  candidates o lists =
      hits_of (sort_scored (with_recency o (rank_lists (at_least_one o.rrf_k 60) lists [])))

  abbrev pub caps_of : FusionOptions → List SearchHit → Caps
  caps_of o hits = record {
    per_revision = at_least_one o.max_chunks_per_revision 2;
    per_cluster = at_least_one o.max_per_duplicate_cluster 2;
    per_source =
        at_least_one o.max_per_source
          (source_share (distinct_count (named_sources hits)) (fusion_limit o));
  }

  -- The hits that are selected, in order, without the scores that they are given.
  unfoldable pub fuse_retrieval_candidates : FusionOptions → List (List SearchHit) → List SearchHit
  unfolding candidates select_from named_sources
  fuse_retrieval_candidates o lists =
      select_from (caps_of o (candidates o lists)) (fusion_limit o) 0 no_counts (candidates o lists)
