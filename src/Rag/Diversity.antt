-- ===== src/Rag/Diversity.antt =====
-- The limits that the selection of packages/rag/src/retrieval-fusion.ts keeps, and what it passes over.
use mathlib.Core.Path.{subst}
use tech_p.Base.{
  ℕ, ◌+◌, ◌*◌, ◌/◌, ◌≤◌, ◌<◌, ◌≡◌, refl, sym, ◌∙◌, ap, ◌⊎◌, inl, inr, true, false, List, [], ◌∷◌,
  arith, leb, Bool-cases, length, All, Text, eq_text, max, min, get_or_else, any, eq_text_refl,
  eq_text_sound, All-map, if◌then◌else◌, ltb,
}
use tech_p.Rag.Hits.{SearchHit, distinct_count}
use tech_p.Rag.Represented.{has_chunk, InLists, AllIn, candidates-InLists, candidates-has_chunk}
use tech_p.Rag.Fusion.{
  Scoring, FusionOptions, Caps, Counts, Tally, bump, no_counts, cluster_key, source_key, is_capped,
  counted, select_from, named_sources, candidates, caps_of, fusion_limit, fuse_retrieval_candidates,
}
use tech_p.Rag.Capped.{count_by, revision_key, select_from-IsCapped, length-select_from-le}

-- A cap that a hit would pass is reached.
abbrev pub IsFull : Caps → Tally → List SearchHit → SearchHit → Type 0
IsFull caps t hits c =
    (caps.per_revision
      ≤ t.revisions c.document_revision_id + count_by revision_key c.document_revision_id hits)
    ⊎ (caps.per_cluster ≤ t.clusters (cluster_key c) + count_by cluster_key (cluster_key c) hits)
    ⊎ (caps.per_source ≤ t.sources (source_key c) + count_by source_key (source_key c) hits)

abbrev pub Accounted : Caps → Tally → List SearchHit → SearchHit → Type 0
Accounted caps t hits c = (has_chunk c.chunk_id hits ≡ true) ⊎ IsFull caps t hits c

capped-IsFull :
    (caps : Caps) (t : Tally) (hits : List SearchHit) (c : SearchHit)
    → is_capped caps t c ≡ true
    → IsFull caps t hits c
capped-IsFull caps t hits c full =
    elim (Bool-cases (leb caps.per_revision (t.revisions c.document_revision_id))) [
      | inl r ↦ inl (ground arith)
      | inr r ↦ elim (Bool-cases (leb caps.per_cluster (t.clusters (cluster_key c)))) [
        | inl k ↦ inr (inl (ground arith))
        | inr k ↦ inr (inr (ground arith))
      ]
    ]

-- A count that includes the hit is no smaller.
bumped :
    (cap : ℕ) (key : SearchHit → Text) (counts : Counts) (hit : SearchHit) (hits : List SearchHit)
    (k : Text)
    → cap ≤ bump (key hit) counts k + count_by key k hits
    → cap ≤ counts k + count_by key k (hit ∷ hits)
unfolding count_by
bumped cap key counts hit hits k h = ground arith

more-Accounted :
    (caps : Caps) (t : Tally) (hit : SearchHit) (hits : List SearchHit) (c : SearchHit)
    → Accounted caps (counted hit t) hits c
    → Accounted caps t (hit ∷ hits) c
unfolding any
more-Accounted caps t hit hits c (inl here) = inl (ground arith)
more-Accounted caps t hit hits c (inr (inl r)) =
    inr (inl (bumped caps.per_revision revision_key t.revisions hit hits c.document_revision_id r))
more-Accounted caps t hit hits c (inr (inr (inl k))) =
    inr (inr (inl (bumped caps.per_cluster cluster_key t.clusters hit hits (cluster_key c) k)))
more-Accounted caps t hit hits c (inr (inr (inr s))) =
    inr (inr (inr (bumped caps.per_source source_key t.sources hit hits (source_key c) s)))

first_chunk : (hit : SearchHit) (rest : List SearchHit) → has_chunk hit.chunk_id (hit ∷ rest) ≡ true
unfolding any
first_chunk hit rest = rw (eq_text_refl hit.chunk_id) refl

module _ (caps : Caps) (limit taken : ℕ) (t : Tally) (hit : SearchHit) (hits : List SearchHit) where
  skip_hit :
      is_capped caps t hit ≡ true
      → select_from caps limit taken t hits ≡ select_from caps limit taken t (hit ∷ hits)
  unfolding select_from
  skip_hit full = rw full refl

  last_hit :
      is_capped caps t hit ≡ false
      → leb limit (taken + 1) ≡ true
      → hit ∷ [] ≡ select_from caps limit taken t (hit ∷ hits)
  unfolding select_from
  last_hit room last = rw (room, last) refl

  take_hit :
      is_capped caps t hit ≡ false
      → leb limit (taken + 1) ≡ false
      → hit ∷ select_from caps limit (taken + 1) (counted hit t) hits
        ≡ select_from caps limit taken t (hit ∷ hits)
  unfolding select_from
  take_hit room early = rw (room, early) refl

select_from-Accounted :
    (caps : Caps) (limit taken : ℕ) (t : Tally) (hits : List SearchHit)
    → taken + length (select_from caps limit taken t hits) < limit
    → All (Accounted caps t (select_from caps limit taken t hits)) hits
select_from-Accounted caps limit taken t [] short = tt
select_from-Accounted caps limit taken t (hit ∷ hits) short =
    elim (Bool-cases (is_capped caps t hit)) [
      | inl full ↦
          let step = skip_hit caps limit taken t hit hits full in
          let rest = select_from caps limit taken t hits in
          subst (λ r. All (Accounted caps t r) (hit ∷ hits)) step
            (
              inr (capped-IsFull caps t rest hit full),
              select_from-Accounted caps limit taken t hits
                  (let same = ap length step in omega arith),
            )
      | inr room ↦ elim (Bool-cases (leb limit (taken + 1))) [
        | inl last ↦
            absurd (
              let same = ap length (last_hit caps limit taken t hit hits room last) in ground arith)
        | inr early ↦
            let step = take_hit caps limit taken t hit hits room early in
            let rest = select_from caps limit (taken + 1) (counted hit t) hits in
            subst (λ r. All (Accounted caps t r) (hit ∷ hits)) step
              (
                inl (first_chunk hit rest),
                All-map (Accounted caps (counted hit t) rest) (Accounted caps t (hit ∷ rest)) hits
                    (λ c a. more-Accounted caps t hit rest c a)
                    (select_from-Accounted caps limit (taken + 1) (counted hit t) hits
                      (let same = ap length step in omega arith)),
              )
      ]
    ]

-- The chunk is selected, or a hit of the lists with this chunk meets a cap that is reached.
abbrev pub Covered : ℕ → ℕ → ℕ → List (List SearchHit) → List SearchHit → Text → Type 0
Covered per_revision per_cluster per_source lists fused id =
    (has_chunk id fused ≡ true)
    ⊎ ((c : SearchHit) × InLists c lists
        × (c.chunk_id ≡ id)
        × ((per_revision ≤ count_by revision_key c.document_revision_id fused)
            ⊎ (per_cluster ≤ count_by cluster_key (cluster_key c) fused)
            ⊎ (per_source ≤ count_by source_key (source_key c) fused)))

candidate-Covered :
    (caps : Caps) (lists : List (List SearchHit)) (fused hits : List SearchHit) (id : Text)
    → All (λ h. InLists h lists) hits
    → All (Accounted caps no_counts fused) hits
    → has_chunk id hits ≡ true
    → Covered caps.per_revision caps.per_cluster caps.per_source lists fused id
unfolding any
candidate-Covered caps lists fused [] id from all has = absurd cc
candidate-Covered caps lists fused (c ∷ hits) id from all has =
    elim (Bool-cases (eq_text c.chunk_id id)) [
      | inl same ↦ by_account (eq_text_sound c.chunk_id id same) all.0
      | inr other ↦ candidate-Covered caps lists fused hits id from.1 all.1 (ground arith)
    ]
  where
    by_account :
        c.chunk_id ≡ id
        → Accounted caps no_counts fused c
        → Covered caps.per_revision caps.per_cluster caps.per_source lists fused id
    by_account same (inl selected) = inl (ap (λ t. has_chunk t fused) (sym same) ∙ selected)
    by_account same (inr (inl r)) = inr (c, from.0, same, inl (omega arith))
    by_account same (inr (inr (inl k))) = inr (c, from.0, same, inr (inl (omega arith)))
    by_account same (inr (inr (inr o))) = inr (c, from.0, same, inr (inr (omega arith)))

module _ (scoring : Scoring) where
  -- What is left of the candidates is of them.
  select_from-All :
      (P : SearchHit → Type 0) (caps : Caps) (limit taken : ℕ) (t : Tally) (hits : List SearchHit)
      → All P hits
      → All P (select_from caps limit taken t hits)
  unfolding select_from
  select_from-All P caps limit taken t [] h = tt
  select_from-All P caps limit taken t (hit ∷ hits) h = elim (Bool-cases (is_capped caps t hit)) [
    | inl full ↦ rw full (select_from-All P caps limit taken t hits h.1)
    | inr room ↦ rw room (elim (Bool-cases (leb limit (taken + 1))) [
      | inl last ↦ rw last (h.0, tt)
      | inr early ↦
          rw early (h.0, select_from-All P caps limit (taken + 1) (counted hit t) hits h.1)
    ])
  ]

  -- The cap on the hits of one source: three fifths of the limit, rounded up, where the candidates name more
  -- than one source, and else the limit, unless the options set it.
  abbrev pub source_cap : FusionOptions → List (List SearchHit) → ℕ
  source_cap o lists = max 1 (
      get_or_else o.max_per_source (
        if ltb 1 (distinct_count (named_sources scoring (candidates scoring o lists)))
        then (3 * max 1 (min (get_or_else o.limit 10) 50) + 4) / 5
        else max 1 (min (get_or_else o.limit 10) 50)))

  -- A fused list holds hits of the ranked lists only, and at most as many as the limit, which is 10 unless it
  -- is set, and 1 to 50. Of no revision and no cluster of duplicates it has more hits than the cap, which is 2
  -- unless it is set, and of no source more than the source's cap. It has as many as the limit, or each hit of
  -- the ranked lists has its chunk in it, or a hit of the lists with that chunk is of a revision, a cluster
  -- or a source whose cap is reached.
  pub fusion_is_greedy :
      (o : FusionOptions) (lists : List (List SearchHit))
      → All (λ h. InLists h lists) (fuse_retrieval_candidates scoring o lists)
        × (length (fuse_retrieval_candidates scoring o lists)
            ≤ max 1 (min (get_or_else o.limit 10) 50))
        × ((k : Text)
            → count_by revision_key k (fuse_retrieval_candidates scoring o lists)
              ≤ max 1 (get_or_else o.max_chunks_per_revision 2))
        × ((k : Text)
            → count_by cluster_key k (fuse_retrieval_candidates scoring o lists)
              ≤ max 1 (get_or_else o.max_per_duplicate_cluster 2))
        × ((k : Text)
            → count_by source_key k (fuse_retrieval_candidates scoring o lists)
              ≤ source_cap o lists)
        × ((max 1 (min (get_or_else o.limit 10) 50)
              ≤ length (fuse_retrieval_candidates scoring o lists))
            ⊎ AllIn
                (λ h.
                  Covered
                    (max 1 (get_or_else o.max_chunks_per_revision 2))
                    (max 1 (get_or_else o.max_per_duplicate_cluster 2))
                    (source_cap o lists)
                    lists
                    (fuse_retrieval_candidates scoring o lists)
                    h.chunk_id)
                lists)
  unfolding fuse_retrieval_candidates
  fusion_is_greedy o lists =
      let hits = candidates scoring o lists in
      let caps = caps_of scoring o hits in
      let fused = fuse_retrieval_candidates scoring o lists in
      let within = select_from-IsCapped caps (fusion_limit o) 0 no_counts hits in
      let short = length-select_from-le caps (fusion_limit o) 0 no_counts hits (omega arith) in
      let P = λ (h : SearchHit). has_chunk h.chunk_id hits ≡ true in
      let Q = λ (h : SearchHit).
        Covered caps.per_revision caps.per_cluster caps.per_source lists fused h.chunk_id in
      let from = candidates-InLists scoring o lists in
      (
        select_from-All (λ h. InLists h lists) caps (fusion_limit o) 0 no_counts hits from,
        omega arith,
        λ k. let w = within.by_revision k (omega arith) in omega arith,
        λ k. let w = within.by_cluster k (omega arith) in omega arith,
        λ k. let w = within.by_source k (omega arith) in omega arith,
        elim (Bool-cases (leb (fusion_limit o) (length fused))) [
          | inl full ↦ inl (ground arith)
          | inr few ↦
              let all =
                select_from-Accounted caps (fusion_limit o) 0 no_counts hits (ground arith) in
              inr (
                All-map (λ (l : List SearchHit). All P l) (λ (l : List SearchHit). All Q l) lists
                  (λ l a.
                    All-map P Q l
                      (λ h p. candidate-Covered caps lists fused hits h.chunk_id from all p) a)
                  (candidates-has_chunk scoring o lists))
        ],
      )
