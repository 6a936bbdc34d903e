-- ===== src/Rag/Represented.antt =====
-- The candidates of packages/rag/src/retrieval-fusion.ts and the ranked lists they come from: each is a hit of
-- the lists, and each hit of the lists has its chunk among them.
use tech_p.Base.{
  ℕ, ◌+◌, ◌≡◌, refl, ap, ◌∙◌, inl, inr, Bool, true, List, [], ◌∷◌, arith, any, Bool-cases, All,
  All-map, Text, eq_text, eq_text_refl, eq_text_sound,
}
use tech_p.Rag.Hits.{SearchHit}
use tech_p.Rag.Fusion.{
  Scoring, FusionOptions, Scored, put_hit, rank_list, rank_lists, with_recency, insert_scored,
  sort_scored, hits_of, candidates, at_least_one,
}

abbrev pub has_chunk : Text → List SearchHit → Bool
has_chunk id hits = any (λ h. eq_text h.chunk_id id) hits

-- A hit of one of the lists.
pub data InLists (hit : SearchHit) : List (List SearchHit) → Type 0 where
  first :
      (hits : List SearchHit) (lists : List (List SearchHit)) → InLists hit ((hit ∷ hits) ∷ lists)
  behind :
      (other : SearchHit) (hits : List SearchHit) (lists : List (List SearchHit))
      → InLists hit (hits ∷ lists)
      → InLists hit ((other ∷ hits) ∷ lists)
  below :
      (hits : List SearchHit) (lists : List (List SearchHit))
      → InLists hit lists
      → InLists hit (hits ∷ lists)

-- What holds of every hit of the lists.
abbrev pub AllIn : (SearchHit → Type 0) → List (List SearchHit) → Type 0
AllIn P lists = All (λ (hits : List SearchHit). All P hits) lists

in_first :
    (lists : List (List SearchHit)) (hits : List SearchHit)
    → All (λ h. InLists h (hits ∷ lists)) hits
in_first lists [] = tt
in_first lists (h ∷ hits) = (
  first hits lists,
  All-map (λ x. InLists x (hits ∷ lists)) (λ x. InLists x ((h ∷ hits) ∷ lists)) hits
      (λ x p. behind h hits lists p) (in_first lists hits),
)

pub all_in : (lists : List (List SearchHit)) → AllIn (λ h. InLists h lists) lists
all_in [] = tt
all_in (hits ∷ lists) = (
  in_first lists hits,
  All-map (λ (l : List SearchHit). All (λ x. InLists x lists) l)
      (λ (l : List SearchHit). All (λ x. InLists x (hits ∷ lists)) l) lists
      (λ l a.
        All-map (λ x. InLists x lists) (λ x. InLists x (hits ∷ lists)) l (λ x p. below hits lists p)
          a)
      (all_in lists),
)

module _ (scoring : Scoring) where
  -- The entries of the map, by chunk.
  abbrev has_entry : Text → List (Scored scoring) → Bool
  has_entry id scored = any (λ (s : Scored scoring). eq_text s.hit.chunk_id id) scored

  abbrev Entries : (SearchHit → Type 0) → List (Scored scoring) → Type 0
  Entries P scored = All (λ (s : Scored scoring). P s.hit) scored

  put_hit-Entries :
      (P : SearchHit → Type 0) (hit : SearchHit) (points : scoring.Score)
      (scored : List (Scored scoring))
      → P hit
      → Entries P scored
      → Entries P (put_hit scoring hit points scored)
  unfolding put_hit
  put_hit-Entries P hit points [] p h = (p, tt)
  put_hit-Entries P hit points (s ∷ rest) p h =
      elim (Bool-cases (eq_text s.hit.chunk_id hit.chunk_id)) [
        | inl same ↦ rw same (p, h.1)
        | inr other ↦ rw other (h.0, put_hit-Entries P hit points rest p h.1)
      ]

  put_hit-has_new :
      (hit : SearchHit) (points : scoring.Score) (scored : List (Scored scoring))
      → has_entry hit.chunk_id (put_hit scoring hit points scored) ≡ true
  unfolding put_hit any
  put_hit-has_new hit points [] = rw (eq_text_refl hit.chunk_id) refl
  put_hit-has_new hit points (s ∷ rest) = elim (Bool-cases (eq_text s.hit.chunk_id hit.chunk_id)) [
    | inl same ↦ rw (same, eq_text_refl hit.chunk_id) refl
    | inr other ↦ rw (other, other) (put_hit-has_new hit points rest)
  ]

  put_hit-has_old :
      (id : Text) (hit : SearchHit) (points : scoring.Score) (scored : List (Scored scoring))
      → has_entry id scored ≡ true
      → has_entry id (put_hit scoring hit points scored) ≡ true
  unfolding put_hit any
  put_hit-has_old id hit points [] h = absurd cc
  put_hit-has_old id hit points (s ∷ rest) h =
      elim (Bool-cases (eq_text s.hit.chunk_id hit.chunk_id)) [
        | inl same ↦
            let ids = eq_text_sound s.hit.chunk_id hit.chunk_id same in
            let moved = ap (λ t. eq_text t id) ids in rw same (ground arith)
        | inr other ↦
            let deeper = put_hit-has_old id hit points rest in rw other (ground (arith, deeper))
      ]

  rank_list-Entries :
      (P : SearchHit → Type 0) (k index : ℕ) (hits : List SearchHit)
      (scored : List (Scored scoring))
      → All P hits
      → Entries P scored
      → Entries P (rank_list scoring k index hits scored)
  unfolding rank_list
  rank_list-Entries P k index [] scored a h = h
  rank_list-Entries P k index (hit ∷ hits) scored a h =
      rank_list-Entries P k (index + 1) hits _ a.1
        (put_hit-Entries P hit (scoring.share k index) scored a.0 h)

  rank_list-has_old :
      (id : Text) (k index : ℕ) (hits : List SearchHit) (scored : List (Scored scoring))
      → has_entry id scored ≡ true
      → has_entry id (rank_list scoring k index hits scored) ≡ true
  unfolding rank_list
  rank_list-has_old id k index [] scored h = h
  rank_list-has_old id k index (hit ∷ hits) scored h =
      rank_list-has_old id k (index + 1) hits _
        (put_hit-has_old id hit (scoring.share k index) scored h)

  rank_list-has_new :
      (k index : ℕ) (hits : List SearchHit) (scored : List (Scored scoring))
      → All
          (λ (h : SearchHit). has_entry h.chunk_id (rank_list scoring k index hits scored) ≡ true)
          hits
  unfolding rank_list
  rank_list-has_new k index [] scored = tt
  rank_list-has_new k index (hit ∷ hits) scored =
      let next = put_hit scoring hit (scoring.share k index) scored in
      (
        rank_list-has_old hit.chunk_id k (index + 1) hits next
            (put_hit-has_new hit (scoring.share k index) scored),
        rank_list-has_new k (index + 1) hits next,
      )

  rank_lists-Entries :
      (P : SearchHit → Type 0) (k : ℕ) (lists : List (List SearchHit))
      (scored : List (Scored scoring))
      → AllIn P lists
      → Entries P scored
      → Entries P (rank_lists scoring k lists scored)
  unfolding rank_lists
  rank_lists-Entries P k [] scored a h = h
  rank_lists-Entries P k (hits ∷ lists) scored a h =
      rank_lists-Entries P k lists _ a.1 (rank_list-Entries P k 0 hits scored a.0 h)

  rank_lists-has_old :
      (id : Text) (k : ℕ) (lists : List (List SearchHit)) (scored : List (Scored scoring))
      → has_entry id scored ≡ true
      → has_entry id (rank_lists scoring k lists scored) ≡ true
  unfolding rank_lists
  rank_lists-has_old id k [] scored h = h
  rank_lists-has_old id k (hits ∷ lists) scored h =
      rank_lists-has_old id k lists _ (rank_list-has_old id k 0 hits scored h)

  rank_lists-has_new :
      (k : ℕ) (lists : List (List SearchHit)) (scored : List (Scored scoring))
      → AllIn (λ h. has_entry h.chunk_id (rank_lists scoring k lists scored) ≡ true) lists
  unfolding rank_lists
  rank_lists-has_new k [] scored = tt
  rank_lists-has_new k (hits ∷ lists) scored =
      let next = rank_list scoring k 0 hits scored in
      (
        All-map (λ (h : SearchHit). has_entry h.chunk_id next ≡ true)
            (λ (h : SearchHit). has_entry h.chunk_id (rank_lists scoring k lists next) ≡ true) hits
            (λ h p. rank_lists-has_old h.chunk_id k lists next p)
            (rank_list-has_new k 0 hits scored),
        rank_lists-has_new k lists next,
      )

  with_recency-Entries :
      (P : SearchHit → Type 0) (o : FusionOptions) (scored : List (Scored scoring))
      → Entries P scored
      → Entries P (with_recency scoring o scored)
  unfolding with_recency
  with_recency-Entries P o [] h = tt
  with_recency-Entries P o (s ∷ rest) h = (h.0, with_recency-Entries P o rest h.1)

  with_recency-has :
      (id : Text) (o : FusionOptions) (scored : List (Scored scoring))
      → has_entry id (with_recency scoring o scored) ≡ has_entry id scored
  unfolding with_recency any
  with_recency-has id o [] = refl
  with_recency-has id o (s ∷ rest) = rw (with_recency-has id o rest) refl

  insert_scored-Entries :
      (P : SearchHit → Type 0) (s : Scored scoring) (scored : List (Scored scoring))
      → P s.hit
      → Entries P scored
      → Entries P (insert_scored scoring s scored)
  unfolding insert_scored
  insert_scored-Entries P s [] p h = (p, tt)
  insert_scored-Entries P s (x ∷ xs) p h =
      elim (Bool-cases (scoring.goes_first x.hit x.score s.hit s.score)) [
        | inl later ↦ rw later (h.0, insert_scored-Entries P s xs p h.1)
        | inr here ↦ rw here (p, h)
      ]

  insert_scored-has :
      (id : Text) (s : Scored scoring) (scored : List (Scored scoring))
      → has_entry id (insert_scored scoring s scored) ≡ has_entry id (s ∷ scored)
  unfolding insert_scored any
  insert_scored-has id s [] = refl
  insert_scored-has id s (x ∷ xs) =
      elim (Bool-cases (scoring.goes_first x.hit x.score s.hit s.score)) [
        | inl later ↦ let rest = insert_scored-has id s xs in rw later (ground arith)
        | inr here ↦ rw here refl
      ]

  sort_scored-Entries :
      (P : SearchHit → Type 0) (scored : List (Scored scoring))
      → Entries P scored
      → Entries P (sort_scored scoring scored)
  unfolding sort_scored
  sort_scored-Entries P [] h = tt
  sort_scored-Entries P (s ∷ rest) h =
      insert_scored-Entries P s _ h.0 (sort_scored-Entries P rest h.1)

  sort_scored-has :
      (id : Text) (scored : List (Scored scoring))
      → has_entry id (sort_scored scoring scored) ≡ has_entry id scored
  unfolding sort_scored any
  sort_scored-has id [] = refl
  sort_scored-has id (s ∷ rest) =
      insert_scored-has id s (sort_scored scoring rest) ∙ rw (sort_scored-has id rest) refl

  hits_of-All :
      (P : SearchHit → Type 0) (scored : List (Scored scoring))
      → Entries P scored
      → All P (hits_of scoring scored)
  unfolding hits_of
  hits_of-All P [] h = tt
  hits_of-All P (s ∷ rest) h = (h.0, hits_of-All P rest h.1)

  hits_of-has :
      (id : Text) (scored : List (Scored scoring))
      → has_chunk id (hits_of scoring scored) ≡ has_entry id scored
  unfolding hits_of any
  hits_of-has id [] = refl
  hits_of-has id (s ∷ rest) = rw (hits_of-has id rest) refl

  -- Every candidate is a hit of the lists.
  pub candidates-InLists :
      (o : FusionOptions) (lists : List (List SearchHit))
      → All (λ h. InLists h lists) (candidates scoring o lists)
  unfolding candidates
  candidates-InLists o lists =
      let P = λ (h : SearchHit). InLists h lists in
      let ranked = rank_lists scoring (at_least_one o.rrf_k 60) lists [] in
      hits_of-All P _ (
        sort_scored-Entries P _ (
          with_recency-Entries P o ranked
            (rank_lists-Entries P (at_least_one o.rrf_k 60) lists [] (all_in lists) tt)))

  -- Every hit of the lists has its chunk among the candidates.
  pub candidates-has_chunk :
      (o : FusionOptions) (lists : List (List SearchHit))
      → AllIn (λ h. has_chunk h.chunk_id (candidates scoring o lists) ≡ true) lists
  unfolding candidates
  candidates-has_chunk o lists =
      let k = at_least_one o.rrf_k 60 in
      let ranked = rank_lists scoring k lists [] in
      let aged_ones = with_recency scoring o ranked in
      let keeps = λ (id : Text) (p : has_entry id ranked ≡ true).
        hits_of-has id (sort_scored scoring aged_ones)
        ∙ (sort_scored-has id aged_ones ∙ (with_recency-has id o ranked ∙ p)) in
      All-map
        (λ (l : List SearchHit). All (λ (h : SearchHit). has_entry h.chunk_id ranked ≡ true) l)
        (λ (l : List SearchHit).
          All (λ (h : SearchHit). has_chunk h.chunk_id (candidates scoring o lists) ≡ true) l)
        lists
        (λ l a.
          All-map (λ (h : SearchHit). has_entry h.chunk_id ranked ≡ true)
            (λ (h : SearchHit). has_chunk h.chunk_id (candidates scoring o lists) ≡ true) l
            (λ h p. keeps h.chunk_id p) a)
        (rank_lists-has_new k lists [])
