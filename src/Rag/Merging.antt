-- ===== src/Rag/Merging.antt =====
-- mergeAdjacentHits of packages/rag/src/context-assembly.ts: hits of one revision that follow each other are
-- joined.
use tech_p.Base.{
  ℕ, suc, ◌+◌, ◌/◌, Bool, false, ◌&&◌, Option, none, some, List, [], ◌∷◌, ◌++◌, any, if◌then◌else◌,
  ltb, ◌==◌, max, length, get_or_else, Text, eq_text, find,
}
use mathlib.Core.List.{reverse}
use tech_p.Rag.Hits.{SearchHit, contains}

pub record Evidence : Type 0 where
  pub hit : SearchHit
  pub merged_chunk_ids : List Text
  pub estimated_tokens : ℕ

-- estimateTokens; a count is a natural number. The template has a line break between its parts.
unfoldable pub estimate_tokens : SearchHit → ℕ
estimate_tokens hit = by_count (get_or_else hit.token_count 0)
  where
    by_count : ℕ → ℕ
    by_count Prim.Native.Nat.zero = max 1 ((length hit.title + 1 + length hit.content + 2) / 3)
    by_count (suc n) = suc n

abbrev pub is_next : Option ℕ → Option ℕ → Bool
is_next (some a) (some b) = b == a + 1
is_next _ _ = false

-- `headingPath.join('\u0000')`
unfoldable pub join_null : List Text → Text
join_null [] = []
join_null (t ∷ []) = t
join_null (t ∷ u ∷ us) = t ++ 0 ∷ join_null (u ∷ us)

unfoldable pub can_merge_adjacent : SearchHit → SearchHit → Bool
unfolding join_null
can_merge_adjacent left right =
    eq_text left.document_revision_id right.document_revision_id
    && is_next left.ordinal right.ordinal
    && eq_text (join_null left.heading_path) (join_null right.heading_path)

-- `byRevision`, in the order of insertion.
unfoldable pub add_to_group : SearchHit → List (List SearchHit) → List (List SearchHit)
add_to_group hit [] = (hit ∷ []) ∷ []
add_to_group hit (group ∷ groups) =
    if any (λ h. eq_text h.document_revision_id hit.document_revision_id) group
    then (group ++ hit ∷ []) ∷ groups
    else group ∷ add_to_group hit groups

unfoldable pub group_hits : List (List SearchHit) → List SearchHit → List (List SearchHit)
unfolding add_to_group
group_hits groups [] = groups
group_hits groups (h ∷ hs) = group_hits (add_to_group h groups) hs

abbrev pub comes_before : Option ℕ → Option ℕ → Bool
comes_before (some a) (some b) = ltb a b
comes_before _ _ = false

-- The stable sort by ordinal. Where a hit lacks one the comparison is not transitive, and the order is
-- the engine's.
unfoldable pub insert_hit : SearchHit → List SearchHit → List SearchHit
insert_hit h [] = h ∷ []
insert_hit h (x ∷ xs) = if comes_before x.ordinal h.ordinal then x ∷ insert_hit h xs else h ∷ x ∷ xs

unfoldable pub sort_hits : List SearchHit → List SearchHit
unfolding insert_hit
sort_hits [] = []
sort_hits (h ∷ hs) = insert_hit h (sort_hits hs)

unfoldable pub single : SearchHit → Evidence
unfolding estimate_tokens
single hit = record {
  hit = hit;
  merged_chunk_ids = hit.chunk_id ∷ [];
  estimated_tokens = estimate_tokens hit;
}

abbrev pub count_or : SearchHit → ℕ
count_or hit = get_or_else hit.token_count (estimate_tokens hit)

-- One round of the inner loop.
unfoldable pub extend : Evidence → SearchHit → Evidence
unfolding estimate_tokens
extend e next = record {
  hit = record e.hit {
    content = e.hit.content ++ 10 ∷ 10 ∷ next.content;
    token_count = some (count_or e.hit + count_or next);
  };
  merged_chunk_ids = e.merged_chunk_ids ++ next.chunk_id ∷ [];
  estimated_tokens = e.estimated_tokens + estimate_tokens next;
}

-- Both loops over a sorted group: the evidence so far, and the hit that it ends with.
unfoldable pub merge_from : Evidence → SearchHit → List SearchHit → List Evidence
unfolding can_merge_adjacent extend single
merge_from e last [] = e ∷ []
merge_from e last (h ∷ hs) =
    let joined = merge_from (extend e h) h hs in
    let apart = e ∷ merge_from (single h) h hs in
    if can_merge_adjacent last h then joined else apart

unfoldable pub merge_group : List SearchHit → List Evidence
unfolding merge_from
merge_group [] = []
merge_group (h ∷ hs) = merge_from (single h) h hs

unfoldable pub merge_groups : List (List SearchHit) → List Evidence
unfolding merge_group sort_hits
merge_groups [] = []
merge_groups (g ∷ gs) = merge_group (sort_hits g) ++ merge_groups gs

-- Evidence objects are told apart by their place in the list of all.
unfoldable pub numbered : ℕ → List Evidence → List (ℕ × Evidence)
numbered n [] = []
numbered n (e ∷ es) = (n, e) ∷ numbered (n + 1) es

-- `mergedByChunk.get(id)`: the last evidence that was stored for the chunk.
unfoldable pub evidence_for : Text → List (ℕ × Evidence) → Option (ℕ × Evidence)
evidence_for id es = find (λ p. contains id p.1.merged_chunk_ids) (reverse es)

abbrev pub seen_at : ℕ → List ℕ → Bool
seen_at n seen = any (λ m. m == n) seen

abbrev pub mark_seen : Option (ℕ × Evidence) → List ℕ → List ℕ
mark_seen none seen = seen
mark_seen (some (n, e)) seen = if seen_at n seen then seen else n ∷ seen

abbrev pub push_unseen : Option (ℕ × Evidence) → List ℕ → List Evidence → List Evidence
push_unseen none seen es = es
push_unseen (some (n, e)) seen es = if seen_at n seen then es else e ∷ es

-- The last loop: each evidence at the place of its first hit.
unfoldable pub in_hit_order : List (ℕ × Evidence) → List ℕ → List SearchHit → List Evidence
unfolding evidence_for
in_hit_order es seen [] = []
in_hit_order es seen (h ∷ hs) =
    let found = evidence_for h.chunk_id es in
    push_unseen found seen (in_hit_order es (mark_seen found seen) hs)

unfoldable pub merge_adjacent_hits : List SearchHit → List Evidence
unfolding group_hits merge_groups numbered in_hit_order
merge_adjacent_hits hits = in_hit_order (numbered 0 (merge_groups (group_hits [] hits))) [] hits
