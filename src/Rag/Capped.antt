-- ===== src/Rag/Capped.antt =====
-- The caps and the limit of the selection of packages/rag/src/retrieval-fusion.ts.
use tech_p.Base.{
  ℕ, ◌+◌, ◌≤◌, ◌<◌, ◌≡◌, ap, inl, inr, false, List, [], ◌∷◌, arith, if◌then◌else◌, leb, Bool-cases,
  length, Text, eq_text, eq_text_iff,
}
use tech_p.Rag.Hits.{SearchHit}
use tech_p.Rag.Fusion.{
  Caps, Counts, Tally, bump, cluster_key, source_key, is_capped, counted, select_from,
}

-- How many hits of a list have the key.
unfoldable pub count_by : (SearchHit → Text) → Text → List SearchHit → ℕ
count_by key k [] = 0
count_by key k (h ∷ hs) = count_by key k hs + (if eq_text (key h) k then 1 else 0)

abbrev pub revision_key : SearchHit → Text
revision_key h = h.document_revision_id

-- Counts that stay within a cap, and with them those of the hits that are selected next.
abbrev pub Fits : ℕ → (SearchHit → Text) → Counts → List SearchHit → Type 0
Fits cap key counts hits = (k : Text) → counts k ≤ cap → counts k + count_by key k hits ≤ cap

none-Fits : (cap : ℕ) (key : SearchHit → Text) (counts : Counts) → Fits cap key counts []
unfolding count_by
none-Fits cap key counts k h = omega arith

more-Fits :
    (cap : ℕ) (key : SearchHit → Text) (counts : Counts) (hit : SearchHit) (hits : List SearchHit)
    → leb cap (counts (key hit)) ≡ false
    → Fits cap key (bump (key hit) counts) hits
    → Fits cap key counts (hit ∷ hits)
unfolding count_by
more-Fits cap key counts hit hits room rest k h = elim (Bool-cases (eq_text (key hit) k)) [
  | inl same ↦
      let this = (eq_text_iff (key hit) k).0 same in
      let below : counts k < cap = ground (arith, ap counts this) in
      let next = rest k (rw same (omega arith)) in
      rw same (let bumped = (rw same at next) in omega arith)
  | inr other ↦
      rw other (let kept = rest k (rw other h) in let same = (rw other at kept) in omega arith)
]

-- The three counts of a selection stay within the caps.
pub record IsCapped (caps : Caps) (t : Tally) (hits : List SearchHit) : Type 0 where
  pub by_revision : Fits caps.per_revision revision_key t.revisions hits
  pub by_cluster : Fits caps.per_cluster cluster_key t.clusters hits
  pub by_source : Fits caps.per_source source_key t.sources hits

none-IsCapped : (caps : Caps) (t : Tally) → IsCapped caps t []
none-IsCapped caps t = record {
  by_revision = none-Fits caps.per_revision revision_key t.revisions;
  by_cluster = none-Fits caps.per_cluster cluster_key t.clusters;
  by_source = none-Fits caps.per_source source_key t.sources;
}

more-IsCapped :
    (caps : Caps) (t : Tally) (hit : SearchHit) (hits : List SearchHit)
    → is_capped caps t hit ≡ false
    → IsCapped caps (counted hit t) hits
    → IsCapped caps t (hit ∷ hits)
more-IsCapped caps t hit hits room rest = record {
  by_revision =
      more-Fits caps.per_revision revision_key t.revisions hit hits (ground arith) rest.by_revision;
  by_cluster =
      more-Fits caps.per_cluster cluster_key t.clusters hit hits (ground arith) rest.by_cluster;
  by_source = more-Fits caps.per_source source_key t.sources hit hits (ground arith) rest.by_source;
}

pub select_from-IsCapped :
    (caps : Caps) (limit taken : ℕ) (t : Tally) (hits : List SearchHit)
    → IsCapped caps t (select_from caps limit taken t hits)
unfolding select_from
select_from-IsCapped caps limit taken t [] = none-IsCapped caps t
select_from-IsCapped caps limit taken t (hit ∷ hits) = elim (Bool-cases (is_capped caps t hit)) [
  | inl full ↦ rw full (select_from-IsCapped caps limit taken t hits)
  | inr room ↦ rw room (elim (Bool-cases (leb limit (taken + 1))) [
    | inl last ↦ rw last (more-IsCapped caps t hit [] room (none-IsCapped caps (counted hit t)))
    | inr early ↦ rw early (
        more-IsCapped caps t hit _ room
          (select_from-IsCapped caps limit (taken + 1) (counted hit t) hits))
  ])
]

pub length-select_from-le :
    (caps : Caps) (limit taken : ℕ) (t : Tally) (hits : List SearchHit)
    → taken < limit
    → taken + length (select_from caps limit taken t hits) ≤ limit
unfolding select_from
length-select_from-le caps limit taken t [] h = omega arith
length-select_from-le caps limit taken t (hit ∷ hits) h = ground (
  arith,
  length-select_from-le caps limit taken t hits,
  length-select_from-le caps limit (taken + 1) (counted hit t) hits,
)
