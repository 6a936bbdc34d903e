-- ===== src/Rag/Hits.antt =====
-- SearchHit of packages/domain/src/search.ts, as far as packages/rag reads it, and lists of its ids.
use tech_p.Base.{
  ℕ, Bool, Option, none, some, List, [], ◌∷◌, ◌++◌, any, if◌then◌else◌, length, Date, Text, eq_text,
}

pub record SearchHit : Type 0 where
  pub canonical_url : Option Text
  pub source_key : Option Text
  pub chunk_id : Text
  pub document_id : Text
  pub duplicate_cluster_id : Option Text
  pub document_revision_id : Text
  pub title : Text
  pub content : Text
  pub heading_path : List Text
  pub ordinal : Option ℕ
  pub token_count : Option ℕ
  pub published_at : Option Date

abbrev pub contains : Text → List Text → Bool
contains t ts = any (λ u. eq_text u t) ts

-- `new Set(texts)` in the order of insertion, and its size.
unfoldable pub add_distinct : List Text → List Text → List Text
add_distinct seen [] = seen
add_distinct seen (t ∷ ts) = add_distinct (if contains t seen then seen else seen ++ t ∷ []) ts

unfoldable pub distinct_count : List Text → ℕ
unfolding add_distinct
distinct_count ts = length (add_distinct [] ts)

-- `.filter(Boolean)` of keys: what is absent or empty is left out.
abbrev pub cons_named : Option Text → List Text → List Text
cons_named none ts = ts
cons_named (some []) ts = ts
cons_named (some (c ∷ s)) ts = (c ∷ s) ∷ ts
