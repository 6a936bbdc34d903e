-- ===== src/Rag/Budgeted.antt =====
-- The evidence that assembleContextEvidence of packages/rag/src/context-assembly.ts hands on: its tokens, what
-- became of the rest, and what of it is alike.
use tech_p.Base.{
  ℕ, ◌+◌, ◌≤◌, ◌≡◌, ◌≢◌, refl, false, Option, none, some, List, [], ◌∷◌, arith, any, ltb,
  Bool-cases, inl, inr, length, sum_by, All, All-map, max, get_or_else, Text, eq_text_iff, sym, ◌∙◌,
  ap,
}
use tech_p.Rag.Hits.{SearchHit, contains}
use tech_p.Rag.Merging.{Evidence}
use tech_p.Rag.Spacing.{spaced, trim-collapse_spaces}
use tech_p.Rag.Context.{
  Platform, AssemblyOptions, Suppressed, Selected, Seen, nothing_seen, cluster, named, repeats,
  remember, within_budget, suppress_from, content_key, eligible, token_limit,
  assemble_context_evidence,
}

abbrev pub tokens_of : List Evidence → ℕ
tokens_of es = sum_by (λ (e : Evidence). e.estimated_tokens) es

-- A list with some of another's elements, in their order.
pub data IsSub {A : Type 0} : List A → List A → Type 0 where
  done : IsSub [] []
  keep : (x : A) (xs ys : List A) → IsSub xs ys → IsSub (x ∷ xs) (x ∷ ys)
  skip : (y : A) (xs ys : List A) → IsSub xs ys → IsSub xs (y ∷ ys)

IsSub-trans : {A : Type 0} (xs ys zs : List A) → IsSub xs ys → IsSub ys zs → IsSub xs zs
IsSub-trans _ _ _ h (skip z ys zs k) = skip z _ zs (IsSub-trans _ ys zs h k)
IsSub-trans _ _ _ (keep x xs ys h) (keep _ _ zs k) = keep x xs zs (IsSub-trans xs ys zs h k)
IsSub-trans _ _ _ (skip y xs ys h) (keep _ _ zs k) = skip y xs zs (IsSub-trans xs ys zs h k)
IsSub-trans _ _ _ h done = h

within_budget-IsSub :
    (limit total : ℕ) (es : List Evidence) → IsSub (within_budget limit total es).chosen es
unfolding within_budget
within_budget-IsSub limit total [] = done
within_budget-IsSub limit total (e ∷ es) =
    elim (Bool-cases (ltb limit (total + e.estimated_tokens))) [
      | inl over ↦ rw over (skip e _ es (within_budget-IsSub limit total es))
      | inr fits ↦ rw fits (keep e _ es (within_budget-IsSub limit (total + e.estimated_tokens) es))
    ]

-- What a selection within a limit amounts to.
record IsWithin (limit total : ℕ) (es : List Evidence) (r : Selected) : Type 0 where
  counted : r.tokens ≡ total + tokens_of r.chosen
  bounded : total ≤ limit → r.tokens ≤ limit
  complete : length r.chosen + r.dropped ≡ length es

within_budget-IsWithin :
    (limit total : ℕ) (es : List Evidence) → IsWithin limit total es (within_budget limit total es)
unfolding within_budget sum_by
within_budget-IsWithin limit total [] = record {
  counted = omega arith;
  bounded = λ h. h;
  complete = omega arith;
}
within_budget-IsWithin limit total (e ∷ es) =
    elim (Bool-cases (ltb limit (total + e.estimated_tokens))) [
      | inl over ↦
          let left = within_budget-IsWithin limit total es in
          rw over (record {
            counted = left.counted;
            bounded = left.bounded;
            complete = let c = left.complete in omega arith;
          })
      | inr fits ↦
          let taken = within_budget-IsWithin limit (total + e.estimated_tokens) es in
          rw fits (record {
            counted = let c = taken.counted in omega arith;
            bounded = λ h. taken.bounded (ground arith);
            complete = let c = taken.complete in omega arith;
          })
    ]

-- Two pieces of evidence that do not repeat each other: of two clusters, or of two contents if neither is
-- in a cluster.
abbrev pub Apart : Option Text → Text → Option Text → Text → Type 0
Apart (some id) key (some id') key' = id ≢ id'
Apart none key none key' = key ≢ key'
Apart _ key _ key' = Unit

not_in : (t u : Text) (ts : List Text) → contains u (t ∷ ts) ≡ false → t ≢ u
unfolding any
not_in t u ts h e = let same = (eq_text_iff t u).1 e in ground arith

not_behind : (t u : Text) (ts : List Text) → contains u (t ∷ ts) ≡ false → contains u ts ≡ false
unfolding any
not_behind t u ts h = ground arith

-- What was remembered is not repeated by what is fresh.
fresh-Apart :
    (o : Option Text) (key : Text) (seen : Seen) (o' : Option Text) (key' : Text)
    → repeats o' key' (remember o key seen) ≡ false
    → Apart o key o' key' × (repeats o' key' seen ≡ false)
fresh-Apart none key seen none key' h =
    (not_in key key' seen.contents h, not_behind key key' seen.contents h)
fresh-Apart none key seen (some id) key' h = (tt, h)
fresh-Apart (some id) key seen none key' h = (tt, h)
fresh-Apart (some id) key seen (some id') key' h =
    (not_in id id' seen.clusters h, not_behind id id' seen.clusters h)

module _ (platform : Platform) where
  abbrev pub Differs : Evidence → Evidence → Type 0
  Differs e f = Apart (cluster e) (content_key platform e) (cluster f) (content_key platform f)

  abbrev pub Independent : List Evidence → Type 0
  Independent [] = Unit
  Independent (e ∷ es) = All (Differs e) es × Independent es

  abbrev Fresh : Seen → Evidence → Type 0
  Fresh seen f = repeats (cluster f) (content_key platform f) seen ≡ false

  record IsUnique (seen : Seen) (es : List Evidence) (r : Suppressed) : Type 0 where
    counted : length r.selected + r.suppressed ≡ length es
    fresh : All (Fresh seen) r.selected
    independent : Independent r.selected

  suppress_from-IsUnique :
      (seen : Seen) (es : List Evidence) → IsUnique seen es (suppress_from platform seen es)
  unfolding suppress_from
  suppress_from-IsUnique seen [] = record { counted = omega arith; fresh = tt; independent = tt }
  suppress_from-IsUnique seen (e ∷ es) =
      elim (Bool-cases (repeats (cluster e) (content_key platform e) seen)) [
        | inl again ↦
            let rest = suppress_from-IsUnique seen es in
            rw again (record {
              counted = let c = rest.counted in omega arith;
              fresh = rest.fresh;
              independent = rest.independent;
            })
        | inr first ↦
            let now = remember (cluster e) (content_key platform e) seen in
            let rest = suppress_from-IsUnique now es in
            let chosen = (suppress_from platform now es).selected in
            let apart = λ (f : Evidence) (h : Fresh now f).
              fresh-Apart (cluster e) (content_key platform e) seen (cluster f)
                (content_key platform f) h in
            rw first (record {
              counted = let c = rest.counted in omega arith;
              fresh = (
                first,
                All-map (Fresh now) (Fresh seen) chosen (λ f h. (apart f h).1) rest.fresh,
              );
              independent = (
                All-map (Fresh now) (Differs e) chosen (λ f h. (apart f h).0) rest.fresh,
                rest.independent,
              );
            })
      ]

  suppress_from-IsSub :
      (seen : Seen) (es : List Evidence) → IsSub (suppress_from platform seen es).selected es
  unfolding suppress_from
  suppress_from-IsSub seen [] = done
  suppress_from-IsSub seen (e ∷ es) =
      elim (Bool-cases (repeats (cluster e) (content_key platform e) seen)) [
        | inl again ↦ rw again (skip e _ es (suppress_from-IsSub seen es))
        | inr first ↦
            let now = remember (cluster e) (content_key platform e) seen in
            rw first (keep e _ es (suppress_from-IsSub now es))
      ]

  -- A selection of independent evidence is independent.
  All-chosen :
      (P : Evidence → Type 0) (limit total : ℕ) (es : List Evidence)
      → All P es
      → All P (within_budget limit total es).chosen
  unfolding within_budget
  All-chosen P limit total [] h = tt
  All-chosen P limit total (e ∷ es) h = elim (Bool-cases (ltb limit (total + e.estimated_tokens))) [
    | inl over ↦ rw over (All-chosen P limit total es h.1)
    | inr fits ↦ rw fits (h.0, All-chosen P limit (total + e.estimated_tokens) es h.1)
  ]

  chosen-Independent :
      (limit total : ℕ) (es : List Evidence)
      → Independent es
      → Independent (within_budget limit total es).chosen
  unfolding within_budget
  chosen-Independent limit total [] h = tt
  chosen-Independent limit total (e ∷ es) h =
      elim (Bool-cases (ltb limit (total + e.estimated_tokens))) [
        | inl over ↦ rw over (chosen-Independent limit total es h.1)
        | inr fits ↦ rw fits (
          All-chosen (Differs e) limit (total + e.estimated_tokens) es h.0,
          chosen-Independent limit (total + e.estimated_tokens) es h.1,
        )
      ]

  -- The evidence of a context has as many tokens as are reported, and no more than the limit, which is at
  -- least one. It is some of the evidence that was eligible, as it was and in its order, and the rest is
  -- counted, as dropped for the budget or suppressed as a duplicate.
  pub context_within_budget :
      (o : AssemblyOptions) (hits : List SearchHit)
      → ((assemble_context_evidence platform o hits).total_estimated_tokens
          ≡ tokens_of (assemble_context_evidence platform o hits).evidence)
        × ((assemble_context_evidence platform o hits).total_estimated_tokens
            ≤ max 1 (get_or_else o.max_context_tokens 4000))
        × IsSub (assemble_context_evidence platform o hits).evidence (eligible platform o hits)
        × (length (assemble_context_evidence platform o hits).evidence
              + (assemble_context_evidence platform o hits).dropped_for_budget
              + (assemble_context_evidence platform o hits).suppressed_duplicates
            ≡ length (eligible platform o hits))
  unfolding assemble_context_evidence
  context_within_budget o hits =
      let unique = suppress_from platform nothing_seen (eligible platform o hits) in
      let within = within_budget-IsWithin (token_limit o.max_context_tokens) 0 unique.selected in
      let all = suppress_from-IsUnique nothing_seen (eligible platform o hits) in
      let counted = within.counted in
      let complete = within.complete in
      let others = all.counted in
      (
        omega arith,
        within.bounded (omega arith),
        IsSub-trans _ unique.selected (eligible platform o hits)
            (within_budget-IsSub (token_limit o.max_context_tokens) 0 unique.selected)
            (suppress_from-IsSub nothing_seen (eligible platform o hits)),
        omega arith,
      )

  -- Of two pieces of evidence in clusters, these differ; of two in none, the titles differ, letter case aside,
  -- or the contents do, letter case aside and as words with one space between two of them.
  -- An empty name of a cluster is as good as none.
  abbrev pub Distinct : Option Text → Option Text → SearchHit → SearchHit → Type 0
  Distinct (some (c ∷ id)) (some (d ∷ id')) e f = (c ∷ id) ≢ (d ∷ id')
  Distinct (some (c ∷ id)) _ e f = Unit
  Distinct _ (some (d ∷ id')) e f = Unit
  Distinct _ _ e f = ¬ (
      (platform.lower e.title ≡ platform.lower f.title)
      × (platform.lower (spaced false e.content) ≡ platform.lower (spaced false f.content)))

  abbrev pub DistinctFrom : Evidence → Evidence → Type 0
  DistinctFrom e f = Distinct e.hit.duplicate_cluster_id f.hit.duplicate_cluster_id e.hit f.hit

  abbrev pub AllDiffer : List Evidence → Type 0
  AllDiffer [] = Unit
  AllDiffer (e ∷ es) = All (DistinctFrom e) es × AllDiffer es

  keys_differ :
      (e f : Evidence)
      → content_key platform e ≢ content_key platform f
      → ¬ (
          (platform.lower e.hit.title ≡ platform.lower f.hit.title)
          × (platform.lower (spaced false e.hit.content)
              ≡ platform.lower (spaced false f.hit.content)))
  unfolding content_key
  keys_differ e f differ (titles, contents) =
      let same =
        ap platform.lower (trim-collapse_spaces e.hit.content)
        ∙ (contents ∙ sym (ap platform.lower (trim-collapse_spaces f.hit.content))) in
      differ (rw (titles, same) refl)

  Apart-Distinct :
      (a b : Option Text) (e f : Evidence)
      → Apart (named a) (content_key platform e) (named b) (content_key platform f)
      → Distinct a b e.hit f.hit
  Apart-Distinct (some (c ∷ id)) (some (d ∷ id')) e f h = h
  Apart-Distinct (some (c ∷ id)) (some []) e f h = tt
  Apart-Distinct (some (c ∷ id)) none e f h = tt
  Apart-Distinct (some []) (some (d ∷ id')) e f h = tt
  Apart-Distinct none (some (d ∷ id')) e f h = tt
  Apart-Distinct (some []) (some []) e f h = keys_differ e f h
  Apart-Distinct (some []) none e f h = keys_differ e f h
  Apart-Distinct none (some []) e f h = keys_differ e f h
  Apart-Distinct none none e f h = keys_differ e f h

  Independent-AllDiffer : (es : List Evidence) → Independent es → AllDiffer es
  Independent-AllDiffer [] h = tt
  Independent-AllDiffer (e ∷ es) h = (
    All-map (Differs e) (DistinctFrom e) es
        (λ f d. Apart-Distinct e.hit.duplicate_cluster_id f.hit.duplicate_cluster_id e f d) h.0,
    Independent-AllDiffer es h.1,
  )

  -- No two pieces of evidence of a context are of one cluster of duplicates, and no two that are in no
  -- cluster have the same title, letter case aside, and the same content, letter case and white space aside.
  pub assemble_context_evidence-Independent :
      (o : AssemblyOptions) (hits : List SearchHit)
      → AllDiffer (assemble_context_evidence platform o hits).evidence
  unfolding assemble_context_evidence
  assemble_context_evidence-Independent o hits =
      let unique = suppress_from platform nothing_seen (eligible platform o hits) in
      Independent-AllDiffer _ (
        chosen-Independent (token_limit o.max_context_tokens) 0 unique.selected
          (suppress_from-IsUnique nothing_seen (eligible platform o hits)).independent)
