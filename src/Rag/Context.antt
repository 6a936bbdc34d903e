-- ===== src/Rag/Context.antt =====
-- assembleContextEvidence of packages/rag/src/context-assembly.ts. What `toLocaleLowerCase` and the URL
-- parser of the platform do are parameters.
use tech_p.Base.{
  ℕ, ◌+◌, Bool, true, false, ◌&&◌, ◌||◌, Option, none, some, List, [], ◌∷◌, ◌++◌, map, any, keep_if,
  if◌then◌else◌, leb, ltb, ◌==◌, max, get_or_else, Date, at, invalid, Text, codes, eq_text,
  is_space, trim, starts_with,
}
use tech_p.Rag.Hits.{SearchHit, contains, distinct_count, cons_named}
use tech_p.Rag.Merging.{Evidence, merge_adjacent_hits}

pub data QueryIntent : Type 0 where
  trend_summary recent_updates compare_interest emerging_topics : QueryIntent

pub record Url : Type 0 where
  pub protocol : Text
  pub hostname : Text
  pub username : Text
  pub password : Text
  pub port : Text
  pub pathname : Text

-- The platform: `toLocaleLowerCase('en-US')` and `new URL`, which may throw.
pub record Platform : Type 0 where
  pub lower : Text → Text
  pub parse_url : Text → Option Url

pub record AssemblyOptions : Type 0 where
  pub intent : QueryIntent
  pub entity_count : ℕ
  pub latest_only : Bool
  pub repository_target : Option Text
  pub max_context_tokens : Option ℕ

pub record Sufficiency : Type 0 where
  pub sufficient : Bool
  pub reason : Option Text
  pub documents : ℕ
  pub sources : ℕ

pub record AssemblyResult : Type 0 where
  pub evidence : List Evidence
  pub total_estimated_tokens : ℕ
  pub dropped_for_budget : ℕ
  pub suppressed_duplicates : ℕ
  pub sufficiency : Sufficiency

-- `.replace(/\s+/gu, ' ')`
unfoldable pub collapse_spaces : Bool → Text → Text
collapse_spaces inside [] = []
collapse_spaces inside (c ∷ s) =
    let rest = collapse_spaces (is_space c) s in
    if is_space c then (if inside then rest else 32 ∷ rest) else c ∷ rest

-- REPOSITORY_TARGET_ALIASES
unfoldable pub repository_aliases : Text → List Text
repository_aliases target =
    if eq_text target (codes "facebook/react") then codes "react/react" ∷ [] else []

-- A date that is given, valid or not, is an object and so true.
abbrev pub has_date : Evidence → Bool
has_date e = elim e.hit.published_at [ none ↦ false | some d ↦ true ]

-- `Math.max(…times)`, which is NaN if any of them is.
abbrev pub later_of : Date → Date → Date
later_of (at a) (at b) = at (max a b)
later_of _ _ = invalid

unfoldable pub latest_from : Date → List Evidence → Date
latest_from d [] = d
latest_from d (e ∷ es) = latest_from (later_of d (get_or_else e.hit.published_at invalid)) es

-- `time === latest`, which is false of NaN.
abbrev pub same_time : Date → Date → Bool
same_time (at a) (at b) = a == b
same_time _ _ = false

abbrev pub revisions_at : Date → List Evidence → List Text
revisions_at latest es =
    map (λ (e : Evidence). e.hit.document_revision_id)
      (keep_if (λ e. same_time (get_or_else e.hit.published_at invalid) latest) es)

unfoldable pub only_latest : List Evidence → List Evidence → List Evidence
unfolding latest_from
only_latest scoped [] = scoped
only_latest scoped (d ∷ ds) =
    let latest = latest_from (get_or_else d.hit.published_at invalid) ds in
    keep_if (λ e. contains e.hit.document_revision_id (revisions_at latest (d ∷ ds))) scoped

unfoldable pub eligible_of : Bool → List Evidence → List Evidence
unfolding only_latest
eligible_of false scoped = scoped
eligible_of true scoped = only_latest scoped (keep_if has_date scoped)

-- The loop of suppressDuplicateUpstream: the clusters and contents so far.
pub record Suppressed : Type 0 where
  pub selected : List Evidence
  pub suppressed : ℕ

pub record Seen : Type 0 where
  pub clusters : List Text
  pub contents : List Text

abbrev pub nothing_seen : Seen
nothing_seen = record { clusters = []; contents = [] }

-- The cluster of a piece of evidence: an empty id is as good as none.
abbrev pub named : Option Text → Option Text
named (some (c ∷ s)) = some (c ∷ s)
named _ = none

abbrev pub cluster : Evidence → Option Text
cluster e = named e.hit.duplicate_cluster_id

abbrev pub keeping : Evidence → Suppressed → Suppressed
keeping e r = record r { selected = e ∷ r.selected }

abbrev pub counting : Suppressed → Suppressed
counting r = record r { suppressed = r.suppressed + 1 }

-- The selection within the budget: what is selected, its tokens and how many were dropped.
pub record Selected : Type 0 where
  pub chosen : List Evidence
  pub tokens : ℕ
  pub dropped : ℕ

unfoldable pub within_budget : ℕ → ℕ → List Evidence → Selected
within_budget limit total [] = record { chosen = []; tokens = total; dropped = 0 }
within_budget limit total (e ∷ es) =
    let taken = within_budget limit (total + e.estimated_tokens) es in
    let left = within_budget limit total es in
    if ltb limit (total + e.estimated_tokens)
    then record left { dropped = left.dropped + 1 }
    else record taken { chosen = e ∷ taken.chosen }

-- checkSufficiency
abbrev pub judged : Bool → Text → ℕ → ℕ → Sufficiency
judged holds reason documents sources = record {
  sufficient = holds;
  reason = if holds then none else some reason;
  documents = documents;
  sources = sources;
}

unfoldable pub check_by_intent : QueryIntent → ℕ → ℕ → ℕ → Sufficiency
check_by_intent QueryIntent.compare_interest entities documents sources =
    judged (leb (max 2 entities) documents)
      (codes "compare_requires_multiple_independent_documents") documents sources
check_by_intent QueryIntent.emerging_topics entities documents sources =
    judged (leb 2 documents) (codes "emerging_topics_require_multiple_documents") documents sources
check_by_intent _ entities documents sources = judged true [] documents sources

unfoldable pub source_keys : List Evidence → List Text
source_keys [] = []
source_keys (e ∷ es) = cons_named e.hit.source_key (source_keys es)

abbrev pub document_count : List Evidence → ℕ
document_count es = distinct_count (map (λ (e : Evidence). e.hit.document_revision_id) es)

unfoldable pub check_sufficiency : List Evidence → QueryIntent → ℕ → Sufficiency
unfolding check_by_intent source_keys distinct_count
check_sufficiency [] intent entities = judged false (codes "no_evidence") 0 0
check_sufficiency (e ∷ es) intent entities =
    check_by_intent intent entities (document_count (e ∷ es))
      (distinct_count (source_keys (e ∷ es)))

-- `Math.max(1, options.maxContextTokens ?? 4000)`
abbrev pub token_limit : Option ℕ → ℕ
token_limit o = max 1 (get_or_else o 4000)

-- `(clusterId && clusterIds.has(clusterId)) || (!clusterId && contentKeys.has(contentKey))`
abbrev pub repeats : Option Text → Text → Seen → Bool
repeats none key seen = contains key seen.contents
repeats (some id) key seen = contains id seen.clusters

abbrev pub remember : Option Text → Text → Seen → Seen
remember none key seen = record seen { contents = key ∷ seen.contents }
remember (some id) key seen = record seen { clusters = id ∷ seen.clusters }

module _ (platform : Platform) where
  open platform use {lower, parse_url}

  -- `path === `/${target}` || path.startsWith(`/${target}/`)`
  abbrev pub path_matches : Text → Text → Bool
  path_matches path target =
      eq_text path (codes "/" ++ target) || starts_with (codes "/" ++ (target ++ codes "/")) path

  unfoldable pub is_repository_url : List Text → Option Url → Bool
  unfolding starts_with
  is_repository_url targets none = false
  is_repository_url targets (some url) =
      eq_text url.protocol (codes "https:")
      && eq_text url.hostname (codes "github.com")
      && eq_text url.username []
      && eq_text url.password []
      && eq_text url.port []
      && any (path_matches (lower url.pathname)) targets

  -- An empty target is as good as none.
  unfoldable pub scope_of : Option Text → List Evidence → List Evidence
  unfolding is_repository_url repository_aliases
  scope_of (some (c ∷ s)) merged =
      keep_if
        (λ e.
          is_repository_url (lower (c ∷ s) ∷ repository_aliases (lower (c ∷ s)))
            (parse_url (get_or_else e.hit.canonical_url [])))
        merged
  scope_of _ merged = merged

  unfoldable pub content_key : Evidence → Text
  unfolding collapse_spaces
  content_key e = lower e.hit.title ++ 0 ∷ lower (trim (collapse_spaces false e.hit.content))

  unfoldable pub suppress_from : Seen → List Evidence → Suppressed
  unfolding content_key
  suppress_from seen [] = record { selected = []; suppressed = 0 }
  suppress_from seen (e ∷ es) =
      let again = counting (suppress_from seen es) in
      let first = keeping e (suppress_from (remember (cluster e) (content_key e) seen) es) in
      if repeats (cluster e) (content_key e) seen then again else first

  unfoldable pub eligible : AssemblyOptions → List SearchHit → List Evidence
  unfolding merge_adjacent_hits scope_of eligible_of
  eligible o hits =
      eligible_of o.latest_only (scope_of o.repository_target (merge_adjacent_hits hits))

  unfoldable pub assemble_context_evidence : AssemblyOptions → List SearchHit → AssemblyResult
  unfolding eligible suppress_from within_budget check_sufficiency
  assemble_context_evidence o hits =
      let unique = suppress_from nothing_seen (eligible o hits) in
      let picked = within_budget (token_limit o.max_context_tokens) 0 unique.selected in
      record {
        evidence = picked.chosen;
        total_estimated_tokens = picked.tokens;
        dropped_for_budget = picked.dropped;
        suppressed_duplicates = unique.suppressed;
        sufficiency = check_sufficiency picked.chosen o.intent o.entity_count;
      }
