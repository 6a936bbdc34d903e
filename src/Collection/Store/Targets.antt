-- ===== src/Collection/Store/Targets.antt =====
-- registerTarget and setTargetEnabled of packages/database/src/collection-state.ts.
use tech_p.Base.{
  ℕ, ◌+◌, Bool, true, false, not, ◌&&◌, Option, none, some, [], ◌∷◌, ◌++◌, find, any, update_where,
  if◌then◌else◌, leb, ◌==◌, Text, eq_text, is_blank, Num, safe_nat, Result, ok, ◌>>=◌, ◌>>◌,
  throw_if, need,
}
use tech_p.Collection.Model.{
  CollectionError, not_found, invalid_state, policy_blocked, check_violation, TargetPolicy,
  TargetCapability, TargetRevision,
}
use tech_p.Collection.Policy.{assert_collectable}
use tech_p.Collection.Store.{Db, TargetRow, RevisionRow, read_target, eq_some}

-- The input of registerTarget. `config_hash` is the hash of its configuration, and `capability` has the
-- cursor version once `cursor_version` has been tested.
pub record TargetInput : Type 0 where
  pub source_id : ℕ
  pub source_key : Text
  pub canonical_identity : Text
  pub taxonomy_version : Option Text
  pub topics : ℕ
  pub cursor_version : Num
  pub capability : TargetCapability
  pub policy : TargetPolicy
  pub cadence_ms : Option ℕ
  pub overlap_ms : ℕ
  pub config_hash : Text

abbrev lacks_text : Option Text → Bool
lacks_text none = true
lacks_text (some s) = is_blank s

abbrev at_least_one : Option ℕ → Bool
at_least_one none = false
at_least_one (some n) = leb 1 n

unfoldable pub valid_input : TargetInput → Bool
valid_input i =
    not (lacks_text i.taxonomy_version)
    && not (is_blank i.canonical_identity)
    && at_least_one (safe_nat i.cursor_version)
    && leb i.topics 32

-- The check constraints of collection_target_revisions.
abbrev slow_enough : Option ℕ → Bool
slow_enough none = true
slow_enough (some ms) = leb 60000 ms

abbrev pub row_allowed : TargetInput → Bool
row_allowed i = slow_enough i.cadence_ms && leb i.overlap_ms 86400000

abbrev pub is_target : TargetInput → TargetRow → Bool
is_target i t = t.source_id == i.source_id && eq_text t.canonical_identity i.canonical_identity

abbrev pub is_revision : ℕ → Text → RevisionRow → Bool
is_revision target_id hash r = r.target_id == target_id && eq_text r.config_hash hash

-- `insert into collection_targets … on conflict do nothing`
unfoldable pub insert_target : TargetInput → Db → Db
insert_target i db = if any (is_target i) db.targets then db else record db {
  targets =
      db.targets
      ++ record {
        id = db.next_id;
        source_id = i.source_id;
        canonical_identity = i.canonical_identity;
        current_revision_id = none;
        enabled = false;
      }
        ∷ [];
  next_id = db.next_id + 1;
}

-- `insert into collection_target_revisions … on conflict do nothing`
unfoldable pub insert_revision : TargetInput → ℕ → Db → Db
insert_revision i target_id db =
    if any (is_revision target_id i.config_hash) db.revisions then db else record db {
      revisions =
          db.revisions
          ++ record {
            id = db.next_id;
            target_id = target_id;
            config_hash = i.config_hash;
            capability = i.capability;
            policy = i.policy;
            cadence_ms = i.cadence_ms;
            overlap_ms = i.overlap_ms;
          }
            ∷ [];
      next_id = db.next_id + 1;
    }

-- The revision becomes the current one, and another than before takes the enabling back.
abbrev pub point_to : Bool → ℕ → TargetRow → TargetRow
point_to same revision t = record t {
  current_revision_id = some revision;
  enabled = same && t.enabled;
}

unfoldable pub register_target : TargetInput → Db → Result CollectionError (TargetRevision × Db)
unfolding valid_input insert_target insert_revision
register_target i db = do
  throw_if (not (valid_input i)) invalid_state
  source ← need (find (λ s. s.id == i.source_id) db.sources) not_found
  throw_if (not (eq_text source.key i.source_key)) not_found
  throw_if (i.policy.approved && not source.policy_reviewed) policy_blocked
  let with_target = insert_target i db
  target ← need (find (is_target i) with_target.targets) not_found
  throw_if (not (row_allowed i)) check_violation
  let with_revision = insert_revision i target.id with_target
  revision ← need (find (is_revision target.id i.config_hash) with_revision.revisions) not_found
  let pointed = record with_revision {
    targets =
        update_where (λ t. t.id == target.id)
          (point_to (eq_some target.current_revision_id revision.id) revision.id)
          with_revision.targets;
  }
  result ← need (read_target revision.id pointed) not_found
  ok (result, pointed)

abbrev pub set_enabled : ℕ → Bool → Db → Db
set_enabled id enabled db = record db {
  targets = update_where (λ t. t.id == id) (λ t. record t { enabled = enabled }) db.targets;
}

abbrev pub enabling : Bool → TargetRevision → Result CollectionError (Unit {0})
enabling true r = assert_collectable (record r { enabled = true })
enabling false r = ok tt

unfoldable pub set_target_enabled : ℕ → Bool → Db → Result CollectionError Db
set_target_enabled id enabled db = do
  t ← need (find (λ t. t.id == id) db.targets) not_found
  current ← need t.current_revision_id not_found
  revision ← need (read_target current db) not_found
  enabling enabled revision
  ok (set_enabled id enabled db)
