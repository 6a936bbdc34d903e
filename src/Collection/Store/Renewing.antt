-- ===== src/Collection/Store/Renewing.antt =====
-- The transactions of packages/database/src/collection-state.ts on a page that is leased or was: renewPage,
-- failPage, resumePartition.
use tech_p.Base.{
  ℕ, ◌+◌, Bool, true, false, not, ◌||◌, Option, none, some, [], ◌∷◌, if◌then◌else◌, Text, is_some,
  get_or_else, Num, Result, ok, ◌>>=◌, ◌>>◌, throw_if, need,
}
use tech_p.Collection.Model.{
  CollectionError, not_found, invalid_state, TargetRevision, Partition, PartitionState, Claim,
}
use tech_p.Collection.Policy.{assert_collectable}
use tech_p.Collection.Store.{
  Db, find_partition, read_target, fence_page, collection_delivery, set_partition, set_delivery,
  set_run, has_expired,
}
use tech_p.Collection.Store.Leasing.{lease_duration, fail_run}

unfoldable pub renew_target :
    Option TargetRevision → Claim → ℕ → ℕ → Db → Result CollectionError (Bool × Db)
renew_target none claim now lease db = ok (false, db)
renew_target (some target) claim now lease db = do
  assert_collectable target
  fence_page claim now db >>= λ _. ok (
    true,
    set_partition claim.partition.id (λ p. record p { lease_until = some (now + lease) }) db,
  )

unfoldable pub renew_page : Claim → ℕ → Num → Db → Result CollectionError (Bool × Db)
unfolding renew_target
renew_page claim now lease_ms db = do
  lease ← need (lease_duration lease_ms) invalid_state
  renew_target (read_target claim.target.id db) claim now lease db

-- `reason.slice(0, n)`
unfoldable pub slice : ℕ → Text → Text
slice Prim.Native.Nat.zero s = []
slice (Prim.Native.Nat.suc n) [] = []
slice (Prim.Native.Nat.suc n) (c ∷ s) = c ∷ slice n s

abbrev pub failed_page : Text → Option ℕ → ℕ → Partition → Partition
failed_page reason retry_at now p = record p {
  state = if is_some retry_at then PartitionState.deferred else PartitionState.failed;
  reason = some (slice 128 reason);
  next_due_at = get_or_else retry_at now;
  lease_until = none;
}

unfoldable pub fail_page : Claim → Text → Option ℕ → ℕ → Db → Result CollectionError Db
fail_page claim reason retry_at now db = do
  row ← fence_page claim now db
  ok (
      set_delivery row.id row.page_sequence
        (λ d. record d {
          not_before = get_or_else retry_at now;
          sent_at = none;
          completed_at = if is_some retry_at then none else some now;
        })
        (set_run claim.run_id (fail_run now)
          (set_partition row.id (failed_page reason retry_at now) db)))

-- completed, partial
abbrev pub is_final : PartitionState → Bool
is_final PartitionState.completed = true
is_final PartitionState.partial = true
is_final _ = false

abbrev pub resumed : ℕ → Partition → Partition
resumed now p = record p {
  state = PartitionState.pending;
  next_due_at = now;
  lease_until = none;
  reason = none;
}

unfoldable pub resume_partition : ℕ → ℕ → Db → Result CollectionError (Partition × Db)
resume_partition id now db = do
  row ← need (find_partition id db.partitions) not_found
  target ← need (read_target row.plan.target_revision_id db) not_found
  assert_collectable target
  throw_if (is_final row.state || not (has_expired row.lease_until now)) invalid_state
  ok (
    resumed now row,
    set_delivery id row.page_sequence
        (λ d. record d { completed_at = none; sent_at = none; not_before = now })
        (collection_delivery id row.page_sequence now (set_partition id (resumed now) db)),
  )
