-- ===== src/Collection/Committing.antt =====
-- `commitPage` of packages/database/src/collection-state.ts as a step of Collection/Lifecycle.antt.
use mathlib.Core.Path.{subst}
use tech_p.Base.{
  ℕ, ◌+◌, ◌≡◌, refl, sym, ◌∙◌, ap, Bool-cases, inl, inr, ◌&&◌, Option, some, List, [], ◌∷◌, arith,
  find, any, update_where, ◌==◌, ok, throw_if, need, ok_injective, bind-eq-ok,
}
use tech_p.Collection.Model.{
  invalid_page, not_found, unique_violation, Partition, TargetRevision, TargetPolicy, Claim,
  RawItem, PageResult, normalization_of, normalization,
}
use tech_p.Collection.Policy.{assert_collectable, check_url, item_rights}
use tech_p.Collection.Page.{CursorCodec, decode_page_cursor, validate_page_result}
use tech_p.Collection.Store.{Db, read_target, fence_page}
use tech_p.Collection.Store.Commit.{
  commit_page, store_item, store_items, insert_raw, insert_membership, insert_checkpoint,
  finish_page, advanced, same_raw, not_later, is_complete, is_backfill, has_no_history,
  has_next_page, due_after,
}
use tech_p.Collection.Lifecycle.{commit, Follows}
use tech_p.Collection.Refines.{
  Moves, fence_page-eq-ok, found_id, insert_delivery-partitions, collection_delivery-partitions,
}
use tech_p.Collection.Paging.{fenced-Follows}

insert_raw-partitions :
    (source run : ℕ) (item : RawItem) (rights : TargetPolicy) (db : Db)
    → (insert_raw source run item rights db).partitions ≡ db.partitions
unfolding insert_raw
insert_raw-partitions source run item rights db = ground arith

insert_membership-partitions :
    (id raw run : ℕ) (db : Db) → (insert_membership id raw run db).partitions ≡ db.partitions
unfolding insert_membership
insert_membership-partitions id raw run db = ground arith

store_item-partitions :
    (t : TargetRevision) (row : Partition) (run now : ℕ) (item : RawItem) (db db' : Db)
    → store_item t row run now item db ≡ ok db'
    → db'.partitions ≡ db.partitions
unfolding store_item
store_item-partitions t row run now item db db' e =
    let (_, _, e1) = bind-eq-ok (check_url item.url) _ e in
    let (rights, _, e2) = bind-eq-ok (item_rights item.rights t.policy) _ e1 in
    let stored = insert_raw t.source_id run item rights db in
    let (raw, _, e3) =
      bind-eq-ok
        (need (find (same_raw t.source_id item.external_id item.raw_hash) stored.raw_items)
          invalid_page)
        _ e2 in
    cc (
      e3,
      insert_raw-partitions t.source_id run item rights db,
      insert_membership-partitions row.id raw.id run stored,
      insert_delivery-partitions (normalization_of raw.id row.plan.workflow_version) normalization
          row.id row.page_sequence (some raw.id) Option.none now
          (insert_membership row.id raw.id run stored),
    )

store_items-partitions :
    (t : TargetRevision) (row : Partition) (run now : ℕ) (items : List RawItem) (db db' : Db)
    → store_items t row run now items db ≡ ok db'
    → db'.partitions ≡ db.partitions
unfolding store_items
store_items-partitions t row run now [] db db' e =
    let same : db ≡ db' = cc in ap (λ (d : Db). d.partitions) (sym same)
store_items-partitions t row run now (item ∷ items) db db' e =
    let (mid, first, e1) = bind-eq-ok (store_item t row run now item db) _ e in
    store_items-partitions t row run now items mid db' e1
    ∙ store_item-partitions t row run now item db mid first

insert_checkpoint-partitions :
    (row : Partition) (result : PageResult) (requests bytes : ℕ) (db db' : Db)
    → insert_checkpoint row result requests bytes db ≡ ok db'
    → db'.partitions ≡ db.partitions
unfolding insert_checkpoint
insert_checkpoint-partitions row result requests bytes db db' e =
    let (_, _, e1) =
      bind-eq-ok
        (throw_if
          (any (λ c. c.partition_id == row.id && c.page_sequence == row.page_sequence)
            db.checkpoints)
          unique_violation)
        _ e in
    let same : db.partitions ≡ db'.partitions = cc in sym same

finish_page-partitions :
    (row : Partition) (run : ℕ) (result : PageResult) (now : ℕ) (db : Db)
    → (finish_page row run result now db).partitions
      ≡ update_where (λ p. p.id == row.id) (advanced result now) db.partitions
unfolding finish_page
finish_page-partitions row run result now db =
    let later =
      collection_delivery-partitions row.id (row.page_sequence + 1)
        (due_after result.retry_at now) in
    elim (Bool-cases (has_next_page result.disposition)) [
      | inl more ↦ rw more (later _)
      | inr last ↦ rw last refl
    ]

module _ (codec : CursorCodec) where
  -- What a commit that succeeds has done: the fence let the row through, the items and the checkpoint
  -- went in, and the updates followed.
  pub commit_page-eq-ok :
      (c : Claim) (result : PageResult) (now : ℕ) (db db' : Db)
      → commit_page codec c result now db ≡ ok db'
      → (target : TargetRevision) × (row : Partition) × (requests : ℕ) × (bytes : ℕ) × (stored : Db)
        × (checked : Db) × (fence_page c now db ≡ ok row)
        × (store_items target row c.run_id now result.items db ≡ ok stored)
        × (insert_checkpoint row result requests bytes stored ≡ ok checked)
        × (finish_page row c.run_id result now checked ≡ db')
  unfolding commit_page
  commit_page-eq-ok c result now db db' e =
      let ((requests, bytes), _, e1) =
        bind-eq-ok (validate_page_result c.partition.cursor result) _ e in
      let (_, _, e2) = bind-eq-ok (throw_if (not_later result.retry_at now) invalid_page) _ e1 in
      let (_, _, e3) =
        bind-eq-ok
          (throw_if
            (is_complete result.disposition
              && is_backfill c.partition.plan.mode
              && has_no_history c.target.capability.history_mode)
            invalid_page)
          _ e2 in
      let (target, _, e4) = bind-eq-ok (need (read_target c.target.id db) not_found) _ e3 in
      let (_, _, e5) = bind-eq-ok (assert_collectable target) _ e4 in
      let (row, fenced, e6) = bind-eq-ok (fence_page c now db) _ e5 in
      let (_, _, e7) =
        bind-eq-ok
          (decode_page_cursor codec row.plan result.next_cursor target.capability.cursor_version) _
          e6 in
      let (stored, s, e8) = bind-eq-ok (store_items target row c.run_id now result.items db) _ e7 in
      let (checked, k, e9) = bind-eq-ok (insert_checkpoint row result requests bytes stored) _ e8 in
      let done : finish_page row c.run_id result now checked ≡ db' = ok_injective e9 in
      (target, row, requests, bytes, stored, checked, fenced, s, k, done)

  -- The partitions that a commit leaves, with the row that the fence let through.
  pub commit_page-partitions :
      (c : Claim) (result : PageResult) (now : ℕ) (db db' : Db)
      → commit_page codec c result now db ≡ ok db'
      → (row : Partition) × (fence_page c now db ≡ ok row)
        × (update_where (λ p. p.id == c.partition.id) (advanced result now) db.partitions
            ≡ db'.partitions)
  commit_page-partitions c result now db db' e =
      let (target, row, requests, bytes, stored, checked, fenced, s, k, done) =
        commit_page-eq-ok c result now db db' e in
      let (found, _) = fence_page-eq-ok c now db row fenced in
      let id : row.id ≡ c.partition.id = found_id c.partition.id db.partitions row found in
      let kept : checked.partitions ≡ db.partitions =
        insert_checkpoint-partitions row result requests bytes stored checked k
        ∙ store_items-partitions target row c.run_id now result.items db stored s in
      (
        row,
        fenced,
        ap (λ ps. update_where (λ (p : Partition). p.id == c.partition.id) (advanced result now) ps)
              (sym kept)
            ∙ ap
                (λ n.
                  update_where (λ (p : Partition). p.id == n) (advanced result now)
                    checked.partitions)
                (sym id)
            ∙ sym (finish_page-partitions row c.run_id result now checked)
            ∙ ap (λ (d : Db). d.partitions) done,
      )

  -- A commit takes a running partition to its next page.
  pub commit_page-Moves :
      (c : Claim) (result : PageResult) (now : ℕ) (db db' : Db)
      → commit_page codec c result now db ≡ ok db'
      → Moves db db'
  commit_page-Moves c result now db db' e =
      let (row, fenced, same) = commit_page-partitions c result now db db' e in
      subst (λ ps. Follows db.partitions ps) same
        (fenced-Follows c now db row (advanced result now) fenced (λ p. refl)
          (λ p h. commit p result now h))
