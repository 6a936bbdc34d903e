-- ===== src/Collection/Stored.antt =====
-- What commitPage of packages/database/src/collection-state.ts stores of the items of a page.
use mathlib.Core.Path.{subst}
use mathlib.Core.List.{append-nil, append_assoc}
use tech_p.Base.{
  ℕ, ◌+◌, ◌≡◌, refl, sym, ◌∙◌, ap, Bool, true, ◌&&◌, Option, some, none, List, [], ◌∷◌, ◌++◌, arith,
  find, any, ◌==◌, All, All-append, Bool-cases, inl, inr, ok, throw_if, need, need-eq-ok,
  ok_injective, bind-eq-ok,
}
use tech_p.Collection.Model.{
  invalid_page, not_found, unique_violation, Partition, TargetRevision, TargetPolicy, Claim,
  RawItem, PageResult, DeliveryKey, DeliveryKind, normalization_of, normalization,
}
use tech_p.Collection.Policy.{assert_collectable, check_url, item_rights, Narrower}
use tech_p.Collection.Page.{CursorCodec, decode_page_cursor, validate_page_result}
use tech_p.Collection.Rights.{item_rights_narrow}
use tech_p.Collection.Store.{
  Db, RawRow, read_target, fence_page, insert_delivery, collection_delivery,
}
use tech_p.Collection.Store.Commit.{
  commit_page, store_item, store_items, insert_raw, insert_membership, insert_checkpoint,
  finish_page, same_raw, not_later, is_complete, is_backfill, has_no_history, has_next_page,
  due_after,
}

-- A row with rights that allow no more than a policy, and approve it, its fetch and its storage.
abbrev pub WithinPolicy : TargetPolicy → RawRow → Type 0
WithinPolicy policy r =
    Narrower r.rights policy
    × (r.rights.approved ≡ true)
    × (r.rights.fetch ≡ true)
    × (r.rights.store ≡ true)

-- The rows of items with some behind them, each within the policy.
abbrev Adds : TargetPolicy → List RawRow → List RawRow → Type 0
Adds policy xs ys = (added : List RawRow) × (ys ≡ xs ++ added) × All (WithinPolicy policy) added

-- The item is among the rows, under its source, id and content.
abbrev pub IsAmong : ℕ → List RawRow → RawItem → Type 0
IsAmong source rows item = any (same_raw source item.external_id item.raw_hash) rows ≡ true

Adds-same : (policy : TargetPolicy) (xs ys : List RawRow) → ys ≡ xs → Adds policy xs ys
Adds-same policy xs ys e = ([], e ∙ sym (append-nil xs), tt)

Adds-trans :
    (policy : TargetPolicy) (xs ys zs : List RawRow)
    → Adds policy xs ys
    → Adds policy ys zs
    → Adds policy xs zs
Adds-trans policy xs ys zs (a, e, h) (b, f, k) = (
  a ++ b,
  f ∙ (ap (λ (l : List RawRow). l ++ b) e ∙ append_assoc xs a b),
  All-append (WithinPolicy policy) a b h k,
)

any-append_old :
    (p : RawRow → Bool) (xs ys : List RawRow) → any p xs ≡ true → any p (xs ++ ys) ≡ true
unfolding any
any-append_old p [] ys h = absurd cc
any-append_old p (x ∷ xs) ys h = let rest = any-append_old p xs ys in ground (arith, rest)

Adds-IsAmong :
    (policy : TargetPolicy) (source : ℕ) (xs ys : List RawRow) (item : RawItem)
    → Adds policy xs ys
    → IsAmong source xs item
    → IsAmong source ys item
Adds-IsAmong policy source xs ys item (added, e, h) among =
    ap (any (same_raw source item.external_id item.raw_hash)) e
    ∙ any-append_old (same_raw source item.external_id item.raw_hash) xs added among

any-of_found :
    (p : RawRow → Bool) (xs : List RawRow) (x : RawRow) → find p xs ≡ some x → any p xs ≡ true
unfolding find any
any-of_found p [] x e = absurd cc
any-of_found p (y ∷ ys) x e = let rest = any-of_found p ys x in ground (arith, rest)

insert_raw-Adds :
    (source run : ℕ) (item : RawItem) (policy rights : TargetPolicy) (db : Db)
    → item_rights item.rights policy ≡ ok rights
    → Adds policy db.raw_items (insert_raw source run item rights db).raw_items
unfolding insert_raw
insert_raw-Adds source run item policy rights db given =
    elim (Bool-cases (any (same_raw source item.external_id item.raw_hash) db.raw_items)) [
      | inl old ↦ rw old (Adds-same policy db.raw_items db.raw_items refl)
      | inr new ↦ rw new (_, refl, (item_rights_narrow item.rights policy rights given, tt))
    ]

insert_membership-raw :
    (id raw run : ℕ) (db : Db) → (insert_membership id raw run db).raw_items ≡ db.raw_items
unfolding insert_membership
insert_membership-raw id raw run db = ground arith

insert_delivery-raw :
    (key : DeliveryKey) (kind : DeliveryKind) (id page : ℕ) (raw rev : Option ℕ) (t : ℕ) (db : Db)
    → (insert_delivery key kind id page raw rev t db).raw_items ≡ db.raw_items
unfolding insert_delivery
insert_delivery-raw key kind id page raw rev t db = ground arith

store_item-Adds :
    (t : TargetRevision) (row : Partition) (run now : ℕ) (item : RawItem) (db db' : Db)
    → store_item t row run now item db ≡ ok db'
    → Adds t.policy db.raw_items db'.raw_items × IsAmong t.source_id db'.raw_items item
unfolding store_item
store_item-Adds t row run now item db db' e =
    let (_, _, e1) = bind-eq-ok (check_url item.url) _ e in
    let (rights, given, e2) = bind-eq-ok (item_rights item.rights t.policy) _ e1 in
    let stored = insert_raw t.source_id run item rights db in
    let search = same_raw t.source_id item.external_id item.raw_hash in
    let (raw, found, e3) = bind-eq-ok (need (find search stored.raw_items) invalid_page) _ e2 in
    let member = insert_membership row.id raw.id run stored in
    let same : db'.raw_items ≡ stored.raw_items =
      ap (λ (d : Db). d.raw_items) (sym (ok_injective e3))
      ∙ (insert_delivery-raw (normalization_of raw.id row.plan.workflow_version) normalization
            row.id row.page_sequence (some raw.id) none now member
          ∙ insert_membership-raw row.id raw.id run stored) in
    let adds = insert_raw-Adds t.source_id run item t.policy rights db given in
    let among =
      any-of_found search stored.raw_items raw
        (need-eq-ok (find search stored.raw_items) invalid_page found) in
    (subst (λ rows. Adds t.policy db.raw_items rows) (sym same) adds, ap (any search) same ∙ among)

store_items-Adds :
    (t : TargetRevision) (row : Partition) (run now : ℕ) (items : List RawItem) (db db' : Db)
    → store_items t row run now items db ≡ ok db'
    → Adds t.policy db.raw_items db'.raw_items × All (IsAmong t.source_id db'.raw_items) items
unfolding store_items
store_items-Adds t row run now [] db db' e = (
  Adds-same t.policy db.raw_items db'.raw_items
      (ap (λ (d : Db). d.raw_items) (sym (ok_injective e))),
  tt,
)
store_items-Adds t row run now (item ∷ items) db db' e =
    let (mid, first, e1) = bind-eq-ok (store_item t row run now item db) _ e in
    let (adds, here) = store_item-Adds t row run now item db mid first in
    let (more, rest) = store_items-Adds t row run now items mid db' e1 in
    (
      Adds-trans t.policy db.raw_items mid.raw_items db'.raw_items adds more,
      (Adds-IsAmong t.policy t.source_id mid.raw_items db'.raw_items item more here, rest),
    )

insert_checkpoint-raw :
    (row : Partition) (result : PageResult) (requests bytes : ℕ) (db db' : Db)
    → insert_checkpoint row result requests bytes db ≡ ok db'
    → db'.raw_items ≡ db.raw_items
unfolding insert_checkpoint
insert_checkpoint-raw row result requests bytes db db' e =
    let (_, _, e1) =
      bind-eq-ok
        (throw_if
          (any (λ c. c.partition_id == row.id && c.page_sequence == row.page_sequence)
            db.checkpoints)
          unique_violation)
        _ e in
    ap (λ (d : Db). d.raw_items) (sym (ok_injective e1))

collection_delivery-raw :
    (id page t : ℕ) (db : Db) → (collection_delivery id page t db).raw_items ≡ db.raw_items
unfolding collection_delivery
collection_delivery-raw id page t db = ground arith

finish_page-raw :
    (row : Partition) (run : ℕ) (result : PageResult) (now : ℕ) (db : Db)
    → (finish_page row run result now db).raw_items ≡ db.raw_items
unfolding finish_page
finish_page-raw row run result now db = elim (Bool-cases (has_next_page result.disposition)) [
  | inl more ↦
      rw more
        (collection_delivery-raw row.id (row.page_sequence + 1) (due_after result.retry_at now) _)
  | inr last ↦ rw last refl
]

module _ (codec : CursorCodec) where
  -- After a commit every item of the page is among the stored items, and the rows that the commit has added
  -- behind those that were there have rights that allow no more than the policy of the target, whatever the
  -- items declare, and approve the item, its fetch and its storage. An item that was stored before keeps its
  -- row, and the rights in it.
  pub stored_rights_narrow :
      (claim : Claim) (result : PageResult) (now : ℕ) (db db' : Db)
      → commit_page codec claim result now db ≡ ok db'
      → (target : TargetRevision) × (added : List RawRow) × (read_target claim.target.id db
          ≡ some target)
        × (db'.raw_items ≡ db.raw_items ++ added)
        × All (WithinPolicy target.policy) added
        × All (IsAmong target.source_id db'.raw_items) result.items
  unfolding commit_page
  stored_rights_narrow claim result now db db' e =
      let ((requests, bytes), _, e1) =
        bind-eq-ok (validate_page_result claim.partition.cursor result) _ e in
      let (_, _, e2) = bind-eq-ok (throw_if (not_later result.retry_at now) invalid_page) _ e1 in
      let (_, _, e3) =
        bind-eq-ok
          (throw_if
            (is_complete result.disposition
              && is_backfill claim.partition.plan.mode
              && has_no_history claim.target.capability.history_mode)
            invalid_page)
          _ e2 in
      let (target, known, e4) = bind-eq-ok (need (read_target claim.target.id db) not_found) _ e3 in
      let (_, _, e5) = bind-eq-ok (assert_collectable target) _ e4 in
      let (row, _, e6) = bind-eq-ok (fence_page claim now db) _ e5 in
      let (_, _, e7) =
        bind-eq-ok
          (decode_page_cursor codec row.plan result.next_cursor target.capability.cursor_version) _
          e6 in
      let (stored, stores, e8) =
        bind-eq-ok (store_items target row claim.run_id now result.items db) _ e7 in
      let (checked, checks, e9) =
        bind-eq-ok (insert_checkpoint row result requests bytes stored) _ e8 in
      let ((added, rows, within), among) =
        store_items-Adds target row claim.run_id now result.items db stored stores in
      let same : db'.raw_items ≡ stored.raw_items =
        ap (λ (d : Db). d.raw_items) (sym (ok_injective e9))
        ∙ (finish_page-raw row claim.run_id result now checked
            ∙ insert_checkpoint-raw row result requests bytes stored checked checks) in
      (
        target,
        added,
        need-eq-ok (read_target claim.target.id db) not_found known,
        same ∙ rows,
        within,
        subst (λ (l : List RawRow). All (IsAmong target.source_id l) result.items) (sym same) among,
      )
