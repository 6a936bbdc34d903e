-- ===== src/Collection/Claiming.antt =====
-- claimPage of packages/database/src/collection-state.ts: what a claim that is given has found in the
-- tables and written to them.
use mathlib.Core.Path.{subst}
use tech_p.Base.{
  ℕ, ◌+◌, ◌≡◌, refl, sym, ◌∙◌, ap, true, ◌&&◌, Option, none, some, List, arith, any,
  find-update_where, ◌==◌, Num, Bool-cases, inl, inr, if◌then◌else◌, update_where, ok, throw_if,
  need, bind-eq-ok, ok_injective,
}
use mathlib.Core.Option
use tech_p.Collection.Model.{invalid_state, unique_violation, Claim, Partition, TargetRevision}
use tech_p.Collection.Policy.{assert_collectable}
use tech_p.Collection.Page.{CursorCodec, decode_page_cursor}
use tech_p.Collection.Store.{Db, find_partition, read_target}
use tech_p.Collection.Store.Leasing.{
  claim_page, claim_row, claim_found, write_claim, may_claim, leased, lease_duration,
}
use tech_p.Collection.Refines.{found_id}
use tech_p.Collection.Traces.{run}

-- What a claim has found and written.
pub record Claimed (id page now : ℕ) (db : Db) (c : Claim) (db' : Db) : Type 0 where
  pub row : Partition
  pub was : find_partition id db.partitions ≡ some row
  pub free : may_claim row page now ≡ true
  pub is : find_partition id db'.partitions ≡ some c.partition
  pub epoch : c.partition.lease_epoch ≡ row.lease_epoch + 1
  pub same_id : c.partition.id ≡ id
  pub same_page : c.partition.page_sequence ≡ row.page_sequence

abbrev claimed_or : Partition → Option Claim → Partition
claimed_or p none = p
claimed_or p (some c) = c.partition

find-leased :
    (id run until : ℕ) (row : Partition) (ps : List Partition)
    → find_partition id ps ≡ some row
    → row.id ≡ id
    → find_partition id (update_where (λ p. p.id == row.id) (leased run until) ps)
      ≡ some (leased run until row)
find-leased id run until row ps e same =
    find-update_where (λ (p : Partition). p.id == id) (λ p. p.id == row.id) (leased run until) ps
      (λ p. refl)
    ∙ (ap (Option.map (λ (p : Partition). if p.id == row.id then leased run until p else p)) e
        ∙ ap some hit)
  where
    hit : (if row.id == row.id then leased run until row else row) ≡ leased run until row
    hit = ground arith

module _ (codec : CursorCodec) where
  write_claim-Claimed :
      (target : TargetRevision) (row : Partition) (id page now lease : ℕ) (db : Db) (c : Claim)
      (db' : Db)
      → find_partition id db.partitions ≡ some row
      → may_claim row page now ≡ true
      → write_claim target row now lease db ≡ ok (some c, db')
      → Claimed id page now db c db'
  unfolding write_claim
  write_claim-Claimed target row id page now lease db c db' found free e =
      let (_, _, e1) =
        bind-eq-ok
          (throw_if
            (any (λ a. a.partition_id == row.id && a.lease_epoch == row.lease_epoch + 1)
              db.attempts)
            unique_violation)
          _ e in
      let both = ok_injective e1 in
      let same_id = found_id id db.partitions row found in
      let part : leased db.next_id (now + lease) row ≡ c.partition =
        ap (λ (x : Option Claim × Db). claimed_or row x.0) both in
      let after : update_where (λ (p : Partition). p.id == row.id) (leased db.next_id (now + lease))
            db.partitions
          ≡ db'.partitions =
        ap (λ (x : Option Claim × Db). x.1.partitions) both in
      record {
        row = row;
        was = found;
        free = free;
        is =
            subst (λ ps. find_partition id ps ≡ some c.partition) after
              (find-leased id db.next_id (now + lease) row db.partitions found same_id
                ∙ ap some part);
        epoch = sym (ap (λ (p : Partition). p.lease_epoch) part);
        same_id = sym (ap (λ (p : Partition). p.id) part) ∙ same_id;
        same_page = sym (ap (λ (p : Partition). p.page_sequence) part);
      }

  claim_found-Claimed :
      (t : Option TargetRevision) (row : Partition) (id page now lease : ℕ) (db : Db) (c : Claim)
      (db' : Db)
      → find_partition id db.partitions ≡ some row
      → claim_found codec t row page now lease db ≡ ok (some c, db')
      → Claimed id page now db c db'
  unfolding claim_found
  claim_found-Claimed none row id page now lease db c db' found e = cc
  claim_found-Claimed (some target) row id page now lease db c db' found e =
      let (_, _, e1) = bind-eq-ok (assert_collectable target) _ e in
      elim (Bool-cases (may_claim row page now)) [
        | inl may ↦
            let (_, _, e2) =
              bind-eq-ok
                (decode_page_cursor codec row.plan row.cursor target.capability.cursor_version) _
                (rw may at e1) in
            write_claim-Claimed target row id page now lease db c db' found may e2
        | inr not_now ↦
            let e2 = rw not_now at e1 in
            let both = ok_injective e2 in
            let no : none ≡ some c = ap (λ (x : Option Claim × Db). x.0) both in cc
      ]

  pub claim_page-Claimed :
      (id page now : ℕ) (lease_ms : Num) (db : Db) (c : Claim) (db' : Db)
      → claim_page codec id page now lease_ms db ≡ ok (some c, db')
      → Claimed id page now db c db'
  unfolding claim_page claim_row
  claim_page-Claimed id page now lease_ms db c db' e =
      let (lease, _, e1) = bind-eq-ok (need (lease_duration lease_ms) invalid_state) _ e in
      go lease (find_partition id db.partitions) refl e1
    where
      go :
          (lease : ℕ) (o : Option Partition)
          → find_partition id db.partitions ≡ o
          → claim_row codec o page now lease db ≡ ok (some c, db')
          → Claimed id page now db c db'
      go lease none f e1 = cc
      go lease (some row) f e1 =
          claim_found-Claimed (read_target row.plan.target_revision_id db) row id page now lease db
            c db' f e1
