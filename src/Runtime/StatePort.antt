-- ===== src/Runtime/StatePort.antt =====
-- planPartition of packages/database/src/collection-state.ts as the port that planTargetPartitions of
-- apps/worker/src/partition-runtime.ts plans with. Its state is a database in which every partition is stored
-- under the key of its plan. The key of a plan is a hash of it; that a window can be told from the key
-- stands for its freedom from collisions.
use mathlib.Core.Path.{subst}
use tech_p.Base.{
  ℕ, ◌≡◌, refl, sym, ◌∙◌, ap, Bool, true, not, some, List, [], ◌∷◌, arith, any, find, find_sound,
  is_some, All, All-append, Bool-cases, inl, inr, Text, eq_text, eq_text_sound, Result, ok, err,
  throw_if, need, need-eq-ok, throw_if-eq-ok, bind-eq-ok, ok_injective,
}
use tech_p.Collection.Model.{
  CollectionError, not_found, invalid_window, CollectionWindow, PartitionPlan, Partition,
}
use tech_p.Collection.Policy.{assert_collectable}
use tech_p.Collection.Page.{CursorCodec, natural_key, valid_window, validate_window}
use tech_p.Collection.Store.{Db, read_target}
use tech_p.Collection.Store.Leasing.{plan_partition, insert_partition, same_basis}
use tech_p.Collection.Refines.{collection_delivery-partitions}
use tech_p.Runtime.Planning.{PlannerPort}

module _ (codec : CursorCodec) where
  -- A partition that is stored under the key of its plan.
  abbrev pub Keyed : Partition → Type 0
  Keyed p = p.natural_key ≡ codec.plan_key p.plan

  natural_key-eq-ok :
      (plan : PartitionPlan) (key : Text)
      → natural_key codec plan ≡ ok key
      → (is_some (valid_window plan.window) ≡ true) × (codec.plan_key plan ≡ key)
  unfolding natural_key validate_window
  natural_key-eq-ok plan key e =
      let (_, fits, e1) =
        bind-eq-ok (throw_if (not (is_some (valid_window plan.window))) invalid_window) _ e in
      let pass = throw_if-eq-ok (not (is_some (valid_window plan.window))) invalid_window fits in
      (ground arith, ok_injective e1)

  insert_partition-Keyed :
      (key : Text) (plan : PartitionPlan) (now : ℕ) (db : Db)
      → codec.plan_key plan ≡ key
      → All Keyed db.partitions
      → All Keyed (insert_partition key plan now db).partitions
  unfolding insert_partition
  insert_partition-Keyed key plan now db named keyed =
      elim (Bool-cases (any (λ (p : Partition). eq_text p.natural_key key) db.partitions)) [
        | inl old ↦ rw old keyed
        | inr new ↦ rw new (All-append Keyed db.partitions _ keyed (sym named, tt))
      ]

  found-Keyed :
      (p : Partition → Bool) (ps : List Partition) (row : Partition)
      → All Keyed ps
      → find p ps ≡ some row
      → Keyed row
  unfolding find
  found-Keyed p [] row keyed e = absurd cc
  found-Keyed p (x ∷ ps) row keyed e = elim (Bool-cases (p x)) [
    | inl hit ↦ let this : x ≡ row = ground arith in subst Keyed this keyed.0
    | inr miss ↦ found-Keyed p ps row keyed.1 (rw miss at e)
  ]

  -- What a plan that is accepted leaves.
  pub plan_partition-Keyed :
      (plan : PartitionPlan) (now : ℕ) (db : Db) (row : Partition) (db' : Db)
      → All Keyed db.partitions
      → plan_partition codec plan now db ≡ ok (row, db')
      → (is_some (valid_window plan.window) ≡ true)
        × (codec.plan_key row.plan ≡ codec.plan_key plan)
        × All Keyed db'.partitions
  unfolding plan_partition
  plan_partition-Keyed plan now db row db' keyed e =
      let (key, given, e1) = bind-eq-ok (natural_key codec plan) _ e in
      let (target, _, e2) = bind-eq-ok (need (read_target plan.target_revision_id db) _) _ e1 in
      let (_, _, e3) = bind-eq-ok (assert_collectable target) _ e2 in
      let (_, _, e4) =
        bind-eq-ok
          (throw_if (not (same_basis target.capability.time_basis plan.time_basis)) invalid_window)
          _ e3 in
      let planned = insert_partition key plan now db in
      let by_key = λ (p : Partition). eq_text p.natural_key key in
      let (r, found, e5) = bind-eq-ok (need (find by_key planned.partitions) not_found) _ e4 in
      let (fits, named) = natural_key-eq-ok plan key given in
      let all = insert_partition-Keyed key plan now db named keyed in
      let there = need-eq-ok (find by_key planned.partitions) not_found found in
      let this : r ≡ row = ap (λ (x : Partition × Db). x.0) (ok_injective e5) in
      let its_key : r.natural_key ≡ key =
        eq_text_sound r.natural_key key (find_sound by_key planned.partitions r there) in
      let of_plan : codec.plan_key r.plan ≡ codec.plan_key plan =
        sym (found-Keyed by_key planned.partitions r all there) ∙ (its_key ∙ sym named) in
      let same : planned.partitions ≡ db'.partitions =
        ground (arith, collection_delivery-partitions r.id r.page_sequence r.next_due_at planned) in
      (
        fits,
        ap (λ (p : Partition). codec.plan_key p.plan) (sym this) ∙ of_plan,
        subst (λ (ps : List Partition). All Keyed ps) same all,
      )

  abbrev pub KeyedDb : Type 0
  KeyedDb = (db : Db) × All Keyed db.partitions

  unfoldable pub keep_keyed :
      (plan : PartitionPlan) (now : ℕ) (s : KeyedDb) (m : Result CollectionError (Partition × Db))
      → plan_partition codec plan now s.0 ≡ m
      → Result CollectionError (Partition × KeyedDb)
  keep_keyed plan now s (ok (row, db')) e =
      ok (row, (db', (plan_partition-Keyed plan now s.0 row db' s.1 e).2))
  keep_keyed plan now s (err x) e = err x

  abbrev pub plan_keyed : PartitionPlan → ℕ → KeyedDb → Result CollectionError (Partition × KeyedDb)
  plan_keyed plan now s = keep_keyed plan now s (plan_partition codec plan now s.0) refl

  pub keep_keyed-lem :
      (plan : PartitionPlan) (now : ℕ) (s : KeyedDb) (m : Result CollectionError (Partition × Db))
      (e : plan_partition codec plan now s.0 ≡ m) (p : Partition) (s' : KeyedDb)
      → keep_keyed plan now s m e ≡ ok (p, s')
      → (is_some (valid_window plan.window) ≡ true) × (codec.plan_key p.plan ≡ codec.plan_key plan)
  unfolding keep_keyed
  keep_keyed-lem plan now s (ok (row, db')) e p s' h =
      let (fits, named, _) = plan_partition-Keyed plan now s.0 row db' s.1 e in
      let this : row ≡ p = ap (λ (x : Partition × KeyedDb). x.0) (ok_injective h) in
      (fits, ap (λ (x : Partition). codec.plan_key x.plan) (sym this) ∙ named)
  keep_keyed-lem plan now s (err x) e p s' h =
      let clash : Path (Result CollectionError (Partition × KeyedDb)) (err x) (ok (p, s')) = h in
      absurd cc

  module _ (read_window : Text → CollectionWindow)
      (reads : (plan : PartitionPlan) → read_window (codec.plan_key plan) ≡ plan.window) where
    -- The port that the tables are.
    abbrev pub state_port : PlannerPort
    state_port = record {
      State = KeyedDb;
      plan_partition = plan_keyed;
      plan_valid = λ plan now s p s' e. (keep_keyed-lem plan now s _ refl p s' e).0;
      plan_window = λ plan now s p s' e.
          sym (reads p.plan)
          ∙ (ap read_window (keep_keyed-lem plan now s _ refl p s' e).1 ∙ reads plan);
    }
