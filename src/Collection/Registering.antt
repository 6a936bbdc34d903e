-- ===== src/Collection/Registering.antt =====
-- What registerTarget and setTargetEnabled of packages/database/src/collection-state.ts leave behind.
use tech_p.Base.{
  ℕ, ◌≡◌, sym, ◌∙◌, ap, Bool, not, ◌&&◌, some, arith, find, update_where, ◌==◌, eq_text, ok,
  throw_if, need, bind-eq-ok, ok_injective, need-eq-ok,
}
use tech_p.Collection.Model.{
  not_found, invalid_state, policy_blocked, check_violation, TargetRevision,
}
use tech_p.Collection.Store.{Db, SourceRow, TargetRow, RevisionRow, read_target, eq_some}
use tech_p.Collection.Store.Targets.{
  TargetInput, valid_input, row_allowed, is_target, is_revision, insert_target, insert_revision,
  point_to, register_target, enabling, set_target_enabled,
}

insert_target-partitions :
    (i : TargetInput) (db : Db) → (insert_target i db).partitions ≡ db.partitions
unfolding insert_target
insert_target-partitions i db = ground arith

insert_revision-partitions :
    (i : TargetInput) (id : ℕ) (db : Db) → (insert_revision i id db).partitions ≡ db.partitions
unfolding insert_revision
insert_revision-partitions i id db = ground arith

-- The database of a registration before its last update.
abbrev with_rows : TargetInput → ℕ → Db → Db
with_rows i id db = insert_revision i id (insert_target i db)

abbrev pointed : Bool → ℕ → ℕ → Db → Db
pointed same id revision db = record db {
  targets = update_where (λ t. t.id == id) (point_to same revision) db.targets;
}

register_target-eq-ok :
    (i : TargetInput) (db : Db) (r : TargetRevision) (db' : Db)
    → register_target i db ≡ ok (r, db')
    → (t : TargetRow) × (rev : RevisionRow) × (find (is_target i) (insert_target i db).targets
        ≡ some t)
      × (find (is_revision t.id i.config_hash) (with_rows i t.id db).revisions ≡ some rev)
      × (pointed (eq_some t.current_revision_id rev.id) t.id rev.id (with_rows i t.id db) ≡ db')
      × (read_target rev.id db' ≡ some r)
unfolding register_target
register_target-eq-ok i db r db' e =
    let (_, _, e1) = bind-eq-ok (throw_if (not (valid_input i)) invalid_state) _ e in
    let (source, _, e2) =
      bind-eq-ok (need (find (λ (s : SourceRow). s.id == i.source_id) db.sources) not_found) _ e1 in
    let (_, _, e3) = bind-eq-ok (throw_if (not (eq_text source.key i.source_key)) not_found) _ e2 in
    let (_, _, e4) =
      bind-eq-ok (throw_if (i.policy.approved && not source.policy_reviewed) policy_blocked) _ e3 in
    let (t, f, e5) =
      bind-eq-ok (need (find (is_target i) (insert_target i db).targets) not_found) _ e4 in
    let (_, _, e6) = bind-eq-ok (throw_if (not (row_allowed i)) check_violation) _ e5 in
    let (rev, g, e7) =
      bind-eq-ok
        (need (find (is_revision t.id i.config_hash) (with_rows i t.id db).revisions) not_found) _
        e6 in
    let end = pointed (eq_some t.current_revision_id rev.id) t.id rev.id (with_rows i t.id db) in
    let (result, h, e8) = bind-eq-ok (need (read_target rev.id end) not_found) _ e7 in
    let both = ok_injective e8 in
    let last : end ≡ db' = ap (λ (x : TargetRevision × Db). x.1) both in
    let this : result ≡ r = ap (λ (x : TargetRevision × Db). x.0) both in
    (
      t,
      rev,
      need-eq-ok (find (is_target i) (insert_target i db).targets) not_found f,
      need-eq-ok (find (is_revision t.id i.config_hash) (with_rows i t.id db).revisions) not_found
          g,
      last,
      ap (read_target rev.id) (sym last)
          ∙ (need-eq-ok (read_target rev.id end) not_found h ∙ ap some this),
    )

pub register_target-partitions :
    (i : TargetInput) (db : Db) (r : TargetRevision) (db' : Db)
    → register_target i db ≡ ok (r, db')
    → db.partitions ≡ db'.partitions
register_target-partitions i db r db' e =
    let (t, rev, _, _, last, _) = register_target-eq-ok i db r db' e in
    sym (insert_target-partitions i db)
    ∙ (sym (insert_revision-partitions i t.id (insert_target i db))
        ∙ ap (λ (d : Db). d.partitions) last)

pub set_target_enabled-partitions :
    (id : ℕ) (enabled : Bool) (db db' : Db)
    → set_target_enabled id enabled db ≡ ok db'
    → db.partitions ≡ db'.partitions
unfolding set_target_enabled
set_target_enabled-partitions id enabled db db' e =
    let (t, _, e1) =
      bind-eq-ok (need (find (λ (x : TargetRow). x.id == id) db.targets) not_found) _ e in
    let (current, _, e2) = bind-eq-ok (need t.current_revision_id not_found) _ e1 in
    let (revision, _, e3) = bind-eq-ok (need (read_target current db) not_found) _ e2 in
    let (_, _, e4) = bind-eq-ok (enabling enabled revision) _ e3 in
    ap (λ (d : Db). d.partitions) (ok_injective e4)
