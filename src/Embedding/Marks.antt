-- ===== src/Embedding/Marks.antt =====
-- markOutcomeUnknown and markFailed of packages/database/src/embedding-work.ts against the relations of
-- Embedding/Once.antt.
use mathlib.Core.Path.{subst}
use tech_p.Base.{
  ℕ, ◌≡◌, refl, sym, ◌&&◌, Option, none, some, arith, ◌==◌, Bool-cases, inl, inr, Tracks,
}
use tech_p.Budget.Ledger.{WorkState}
use tech_p.Embedding.Rows.{IsSound, set_work-IsSound}
use tech_p.Embedding.Items.{
  Work, EmbedDb, find_work, set_work, hold_bound, with_state, failed_work, is_calling,
}
use tech_p.Embedding.Work.{mark_outcome_unknown, mark_work_unknown, mark_failed, mark_work_failed}
use tech_p.Embedding.Once.{
  stage, Onward, Progress, Progress-of_same, set_work-Progress, at_stage, Onward-of_stage,
  hold_bound-works, calling-stage, IsSound-of_works,
}

pub mark_outcome_unknown-Progress :
    (id epoch now : ℕ) (db : EmbedDb) → Progress db (mark_outcome_unknown id epoch now db)
unfolding mark_outcome_unknown mark_work_unknown
mark_outcome_unknown-Progress id epoch now db = go (find_work id db.works) refl
  where
    go :
        (o : Option Work)
        → find_work id db.works ≡ o
        → Progress db (mark_work_unknown o id epoch now db)
    go none e = Progress-of_same db db refl
    go (some w) e = elim (Bool-cases (w.epoch == epoch && is_calling w.state)) [
      | inl hit ↦
          let called : stage w.state ≡ 1 = calling-stage w.state (ground arith) in
          rw hit (
            subst (λ ws. Tracks (λ (v : Work). v.id) Onward db.works ws)
              (sym (
                hold_bound-works w.reservation_id now
                  (set_work id (with_state WorkState.outcome_unknown) db)))
              (set_work-Progress id (with_state WorkState.outcome_unknown) db (λ v. refl)
                (λ v f.
                  let at_one = at_stage id 1 db w v e called f in
                  Onward-of_stage v (with_state WorkState.outcome_unknown v) (omega arith)
                    (omega arith))))
      | inr miss ↦ rw miss (Progress-of_same db db refl)
    ]

pub mark_failed-Progress : (id epoch : ℕ) (db : EmbedDb) → Progress db (mark_failed id epoch db)
unfolding mark_failed mark_work_failed
mark_failed-Progress id epoch db = go (find_work id db.works) refl
  where
    go :
        (o : Option Work) → find_work id db.works ≡ o → Progress db (mark_work_failed o id epoch db)
    go none e = Progress-of_same db db refl
    go (some w) e = elim (Bool-cases (w.epoch == epoch && is_calling w.state)) [
      | inl hit ↦
          let called : stage w.state ≡ 1 = calling-stage w.state (ground arith) in
          rw hit (
            set_work-Progress id failed_work db (λ v. refl)
              (λ v f.
                let at_one = at_stage id 1 db w v e called f in
                Onward-of_stage v (failed_work v) (omega arith) (omega arith)))
      | inr miss ↦ rw miss (Progress-of_same db db refl)
    ]

hold_bound-IsSound :
    (r : Option ℕ) (now : ℕ) (db : EmbedDb) → IsSound db → IsSound (hold_bound r now db)
hold_bound-IsSound none now db s = s
hold_bound-IsSound (some id) now db s =
    IsSound-of_works db (hold_bound (some id) now db) refl (omega arith) s

pub mark_outcome_unknown-IsSound :
    (id epoch now : ℕ) (db : EmbedDb) → IsSound db → IsSound (mark_outcome_unknown id epoch now db)
unfolding mark_outcome_unknown mark_work_unknown
mark_outcome_unknown-IsSound id epoch now db s = go (find_work id db.works)
  where
    go : (o : Option Work) → IsSound (mark_work_unknown o id epoch now db)
    go none = s
    go (some w) = elim (Bool-cases (w.epoch == epoch && is_calling w.state)) [
      | inl hit ↦ rw hit (
          hold_bound-IsSound w.reservation_id now
            (set_work id (with_state WorkState.outcome_unknown) db)
            (set_work-IsSound id (with_state WorkState.outcome_unknown) db (λ v. refl) (λ v. refl)
              s))
      | inr miss ↦ rw miss s
    ]

pub mark_failed-IsSound :
    (id epoch : ℕ) (db : EmbedDb) → IsSound db → IsSound (mark_failed id epoch db)
unfolding mark_failed mark_work_failed
mark_failed-IsSound id epoch db s = go (find_work id db.works)
  where
    go : (o : Option Work) → IsSound (mark_work_failed o id epoch db)
    go none = s
    go (some w) = elim (Bool-cases (w.epoch == epoch && is_calling w.state)) [
      | inl hit ↦ rw hit (set_work-IsSound id failed_work db (λ v. refl) (λ v. refl) s)
      | inr miss ↦ rw miss s
    ]
