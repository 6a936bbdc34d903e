-- ===== src/Embedding/Once.antt =====
-- How far a work item of packages/database/src/embedding-work.ts is, and how the transactions move it.
use mathlib.Core.Path.{subst}
use tech_p.Base.{
  ℕ, ◌+◌, ◌≤◌, ◌≡◌, refl, ◌∙◌, ap, Bool, true, false, not, ◌||◌, Option, none, some, List, arith,
  Text, eq_text, if◌then◌else◌, Tracks, Tracks-id, Tracks-trans, Tracks-update, Result, ok,
  throw_if, need, bind-eq-ok, ok_injective,
}
use tech_p.Budget.Ledger.{BudgetError, stale_work, WorkState}
use tech_p.Embedding.Rows.{IsSound, set_work-IsSound, find_key}
use tech_p.Collection.Store.{has_expired}
use tech_p.Embedding.Items.{
  Hashing, WorkKey, Work, EmbedDb, Claimed, find_work, set_work, hold_bound, with_state, claimed_by,
  is_calling, is_claimed, find_embedding, has_dimensions,
}
use tech_p.Embedding.Work.{claim_state, read_completed}

-- How far a work item is: not called, called, or done with.
abbrev pub stage : WorkState → ℕ
stage WorkState.pending = 0
stage WorkState.claimed = 0
stage WorkState.calling = 1
stage WorkState.completed = 2
stage WorkState.outcome_unknown = 2
stage WorkState.failed = 2

-- A work item never goes back, and stays as it is once it is done with.
pub record Onward (v w : Work) : Type 0 where
  pub stages : stage v.state ≤ stage w.state
  pub final : stage v.state ≡ 2 → v ≡ w

pub Onward-refl : (w : Work) → Onward w w
Onward-refl w = ground arith

Onward-trans : (u v w : Work) → Onward u v → Onward v w → Onward u w
Onward-trans u v w a b = record {
  stages = let first = a.stages in let second = b.stages in omega arith;
  final = λ h.
      let same : u ≡ v = a.final h in
      same ∙ b.final (subst (λ (x : Work). stage x.state ≡ 2) same h);
}

abbrev pub Progress : EmbedDb → EmbedDb → Type 0
Progress db db' = Tracks (λ (w : Work). w.id) Onward db.works db'.works

pub Progress-of_same : (db db' : EmbedDb) → db.works ≡ db'.works → Progress db db'
Progress-of_same db db' e =
    subst (λ ws. Tracks (λ (w : Work). w.id) Onward db.works ws) e
      (Tracks-id (λ (w : Work). w.id) Onward Onward-refl db.works)

-- An update of the row with an id, where the row that is found there goes on.
pub set_work-Progress :
    (id : ℕ) (g : Work → Work) (db : EmbedDb)
    → ((w : Work) → (g w).id ≡ w.id)
    → ((w : Work) → find_work id db.works ≡ some w → Onward w (g w))
    → Progress db (set_work id g db)
set_work-Progress id g db same st =
    Tracks-update (λ (w : Work). w.id) Onward Onward-refl id g db.works same st

-- The row with an id is the one that was found.
pub found_work :
    (id : ℕ) (ws : List Work) (v w : Work)
    → find_work id ws ≡ some v
    → find_work id ws ≡ some w
    → v ≡ w
found_work id ws v w e f = cc

-- From the row that was found, what is true of its stage is true of the row to update.
pub at_stage :
    (id n : ℕ) (db : EmbedDb) (v w : Work)
    → find_work id db.works ≡ some v
    → stage v.state ≡ n
    → find_work id db.works ≡ some w
    → stage w.state ≡ n
at_stage id n db v w e h f =
    subst (λ (x : Work). stage x.state ≡ n) (found_work id db.works v w e f) h

pub Onward-of_stage : (v w : Work) → stage v.state ≤ 1 → stage v.state ≤ stage w.state → Onward v w
Onward-of_stage v w early up = record { stages = up; final = λ h. ground arith }

pub hold_bound-works :
    (r : Option ℕ) (now : ℕ) (db : EmbedDb) → (hold_bound r now db).works ≡ db.works
hold_bound-works none now db = refl
hold_bound-works (some id) now db = refl

pub calling-stage : (st : WorkState) → is_calling st ≡ true → stage st ≡ 1
calling-stage st h = ground arith

pub claimed-stage : (st : WorkState) → is_claimed st ≡ true → stage st ≡ 0
claimed-stage st h = ground arith

-- A transaction keeps the keys of the table, and its work items go on.
pub record Advances (db db' : EmbedDb) : Type 0 where
  pub sound : IsSound db'
  pub progress : Progress db db'

pub IsSound-of_works :
    (db db' : EmbedDb)
    → db.works ≡ db'.works
    → db.next_work ≤ db'.next_work
    → IsSound db
    → IsSound db'
IsSound-of_works db db' e more s = record {
  keyed =
      subst (λ ws. (k : Text) (w : Work) → find_key k ws ≡ some w → find_work w.id ws ≡ some w) e
        s.keyed;
  drawn = λ id w f. let small = s.drawn id w (ap (find_work id) e ∙ f) in omega arith;
}

pub Advances-refl : (db : EmbedDb) → IsSound db → Advances db db
Advances-refl db s = record { sound = s; progress = Progress-of_same db db refl }

pub Advances-trans : (a b c : EmbedDb) → Advances a b → Advances b c → Advances a c
Advances-trans a b c f g = record {
  sound = g.sound;
  progress =
      Tracks-trans (λ (w : Work). w.id) Onward Onward-trans a.works b.works c.works f.progress
        g.progress;
}

pub set_work-Advances :
    (id : ℕ) (g : Work → Work) (db : EmbedDb) (row : Work)
    → ((w : Work) → (g w).id ≡ w.id)
    → ((w : Work) → (g w).work_key ≡ w.work_key)
    → find_work id db.works ≡ some row
    → stage row.state ≤ 1
    → ((w : Work) → stage row.state ≤ stage (g w).state)
    → IsSound db
    → Advances db (set_work id g db)
set_work-Advances id g db row same_id same_key found early up s = record {
  sound = set_work-IsSound id g db same_id same_key s;
  progress = set_work-Progress id g db same_id (λ w f.
      let this : row ≡ w = found_work id db.works row w found f in
      Onward-of_stage w (g w) (subst (λ (x : Work). stage x.state ≤ 1) this early)
        (subst (λ (x : Work). stage x.state ≤ stage (g w).state) this (up w)));
}

hold_bound-Advances :
    (r : Option ℕ) (now : ℕ) (a db : EmbedDb) → Advances a db → Advances a (hold_bound r now db)
hold_bound-Advances none now a db f = f
hold_bound-Advances (some id) now a db f = record {
  sound = IsSound-of_works db (hold_bound (some id) now db) refl (omega arith) f.sound;
  progress = f.progress;
}

-- The result of a transaction that returns the database with a value.
ends_in :
    (db : EmbedDb) (got : Option Claimed) (end : EmbedDb) (got' : Option Claimed) (db' : EmbedDb)
    → Path (Result BudgetError (Option Claimed × EmbedDb)) (ok (got, end)) (ok (got', db'))
    → Advances db end
    → Advances db db'
ends_in db got end got' db' e f =
    subst (λ (d : EmbedDb). Advances db d)
      (ap (λ (y : Option Claimed × EmbedDb). y.1) (ok_injective e)) f

-- A row whose lease holds is left alone.
unless_leased :
    (free : Bool) (db : EmbedDb) (next : Option Claimed) (moved : EmbedDb) (got : Option Claimed)
    (db' : EmbedDb)
    → IsSound db
    → Advances db moved
    → Path
        (Result BudgetError (Option Claimed × EmbedDb))
        (if not free then ok (none, db) else ok (next, moved))
        (ok (got, db'))
    → Advances db db'
unless_leased true db next moved got db' s f e = ends_in db next moved got db' e f
unless_leased false db next moved got db' s f e = ends_in db none db got db' e (Advances-refl db s)

pub claim_state-Advances :
    (hashing : Hashing) (st : WorkState) (row : Work) (key : WorkKey) (now lease : ℕ) (db : EmbedDb)
    (got : Option Claimed) (db' : EmbedDb)
    → IsSound db
    → find_work row.id db.works ≡ some row
    → row.state ≡ st
    → claim_state hashing st row key now lease db ≡ ok (got, db')
    → Advances db db'
unfolding claim_state read_completed
claim_state-Advances hashing WorkState.completed row key now lease db got db' s f h e =
    let (x, _, e1) =
      bind-eq-ok (need (find_embedding row.embedding_id db.embeddings) stale_work) _ e in
    let (_, _, e2) =
      bind-eq-ok
        (throw_if
          (not (has_dimensions x.dimensions key.profile.dimensions)
            || not (eq_text x.profile_hash (hashing.hash_profile key.profile)))
          stale_work)
        _ e1 in
    ends_in db _ db got db' e2 (Advances-refl db s)
claim_state-Advances hashing WorkState.outcome_unknown row key now lease db got db' s f h e =
    ends_in db _ db got db' e (Advances-refl db s)
claim_state-Advances hashing WorkState.failed row key now lease db got db' s f h e =
    ends_in db _ db got db' e (Advances-refl db s)
claim_state-Advances hashing WorkState.calling row key now lease db got db' s f h e =
    let called : stage row.state ≡ 1 = ap stage h in
    unless_leased (has_expired row.lease_until now) db _ _ got db' s
      (hold_bound-Advances row.reservation_id now db
        (set_work row.id (with_state WorkState.outcome_unknown) db)
        (set_work-Advances row.id (with_state WorkState.outcome_unknown) db row (λ w. refl)
          (λ w. refl) f (omega arith) (λ w. omega arith) s))
      e
claim_state-Advances hashing WorkState.pending row key now lease db got db' s f h e =
    let fresh : stage row.state ≡ 0 = ap stage h in
    unless_leased (has_expired row.lease_until now) db _ _ got db' s
      (set_work-Advances row.id (claimed_by (now + lease)) db row (λ w. refl) (λ w. refl) f
        (omega arith) (λ w. omega arith) s)
      e
claim_state-Advances hashing WorkState.claimed row key now lease db got db' s f h e =
    let fresh : stage row.state ≡ 0 = ap stage h in
    unless_leased (has_expired row.lease_until now) db _ _ got db' s
      (set_work-Advances row.id (claimed_by (now + lease)) db row (λ w. refl) (λ w. refl) f
        (omega arith) (λ w. omega arith) s)
      e
