-- ===== src/Collection/Lifecycle.antt =====
-- The life of a partition in packages/database/src/collection-state.ts as a step relation on its
-- row.
use tech_p.Base.{
  ℕ, ◌≤◌, ◌≡◌, refl, true, false, Option, some, List, arith, update_where, ◌==◌, inl, inr,
  Bool-cases, find-update_where, if◌then◌else◌, find_sound, Text, ◌∙◌, ap,
}
use mathlib.Core.Option
use tech_p.Collection.Model.{Partition, PageResult}
use tech_p.Collection.Store.{find_partition, is_running}
use tech_p.Collection.Store.Renewing.{failed_page, resumed, is_final}
use tech_p.Collection.Store.Leasing.{leased, is_claimable}
use tech_p.Collection.Store.Commit.{advanced}

pub data Step : Partition → Partition → Type 0 where
  claim :
      (p : Partition) (run until : ℕ) → is_claimable p.state ≡ true → Step p (leased run until p)
  renew :
      (p : Partition) (until : ℕ)
      → is_running p.state ≡ true
      → Step p (record p { lease_until = some until })
  commit :
      (p : Partition) (result : PageResult) (now : ℕ)
      → is_running p.state ≡ true
      → Step p (advanced result now p)
  fail :
      (p : Partition) (reason : Text) (retry_at : Option ℕ) (now : ℕ)
      → is_running p.state ≡ true
      → Step p (failed_page reason retry_at now p)
  resume : (p : Partition) (now : ℕ) → is_final p.state ≡ false → Step p (resumed now p)

pub data Reach (p : Partition) : Partition → Type 0 where
  here : Reach p p
  next : {q r : Partition} → Reach p q → Step q r → Reach p r

pub Reach-trans : {p q r : Partition} → Reach p q → Reach q r → Reach p r
Reach-trans a here = a
Reach-trans a (next b s) = next (Reach-trans a b) s

-- What every step keeps, or moves in one direction.
pub record Later (p q : Partition) : Type 0 where
  pub same_id : q.id ≡ p.id
  pub same_plan : q.plan ≡ p.plan
  pub epoch : p.lease_epoch ≤ q.lease_epoch
  pub page : p.page_sequence ≤ q.page_sequence

Later-Step : {p q : Partition} → Step p q → Later p q
Later-Step (claim p run until h) = ground arith
Later-Step (renew p until h) = ground arith
Later-Step (commit p result now h) = ground arith
Later-Step (fail p reason retry_at now h) = ground arith
Later-Step (resume p now h) = ground arith

pub Later-Reach : {p q : Partition} → Reach p q → Later p q
Later-Reach here = ground arith
Later-Reach (next r s) = ground (arith, Later-Reach r, Later-Step s)

-- A partition that is completed or partial takes no step.
Step-final : {p q : Partition} → Step p q → is_final p.state ≡ false
Step-final (claim p run until h) = ground arith
Step-final (renew p until h) = ground arith
Step-final (commit p result now h) = ground arith
Step-final (fail p reason retry_at now h) = ground arith
Step-final (resume p now h) = h

pub Reach-final : {p q : Partition} → is_final p.state ≡ true → Reach p q → p ≡ q
Reach-final h here = refl
Reach-final {p} {q} h (next {q = m} r s) =
    let same : p ≡ m = Reach-final h r in let open_state = Step-final s in cc

-- From one database to the next, every partition that is there stays, and its row takes steps.
abbrev pub Follows : List Partition → List Partition → Type 0
Follows ps qs =
    (id : ℕ) (p : Partition)
    → find_partition id ps ≡ some p
    → (q : Partition) × (find_partition id qs ≡ some q) × Reach p q

pub Follows-refl : (ps : List Partition) → Follows ps ps
Follows-refl ps id p e = (p, e, here)

pub Follows-trans : (ps qs rs : List Partition) → Follows ps qs → Follows qs rs → Follows ps rs
Follows-trans ps qs rs f g id p e =
    let (q, e1, r1) = f id p e in let (r, e2, r2) = g id q e1 in (r, e2, Reach-trans r1 r2)

-- The update of the row with one id, where that row takes a step.
pub Follows-update :
    (key : ℕ) (g : Partition → Partition) (ps : List Partition)
    → ((p : Partition) → (g p).id ≡ p.id)
    → ((p : Partition) → find_partition key ps ≡ some p → Step p (g p))
    → Follows ps (update_where (λ p. p.id == key) g ps)
Follows-update key g ps same st id p e = elim (Bool-cases (p.id == key)) [
  | inl hit ↦
      let key_id : key ≡ id =
        ground (arith, find_sound (λ (x : Partition). x.id == id) ps p e, hit) in
      (
        g p,
        law ∙ (ap (Option.map change) e ∙ ap some (found hit)),
        next here (st p (ap (λ k. find_partition k ps) key_id ∙ e)),
      )
  | inr miss ↦ (p, law ∙ (ap (Option.map change) e ∙ ap some (left miss)), here)
]
  where
    change : Partition → Partition
    change x = if x.id == key then g x else x

    law :
        find_partition id (update_where (λ x. x.id == key) g ps)
        ≡ Option.map change (find_partition id ps)
    law =
        find-update_where (λ x. x.id == id) (λ x. x.id == key) g ps
          (λ x. ap (λ n. n == id) (same x))

    found : p.id == key ≡ true → change p ≡ g p
    found hit = ground arith

    left : p.id == key ≡ false → change p ≡ p
    left miss = ground arith
