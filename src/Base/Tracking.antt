-- ===== src/Base/Tracking.antt =====
-- Rows of a table followed by their key from one state of the table to a later one.
use Prim.Native.Nat.{ℕ}
use mathlib.Core.Path.{◌≡◌, ap, ◌∙◌}
use mathlib.Core.Bool.{true, false}
use mathlib.Core.Option
use mathlib.Core.Option.{Option, none, some}
use mathlib.Core.Logic.{inl, inr}
use mathlib.Core.List.{List, ◌++◌}
use native.Mathlib.Omega.{arith}
use tech_p.Base.Tests.{◌==◌, if◌then◌else◌, Bool-cases}
use tech_p.Base.Lists.{find, update_where, find_sound, find-update_where, find-append_old}

module _ {A : Type 0} (key : A → ℕ) where
  abbrev pub by_key : ℕ → List A → Option A
  by_key id xs = find (λ x. key x == id) xs

  -- Every row that is in `xs` is in `ys`, and `Rel` relates the two.
  abbrev pub Tracks : (A → A → Type 0) → List A → List A → Type 0
  Tracks Rel xs ys =
      (id : ℕ) (x : A) → by_key id xs ≡ some x → (y : A) × (by_key id ys ≡ some y) × Rel x y

  module _ (Rel : A → A → Type 0) where
    pub Tracks-id : ((x : A) → Rel x x) → (xs : List A) → Tracks Rel xs xs
    Tracks-id same xs id x e = (x, e, same x)

    pub Tracks-trans :
        ((x y z : A) → Rel x y → Rel y z → Rel x z)
        → (xs ys zs : List A) → Tracks Rel xs ys
        → Tracks Rel ys zs
        → Tracks Rel xs zs
    Tracks-trans joined xs ys zs f g id x e =
        let (y, e1, r1) = f id x e in let (z, e2, r2) = g id y e1 in (z, e2, joined x y z r1 r2)

    pub Tracks-append : ((x : A) → Rel x x) → (xs ys : List A) → Tracks Rel xs (xs ++ ys)
    Tracks-append same xs ys id x e = (x, find-append_old (λ y. key y == id) xs ys x e, same x)

    -- The update of the row with one key, where that row is related to what becomes of it.
    pub Tracks-update :
        ((x : A) → Rel x x)
        → (k : ℕ) (g : A → A) (xs : List A) → ((x : A) → key (g x) ≡ key x)
        → ((x : A) → by_key k xs ≡ some x → Rel x (g x))
        → Tracks Rel xs (update_where (λ x. key x == k) g xs)
    Tracks-update self k g xs same st id p e = elim (Bool-cases (key p == k)) [
      | inl hit ↦
          let ids : k ≡ id = ground (arith, find_sound (λ (x : A). key x == id) xs p e, hit) in
          (
            g p,
            law ∙ (ap (Option.map change) e ∙ ap some (found hit)),
            st p (ap (λ n. by_key n xs) ids ∙ e),
          )
      | inr miss ↦ (p, law ∙ (ap (Option.map change) e ∙ ap some (left miss)), self p)
    ]
      where
        change : A → A
        change x = if key x == k then g x else x

        law : by_key id (update_where (λ x. key x == k) g xs) ≡ Option.map change (by_key id xs)
        law =
            find-update_where (λ x. key x == id) (λ x. key x == k) g xs
              (λ x. ap (λ n. n == id) (same x))

        found : key p == k ≡ true → change p ≡ g p
        found hit = ground arith

        left : key p == k ≡ false → change p ≡ p
        left miss = ground arith
