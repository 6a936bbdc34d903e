-- ===== src/Base/Lists.antt =====
-- Lists as tables of rows: select, update, aggregate. `length` and its like count by native numbers.
use Prim.Native.Nat.{ℕ, suc, ◌+◌, ◌≤◌}
use mathlib.Core.Path.{◌≡◌, refl, subst}
use mathlib.Core.Bool.{Bool, true, false, ◌&&◌, ◌||◌}
use mathlib.Core.Option
use mathlib.Core.Option.{Option, none, some}
use mathlib.Core.Logic.{inl, inr}
use mathlib.Core.List.{List, [], ◌∷◌, ◌++◌}
use native.Mathlib.Omega.{arith}
use tech_p.Base.Tests.{if◌then◌else◌, Bool-cases}

module _ {ℓ} {A : Type ℓ} where
  abbrev pub length : List A → ℕ
  length [] = 0
  length (x ∷ xs) = suc (length xs)

  -- The first row that passes.
  unfoldable pub find : (A → Bool) → List A → Option A
  find p [] = none
  find p (x ∷ xs) = if p x then some x else find p xs

  unfoldable pub any : (A → Bool) → List A → Bool
  any p [] = false
  any p (x ∷ xs) = p x || any p xs

  unfoldable pub all : (A → Bool) → List A → Bool
  all p [] = true
  all p (x ∷ xs) = p x && all p xs

  unfoldable pub keep_if : (A → Bool) → List A → List A
  keep_if p [] = []
  keep_if p (x ∷ xs) = let rest = keep_if p xs in if p x then x ∷ rest else rest

  -- `UPDATE … SET g WHERE p`
  unfoldable pub update_where : (A → Bool) → (A → A) → List A → List A
  update_where p g [] = []
  update_where p g (x ∷ xs) = (if p x then g x else x) ∷ update_where p g xs

  -- `SUM(f)`
  unfoldable pub sum_by : (A → ℕ) → List A → ℕ
  sum_by f [] = 0
  sum_by f (x ∷ xs) = f x + sum_by f xs

  pub length-append : (xs ys : List A) → length (xs ++ ys) ≡ length xs + length ys
  length-append [] ys = omega arith
  length-append (x ∷ xs) ys = omega (arith, length-append xs ys)

module _ {ℓ} {A : Type ℓ} where
  pub sum_by-append : (f : A → ℕ) (xs ys : List A) → sum_by f (xs ++ ys) ≡ sum_by f xs + sum_by f ys
  unfolding sum_by
  sum_by-append f [] ys = omega arith
  sum_by-append f (x ∷ xs) ys = omega (arith, sum_by-append f xs ys)

  -- An update that does not raise the weight of a row that it changes does not raise the sum.
  pub sum_by-update_where-le :
      (f : A → ℕ) (p : A → Bool) (g : A → A) (xs : List A)
      → ((x : A) → p x ≡ true → f (g x) ≤ f x)
      → sum_by f (update_where p g xs) ≤ sum_by f xs
  unfolding sum_by update_where
  sum_by-update_where-le f p g [] h = omega arith
  sum_by-update_where-le f p g (x ∷ xs) h = ground (arith, h x, sum_by-update_where-le f p g xs h)

  -- An update that leaves the key of every row alone is not seen by a search by key.
  pub find_sound : (p : A → Bool) (xs : List A) (x : A) → find p xs ≡ some x → p x ≡ true
  unfolding find
  find_sound p [] x h = ground arith
  find_sound p (y ∷ ys) x h = ground (arith, find_sound p ys x)

module _ {ℓ κ} {A : Type ℓ} where
  -- A predicate by recursion computes to tuples, which the tactics read and build.
  abbrev pub All : (A → Type κ) → List A → Type κ
  All P [] = Unit
  All P (x ∷ xs) = P x × All P xs

  pub All-append : (P : A → Type κ) (xs ys : List A) → All P xs → All P ys → All P (xs ++ ys)
  All-append P [] ys h k = k
  All-append P (x ∷ xs) ys h k = (h.0, All-append P xs ys h.1 k)

  pub All-find :
      (P : A → Type κ) (p : A → Bool) (xs : List A) (x : A) → All P xs → find p xs ≡ some x → P x
  unfolding find
  All-find P p [] x h e = cc
  All-find P p (y ∷ ys) x h e = elim (Bool-cases (p y)) [
    | inl hit ↦ let e' : some y ≡ some x = rw hit at e in let same : y ≡ x = cc in subst P same h.0
    | inr miss ↦ All-find P p ys x h.1 (rw miss at e)
  ]

  pub All-update_where :
      (P : A → Type κ) (p : A → Bool) (g : A → A) (xs : List A)
      → ((x : A) → p x ≡ true → P x → P (g x))
      → All P xs
      → All P (update_where p g xs)
  unfolding update_where
  All-update_where P p g [] keep h = tt
  All-update_where P p g (x ∷ xs) keep h = (choose (p x) refl, All-update_where P p g xs keep h.1)
    where
      choose : (b : Bool) → p x ≡ b → P (if b then g x else x)
      choose true hit = keep x hit h.0
      choose false miss = h.0

module _ {ℓ κ} {A : Type ℓ} where
  -- What becomes of the rows that an update changes, and of the others.
  pub All-update_split :
      (P Q : A → Type κ) (p : A → Bool) (g : A → A) (xs : List A)
      → ((x : A) → p x ≡ true → P x → Q (g x))
      → ((x : A) → p x ≡ false → P x → Q x)
      → All P xs
      → All Q (update_where p g xs)
  unfolding update_where
  All-update_split P Q p g [] changes keeps h = tt
  All-update_split P Q p g (x ∷ xs) changes keeps h =
      (choose (p x) refl, All-update_split P Q p g xs changes keeps h.1)
    where
      choose : (b : Bool) → p x ≡ b → Q (if b then g x else x)
      choose true hit = changes x hit h.0
      choose false miss = keeps x miss h.0

  pub All-map : (P Q : A → Type κ) (xs : List A) → ((x : A) → P x → Q x) → All P xs → All Q xs
  All-map P Q [] f h = tt
  All-map P Q (x ∷ xs) f h = (f x h.0, All-map P Q xs f h.1)

module _ {ℓ} {A : Type ℓ} where
  -- A search by a key that the update leaves alone finds the updated row.
  pub find-update_where :
      (q p : A → Bool) (g : A → A) (xs : List A)
      → ((x : A) → q (g x) ≡ q x)
      → find q (update_where p g xs) ≡ Option.map (λ x. if p x then g x else x) (find q xs)
  unfolding find update_where
  find-update_where q p g [] same = refl
  find-update_where q p g (x ∷ xs) same = ground (arith, same x, find-update_where q p g xs same)

  pub find-append :
      (p : A → Bool) (xs : List A) (x : A)
      → find p xs ≡ none
      → p x ≡ true
      → find p (xs ++ x ∷ []) ≡ some x
  unfolding find
  find-append p [] x h e = rw e
  find-append p (y ∷ ys) x h e = ground (arith, find-append p ys x)

  pub find-append_old :
      (p : A → Bool) (xs ys : List A) (x : A) → find p xs ≡ some x → find p (xs ++ ys) ≡ some x
  unfolding find
  find-append_old p [] ys x h = cc
  find-append_old p (z ∷ zs) ys x h = ground (arith, find-append_old p zs ys x)
