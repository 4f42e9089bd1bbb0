-- ===== src/Common/Lists.antt =====
-- Lists measured by native numbers, and the row operations of SQL over them: a table is the list
-- of its rows in rowid order.
use Prim.Native.Nat.{ℕ, zero, suc, ◌+◌}
use mathlib.Core.Path.{◌≡◌, refl}
use mathlib.Core.Bool.{Bool, true, false, ◌&&◌, ◌||◌}
use mathlib.Core.Option.{Option, none, some}
use mathlib.Core.List.{List, [], ◌∷◌, ◌++◌, map}
use native.Mathlib.Omega.{arith}
use my_s.Common.Tests.{if◌then◌else◌}

module _ {ℓ} {A : Type ℓ} where
  abbrev pub length : List A → ℕ
  length [] = 0
  length (x ∷ xs) = suc (length xs)

  abbrev pub take : ℕ → List A → List A
  take zero xs = []
  take (suc n) [] = []
  take (suc n) (x ∷ xs) = x ∷ take n xs

  abbrev pub drop : ℕ → List A → List A
  drop zero xs = xs
  drop (suc n) [] = []
  drop (suc n) (x ∷ xs) = drop n xs

  pub length-append : (xs ys : List A) → length (xs ++ ys) ≡ length xs + length ys
  length-append [] ys = omega arith
  length-append (x ∷ xs) ys = omega (arith, length-append xs ys)

  -- SELECT … WHERE p
  unfoldable pub select : (A → Bool) → List A → List A
  select p [] = []
  select p (x ∷ xs) = let rest = select p xs in if p x then x ∷ rest else rest

  -- SELECT … WHERE p LIMIT 1
  unfoldable pub first : (A → Bool) → List A → Option A
  first p [] = none
  first p (x ∷ xs) = let rest = first p xs in if p x then some x else rest

  -- EXISTS (SELECT 1 … WHERE p)
  unfoldable pub any : (A → Bool) → List A → Bool
  any p [] = false
  any p (x ∷ xs) = p x || any p xs

  -- DELETE … WHERE p
  unfoldable pub delete : (A → Bool) → List A → List A
  delete p [] = []
  delete p (x ∷ xs) = let rest = delete p xs in if p x then rest else x ∷ rest

  -- UPDATE … SET f WHERE p
  unfoldable pub update : (A → Bool) → (A → A) → List A → List A
  update p f [] = []
  update p f (x ∷ xs) = (if p x then f x else x) ∷ update p f xs

  -- SUM(f)
  unfoldable pub sum : (A → ℕ) → List A → ℕ
  sum f [] = 0
  sum f (x ∷ xs) = f x + sum f xs

module _ {ℓ κ} {A : Type ℓ} where
  abbrev pub All : (A → Type κ) → List A → Type κ
  All P [] = Unit
  All P (x ∷ xs) = P x × All P xs

module _ {ℓ} {A : Type ℓ} where
  pub first-holds : (p : A → Bool) (xs : List A) (a : A) → first p xs ≡ some a → p a ≡ true
  unfolding first
  first-holds p [] a h = ground arith
  first-holds p (x ∷ xs) a h = ground (arith, first-holds p xs a)

  pub first-eq-none : (p : A → Bool) (xs : List A) → any p xs ≡ false → first p xs ≡ none
  unfolding first any
  first-eq-none p [] h = refl
  first-eq-none p (x ∷ xs) h = ground (arith, first-eq-none p xs)

  pub first-any : (p : A → Bool) (xs : List A) → first p xs ≡ none → any p xs ≡ false
  unfolding first any
  first-any p [] h = refl
  first-any p (x ∷ xs) h = ground (arith, first-any p xs)

  pub any-append : (p : A → Bool) (xs ys : List A) → any p (xs ++ ys) ≡ (any p xs || any p ys)
  unfolding any
  any-append p [] ys = refl
  any-append p (x ∷ xs) ys = ground (arith, any-append p xs ys)

  pub first-append :
      (p : A → Bool) (xs ys : List A)
      → first p (xs ++ ys) ≡ (if any p xs then first p xs else first p ys)
  unfolding first any
  first-append p [] ys = refl
  first-append p (x ∷ xs) ys = ground (arith, first-append p xs ys)

  pub any-first :
      (p q : A → Bool) (xs : List A) (a : A) → first p xs ≡ some a → q a ≡ true → any q xs ≡ true
  unfolding first any
  any-first p q [] a h k = ground arith
  any-first p q (x ∷ xs) a h k = ground (arith, any-first p q xs a)

  pub any_implied :
      (p q : A → Bool) (xs : List A)
      → ((x : A) → p x ≡ true → q x ≡ true)
      → any p xs ≡ true
      → any q xs ≡ true
  unfolding any
  any_implied p q [] h k = ground arith
  any_implied p q (x ∷ xs) h k = ground (arith, h x, any_implied p q xs h)

  -- What holds for some row still does if a statement keeps it for each row.
  pub any-update :
      (q p : A → Bool) (f : A → A) (xs : List A)
      → ((x : A) → q x ≡ true → p x ≡ true → q (f x) ≡ true)
      → any q xs ≡ true
      → any q (update p f xs) ≡ true
  unfolding any update
  any-update q p f [] h k = ground arith
  any-update q p f (x ∷ xs) h k = ground (arith, h x, any-update q p f xs h)

  pub any-delete :
      (q p : A → Bool) (xs : List A)
      → ((x : A) → q x ≡ true → p x ≡ false)
      → any q xs ≡ true
      → any q (delete p xs) ≡ true
  unfolding any delete
  any-delete q p [] h k = ground arith
  any-delete q p (x ∷ xs) h k = ground (arith, h x, any-delete q p xs h)

  pub any-map_kept :
      (q : A → Bool) (f : A → A) (xs : List A)
      → ((x : A) → q x ≡ true → q (f x) ≡ true)
      → any q xs ≡ true
      → any q (map f xs) ≡ true
  unfolding any
  any-map_kept q f [] h k = ground arith
  any-map_kept q f (x ∷ xs) h k = ground (arith, h x, any-map_kept q f xs h)

  pub delete-delete :
      (p q : A → Bool) (xs : List A) → delete q (delete p xs) ≡ delete (λ x. p x || q x) xs
  unfolding delete
  delete-delete p q [] = refl
  delete-delete p q (x ∷ xs) = ground (arith, delete-delete p q xs)

  pub delete-never : (xs : List A) → delete (λ x. false) xs ≡ xs
  unfolding delete
  delete-never [] = refl
  delete-never (x ∷ xs) = ground (arith, delete-never xs)

  pub any-select : (p q : A → Bool) (xs : List A) → any q (select p xs) ≡ any (λ x. p x && q x) xs
  unfolding any select
  any-select p q [] = refl
  any-select p q (x ∷ xs) = ground (arith, any-select p q xs)

  pub never_any : (p : A → Bool) (l : List A) → ((x : A) → p x ≡ false) → any p l ≡ false
  unfolding any
  never_any p [] h = refl
  never_any p (x ∷ l) h = ground (arith, h x, never_any p l h)

  pub any-cong : (p q : A → Bool) (xs : List A) → ((x : A) → p x ≡ q x) → any p xs ≡ any q xs
  unfolding any
  any-cong p q [] h = refl
  any-cong p q (x ∷ xs) h = ground (arith, h x, any-cong p q xs h)

module _ {ℓ} {A B : Type ℓ} where
  pub any-map : (f : A → B) (q : B → Bool) (xs : List A) → any q (map f xs) ≡ any (λ x. q (f x)) xs
  unfolding any
  any-map f q [] = refl
  any-map f q (x ∷ xs) = ground (arith, any-map f q xs)

  pub length-map : (f : A → B) (xs : List A) → length (map f xs) ≡ length xs
  length-map f [] = refl
  length-map f (x ∷ xs) = ground (arith, length-map f xs)
