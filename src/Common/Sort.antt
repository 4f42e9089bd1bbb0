-- ===== src/Common/Sort.antt =====
-- ORDER BY over the rows of a query. Rows with equal keys keep their order, which SQL leaves open.
use Prim.Native.Nat.{suc}
use mathlib.Core.Path.{◌≡◌, refl}
use mathlib.Core.Bool.{Bool, true, false, ◌&&◌, ◌||◌}
use mathlib.Core.List.{List, [], ◌∷◌}
use native.Mathlib.Omega.{arith}
use my_s.Common.Tests.{Text, ltb, nat_beq, if◌then◌else◌}
use my_s.Common.Lists.{any, length}

-- The order of TEXT columns: that of the UTF-8 bytes, which is the order of the code points.
unfoldable pub text_leb : Text → Text → Bool
text_leb [] t = true
text_leb (c ∷ s) [] = false
text_leb (c ∷ s) (d ∷ t) = ltb c d || (nat_beq c d && text_leb s t)

module _ {ℓ} {A : Type ℓ} where
  unfoldable pub insert_sorted : (A → A → Bool) → A → List A → List A
  insert_sorted le x [] = x ∷ []
  insert_sorted le x (y ∷ ys) =
      let rest = insert_sorted le x ys in if le x y then x ∷ y ∷ ys else y ∷ rest

  -- ORDER BY
  unfoldable pub order_by : (A → A → Bool) → List A → List A
  unfolding insert_sorted
  order_by le [] = []
  order_by le (x ∷ xs) = insert_sorted le x (order_by le xs)

  any-insert_sorted :
      (p : A → Bool) (le : A → A → Bool) (x : A) (ys : List A)
      → any p (insert_sorted le x ys) ≡ (p x || any p ys)
  unfolding insert_sorted any
  any-insert_sorted p le x [] = refl
  any-insert_sorted p le x (y ∷ ys) = ground (arith, any-insert_sorted p le x ys)

  pub any-order_by :
      (p : A → Bool) (le : A → A → Bool) (xs : List A) → any p (order_by le xs) ≡ any p xs
  unfolding order_by any
  any-order_by p le [] = refl
  any-order_by p le (x ∷ xs) =
      ground (arith, any-insert_sorted p le x (order_by le xs), any-order_by p le xs)

  length-insert_sorted :
      (le : A → A → Bool) (x : A) (ys : List A) → length (insert_sorted le x ys) ≡ suc (length ys)
  unfolding insert_sorted
  length-insert_sorted le x [] = refl
  length-insert_sorted le x (y ∷ ys) = ground (arith, length-insert_sorted le x ys)

  pub length-order_by : (le : A → A → Bool) (xs : List A) → length (order_by le xs) ≡ length xs
  unfolding order_by
  length-order_by le [] = refl
  length-order_by le (x ∷ xs) =
      ground (arith, length-insert_sorted le x (order_by le xs), length-order_by le xs)
