-- ===== src/Common/Tests.antt =====
-- Boolean tests on numbers, the conditional, and equality tests as an interface.
use Prim.Native.Nat.{ℕ, compare, Ordering}
use mathlib.Core.Path.{◌≡◌, refl}
use mathlib.Core.Logic.{◌↔◌, ◌⊎◌, inl, inr}
use mathlib.Core.Bool.{Bool, true, false, ◌&&◌}
use mathlib.Core.Option.{Option, none, some}
use mathlib.Core.List.{List, [], ◌∷◌}
use native.Mathlib.Omega.{arith}

abbrev pub ltb : ℕ → ℕ → Bool
ltb a b = elim (compare a b) [ Ordering.lt ↦ true | _ ↦ false ]

abbrev pub leb : ℕ → ℕ → Bool
leb a b = elim (compare a b) [ Ordering.gt ↦ false | _ ↦ true ]

abbrev pub nat_beq : ℕ → ℕ → Bool
nat_beq a b = elim (compare a b) [ Ordering.eq ↦ true | _ ↦ false ]

pub nat_beq_iff : (a b : ℕ) → (nat_beq a b ≡ true) ↔ (a ≡ b)
nat_beq_iff a b = ground arith

infix 1 if◌then◌else◌
abbrev pub if◌then◌else◌ {ℓ} : {A : Type ℓ} → Bool → A → A → A
if true then x else y = x
if false then x else y = y

-- To split on a computed value and keep the equation.
pub Bool-cases : (b : Bool) → (b ≡ true) ⊎ (b ≡ false)
Bool-cases true = inl refl
Bool-cases false = inr refl

pub Option-cases {ℓ} : {A : Type ℓ} (o : Option A) → (o ≡ none) ⊎ ((a : A) × (o ≡ some a))
Option-cases none = inl refl
Option-cases (some a) = inr (a, refl)

-- Text is the list of its code points.
abbrev pub Text : Type 0
Text = List ℕ

unfoldable pub text_beq : Text → Text → Bool
text_beq [] [] = true
text_beq (c ∷ s) (d ∷ t) = nat_beq c d && text_beq s t
text_beq _ _ = false

pub text_beq_iff : (s t : Text) → (text_beq s t ≡ true) ↔ (s ≡ t)
unfolding text_beq
text_beq_iff [] [] = (λ _. refl, λ _. refl)
text_beq_iff (c ∷ s) (d ∷ t) = ground (arith, text_beq_iff s t)
text_beq_iff [] (d ∷ t) = ground arith
text_beq_iff (c ∷ s) [] = ground arith

-- A type whose values the code compares: the test, and that it finds exactly the equal ones.
pub record Compared {ℓ} (K : Type ℓ) : Type ℓ where
  pub same : K → K → Bool
  pub sound : (x y : K) → same x y ≡ true → x ≡ y
  pub complete : (x : K) → same x x ≡ true

pub text_beq_refl : (s : Text) → text_beq s s ≡ true
text_beq_refl s = (text_beq_iff s s).1 refl

pub nat_beq_refl : (n : ℕ) → nat_beq n n ≡ true
nat_beq_refl n = ground arith

instance abbrev pub compared_ids : Compared ℕ
compared_ids = record {
  same = nat_beq;
  sound = λ x y. (nat_beq_iff x y).0;
  complete = nat_beq_refl;
}

instance abbrev pub compared_texts : Compared Text
compared_texts = record {
  same = text_beq;
  sound = λ x y. (text_beq_iff x y).0;
  complete = text_beq_refl;
}

-- `column = value` for a column that may be NULL
abbrev pub opt_beq {ℓ} : {K : Type ℓ} ⦃c : Compared K⦄ → Option K → K → Bool
opt_beq none value = false
opt_beq ⦃c⦄ (some k) value = c.same k value

-- `o.or_else(|| t)`
abbrev pub or_else {ℓ} : {A : Type ℓ} → Option A → Option A → Option A
or_else none t = t
or_else (some a) t = some a
