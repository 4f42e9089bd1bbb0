-- ===== src/Config/Arguments.antt =====
-- src/config.rs: the loop over the arguments ends.
use my_s.Common.{List, Text, [], arith, length, refl, some, suc, zero, ℕ, ◌∷◌, ◌≡◌, ◌≤◌}
use my_s.Config.{CliOverrides, no_overrides, parse_cli_overrides, read_argument, read_arguments}

-- A turn takes at least its own argument.
read_argument-length :
    (arg : Text) (rest : List Text) (out : CliOverrides)
    → length (read_argument arg rest out).1 ≤ length rest
read_argument-length arg [] out = ground arith
read_argument-length arg (v ∷ rest) out = ground arith

read_arguments-some :
    (n m : ℕ) (args : List Text) (out : CliOverrides)
    → length args ≤ n
    → length args ≤ m
    → (r : CliOverrides) × (read_arguments n args out ≡ some r)
      × (read_arguments m args out ≡ some r)
unfolding read_arguments
read_arguments-some n m [] out h k = (out, refl, refl)
read_arguments-some zero m (arg ∷ rest) out h k = absurd (omega (arith, h))
read_arguments-some (suc n) zero (arg ∷ rest) out h k = absurd (omega (arith, k))
read_arguments-some (suc n) (suc m) (arg ∷ rest) out h k =
    let l = read_argument-length arg rest out in
    read_arguments-some n m (read_argument arg rest out).1 (read_argument arg rest out).0
      (omega (arith, h, l)) (omega (arith, k, l))

-- The loop over the arguments ends after at most as many turns as there are arguments, and more turns
-- would not change what it gives.
pub parse_cli_overrides-ends :
    (n : ℕ) (args : List Text)
    → length args ≤ n
    → (out : CliOverrides) × (parse_cli_overrides args ≡ some out)
      × (read_arguments n args no_overrides ≡ some out)
unfolding parse_cli_overrides
parse_cli_overrides-ends n args h =
    read_arguments-some (length args) n args no_overrides (omega arith) h
