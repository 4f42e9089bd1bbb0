-- ===== src/Server/Http/Kept.antt =====
-- src/server: what holds of the state through a handler holds through its parts.
use my_s.Common.{Bool, Bool-cases, inl, inr, refl, ◌≡◌}
use my_s.Server.Http.{Handler, Served, StatusCode, demand, refused, served, ◌>>=◌}

module _ {S A B : Type 0} where
  pub bind-keeps :
      (P : S → Type 0) (m : Handler S A) (f : A → Handler S B)
      → ((s : S) → P s → P (m s).1)
      → ((a : A) (s : S) → P s → P (f a s).1)
      → (s : S) → P s
      → P ((m >>= f) s).1
  bind-keeps P m f h k s p = go (m s).0 refl
    where
      go : (r : Served A) → (m s).0 ≡ r → P ((m >>= f) s).1
      go (served a) e = rw e (k a (m s).1 (h s p))
      go (refused status) e = rw e (h s p)

pub demand-keeps :
    {S : Type 0} (P : S → Type 0) (test : S → Bool) (status : StatusCode) (s : S)
    → P s
    → P (demand test status s).1
demand-keeps P test status s p = elim (Bool-cases (test s)) [ inl e ↦ rw e p | inr e ↦ rw e p ]
