-- ===== src/Netio/Keeps.antt =====
-- Properties of the state that an action keeps, however it ends.
use iceberg.Common.Go.{Go, ret, fail, panic}
use iceberg.Netio.Exec.{Exec, proceed, lift, ◌>>=◌}

module _ {ℓ} {S E : Type ℓ} (P : S → Type ℓ) where
  pub record Keeps {A : Type ℓ} (m : Exec S E A) : Type ℓ where
    pub at : (s : S) → P s → P (m s).1

  pub Keeps-lift : {A : Type ℓ} (r : Go E A) → Keeps (lift r)
  Keeps-lift r = record { at = λ s h. h }

  pub Keeps-proceed :
      {A B : Type ℓ} (r : Go E A) (f : A → Exec S E B)
      → ((a : A) → Keeps (f a))
      → Keeps (proceed r f)
  Keeps-proceed (ret a) f k = record { at = λ s. (k a).at s }
  Keeps-proceed (fail e) f k = record { at = λ s h. h }
  Keeps-proceed panic f k = record { at = λ s h. h }

  pub Keeps-bind :
      {A B : Type ℓ} (m : Exec S E A) (f : A → Exec S E B)
      → Keeps m
      → ((a : A) → Keeps (f a))
      → Keeps (m >>= f)
  Keeps-bind m f h k = record { at = λ s p. (Keeps-proceed (m s).0 f k).at (m s).1 (h.at s p) }
