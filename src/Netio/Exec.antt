-- ===== src/Netio/Exec.antt =====
-- Code that changes a state and may return early with an error or panic: what was written before
-- that stays written.
use iceberg.Common.{◌≡◌, refl, ap}
use iceberg.Common.Go.{Go, ret, fail, panic}

abbrev pub Exec {ℓ} : Type ℓ → Type ℓ → Type ℓ → Type ℓ
Exec S E A = S → Go E A × S

module _ {ℓ} {S E A B : Type ℓ} where
  abbrev pub proceed : Go E A → (A → Exec S E B) → Exec S E B
  proceed (ret a) f s = f a s
  proceed (fail e) f s = (fail e, s)
  proceed panic f s = (panic, s)

  infixl 5 ◌>>=◌
  abbrev pub ◌>>=◌ : Exec S E A → (A → Exec S E B) → Exec S E B
  ◌>>=◌ m f s = let (r, s') = m s in proceed r f s'

module _ {ℓ} {S E : Type ℓ} where
  infixl 5 ◌>>◌
  abbrev pub ◌>>◌ : {A B : Type ℓ} → Exec S E A → Exec S E B → Exec S E B
  m >> n = m >>= λ _. n

module _ {ℓ} {S E A : Type ℓ} where
  abbrev pub lift : Go E A → Exec S E A
  lift r s = (r, s)

-- Inversion of a bind that returned.
pub proceed-eq-ret {ℓ} :
    {S E A B : Type ℓ} (r : Go E A) (f : A → Exec S E B) (s : S) (b : B)
    → (proceed r f s).0 ≡ ret b
    → (a : A) × (r ≡ ret a) × ((f a s).0 ≡ ret b)
proceed-eq-ret (ret a) f s b h = (a, refl, h)
proceed-eq-ret (fail e) f s b h = cc
proceed-eq-ret panic f s b h = cc

-- The same, with the state: what follows the first action is all of the rest.
pub proceed_ret {ℓ} :
    {S E A B : Type ℓ} (r : Go E A) (f : A → Exec S E B) (s : S) (b : B)
    → (proceed r f s).0 ≡ ret b
    → (a : A) × (r ≡ ret a) × (proceed r f s ≡ f a s)
proceed_ret (ret a) f s b h = (a, refl, refl)
proceed_ret (fail e) f s b h = cc
proceed_ret panic f s b h = cc

-- The same for the operator.
pub exec-eq-ret {ℓ} :
    {S E A B : Type ℓ} (m : Exec S E A) (f : A → Exec S E B) (s : S) (b : B)
    → ((m >>= f) s).0 ≡ ret b
    → (a : A) × ((m s).0 ≡ ret a) × ((f a (m s).1).0 ≡ ret b)
exec-eq-ret m f s b e = proceed-eq-ret (m s).0 f (m s).1 b e

-- A bind whose first action returns.
pub exec_ret {ℓ} :
    {S E A B : Type ℓ} (m : Exec S E A) (f : A → Exec S E B) (s s' : S) (a : A)
    → m s ≡ (ret a, s')
    → (m >>= f) s ≡ f a s'
exec_ret m f s s' a e = ap (λ t. proceed t.0 f t.1) e
