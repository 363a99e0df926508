-- ===== src/Common/Go.antt =====
-- The outcome of a Go call that returns a value and an error: a value, an error, or a panic.
use iceberg.Common.{◌≡◌, refl}

pub data Go {ℓ κ} (E : Type ℓ) (A : Type κ) : Type (ℓ ⊔ κ) where
  ret : A → Go E A
  fail : E → Go E A
  panic : Go E A

infixl 5 ◌>>=◌
abbrev pub ◌>>=◌ {ℓ κ μ} : {E : Type ℓ} {A : Type κ} {B : Type μ} → Go E A → (A → Go E B) → Go E B
ret a >>= f = f a
fail e >>= f = fail e
panic >>= f = panic

-- `if err != nil { return wrap(err) }`
abbrev pub map_error {ℓ κ μ} : {E : Type ℓ} {F : Type κ} {A : Type μ} → (E → F) → Go E A → Go F A
map_error wrap (ret a) = ret a
map_error wrap (fail e) = fail (wrap e)
map_error wrap panic = panic

pub >>=-eq-ret {ℓ κ μ} :
    {E : Type ℓ} {A : Type κ} {B : Type μ} (m : Go E A) (f : A → Go E B) (b : B)
    → (m >>= f) ≡ ret b
    → (a : A) × (m ≡ ret a) × (f a ≡ ret b)
>>=-eq-ret (ret a) f b h = (a, refl, h)
>>=-eq-ret (fail e) f b h = cc
>>=-eq-ret panic f b h = cc

pub ret_inj {ℓ κ} : {E : Type ℓ} {A : Type κ} {a b : A} → ◌≡◌ {A = Go E A} (ret a) (ret b) → a ≡ b
ret_inj e = cc

pub map_error-eq-ret {ℓ κ μ} :
    {E : Type ℓ} {F : Type κ} {A : Type μ} (wrap : E → F) (r : Go E A) (a : A)
    → map_error wrap r ≡ ret a
    → r ≡ ret a
map_error-eq-ret wrap (ret b) a e = cc
map_error-eq-ret wrap (fail x) a e = absurd (cc)
map_error-eq-ret wrap panic a e = absurd (cc)
