-- ===== src/Common/Map.antt =====
-- A Go map is an association list: `get` reads, `put` is `m[k] = v`. The order of the list stands
-- for the order of one `range`; where a result must not depend on it, a theorem says so.
use iceberg.Common.{some_inj}
use mathlib.Core.List.{List, [], ◌∷◌}
use mathlib.Core.Logic.{◌≢◌, inl, inr}
use mathlib.Core.Option.{Option, none, some}
use mathlib.Core.Path.{◌≡◌, refl, subst}
use native.Mathlib.Omega.{arith}
use iceberg.Common.Keys.{Eq}
use iceberg.Common.Tests.{if◌then◌else◌, Bool-cases}
use iceberg.Common.Lists.{All}

abbrev pub Map {ℓ κ} : Type ℓ → Type κ → Type (ℓ ⊔ κ)
Map K V = List (K × V)

module _ {ℓ κ} {K : Type ℓ} {V : Type κ} ⦃e : Eq K⦄ where
  unfoldable pub get : K → Map K V → Option V
  get k [] = none
  get k ((j, v) ∷ m) = if e.beq j k then some v else get k m

  unfoldable pub put : K → V → Map K V → Map K V
  put k v [] = (k, v) ∷ []
  put k v ((j, w) ∷ m) = if e.beq j k then (k, v) ∷ m else (j, w) ∷ put k v m

  -- delete(m, k)
  unfoldable pub remove : K → Map K V → Map K V
  remove k [] = []
  remove k ((j, v) ∷ m) = if e.beq j k then remove k m else (j, v) ∷ remove k m

  pub get-put :
      (k j : K) (v : V) (m : Map K V) → get j (put k v m) ≡ (if e.beq k j then some v else get j m)
  unfolding get put
  get-put k j v [] = refl
  get-put k j v ((i, w) ∷ m) =
      ground (arith, e.beq_iff k j, e.beq_iff i k, e.beq_iff i j, get-put k j v m)

  -- A missing key reads as the zero value of the value type, `zero_value` here.
  unfoldable pub get_or : K → Map K V → V → V
  unfolding get
  get_or k [] zero_value = zero_value
  get_or k ((j, v) ∷ m) zero_value = if e.beq j k then v else get_or k m zero_value

  pub get_or-none : (k : K) (m : Map K V) (z : V) → get k m ≡ none → get_or k m z ≡ z
  unfolding get get_or
  get_or-none k [] z h = refl
  get_or-none k ((j, v) ∷ m) z h = ground (arith, get_or-none k m z)

  pub get_or-some : (k : K) (m : Map K V) (z v : V) → get k m ≡ some v → get_or k m z ≡ v
  unfolding get get_or
  get_or-some k [] z v h = cc
  get_or-some k ((j, w) ∷ m) z v h = ground (arith, get_or-some k m z v)

  pub get_or-put :
      (k j : K) (v z : V) (m : Map K V)
      → get_or j (put k v m) z ≡ (if e.beq k j then v else get_or j m z)
  unfolding get_or put
  get_or-put k j v z [] = refl
  get_or-put k j v z ((i, w) ∷ m) =
      ground (arith, e.beq_iff k j, e.beq_iff i k, e.beq_iff i j, get_or-put k j v z m)

  pub get-put_self : (k : K) (v : V) (m : Map K V) → get k (put k v m) ≡ some v
  get-put_self k v m = rw (get-put, (e.beq_iff k k).1 refl)

  pub get_or-put_self : (k : K) (v z : V) (m : Map K V) → get_or k (put k v m) z ≡ v
  get_or-put_self k v z m = rw (get_or-put, (e.beq_iff k k).1 refl)

  pub get-put_ne : (k j : K) (v : V) (m : Map K V) → k ≢ j → get j (put k v m) ≡ get j m
  get-put_ne k j v m h = rw get-put (ground (arith, e.beq_iff k j))

module _ {ℓ κ μ} {K : Type ℓ} {V : Type κ} (P : K × V → Type μ) ⦃e : Eq K⦄ where
  pub All-put : (k : K) (v : V) (m : Map K V) → All P m → P (k, v) → All P (put k v m)
  unfolding put
  All-put k v [] h p = (p, tt)
  All-put k v ((j, w) ∷ m) (q, h) p = elim (Bool-cases (e.beq j k)) [
    | inl same ↦ rw same (p, h)
    | inr other ↦ rw other (q, All-put k v m h p)
  ]

  -- What holds of all entries, and of the key with the zero value, holds of what is read.
  pub All-get_or : (k : K) (m : Map K V) (z : V) → All P m → P (k, z) → P (k, get_or k m z)
  unfolding get_or
  All-get_or k [] z h p = p
  All-get_or k ((j, v) ∷ m) z (q, h) p = elim (Bool-cases (e.beq j k)) [
    | inl same ↦ rw same (subst (λ i. P (i, v)) ((e.beq_iff j k).0 same) q)
    | inr other ↦ rw other (All-get_or k m z h p)
  ]

  -- What holds of all entries holds of one that is found.
  pub All-get : (k : K) (m : Map K V) (v : V) → All P m → get k m ≡ some v → P (k, v)
  unfolding get
  All-get k [] v h found = absurd (cc)
  All-get k ((j, w) ∷ m) v (q, h) found = elim (Bool-cases (e.beq j k)) [
    | inl same ↦
        let here : some w ≡ some v = rw same at found in
        subst (λ x. P (k, x)) (some_inj here) (subst (λ i. P (i, w)) ((e.beq_iff j k).0 same) q)
    | inr other ↦ All-get k m v h (rw other at found)
  ]
