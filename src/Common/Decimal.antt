-- ===== src/Common/Decimal.antt =====
-- strconv.Atoi on a text without a sign: an int64, or an error.
use iceberg.Common.{zero, suc, ◌==◌}
use iceberg.Common.{
  ℕ, ◌+◌, ◌-◌, ◌*◌, ◌^◌, [], ◌∷◌, Option, none, some, Bool, arith, inl, inr, All, Bool-cases,
  Option-cases, ◌≡◌, true, ◌&&◌, leb, ltb, if◌then◌else◌, ◌≡◌, All, true, Bool-cases, Option-cases,
  inl, arith,
}
use iceberg.Common.Text.{Text}

abbrev pub is_decimal : ℕ → Bool
is_decimal c = leb b'0' c && leb c b'9'

unfoldable pub digits_value : ℕ → Text → Option ℕ
digits_value n [] = some n
digits_value n (c ∷ s) =
    let rest = digits_value (n * 10 + (c - b'0')) s in if is_decimal c then rest else none

-- `none` is an error: no digit, another byte, or a number out of range.
unfoldable pub atoi : Text → Option ℕ
unfolding digits_value
atoi [] = none
atoi (c ∷ s) = elim (digits_value 0 (c ∷ s)) [
  | none ↦ none
  | some n ↦ if ltb n (2 ^ 63) then some n else none
]

pub digits_value_decimal :
    (n : ℕ) (s : Text) (m : ℕ) → digits_value n s ≡ some m → All (λ c. is_decimal c ≡ true) s
unfolding digits_value
digits_value_decimal n [] m e = tt
digits_value_decimal n (c ∷ s) m e = elim (Bool-cases (is_decimal c)) [
  | inl digit ↦ (digit, digits_value_decimal (n * 10 + (c - b'0')) s m (ground arith))
  | inr other ↦ absurd (ground arith)
]

pub atoi_decimal : (s : Text) (m : ℕ) → atoi s ≡ some m → All (λ c. is_decimal c ≡ true) s
unfolding atoi
atoi_decimal [] m e = tt
atoi_decimal (c ∷ s) m e = elim (Option-cases (digits_value 0 (c ∷ s))) [
  | inl wrong ↦ absurd (ground arith)
  | inr (n, read) ↦ digits_value_decimal 0 (c ∷ s) n read
]

-- `negsuc n` is -(n + 1).
pub data ℤ : Type 0 where
  pos : ℕ → ℤ
  negsuc : ℕ → ℤ

abbrev pub negative : Option ℕ → Option ℤ
negative none = none
negative (some zero) = some (pos 0)
negative (some (suc n)) = if ltb n (2 ^ 63) then some (negsuc n) else none

-- strconv.Atoi with a sign.
unfoldable pub atoi_signed : Text → Option ℤ
unfolding atoi digits_value
atoi_signed [] = none
atoi_signed (c ∷ s) =
    if c == b'-'
    then elim s [ [] ↦ none | d ∷ t ↦ negative (digits_value 0 (d ∷ t)) ]
    else elim (if c == b'+' then atoi s else atoi (c ∷ s)) [ none ↦ none | some n ↦ some (pos n) ]
