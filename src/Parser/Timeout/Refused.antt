-- ===== src/Parser/Timeout/Refused.antt =====
-- Which texts Timeout accepts.
use iceberg.Common.Decimal.{is_decimal, atoi, atoi_decimal}
use iceberg.Common.Go.{fail, ret}
use iceberg.Common.Text.{Text, trim_prefix, trim_suffix, has_prefix, codes}
use iceberg.Common.{All-reverse}
use mathlib.Core.List.{reverse}
use iceberg.Common.{
  zero, suc, ℕ, [], ◌∷◌, none, some, true, refl, ◌≡◌, Bool, All, Bool-cases, drop, take, length,
  suc, ◌↔◌, Option-cases, arith, inl, ap, inr, suc-beq-zero,
}
use iceberg.Parser.Timeout.{timeout, scale, digit_prefix, unsupported_unit, is_digit, bad_number}

abbrev IsDecimal : Text → Type 0
IsDecimal s = All (λ c. is_decimal c ≡ true) s

take-digit_prefix :
    (other_digit : ℕ → Bool) (str : Text)
    → take (length (digit_prefix other_digit str)) str ≡ digit_prefix other_digit str
unfolding digit_prefix
take-digit_prefix other_digit [] = refl
take-digit_prefix other_digit (r ∷ str) = elim (Bool-cases (is_digit other_digit r)) [
  | inl digit ↦ rw digit (ap (λ l. r ∷ l) (take-digit_prefix other_digit str))
  | inr other ↦ rw other refl
]

IsDecimal-drop : (n : ℕ) (s : Text) → IsDecimal s → IsDecimal (drop n s)
IsDecimal-drop zero s h = h
IsDecimal-drop (suc n) [] h = tt
IsDecimal-drop (suc n) (c ∷ s) (_, h) = IsDecimal-drop n s h

IsDecimal-trim_prefix : (s prefix : Text) → IsDecimal s → IsDecimal (trim_prefix s prefix)
unfolding trim_prefix
IsDecimal-trim_prefix s prefix h = elim (Bool-cases (has_prefix s prefix)) [
  | inl yes_prefix ↦ rw yes_prefix (IsDecimal-drop (length prefix) s h)
  | inr no_prefix ↦ rw no_prefix h
]

IsDecimal-trim_suffix : (s suffix : Text) → IsDecimal s → IsDecimal (trim_suffix s suffix)
unfolding trim_suffix
IsDecimal-trim_suffix s suffix h =
    All-reverse _ _ (IsDecimal-trim_prefix (reverse s) (reverse suffix) (All-reverse _ s h))

-- A text of digits is no unit, so no number is scaled by it.
scale-IsDecimal :
    (unit : Text) (n : ℕ) → IsDecimal unit → scale unit n ≡ fail (unsupported_unit unit)
unfolding scale
scale-IsDecimal [] n h = refl
scale-IsDecimal (c ∷ unit) n (h, _) = ground arith

module _ (other_digit : ℕ → Bool) (r : ℕ) (str : Text) where
  abbrev unit : Text
  unit =
      trim_suffix
        (trim_prefix (take (length (digit_prefix other_digit (r ∷ str))) (r ∷ str)) (codes " "))
        (codes " ")

  timeout_bad :
      atoi (digit_prefix other_digit (r ∷ str)) ≡ none
      → timeout other_digit (r ∷ str) ≡ fail (bad_number (digit_prefix other_digit (r ∷ str)))
  unfolding timeout
  timeout_bad wrong = rw (suc-beq-zero (length str), wrong, timeout) refl

  unit-IsDecimal : (n : ℕ) → atoi (digit_prefix other_digit (r ∷ str)) ≡ some n → IsDecimal unit
  unit-IsDecimal n read =
      IsDecimal-trim_suffix _ (codes " ")
        (IsDecimal-trim_prefix _ (codes " ") (rw take-digit_prefix (atoi_decimal _ n read)))

  timeout-scale :
      (n : ℕ)
      → atoi (digit_prefix other_digit (r ∷ str)) ≡ some n
      → timeout other_digit (r ∷ str) ≡ scale unit n
  unfolding timeout
  timeout-scale n read = rw (suc-beq-zero (length str), read, timeout) refl

-- Timeout accepts the empty text, as 0, and refuses every other text, "30s" like "abc": it looks for
-- the unit among the digits.
pub timeout-eq-ret_iff :
    (other_digit : ℕ → Bool) (str : Text) (d : ℕ)
    → (timeout other_digit str ≡ ret d) ↔ ((str ≡ []) × (d ≡ 0))
unfolding timeout
timeout-eq-ret_iff other_digit [] d = (λ e. (refl, cc), λ (_, e). cc)
timeout-eq-ret_iff other_digit (r ∷ str) d = (λ e. absurd (refused e), λ (e, _). cc)
  where
    refused : timeout other_digit (r ∷ str) ≡ ret d → ⊥
    refused e = elim (Option-cases (atoi (digit_prefix other_digit (r ∷ str)))) [
      | inl wrong ↦ cc (timeout_bad other_digit r str wrong)
      | inr (n, read) ↦ cc (
        timeout-scale other_digit r str n read,
        scale-IsDecimal (unit other_digit r str) n (unit-IsDecimal other_digit r str n read),
      )
    ]
