-- ===== src/Parser/Timeout.antt =====
-- Timeout of internal/bootstrap/parser/parser.go. The text is its runes; `other_digit` is the table
-- of unicode.IsDigit beyond Latin-1.
pub mod Refused
use iceberg.Common.{
  ℕ, ◌*◌, ◌%◌, ◌^◌, [], ◌∷◌, none, some, Bool, length, ltb, ◌==◌, if◌then◌else◌, take,
}
use iceberg.Common.Decimal.{is_decimal, atoi}
use iceberg.Common.Go.{Go, ret, fail}
use iceberg.Common.Text.{Text, text_beq, codes, trim_prefix, trim_suffix, to_lower}

pub data TimeoutError : Type 0 where
  bad_number : Text → TimeoutError
  unsupported_unit : Text → TimeoutError

-- unicode.IsDigit
abbrev pub is_digit : (ℕ → Bool) → ℕ → Bool
is_digit other_digit r = if ltb r 256 then is_decimal r else other_digit r

-- The loop of Timeout: the runes up to the first that is no digit.
unfoldable pub digit_prefix : (ℕ → Bool) → Text → Text
digit_prefix other_digit [] = []
digit_prefix other_digit (r ∷ str) =
    if is_digit other_digit r then r ∷ digit_prefix other_digit str else []

-- A time.Duration, as the bit pattern of its int64.
abbrev duration : ℕ → ℕ → ℕ
duration unit n = (unit * n) % 2 ^ 64

-- The switch on the unit.
unfoldable pub scale : Text → ℕ → Go TimeoutError ℕ
scale unit n =
    let lower = to_lower unit in
    if text_beq lower (codes "ms")
    then ret (duration 1_000_000 n)
    else if text_beq lower (codes "s")
    then ret (duration 1_000_000_000 n)
    else if text_beq lower (codes "m")
    then ret (duration 60_000_000_000 n)
    else if text_beq lower (codes "h")
    then ret (duration 3_600_000_000_000 n)
    else fail (unsupported_unit unit)

-- The unit is cut from the front of the text, as long as the digits are.
unfoldable pub timeout : (ℕ → Bool) → Text → Go TimeoutError ℕ
unfolding digit_prefix scale
timeout other_digit str =
    if length str == 0
    then ret 0
    else let buffer = digit_prefix other_digit str in
      let unit = take (length buffer) str in
      let unit = trim_suffix (trim_prefix unit (codes " ")) (codes " ") in
      elim (atoi buffer) [ none ↦ fail (bad_number buffer) | some n ↦ scale unit n ]
