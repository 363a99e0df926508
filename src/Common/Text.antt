-- ===== src/Common/Text.antt =====
-- A Go string is its bytes. The functions of package strings that the code calls, on bytes;
-- `to_upper` and `to_lower` are exact on ASCII text and leave other bytes alone.
use iceberg.Common.{ap}
use iceberg.Common.{◌≡◌, refl, false, ◌||◌, Bool-cases, inl, inr, List}
use Prim.Native.Char.{code}
use Prim.Native.Nat.{ℕ, zero, suc, ◌+◌, ◌-◌}
use Prim.Native.String.{String}
use mathlib.Core.Bool.{Bool, true, false, ◌&&◌}
use mathlib.Core.List.{List, [], ◌∷◌, ◌++◌, map, reverse}
use iceberg.Common.Lists.{length, drop}
use mathlib.Core.Logic.{◌↔◌}
use mathlib.Core.Path.{◌≡◌}
use native.Mathlib.Omega.{arith}
use iceberg.Common.Keys.{Eq}
use iceberg.Common.Tests.{leb, ◌==◌, if◌then◌else◌}

abbrev pub Text : Type 0
Text = List ℕ

-- The bytes of an ASCII literal.
abbrev pub codes : String → Text
codes String.[] = []
codes (String.◌∷◌ c s) = code c ∷ codes s

abbrev pub text_beq : Text → Text → Bool
text_beq [] [] = true
text_beq [] (d ∷ t) = false
text_beq (c ∷ s) [] = false
text_beq (c ∷ s) (d ∷ t) = c == d && text_beq s t

pub text_beq_iff : (s t : Text) → (text_beq s t ≡ true) ↔ (s ≡ t)
text_beq_iff [] [] = ground arith
text_beq_iff [] (d ∷ t) = ground arith
text_beq_iff (c ∷ s) [] = ground arith
text_beq_iff (c ∷ s) (d ∷ t) = ground (arith, text_beq_iff s t)

instance abbrev pub text_eq : Eq Text
text_eq = record { beq = text_beq; beq_iff = text_beq_iff }

-- strings.HasPrefix(s, prefix)
abbrev pub has_prefix : Text → Text → Bool
has_prefix s [] = true
has_prefix [] (p ∷ ps) = false
has_prefix (c ∷ s) (p ∷ ps) = c == p && has_prefix s ps

-- The loop of strings.Split at a one-byte separator.
unfoldable pub split_from : Text → Text → ℕ → List Text
split_from cur [] sep = cur ∷ []
split_from cur (c ∷ s) sep =
    let closed = cur ∷ split_from [] s sep in
    let longer = split_from (cur ++ c ∷ []) s sep in if c == sep then closed else longer

-- strings.Split(s, sep)
unfoldable pub split : Text → ℕ → List Text
unfolding split_from
split s sep = split_from [] s sep

abbrev pub upper_byte : ℕ → ℕ
upper_byte c = if leb b'a' c && leb c b'z' then c - 32 else c

abbrev pub lower_byte : ℕ → ℕ
lower_byte c = if leb b'A' c && leb c b'Z' then c + 32 else c

-- strings.ToUpper
abbrev pub to_upper : Text → Text
to_upper s = map upper_byte s

-- strings.ToLower
abbrev pub to_lower : Text → Text
to_lower s = map lower_byte s

-- strings.TrimPrefix(s, prefix)
unfoldable pub trim_prefix : Text → Text → Text
trim_prefix s prefix = if has_prefix s prefix then drop (length prefix) s else s

-- strings.TrimSuffix(s, suffix)
unfoldable pub trim_suffix : Text → Text → Text
unfolding trim_prefix
trim_suffix s suffix = reverse (trim_prefix (reverse s) (reverse suffix))

-- strings.HasSuffix(s, suffix)
abbrev pub has_suffix : Text → Text → Bool
has_suffix s suffix = has_prefix (reverse s) (reverse suffix)

-- strings.TrimLeft(s, cutset) and strings.TrimRight(s, cutset) at a cutset of one byte.
unfoldable pub trim_left : ℕ → Text → Text
trim_left cut [] = []
trim_left cut (c ∷ s) = if c == cut then trim_left cut s else c ∷ s

unfoldable pub trim_right : ℕ → Text → Text
unfolding trim_left
trim_right cut s = reverse (trim_left cut (reverse s))

-- The scan of strings.ReplaceAll; the number counts the bytes left of the occurrence just replaced.
unfoldable pub replace_from : ℕ → Text → Text → Text → Text
replace_from skip [] old new = []
replace_from (suc skip) (c ∷ s) old new = replace_from skip s old new
replace_from zero (c ∷ s) old new =
    let replaced = new ++ replace_from (length old - 1) s old new in
    let kept = c ∷ replace_from zero s old new in if has_prefix (c ∷ s) old then replaced else kept

-- strings.ReplaceAll(s, old, new) for an `old` that is not empty.
unfoldable pub replace_all : Text → Text → Text → Text
unfolding replace_from
replace_all s old new = replace_from 0 s old new

-- strings.Contains(s, sub)
unfoldable pub contains : Text → Text → Bool
contains [] sub = has_prefix [] sub
contains (c ∷ s) sub = has_prefix (c ∷ s) sub || contains s sub

-- strings.Join(texts, sep)
unfoldable pub join : List Text → Text → Text
join [] sep = []
join (t ∷ []) sep = t
join (t ∷ u ∷ ts) sep = t ++ sep ++ join (u ∷ ts) sep

-- Where a text does not occur, replacing it changes nothing.
pub replace_all-contains : (s old new : Text) → contains s old ≡ false → replace_all s old new ≡ s
unfolding replace_all replace_from contains
replace_all-contains [] old new h = refl
replace_all-contains (c ∷ s) old new h = elim (Bool-cases (has_prefix (c ∷ s) old)) [
  | inl starts ↦ absurd (let wrong : true ≡ false = rw starts at h in cc)
  | inr other ↦ rw other (ap (λ t. c ∷ t) (replace_all-contains s old new (rw other at h)))
]
