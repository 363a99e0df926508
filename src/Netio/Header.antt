-- ===== src/Netio/Header.antt =====
-- net/http Header: a map from canonical keys to lists of values; `none` is the nil map, which
-- reads as empty and panics when written to.
use iceberg.Common.{
  ℕ, List, [], ◌∷◌, ◌++◌, Option, none, some, Bool, true, false, ◌&&◌, ◌||◌, all, leb, ◌==◌,
  if◌then◌else◌, ◌≡◌, Bool-cases, inl, inr,
}
use iceberg.Common.Go.{Go, ret, panic}
use iceberg.Common.Map.{Map, get_or, put, get_or-put}
use iceberg.Common.Text.{Text, text_eq, codes, upper_byte, lower_byte, text_beq}

abbrev pub Header : Type 0
Header = Option (Map Text (List Text))

abbrev one_of : ℕ → Text → Bool
one_of c [] = false
one_of c (d ∷ ds) = c == d || one_of c ds

abbrev is_token_byte : ℕ → Bool
is_token_byte c =
    (leb b'a' c && leb c b'z')
    || (leb b'A' c && leb c b'Z')
    || (leb b'0' c && leb c b'9')
    || one_of c (codes "!#$%&'*+-.^_`|~")

abbrev capitalize : Bool → Text → Text
capitalize upper [] = []
capitalize upper (c ∷ s) = (if upper then upper_byte c else lower_byte c) ∷ capitalize (c == b'-') s

-- textproto.CanonicalMIMEHeaderKey
unfoldable pub canonical : Text → Text
canonical key = if all is_token_byte key then capitalize true key else key

abbrev first_value : List Text → Text
first_value [] = []
first_value (v ∷ vs) = v

-- Header.Get
unfoldable pub header_get : Header → Text → Text
header_get none key = []
header_get (some h) key = first_value (get_or (canonical key) h [])

-- Header.Set
unfoldable pub header_set {ℓ} : {E : Type ℓ} → Header → Text → Text → Go E Header
header_set none key value = panic
header_set (some h) key value = ret (some (put (canonical key) (value ∷ []) h))

-- Header.Add
unfoldable pub header_add {ℓ} : {E : Type ℓ} → Header → Text → Text → Go E Header
header_add none key value = panic
header_add (some h) key value =
    ret (some (put (canonical key) (get_or (canonical key) h [] ++ value ∷ []) h))

-- A value that Set stores is what Get reads, under the same canonical key.
pub header_get-header_set :
    (h : Map Text (List Text)) (key other value : Text)
    → header_get (some (put (canonical key) (value ∷ []) h)) other
      ≡ (if text_beq (canonical key) (canonical other) then value else header_get (some h) other)
unfolding header_get
header_get-header_set h key other value =
    rw get_or-put (elim (Bool-cases (text_beq (canonical key) (canonical other))) [
      | inl same ↦ rw same
      | inr differ ↦ rw differ
    ])
