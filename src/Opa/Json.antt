-- ===== src/Opa/Json.antt =====
-- What encoding/json makes of a document: the values of `any`, with objects as maps.
use iceberg.Common.{ℕ, Option, none, some, Bool, if◌then◌else◌}
use iceberg.Common.Text.{Text, text_beq}

mutual
  pub data Json : Type 0 where
    null : Json
    boolean : Bool → Json
    number : ℕ → Json
    string : Text → Json
    array : Items → Json
    object : Members → Json

  pub data Items : Type 0 where
    nil : Items
    cons : Json → Items → Items

  pub data Members : Type 0 where
    end : Members
    member : Text → Json → Members → Members

-- value.(map[string]any); the nil map of a failed assertion is empty.
abbrev pub as_map : Json → Option Members
as_map (object m) = some m
as_map _ = none

-- m[key]
unfoldable pub field : Text → Members → Option Json
field key end = none
field key (member k v m) = if text_beq k key then some v else field key m
