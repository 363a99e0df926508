-- ===== src/Parser/Conf.antt =====
-- The records of internal/bootstrap/parser/conf.go, as gopkg.in/yaml.v3 fills them.
use iceberg.Common.{List, Option, Bool}
use iceberg.Common.Text.{Text}
use iceberg.Common.Map.{Map}

-- ExchangeV1
pub record ExchangeV1 : Type 0 where
  pub headers : List Text
  pub body : Bool

-- FilterV1 without its field Next.
pub record FilterV1 : Type 0 where
  pub name : Text
  pub addr : Text
  pub level : Text
  pub timeout : Text
  pub on_error : Text
  pub async : Bool
  pub await : List Text
  pub exchange : ExchangeV1

-- A list of FilterV1: a filter, the list in its field Next, and the filters behind it.
pub data Filters : Type 0 where
  end : Filters
  filter : (fields : FilterV1) (next : Filters) (rest : Filters) → Filters

-- CacheV1
pub record CacheV1 : Type 0 where
  pub addr : Text
  pub ttl : Text
  pub key : Text

-- A value of type any, of which ParsePolicy looks at texts; another one comes with its %T.
pub data Value : Type 0 where
  string : Text → Value
  other : Text → Value

-- An element of the []any that ParsePolicy reads. A map is in the order of its range.
pub data Item : Type 0 where
  named : Text → Item
  mapped : Map Text Value → Item
  ignored : Item

-- OpaV1, with OpaWSV1 in it.
pub record OpaV1 : Type 0 where
  pub agent : Text
  pub http : List Item
  pub send : List Item
  pub receive : List Item

pub record UseV1 : Type 0 where
  pub cache : Option CacheV1
  pub cors : Option Text
  pub opa : Option OpaV1

pub record ResourceV1 : Type 0 where
  pub frontend : Text
  pub backend : Text
  pub method : Text
  pub use_of : UseV1
  pub filters : Filters

-- SpecV1. The map of resources is in the order of its range.
pub record SpecV1 : Type 0 where
  pub listen : Text
  pub resources : Map Text ResourceV1
