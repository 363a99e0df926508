-- ===== src/Common/Url.antt =====
-- The parts of a net/url URL that the code reads or writes.
use mathlib.Core.Option.{Option}
use iceberg.Common.Text.{Text}

pub record Url : Type 0 where
  pub scheme : Text
  pub user : Option Text
  pub host : Text
  pub path : Text
  pub raw_query : Text
