-- ===== src/Filters/Filter/Exchange.antt =====
-- What the exchange settings of a filter do to the request.
use iceberg.Common.Map.{Map}
use iceberg.Common.Text.{Text, text_eq}
use iceberg.Netio.Message.{Response}
use iceberg.Filters.Filter.{Filter}
