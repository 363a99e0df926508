-- ===== src/Command/Main/Served.antt =====
-- What a request gets from the program.
use iceberg.Parser.Runtime.{Runtime}
use iceberg.Common.Go.{Go}
use iceberg.Common.Map.{Map}
use iceberg.Common.Text.{Text, text_eq}
use iceberg.Common.Url.{Url}
