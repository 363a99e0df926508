-- ===== src/Parser/Filters.antt =====
-- ParseFiltersV1 of internal/bootstrap/parser/parser.go.
pub mod Parsed
use iceberg.Parser.Conf.{FilterV1, Filters, end, filter}
use iceberg.Parser.Runtime.{Runtime}
use iceberg.Parser.Level.{level_of}
use iceberg.Parser.Timeout.{TimeoutError, bad_number, unsupported_unit, timeout}
use iceberg.Filters.Filter.{Filter, new_filter}
use iceberg.Filters.Build.{build_filter}
use iceberg.Nats.Conn.{Gateway}
use iceberg.Netio.Caller.{Caller}
use iceberg.Netio.Sort.{level_none}
use iceberg.Netio.Exec.{Exec, ◌>>=◌, lift}
use iceberg.Common.Url.{Url}
use iceberg.Common.{ℕ, List, [], ◌∷◌, ◌++◌, Bool, true, false}
use iceberg.Common.Go.{Go, ret, map_error}
use iceberg.Common.Text.{Text, codes, text_eq}

-- The text of an error of Timeout.
abbrev pub timeout_text : (Text → Text) → TimeoutError → Text
timeout_text atoi_error (bad_number buffer) = atoi_error buffer
timeout_text atoi_error (unsupported_unit unit) = codes "unsupported unit " ++ unit

-- LEVEL_NONE where no level is supported.
abbrev pub filter_level : Bool → Text → Go Text ℕ
filter_level true level = level_of level
filter_level false level = ret level_none

-- The Filter of a FilterV1. What it says on the exchange is not read.
abbrev pub filter_of : {W : Type 0} → FilterV1 → Url → ℕ → ℕ → List (Caller W) → Filter W
filter_of f url level ttl next = record (new_filter url) {
  await_list = f.await;
  name = f.name;
  parallel = f.async;
  level = level;
  timeout = ttl;
  callers = next;
}

module _ {W Conn Js Queue : Type 0} (rt : Runtime W Conn Js Queue) where
  unfoldable pub parse_timeout : Text → Go Text ℕ
  unfolding timeout
  parse_timeout text = map_error (timeout_text rt.atoi_error) (timeout rt.other_digit text)

  -- Filter.Build
  unfoldable pub filter_build : Filter W → Exec (Gateway W Conn) Text (Caller W)
  unfolding build_filter
  filter_build f = build_filter rt.getenv rt.atoi_error rt.headers rt.send rt.broker f

  unfoldable pub parse_filters : Filters → Bool → Exec (Gateway W Conn) Text (List (Caller W))
  unfolding level_of parse_timeout filter_build
  parse_filters end supports = lift (ret [])
  parse_filters (filter f next rest) supports = do
    url ← lift (rt.parse_url f.addr)
    level ← lift (filter_level supports f.level)
    ttl ← lift (parse_timeout f.timeout)
    callers ← parse_filters next false
    caller ← filter_build (filter_of f url level ttl callers)
    others ← parse_filters rest supports
    lift (ret (caller ∷ others))
