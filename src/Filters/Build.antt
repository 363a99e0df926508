-- ===== src/Filters/Build.antt =====
-- Filter.Build of internal/callers/filters/common.go.
pub mod Built
use iceberg.Common.Text.{to_lower}
use iceberg.Nats.Broker.{Broker}
use iceberg.Nats.Conn.{Gateway}
use iceberg.Netio.Exec.{Exec, lift}
use iceberg.Netio.Message.{Request, Response}
use iceberg.Netio.Caller.{Caller}
use iceberg.Filters.Filter.{Filter}
use iceberg.Filters.Http.{http_filter}
use iceberg.Filters.Nats.{HeadersLib, new_base_nats, new_core_filter, new_durable_filter}
use iceberg.Common.{◌++◌, ◌||◌, if◌then◌else◌}
use iceberg.Common.Go.{Go, ret, fail}
use iceberg.Common.Text.{Text, codes, text_beq, text_eq}

module _ (env : Text → Text) (atoi_error : Text → Text) (headers : HeadersLib)
    {W Conn Js Queue : Type 0} (send : Request → W → Go Text Response × W)
    (broker : Broker W Conn Js Queue) where
  unfoldable pub build_filter : Filter W → Exec (Gateway W Conn) Text (Caller W)
  unfolding http_filter new_core_filter new_durable_filter new_base_nats
  build_filter f =
      let scheme = to_lower f.address.scheme in
      if text_beq scheme (codes "http") || text_beq scheme (codes "https")
      then lift (ret (http_filter send f))
      else if text_beq scheme (codes "jetstream")
      then new_durable_filter atoi_error headers broker (new_base_nats env f)
      else if text_beq scheme (codes "nats")
      then new_core_filter atoi_error headers broker (new_base_nats env f)
      else lift (fail (codes "unsupported scheme " ++ f.address.scheme))
