-- ===== src/Cache/Connect.antt =====
-- NewJetStream of internal/middleware/cache/jetstream.go and Cache.Build of common.go.
use iceberg.Cache.Store.{Codec, build}
use iceberg.Nats.Host.{resolve_host}
use iceberg.Nats.Kv.{Kv}
use iceberg.Nats.Broker.{Broker}
use iceberg.Nats.Conn.{Gateway, get_kv}
use iceberg.Netio.Caller.{Caller}
use iceberg.Netio.Exec.{Exec, ◌>>=◌, lift}
use iceberg.Common.Text.{to_lower, trim_prefix}
use iceberg.Common.Url.{Url}
use iceberg.Common.{ℕ, List, ◌++◌, if◌then◌else◌}
use iceberg.Common.Go.{ret, fail}
use iceberg.Common.Text.{Text, codes, text_beq, text_eq}
use iceberg.Common.Map.{Map}

pub record Cache : Type 0 where
  pub address : Url
  pub key_template : Text
  pub ttl : ℕ

pub record JetStream (W : Type 0) : Type 0 where
  pub cache : Cache
  pub host : Text
  pub bucket : Text
  pub kv : Kv W

module _ (getenv : Text → Text) {W Conn Js Queue : Type 0} (broker : Broker W Conn Js Queue) where
  unfoldable pub new_jet_stream : Cache → Exec (Gateway W Conn) Text (JetStream W)
  unfolding resolve_host get_kv
  new_jet_stream c =
      let host = resolve_host getenv c.address.host in
      let bucket = trim_prefix c.address.path (codes "/") in
      get_kv broker host bucket c.ttl >>= λ kv.
      lift (ret (record { cache = c; host = host; bucket = bucket; kv = kv }))

  -- Cache.Build
  module _ (codec : Codec) (query : Text → Map Text (List Text)) (digest : Text → Text) where
    abbrev pub get_and_set : JetStream W → List (Caller W)
    get_and_set j = build codec query digest j.kv j.cache.key_template

    unfoldable pub build_cache : Cache → Exec (Gateway W Conn) Text (List (Caller W))
    unfolding new_jet_stream build
    build_cache c =
        if text_beq (to_lower c.address.scheme) (codes "jetstream")
        then new_jet_stream c >>= (λ jetstream. lift (ret (get_and_set jetstream)))
        else lift (fail (codes "unsupported scheme " ++ c.address.scheme))
