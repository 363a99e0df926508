-- ===== src/Nats/Conn.antt =====
-- The caches of connections: GetConn of internal/callers/filters/nats.go, GetConn and GetKV of
-- internal/middleware/opa/http.go, GetKV of internal/middleware/cache/jetstream.go. Their mutexes make
-- each call one step.
use iceberg.Nats.Kv.{Kv, nil_kv}
use iceberg.Nats.Broker.{Broker, CreateError, bucket_exists, create_failed}
use iceberg.Netio.Exec.{Exec, ◌>>=◌, ◌>>◌, lift}
use iceberg.Common.Map.{get}
use iceberg.Common.{ℕ, Option, none, some}
use iceberg.Common.Go.{Go, ret, fail, panic}
use iceberg.Common.Text.{Text, text_eq}
use iceberg.Common.Map.{Map}

-- The package variables `_conns` of filters and of opa, `_kvs` of cache, and the outside world.
pub record Gateway (W Conn : Type 0) : Type 0 where
  pub filter_conns : Map Text Conn
  pub opa_conns : Map Text Conn
  pub kvs : Map Text (Kv W)
  pub world : W

module _ {W Conn : Type 0} where
  abbrev pub on_world : {A : Type 0} → Exec W Text A → Exec (Gateway W Conn) Text A
  on_world m g = let (r, w) = m g.world in (r, record g { world = w })

  -- What is cached is returned, and otherwise made; nothing is put into the cache.
  abbrev pub cached_or :
      {A : Type 0} → Option A → Exec (Gateway W Conn) Text A → Exec (Gateway W Conn) Text A
  cached_or (some a) make = lift (ret a)
  cached_or none make = make

  -- The call of `fn` where it is not nil.
  abbrev pub run_fn :
      Option (Conn → Exec (Gateway W Conn) Text (Unit {0}))
      → Conn
      → Exec (Gateway W Conn) Text (Unit {0})
  run_fn none conn = lift (ret tt)
  run_fn (some fn) conn = fn conn

  module _ {Js Queue : Type 0} (broker : Broker W Conn Js Queue) where
    -- GetConn of the filters.
    unfoldable pub get_conn :
        Text
        → Option (Conn → Exec (Gateway W Conn) Text (Unit {0}))
        → Exec (Gateway W Conn) Text Conn
    get_conn url fn g =
        cached_or (get url g.filter_conns)
          (on_world (broker.connect url) >>= λ conn. run_fn fn conn >> lift (ret conn)) g

    -- GetConn of opa.
    unfoldable pub get_opa_conn : Text → Exec (Gateway W Conn) Text Conn
    get_opa_conn url g = cached_or (get url g.opa_conns) (on_world (broker.connect url)) g

    -- A bucket that exists is no error, and no store.
    abbrev pub created : Go CreateError (Kv W) → Go Text (Kv W)
    created (ret kv) = ret kv
    created (fail bucket_exists) = ret nil_kv
    created (fail (create_failed e)) = fail e
    created panic = panic

    abbrev pub create_bucket : Js → Text → ℕ → Exec W Text (Kv W)
    create_bucket js bucket ttl w =
        let (r, w') = broker.create_key_value js bucket ttl w in (created r, w')

    -- GetKV of opa.
    unfoldable pub get_opa_kv : Conn → Text → Exec (Gateway W Conn) Text (Kv W)
    get_opa_kv conn bucket = on_world (broker.jet_stream conn >>= λ js. create_bucket js bucket 0)

    -- GetKV of cache.
    unfoldable pub get_kv : Text → Text → ℕ → Exec (Gateway W Conn) Text (Kv W)
    get_kv url bucket ttl g =
        cached_or (get url g.kvs)
          (on_world (
            broker.connect url >>= λ conn.
            broker.jet_stream conn >>= λ js. create_bucket js bucket ttl))
          g
