-- ===== src/Parser/Resources/Uncached/Parts.antt =====
-- The constructors that connect to NATS, and the maps of connections.
use iceberg.Cache.Connect.{Cache, build_cache, new_jet_stream, get_and_set}
use iceberg.Filters.Build.{build_filter}
use iceberg.Filters.Http.{http_filter}
use iceberg.Filters.Filter.{Filter}
use iceberg.Filters.Nats.{
  NatsBase, create_reflector, new_base_nats, new_core_filter, new_durable_filter,
}
use iceberg.Nats.Conn.{
  Gateway, cached_or, get_conn, get_kv, get_opa_conn, get_opa_kv, on_world, run_fn,
}
use iceberg.Nats.Host.{resolve_host}
use iceberg.Netio.Exec.{Exec, lift, ◌>>=◌}
use iceberg.Netio.Keeps.{Keeps, Keeps-lift, Keeps-bind}
use iceberg.Opa.Connect.{Opa, new_opa_nats, put_policies}
use iceberg.Parser.Conf.{CacheV1, Filters, filter, end}
use iceberg.Parser.Filters.{filter_build, filter_level, filter_of, parse_filters, parse_timeout}
use iceberg.Parser.Resources.{parse_cache}
use iceberg.Parser.Runtime.{Runtime}
use iceberg.Common.{
  ℕ, [], ◌∷◌, ◌++◌, Option, none, some, Bool, true, false, ◌≡◌, if◌then◌else◌, ◌||◌,
}
use iceberg.Common.Go.{ret, fail}
use iceberg.Common.Map.{get}
use iceberg.Common.Text.{Text, text_eq, text_beq, codes, to_lower}

module _ {W Conn Js Queue : Type 0} (rt : Runtime W Conn Js Queue) (before : Gateway W Conn) where
  -- The maps are as they were before.
  abbrev pub SameCaches : Gateway W Conn → Type 0
  SameCaches g =
      (g.filter_conns ≡ before.filter_conns)
      × (g.opa_conns ≡ before.opa_conns)
      × (g.kvs ≡ before.kvs)

  Keeps-on_world : {A : Type 0} (m : Exec W Text A) → Keeps SameCaches (on_world {Conn = Conn} m)
  Keeps-on_world m = record { at = λ g h. h }

  Keeps-cached_or :
      {A : Type 0} (hit : Option A) (make : Exec (Gateway W Conn) Text A)
      → Keeps SameCaches make
      → Keeps SameCaches (cached_or hit make)
  Keeps-cached_or none make k = record { at = λ g. k.at g }
  Keeps-cached_or (some a) make k = Keeps-lift SameCaches (ret a)

  Keeps-get_conn :
      (url : Text) (fn : Option (Conn → Exec (Gateway W Conn) Text (Unit {0})))
      → ((conn : Conn) → Keeps SameCaches (run_fn fn conn))
      → Keeps SameCaches (get_conn rt.broker url fn)
  unfolding get_conn
  Keeps-get_conn url fn k = record {
    at = λ g.
        (Keeps-cached_or (get url g.filter_conns) _ (
            Keeps-bind SameCaches (on_world (rt.broker.connect url)) _ (Keeps-on_world _) (λ conn.
              Keeps-bind SameCaches (run_fn fn conn) _ (k conn)
                (λ _. Keeps-lift SameCaches (ret conn))))).at
          g;
  }

  Keeps-get_opa_conn : (url : Text) → Keeps SameCaches (get_opa_conn rt.broker url)
  unfolding get_opa_conn
  Keeps-get_opa_conn url = record {
    at = λ g.
        (Keeps-cached_or (get url g.opa_conns) _ (Keeps-on_world (rt.broker.connect url))).at g;
  }

  Keeps-get_opa_kv :
      (conn : Conn) (bucket : Text) → Keeps SameCaches (get_opa_kv rt.broker conn bucket)
  unfolding get_opa_kv
  Keeps-get_opa_kv conn bucket = record { at = λ g h. h }

  Keeps-get_kv : (url bucket : Text) (ttl : ℕ) → Keeps SameCaches (get_kv rt.broker url bucket ttl)
  unfolding get_kv
  Keeps-get_kv url bucket ttl = record {
    at = λ g. (Keeps-cached_or (get url g.kvs) _ (Keeps-on_world _)).at g;
  }

  Keeps-build_filter : (f : Filter W) → Keeps SameCaches (filter_build rt f)
  unfolding filter_build build_filter new_core_filter new_durable_filter create_reflector
  Keeps-build_filter f =
      by_scheme (text_beq scheme (codes "http") || text_beq scheme (codes "https"))
        (text_beq scheme (codes "jetstream")) (text_beq scheme (codes "nats"))
    where
      scheme : Text
      scheme = to_lower f.address.scheme

      base : NatsBase W
      base = new_base_nats rt.getenv f

      durable : Keeps SameCaches (new_durable_filter rt.atoi_error rt.headers rt.broker base)
      durable =
          let reflector = some (create_reflector rt.atoi_error rt.headers rt.broker) in
          Keeps-bind SameCaches (get_conn rt.broker base.host reflector) _
            (Keeps-get_conn base.host reflector (λ conn. record { at = λ g h. h }))
            (λ conn.
              Keeps-bind SameCaches (on_world (rt.broker.queue_new conn (base.subject ∷ []))) _
                (Keeps-on_world (rt.broker.queue_new conn (base.subject ∷ [])))
                (λ queue. record { at = λ g h. h }))

      core : Keeps SameCaches (new_core_filter rt.atoi_error rt.headers rt.broker base)
      core =
          Keeps-bind SameCaches (get_conn rt.broker base.host none) _
            (Keeps-get_conn base.host none (λ conn. Keeps-lift SameCaches (ret tt)))
            (λ conn. record { at = λ g h. h })

      by_scheme :
          (http jetstream nats : Bool)
          → Keeps SameCaches (
              if http
              then lift (ret (http_filter rt.send f))
              else if jetstream
              then new_durable_filter rt.atoi_error rt.headers rt.broker base
              else if nats
              then new_core_filter rt.atoi_error rt.headers rt.broker base
              else lift (fail (codes "unsupported scheme " ++ f.address.scheme)))
      by_scheme true _ _ = Keeps-lift SameCaches _
      by_scheme false true _ = durable
      by_scheme false false true = core
      by_scheme false false false = Keeps-lift SameCaches _

  pub Keeps-parse_filters :
      (fs : Filters) (supports : Bool) → Keeps SameCaches (parse_filters rt fs supports)
  unfolding parse_filters
  Keeps-parse_filters end supports = Keeps-lift SameCaches (ret [])
  Keeps-parse_filters (filter f next rest) supports =
      Keeps-bind SameCaches (lift (rt.parse_url f.addr)) _ (Keeps-lift SameCaches _) (λ url.
        Keeps-bind SameCaches (lift (filter_level supports f.level)) _ (Keeps-lift SameCaches _)
          (λ level.
            Keeps-bind SameCaches (lift (parse_timeout rt f.timeout)) _ (Keeps-lift SameCaches _)
              (λ ttl.
                Keeps-bind SameCaches (parse_filters rt next false) _
                  (Keeps-parse_filters next false)
                  (λ callers.
                    Keeps-bind SameCaches (filter_build rt (filter_of f url level ttl callers)) _
                      (Keeps-build_filter (filter_of f url level ttl callers))
                      (λ caller.
                        Keeps-bind SameCaches (parse_filters rt rest supports) _
                          (Keeps-parse_filters rest supports)
                          (λ others. Keeps-lift SameCaches _))))))

  pub Keeps-parse_cache : (c : Option CacheV1) → Keeps SameCaches (parse_cache rt c)
  unfolding parse_cache build_cache new_jet_stream
  Keeps-parse_cache none = Keeps-lift SameCaches (ret [])
  Keeps-parse_cache (some c) =
      Keeps-bind SameCaches (lift (rt.parse_url c.addr)) _ (Keeps-lift SameCaches _) (λ url.
        Keeps-bind SameCaches (lift (parse_timeout rt c.ttl)) _ (Keeps-lift SameCaches _)
          (λ ttl. built (record { address = url; key_template = c.key; ttl = ttl })))
    where
      made : (c : Cache) → Keeps SameCaches (new_jet_stream rt.getenv rt.broker c)
      made c =
          Keeps-bind SameCaches (get_kv rt.broker _ _ c.ttl) _ (Keeps-get_kv _ _ c.ttl)
            (λ kv. Keeps-lift SameCaches _)

      by_scheme :
          (c : Cache) (jetstream : Bool)
          → Keeps SameCaches (
              if jetstream
              then new_jet_stream rt.getenv rt.broker c >>= (λ j.
                lift (ret (get_and_set rt.getenv rt.broker rt.codec rt.query rt.digest j)))
              else lift (fail (codes "unsupported scheme " ++ c.address.scheme)))
      by_scheme c true = Keeps-bind SameCaches _ _ (made c) (λ j. Keeps-lift SameCaches _)
      by_scheme c false = Keeps-lift SameCaches _

      built :
          (c : Cache)
          → Keeps SameCaches (build_cache rt.getenv rt.broker rt.codec rt.query rt.digest c)
      built c = by_scheme c (text_beq (to_lower c.address.scheme) (codes "jetstream"))

  pub Keeps-new_opa_nats : (opa : Opa) → Keeps SameCaches (new_opa_nats rt.getenv rt.broker opa)
  unfolding new_opa_nats
  Keeps-new_opa_nats opa =
      Keeps-bind SameCaches (get_opa_conn rt.broker (resolve_host rt.getenv opa.agent.host)) _
        (Keeps-get_opa_conn _)
        (λ conn.
          Keeps-bind SameCaches (get_opa_kv rt.broker conn (codes "OPA_STORE")) _
            (Keeps-get_opa_kv conn (codes "OPA_STORE"))
            (λ kv.
              Keeps-bind SameCaches (on_world (put_policies rt.getenv kv opa.app_name opa.policies))
                _ (Keeps-on_world _) (λ policies. Keeps-lift SameCaches _)))
