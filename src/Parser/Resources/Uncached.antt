-- ===== src/Parser/Resources/Uncached.antt =====
-- What ParseV1 leaves in the maps of connections: `_conns` of internal/callers/filters/nats.go and of
-- internal/middleware/opa/http.go, `_kvs` of internal/middleware/cache/jetstream.go.
pub mod Parts
pub use Parts.{SameCaches}
use Parts.{Keeps-parse_filters, Keeps-parse_cache, Keeps-new_opa_nats}
use iceberg.Cache.Connect.{Cache, build_cache, new_jet_stream, get_and_set}
use iceberg.Filters.Build.{build_filter}
use iceberg.Filters.Http.{http_filter}
use iceberg.Filters.Filter.{Filter}
use iceberg.Filters.Nats.{
  NatsBase, create_reflector, new_base_nats, new_core_filter, new_durable_filter,
}
use iceberg.Nats.Conn.{
  Gateway, cached_or, get_conn, get_kv, get_opa_conn, get_opa_kv, on_world, run_fn,
}
use iceberg.Nats.Host.{resolve_host}
use iceberg.Netio.Exec.{Exec, lift, ◌>>=◌}
use iceberg.Netio.Keeps.{Keeps, Keeps-lift, Keeps-bind}
use iceberg.Opa.Connect.{Opa, new_opa_nats, put_policies}
use iceberg.Parser.Conf.{CacheV1, OpaV1, ResourceV1, Filters, filter, end}
use iceberg.Parser.Filters.{filter_build, filter_level, filter_of, parse_filters, parse_timeout}
use iceberg.Parser.Policy.{parse_policy}
use iceberg.Parser.Resources.{
  Registration, ended_by, hand_on, on_gateway, opa_of, parse_cache, parse_middleware, parse_opa,
  parse_resource, parse_v1, register_with,
}
use iceberg.Parser.Runtime.{Runtime}
use iceberg.Opa.Connect.{PolicyType}
use iceberg.Opa.Agent.{OpaType, http, ws_send, ws_receive}
use iceberg.Common.Url.{Url}
use iceberg.Common.{
  ℕ, [], ◌∷◌, ◌++◌, Option, none, some, Bool, true, false, ◌≡◌, refl, if◌then◌else◌, ◌||◌,
}
use iceberg.Common.Go.{Go, ret, fail, panic}
use iceberg.Common.Map.{Map, get}
use iceberg.Common.Text.{Text, text_eq, text_beq, codes, to_lower}

module _ {W Conn Js Queue : Type 0} (rt : Runtime W Conn Js Queue) (before : Gateway W Conn) where
  Keeps-opa_of :
      (url : Url) (policies : Map Text PolicyType) (type : OpaType)
      → Keeps (SameCaches rt before) (opa_of rt url policies type)
  Keeps-opa_of url policies type =
      Keeps-bind (SameCaches rt before) (new_opa_nats rt.getenv rt.broker _) _
        ((Keeps-new_opa_nats rt before) _) (λ made. Keeps-lift (SameCaches rt before) _)

  Keeps-parse_opa : (o : Option OpaV1) → Keeps (SameCaches rt before) (parse_opa rt o)
  unfolding parse_opa
  Keeps-parse_opa none = Keeps-lift (SameCaches rt before) (ret [])
  Keeps-parse_opa (some o) =
      Keeps-bind (SameCaches rt before) (lift (rt.parse_url o.agent)) _
        (Keeps-lift (SameCaches rt before) _)
        (λ url.
          Keeps-bind (SameCaches rt before) (lift (parse_policy o.http)) _
            (Keeps-lift (SameCaches rt before) _)
            (λ on_http.
              Keeps-bind (SameCaches rt before) (lift (parse_policy o.send)) _
                (Keeps-lift (SameCaches rt before) _)
                (λ on_send.
                  Keeps-bind (SameCaches rt before) (lift (parse_policy o.receive)) _
                    (Keeps-lift (SameCaches rt before) _)
                    (λ on_receive.
                      Keeps-bind (SameCaches rt before) (opa_of rt url on_http http) _
                        (Keeps-opa_of url on_http http)
                        (λ a.
                          Keeps-bind (SameCaches rt before) (opa_of rt url on_send ws_send) _
                            (Keeps-opa_of url on_send ws_send)
                            (λ b.
                              Keeps-bind (SameCaches rt before)
                                (opa_of rt url on_receive ws_receive) _
                                (Keeps-opa_of url on_receive ws_receive)
                                (λ c. Keeps-lift (SameCaches rt before) _)))))))

  Keeps-parse_middleware :
      (value : ResourceV1) → Keeps (SameCaches rt before) (parse_middleware rt value)
  unfolding parse_middleware
  Keeps-parse_middleware value =
      Keeps-bind (SameCaches rt before) (parse_opa rt value.use_of.opa) _
        (Keeps-parse_opa value.use_of.opa)
        (λ opa.
          Keeps-bind (SameCaches rt before) (parse_cache rt value.use_of.cache) _
            ((Keeps-parse_cache rt before) value.use_of.cache)
            (λ cache. Keeps-lift (SameCaches rt before) _))

  module _ {T : Type 0} (handle_func : Registration rt → T → Go Text (Unit {0}) × T) where
    abbrev OfGateway : Gateway W Conn × T → Type 0
    OfGateway s = (SameCaches rt before) s.0

    Keeps-on_gateway :
        {A : Type 0} (m : Exec (Gateway W Conn) Text A)
        → Keeps (SameCaches rt before) m
        → Keeps OfGateway (on_gateway rt handle_func m)
    Keeps-on_gateway m k = record { at = λ s. k.at s.0 }

    Keeps-ended_by :
        {A : Type 0} (r : Go Text A) (go_on : A → Exec (Gateway W Conn × T) Text (Unit {0}))
        → ((a : A) → Keeps OfGateway (go_on a))
        → Keeps OfGateway (ended_by rt handle_func r go_on)
    Keeps-ended_by (ret a) go_on k = record { at = λ s. (k a).at s }
    Keeps-ended_by (fail e) go_on k = record { at = λ s h. h }
    Keeps-ended_by panic go_on k = record { at = λ s h. h }

    Keeps-parse_resource :
        (value : ResourceV1) (go_on : Exec (Gateway W Conn × T) Text (Unit {0})) (url : Url)
        → Keeps OfGateway go_on
        → Keeps OfGateway (parse_resource rt handle_func value go_on url)
    Keeps-parse_resource value go_on url k =
        Keeps-bind OfGateway (on_gateway rt handle_func (parse_middleware rt value)) _
          (Keeps-on_gateway (parse_middleware rt value) (Keeps-parse_middleware value))
          (λ middleware. record {
            at = λ s h.
                (Keeps-ended_by (parse_filters rt value.filters true s.0).0
                    (register_with rt handle_func value url middleware go_on)
                    (λ filters.
                      Keeps-bind OfGateway (hand_on rt handle_func _) _ (record { at = λ s h. h })
                        (λ _. k))).at
                  ((parse_filters rt value.filters true s.0).1, s.1)
                  (((Keeps-parse_filters rt before) value.filters true).at s.0 h);
          })

    Keeps-parse_v1 :
        (resources : Map Text ResourceV1) → Keeps OfGateway (parse_v1 rt handle_func resources)
    unfolding parse_v1
    Keeps-parse_v1 [] = Keeps-lift OfGateway (ret tt)
    Keeps-parse_v1 ((_, value) ∷ resources) =
        Keeps-ended_by (rt.parse_url value.backend)
          (parse_resource rt handle_func value (parse_v1 rt handle_func resources))
          (λ url. Keeps-parse_resource value _ url (Keeps-parse_v1 resources))

    -- However ParseV1 ends, and whatever it connected to, the three maps in which GetConn and GetKV
    -- look for a connection are as they were: nothing is ever put into them.
    pub parse_v1-SameCaches :
        (resources : Map Text ResourceV1) (t : T)
        → (SameCaches rt before) (parse_v1 rt handle_func resources (before, t)).1.0
    parse_v1-SameCaches resources t = (Keeps-parse_v1 resources).at (before, t) (refl, refl, refl)
