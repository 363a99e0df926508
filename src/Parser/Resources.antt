-- ===== src/Parser/Resources.antt =====
-- ParseCacheV1, ParseOpaV1 and ParseV1 of internal/bootstrap/parser/parser.go.
pub mod Levelled
pub mod Kept
pub mod Uncached
use iceberg.Parser.Conf.{CacheV1, OpaV1, ResourceV1}
use iceberg.Parser.Runtime.{Runtime}
use iceberg.Parser.Policy.{parse_policy}
use iceberg.Parser.Filters.{parse_filters, parse_timeout}
use iceberg.Cache.Connect.{build_cache}
use iceberg.Opa.Connect.{PolicyType, new_opa_nats}
use iceberg.Opa.Agent.{OpaType, http, ws_send, ws_receive, opa_caller}
use iceberg.Nats.Conn.{Gateway}
use iceberg.Netio.Caller.{Caller}
use iceberg.Netio.Exec.{Exec, ◌>>=◌, ◌>>◌, lift}
use iceberg.Common.Url.{Url}
use iceberg.Common.{List, [], ◌∷◌, ◌++◌, Option, none, some, Bool, true, false}
use iceberg.Common.Go.{Go, ret, fail, panic}
use iceberg.Common.Text.{Text, text_eq}
use iceberg.Common.Map.{Map}

module _ {W Conn Js Queue : Type 0} (rt : Runtime W Conn Js Queue) where
  unfoldable pub parse_cache : Option CacheV1 → Exec (Gateway W Conn) Text (List (Caller W))
  unfolding parse_timeout build_cache
  parse_cache none = lift (ret [])
  parse_cache (some c) = do
    url ← lift (rt.parse_url c.addr)
    ttl ← lift (parse_timeout rt c.ttl)
    build_cache rt.getenv rt.broker rt.codec rt.query rt.digest
        (record { address = url; key_template = c.key; ttl = ttl })

  -- The caller of an Opa without a name, whose timeout is thirty seconds.
  abbrev pub opa_of : Url → Map Text PolicyType → OpaType → Exec (Gateway W Conn) Text (Caller W)
  opa_of url policies type = do
    (conn, opa) ← new_opa_nats rt.getenv rt.broker (record {
      app_name = [];
      agent = url;
      timeout = 30_000_000_000;
      policies = policies;
      opa_type = type;
    })
    lift (ret (opa_caller (rt.agent conn) opa))

  unfoldable pub parse_opa : Option OpaV1 → Exec (Gateway W Conn) Text (List (Caller W))
  unfolding parse_policy new_opa_nats opa_caller
  parse_opa none = lift (ret [])
  parse_opa (some o) = do
    url ← lift (rt.parse_url o.agent)
    http_policies ← lift (parse_policy o.http)
    send_policies ← lift (parse_policy o.send)
    receive_policies ← lift (parse_policy o.receive)
    on_http ← opa_of url http_policies http
    on_send ← opa_of url send_policies ws_send
    on_receive ← opa_of url receive_policies ws_receive
    lift (ret (on_http ∷ on_send ∷ on_receive ∷ []))

  -- What handleFunc is called with: the address, the pattern, the method, the callers, and whether
  -- WithCORSDisabled is among the options.
  pub record Registration : Type 0 where
    pub backend : Url
    pub pattern : Text
    pub method : Text
    pub callers : List (Caller W)
    pub cors : Bool

  abbrev pub is_set : Option Text → Bool
  is_set none = false
  is_set (some _) = true

  -- The middleware of a resource: that of ParseOpaV1 and that of ParseCacheV1.
  unfoldable pub parse_middleware : ResourceV1 → Exec (Gateway W Conn) Text (List (Caller W))
  unfolding parse_opa parse_cache
  parse_middleware value = do
    opa ← parse_opa value.use_of.opa
    cache ← parse_cache value.use_of.cache
    lift (ret (opa ++ cache))

  module _ {T : Type 0} (handle_func : Registration → T → Go Text (Unit {0}) × T) where
    abbrev pub Session : Type 0
    Session = Gateway W Conn × T

    abbrev pub on_gateway : {A : Type 0} → Exec (Gateway W Conn) Text A → Exec Session Text A
    on_gateway m (g, t) = let (r, g') = m g in (r, (g', t))

    abbrev pub hand_on : Registration → Exec Session Text (Unit {0})
    hand_on registration (g, t) = let (r, t') = handle_func registration t in (r, (g, t'))

    -- An error of url.Parse or of ParseFiltersV1 ends ParseV1 without an error; the others are
    -- returned. A panic of handleFunc also stands for the end of the program there.
    abbrev pub ended_by :
        {A : Type 0} → Go Text A → (A → Exec Session Text (Unit {0})) → Exec Session Text (Unit {0})
    ended_by (ret a) go_on s = go_on a s
    ended_by (fail e) go_on s = (ret tt, s)
    ended_by panic go_on s = (panic, s)

    abbrev pub register_with :
        ResourceV1
        → Url
        → List (Caller W)
        → Exec Session Text (Unit {0})
        → List (Caller W)
        → Exec Session Text (Unit {0})
    register_with value url middleware go_on filters =
        hand_on (record {
          backend = url;
          pattern = value.frontend;
          method = value.method;
          callers = middleware ++ filters;
          cors = is_set value.use_of.cors;
        })
        >> go_on

    -- The part of a round behind the middleware, with the rounds that follow.
    abbrev pub finish_resource :
        ResourceV1
        → Exec Session Text (Unit {0})
        → Url
        → List (Caller W)
        → Exec Session Text (Unit {0})
    finish_resource value go_on url middleware s =
        let (filters, s') = on_gateway (parse_filters rt value.filters true) s in
        ended_by filters (register_with value url middleware go_on) s'

    -- One round of ParseV1, with the rounds that follow.
    abbrev pub parse_resource :
        ResourceV1 → Exec Session Text (Unit {0}) → Url → Exec Session Text (Unit {0})
    parse_resource value go_on url =
        on_gateway (parse_middleware value) >>= finish_resource value go_on url

    unfoldable pub parse_v1 : Map Text ResourceV1 → Exec Session Text (Unit {0})
    unfolding parse_middleware parse_filters
    parse_v1 [] = lift (ret tt)
    parse_v1 ((_, value) ∷ resources) =
        ended_by (rt.parse_url value.backend) (parse_resource value (parse_v1 resources))
