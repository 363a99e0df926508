-- ===== src/Parser/Resources/Levelled.antt =====
-- The levels of the middleware that ParseCacheV1 and ParseOpaV1 return.
use iceberg.Nats.Host.{resolve_host}
use iceberg.Common.Url.{Url}
use iceberg.Parser.Conf.{CacheV1, OpaV1, ResourceV1}
use iceberg.Parser.Runtime.{Runtime}
use iceberg.Parser.Filters.{parse_timeout}
use iceberg.Parser.Policy.{parse_policy}
use iceberg.Parser.Resources.{parse_cache, parse_opa, opa_of, parse_middleware}
use iceberg.Cache.Connect.{Cache, build_cache, new_jet_stream, get_and_set}
use iceberg.Cache.Store.{build}
use iceberg.Opa.Connect.{put_policies, Opa, PolicyType, new_opa_nats, put_policies}
use iceberg.Opa.Agent.{OpaType, http, ws_send, ws_receive, get_level, opa_caller, OpaNats}
use iceberg.Nats.Conn.{Gateway, get_opa_conn, get_opa_kv, on_world}
use iceberg.Netio.Caller.{Caller}
use iceberg.Netio.Sort.{has_level, level_none}
use iceberg.Netio.Exec.{exec-eq-ret, lift, ◌>>=◌}
use iceberg.Common.Go.{ret_inj}
use mathlib.Core.Path.{subst}
use iceberg.Common.{
  List, [], ◌++◌, Option, none, some, Bool, true, false, if◌then◌else◌, ◌≡◌, refl, sym, ap, ◌∙◌,
  All, All-append,
}
use iceberg.Common.Go.{ret, fail}
use iceberg.Common.Text.{Text, codes, text_eq}
use iceberg.Common.Map.{Map}

-- The caller is not one of LEVEL_NONE.
abbrev pub IsLevelled : {W : Type 0} → Caller W → Type 0
IsLevelled c = has_level level_none c.level ≡ false

module _ {W Conn Js Queue : Type 0} (rt : Runtime W Conn Js Queue) where
  parse_cache-IsLevelled :
      (c : Option CacheV1) (g : Gateway W Conn) (cs : List (Caller W))
      → (parse_cache rt c g).0 ≡ ret cs
      → All IsLevelled cs
  unfolding parse_cache build_cache build
  parse_cache-IsLevelled none g cs e = subst (All IsLevelled) (ret_inj e) tt
  parse_cache-IsLevelled (some c) g cs e =
      let (url, _, e₁) = exec-eq-ret (lift (rt.parse_url c.addr)) _ g cs e in
      let (ttl, _, e₂) = exec-eq-ret (lift (parse_timeout rt c.ttl)) _ g cs e₁ in
      by_scheme (record { address = url; key_template = c.key; ttl = ttl }) _ e₂
    where
      by_scheme :
          (cache : Cache) (is_jetstream : Bool)
          → ((if is_jetstream
                then new_jet_stream rt.getenv rt.broker cache >>= (λ jetstream.
                  lift
                    (ret (get_and_set rt.getenv rt.broker rt.codec rt.query rt.digest jetstream)))
                else lift (fail (codes "unsupported scheme " ++ cache.address.scheme)))
              g).0
            ≡ ret cs
          → All IsLevelled cs
      by_scheme cache true e =
          let (jetstream, _, built) =
            exec-eq-ret (new_jet_stream rt.getenv rt.broker cache) _ g cs e in
          subst (All IsLevelled) (ret_inj built) (refl, (refl, tt))
      by_scheme cache false e = absurd (cc)

  new_opa_nats-opa_type :
      (opa : Opa) (g : Gateway W Conn) (made : Conn × OpaNats)
      → (new_opa_nats rt.getenv rt.broker opa g).0 ≡ ret made
      → made.1.opa_type ≡ opa.opa_type
  unfolding new_opa_nats
  new_opa_nats-opa_type opa g made e =
      let (conn, _, e₁) =
        exec-eq-ret (get_opa_conn rt.broker (resolve_host rt.getenv opa.agent.host)) _ g made e in
      let (kv, _, e₂) = exec-eq-ret (get_opa_kv rt.broker conn (codes "OPA_STORE")) _ _ made e₁ in
      let (policies, _, e₃) =
        exec-eq-ret (on_world (put_policies rt.getenv kv opa.app_name opa.policies)) _ _ made e₂ in
      ap (λ (m : Conn × OpaNats). m.1.opa_type) (sym (ret_inj e₃))

  opa_of-level :
      (url : Url) (policies : Map Text PolicyType) (type : OpaType) (g : Gateway W Conn)
      (c : Caller W)
      → (opa_of rt url policies type g).0 ≡ ret c
      → c.level ≡ get_level type
  unfolding opa_caller
  opa_of-level url policies type g c e =
      let opa : Opa = record {
        app_name = [];
        agent = url;
        timeout = 30_000_000_000;
        policies = policies;
        opa_type = type;
      } in
      let (made, connected, e₁) = exec-eq-ret (new_opa_nats rt.getenv rt.broker opa) _ g c e in
      ap (λ (c : Caller W). c.level) (sym (ret_inj e₁))
      ∙ ap get_level (new_opa_nats-opa_type opa g made connected)

  parse_opa-IsLevelled :
      (o : Option OpaV1) (g : Gateway W Conn) (cs : List (Caller W))
      → (parse_opa rt o g).0 ≡ ret cs
      → All IsLevelled cs
  unfolding parse_opa
  parse_opa-IsLevelled none g cs e = subst (All IsLevelled) (ret_inj e) tt
  parse_opa-IsLevelled (some o) g cs e =
      let (url, _, e₁) = exec-eq-ret (lift (rt.parse_url o.agent)) _ g cs e in
      let (on_http, _, e₂) = exec-eq-ret (lift (parse_policy o.http)) _ g cs e₁ in
      let (on_send, _, e₃) = exec-eq-ret (lift (parse_policy o.send)) _ g cs e₂ in
      let (on_receive, _, e₄) = exec-eq-ret (lift (parse_policy o.receive)) _ g cs e₃ in
      let (c₁, l₁, e₅) = exec-eq-ret (opa_of rt url on_http http) _ g cs e₄ in
      let (c₂, l₂, e₆) = exec-eq-ret (opa_of rt url on_send ws_send) _ _ cs e₅ in
      let (c₃, l₃, e₇) = exec-eq-ret (opa_of rt url on_receive ws_receive) _ _ cs e₆ in
      subst (All IsLevelled) (ret_inj e₇) (
        ap (has_level level_none) (opa_of-level url on_http http _ c₁ l₁),
        (
          ap (has_level level_none) (opa_of-level url on_send ws_send _ c₂ l₂),
          (ap (has_level level_none) (opa_of-level url on_receive ws_receive _ c₃ l₃), tt),
        ),
      )

  pub parse_middleware-IsLevelled :
      (value : ResourceV1) (g : Gateway W Conn) (cs : List (Caller W))
      → (parse_middleware rt value g).0 ≡ ret cs
      → All IsLevelled cs
  unfolding parse_middleware
  parse_middleware-IsLevelled value g cs e =
      let (opa, asked, e₁) = exec-eq-ret (parse_opa rt value.use_of.opa) _ g cs e in
      let (cache, cached, e₂) = exec-eq-ret (parse_cache rt value.use_of.cache) _ _ cs e₁ in
      subst (All IsLevelled) (ret_inj e₂) (
        All-append IsLevelled opa cache (parse_opa-IsLevelled _ g opa asked)
          (parse_cache-IsLevelled _ _ cache cached))
