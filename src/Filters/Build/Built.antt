-- ===== src/Filters/Build/Built.antt =====
-- What Filter.Build makes of a filter.
use iceberg.Filters.Filter.{Filter, filter_caller}
use iceberg.Filters.Http.{http_filter, filter_call}
use iceberg.Filters.Nats.{
  HeadersLib, NatsBase, new_core_filter, new_durable_filter, new_base_nats, core_call, durable_call,
  create_reflector,
}
use iceberg.Filters.Build.{build_filter}
use iceberg.Nats.Broker.{Broker}
use iceberg.Nats.Conn.{get_conn, on_world, Gateway}
use iceberg.Netio.Caller.{Caller, CallResult, Cloner}
use iceberg.Netio.Message.{Request, Response, Context}
use iceberg.Netio.Request.{RouteValues}
use iceberg.Netio.Exec.{exec-eq-ret, lift}
use iceberg.Common.Go.{ret_inj}
use iceberg.Common.{[], ◌∷◌, ◌++◌, none, some, Bool, true, false, if◌then◌else◌, ◌≡◌, sym}
use iceberg.Common.Go.{Go, ret, fail}
use iceberg.Common.Text.{Text, codes, text_eq}

-- The caller has the settings of the filter; its Call is that of some instance.
abbrev pub IsInstance : {W : Type 0} → Filter W → Caller W → Type 0
IsInstance {W} f c =
    (call : Context → RouteValues → Cloner → Cloner → W → CallResult × W) × (c
      ≡ filter_caller f call)

module _ (env : Text → Text) (atoi_error : Text → Text) (headers : HeadersLib)
    {W Conn Js Queue : Type 0} (send : Request → W → Go Text Response × W)
    (broker : Broker W Conn Js Queue) where
  new_core_filter-eq-ret :
      (f : Filter W) (g : Gateway W Conn) (c : Caller W)
      → (new_core_filter atoi_error headers broker (new_base_nats env f) g).0 ≡ ret c
      → IsInstance f c
  unfolding new_core_filter new_base_nats
  new_core_filter-eq-ret f g c e =
      let (conn, _, e₁) = exec-eq-ret (get_conn broker (new_base_nats env f).host none) _ g c e in
      (core_call atoi_error headers broker (new_base_nats env f) conn, sym (ret_inj e₁))

  new_durable_filter-eq-ret :
      (f : Filter W) (g : Gateway W Conn) (c : Caller W)
      → (new_durable_filter atoi_error headers broker (new_base_nats env f) g).0 ≡ ret c
      → IsInstance f c
  unfolding new_durable_filter new_base_nats
  new_durable_filter-eq-ret f g c e =
      let (conn, _, e₁) =
        exec-eq-ret
          (get_conn broker (new_base_nats env f).host
            (some (create_reflector atoi_error headers broker)))
          _ g c e in
      let (queue, _, e₂) =
        exec-eq-ret (on_world (broker.queue_new conn ((new_base_nats env f).subject ∷ []))) _ _ c
          e₁ in
      (durable_call atoi_error headers broker (new_base_nats env f) conn queue, sym (ret_inj e₂))

  -- The caller that Build returns has the level, the name and the other settings of the filter.
  pub build_filter-eq-ret :
      (f : Filter W) (g : Gateway W Conn) (c : Caller W)
      → (build_filter env atoi_error headers send broker f g).0 ≡ ret c
      → IsInstance f c
  unfolding build_filter http_filter
  build_filter-eq-ret f g c e = by_scheme _ _ _ e
    where
      base : NatsBase W
      base = new_base_nats env f

      by_scheme :
          (is_http is_durable is_core : Bool)
          → ((if is_http
                then lift (ret (http_filter send f))
                else if is_durable
                then new_durable_filter atoi_error headers broker base
                else if is_core
                then new_core_filter atoi_error headers broker base
                else lift (fail (codes "unsupported scheme " ++ f.address.scheme)))
              g).0
            ≡ ret c
          → IsInstance f c
      by_scheme true _ _ e = (filter_call send f, sym (ret_inj e))
      by_scheme false true _ e = new_durable_filter-eq-ret f g c e
      by_scheme false false true e = new_core_filter-eq-ret f g c e
      by_scheme false false false e = absurd (cc)
