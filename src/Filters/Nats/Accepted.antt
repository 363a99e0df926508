-- ===== src/Filters/Nats/Accepted.antt =====
-- What a NATS filter returns.
use iceberg.Common.Go.{◌>>=◌ as go_bind, >>=-eq-ret, map_error-eq-ret}
use mathlib.Core.Path.{subst}
use iceberg.Nats.Broker.{Msg, Event, message, deadline, Broker}
use iceberg.Netio.Exec.{◌>>=◌, proceed_ret, proceed-eq-ret}
use iceberg.Netio.Message.{Request, Response, Context, new_error}
use iceberg.Netio.Request.{RouteValues}
use iceberg.Netio.Response.{ShadowResponse}
use iceberg.Netio.Caller.{CallResult, Cloner, Caller}
use iceberg.Filters.Nats.{
  HeadersLib, NatsBase, awaited, with_status, handle_message, core_message, after_callbacks,
  core_outcome, core_call, await_core, core_publish, subscribe_once,
}
use iceberg.Common.{
  List, [], Option, some, Bool, false, ltb, ◌≡◌, refl, sym, ap, ◌∙◌, inl, inr, Bool-cases,
}
use iceberg.Common.Go.{Go, ret, fail, panic}
use iceberg.Common.Text.{Text, text_eq}

-- The answer to a request was read from a message, and its status is below 400.
abbrev pub Answered : (Text → Text) → HeadersLib → Event → Bool × Option Response → Type 0
Answered atoi_error headers deadline r = ⊥
Answered atoi_error headers (message m _ _) r =
    (res : ShadowResponse) × (handle_message atoi_error headers m ≡ ret res)
    × (ltb 399 res.response.status_code ≡ false)
    × (r ≡ (false, some res.response))

awaited-eq-ret :
    (found : Go Text ShadowResponse) (r : Bool × Option Response)
    → awaited found ≡ ret r
    → (res : ShadowResponse) × (found ≡ ret res)
      × (ltb 399 res.response.status_code ≡ false)
      × (r ≡ (false, some res.response))
awaited-eq-ret (ret res) r e = elim (Bool-cases (ltb 399 res.response.status_code)) [
  | inl high ↦ absurd (
      let e' : ◌≡◌ {A = CallResult} (fail (new_error res.response.status res.response.status_code))
          (ret r) =
        rw high at e in
      cc)
  | inr fine ↦ (
    res,
    refl,
    fine,
    let e' : ◌≡◌ {A = CallResult} (ret (false, some res.response)) (ret r) = rw fine at e in cc,
  )
]
awaited-eq-ret (fail x) r e = absurd (cc)
awaited-eq-ret panic r e = absurd (cc)

module _ (atoi_error : Text → Text) (headers : HeadersLib) {W : Type 0} where
  after_callbacks-eq-ret :
      (found : CallResult) (called : Go Text (Unit {0}) × W) (r : Bool × Option Response)
      → (after_callbacks atoi_error headers found called).0 ≡ ret r
      → found ≡ ret r
  after_callbacks-eq-ret found (ret _, w) r e = e
  after_callbacks-eq-ret found (fail _, w) r e = e
  after_callbacks-eq-ret found (panic, w) r e = absurd (cc)

  core_outcome-eq-ret :
      (callers : List (Caller W)) (seen : Event × W) (r : Bool × Option Response)
      → (core_outcome atoi_error headers callers seen).0 ≡ ret r
      → Answered atoi_error headers seen.0 r
  core_outcome-eq-ret callers (deadline, w) r e = absurd (cc)
  core_outcome-eq-ret callers (message m uuid turns, w) r e =
      awaited-eq-ret _ r (after_callbacks-eq-ret _ _ r e)

  module _ {Conn Js Queue : Type 0} (broker : Broker W Conn Js Queue) where
    -- When Call of a NatsCoreFilter returns no error: it subscribed to a new inbox, without an error,
    -- and then published, without an error, the message that is made of a clone of the request, with
    -- that inbox as its reply; and a message came to that inbox before the context ended. The
    -- response is made of that message, has a status below 400, and does not end the cascade.
    pub core_call-eq-ret :
        (f : NatsBase W) (conn : Conn) (ctx : Context) (rv : RouteValues) (c o : Cloner) (w : W)
        (r : Bool × Option Response)
        → (core_call atoi_error headers broker f conn ctx rv c o w).0 ≡ ret r
        → let (inbox, w₁) = broker.new_resp_inbox conn w in
          let (subscribed, w₂) = subscribe_once atoi_error headers broker conn inbox w₁ in
          (req : Request) × (m : Msg) × (subscribed ≡ ret tt)
          × (c [] ≡ ret req)
          × (core_message atoi_error headers f.subject inbox req ≡ ret m)
          × ((broker.publish_msg conn m w₂).0 ≡ ret tt)
          × Answered atoi_error headers
              (broker.first_event conn inbox ctx (broker.publish_msg conn m w₂).1).0
              r
    unfolding core_call
    core_call-eq-ret f conn ctx rv c o w r e =
        let inbox = (broker.new_resp_inbox conn w).0 in
        let w₁ = (broker.new_resp_inbox conn w).1 in
        let sub = subscribe_once atoi_error headers broker conn inbox in
        let publish = core_publish atoi_error headers broker conn f.subject inbox c in
        let wait = await_core atoi_error headers broker conn f.filter.callers inbox ctx in
        let (_, subscribed, e₁) =
          proceed-eq-ret (with_status 500 sub w₁).0 (λ _. with_status 502 publish >>= λ _. wait)
            (sub w₁).1 r e in
        let (_, sent, e₂) =
          proceed-eq-ret (with_status 502 publish (sub w₁).1).0 (λ _. wait) (publish (sub w₁).1).1 r
            e₁ in
        let (m, made, same) =
          proceed_ret (go_bind (c []) (core_message atoi_error headers f.subject inbox))
            (broker.publish_msg conn) (sub w₁).1 _ (map_error-eq-ret _ _ _ sent) in
        let (req, copied, written) =
          >>=-eq-ret (c []) (core_message atoi_error headers f.subject inbox) m made in
        (
          req,
          m,
          map_error-eq-ret _ _ _ subscribed,
          copied,
          written,
          ap (λ t. t.0) (sym same) ∙ map_error-eq-ret _ _ _ sent,
          subst (λ v. Answered atoi_error headers (broker.first_event conn inbox ctx v).0 r)
              (ap (λ t. t.1) same)
              (core_outcome-eq-ret f.filter.callers
                (broker.first_event conn inbox ctx (publish (sub w₁).1).1) r e₂),
        )
