-- ===== src/Proxies/Http/Handled.antt =====
-- Whether Handle of an HTTP proxy returns.
use iceberg.Netio.Cascade.{cascade}
use iceberg.Common.{false}
use iceberg.Netio.Sort.{has_level, level_none}
use iceberg.Netio.Sort.{has_level, level_none}
use iceberg.Netio.Caller.{Caller, Turn}
use iceberg.Common.Map.{Map}
use iceberg.Common.Text.{Text}
use iceberg.Netio.Response.{Sent, ShadowResponse}
use iceberg.Netio.Request.{new_shadow_request, ShadowRequest, RouteValues}
use iceberg.Netio.Written.{write-some}
use iceberg.Proxies.Http.Served.{cascade-new_http_proxy}
use iceberg.Proxies.Http.{
  reply, refused, written, Answer, handle, handle_shadow, Proxy, new_http_proxy,
}
use iceberg.Common.{
  [], List, Option, none, some, refl, ap, sym, ◌↔◌, ◌∙◌, ◌≡◌, ◌⊎◌, ◌≢◌, Option-cases, inl, inr, ℕ,
  All, false,
}
use iceberg.Netio.Caller.{Caller}
use iceberg.Common.Go.{Go, ret, fail, panic}
use iceberg.Netio.Message.{read_all, Request, HttpError, Response, reader, new_error}
use iceberg.Netio.Cascade.Kept.{IsSome}

reply-returns :
    (w : Sent) (h : Map Text (List Text)) (res : Go HttpError (Option ShadowResponse))
    → w.header ≡ some h
    → (res ≢ panic)
    → ((o : Option ShadowResponse) → res ≡ ret o → IsSome o)
    → (a : Answer) × (reply w res ≡ ret a)
reply-returns w h (ret (some out)) e live answered =
    let (w', wrote) = write-some out w h e in
    (
      written w',
      ap (λ t. elim t [ ret w' ↦ ret (written w') | fail e ↦ fail e | panic ↦ panic ]) wrote,
    )
reply-returns w h (ret none) e live answered = let (out, wrong) = answered none refl in absurd cc
reply-returns w h (fail x) e live answered = (refused x, refl)
reply-returns w h panic e live answered = absurd (live refl)

returned_panics : {E A : Type 0} {a : A} → ◌≡◌ {A = Go E A} panic (ret a) → ⊥
returned_panics e = absurd (cc)

new_shadow_request-cases :
    (r : Request)
    → ((s : ShadowRequest) × (new_shadow_request r ≡ ret s))
      ⊎ ((e : Text) × (new_shadow_request r ≡ fail e))
unfolding new_shadow_request read_all
new_shadow_request-cases r = elim (Option-cases r.body.failure) [
  | inl whole ↦ inl (
    record {
      request = record r { body = reader r.body.unread };
      route_values = [];
      data_bytes = r.body.unread;
    },
    rw whole refl,
  )
  | inr (e, broken) ↦ inr (e, rw broken refl)
]

module _ {W : Type 0} (send : Request → W → Go Text Response × W) where
  -- Handle of an HTTP proxy, whose other callers have no LEVEL_NONE, on a writer that has a header,
  -- returns with an answer exactly where its cascade, if the body of the request can be read, does not
  -- panic: a body that cannot be read and an error of the cascade are answered with an error, and
  -- there is a response to write in every other case.
  pub handle-returns :
      (grow : ℕ → ℕ) (p : Proxy) (callers : List (Caller W)) (uuid : Text) (turns : List Turn)
      (rv : RouteValues) (world : W) (w : Sent) (h : Map Text (List Text)) (r : Request)
      → All (λ c. has_level level_none c.level ≡ false) callers
      → w.header ≡ some h
      → ((a : Answer) × (handle uuid turns (new_http_proxy send grow p callers) rv world w r
            ≡ ret a))
        ↔ ((s : ShadowRequest)
            → new_shadow_request r ≡ ret s
            → (cascade uuid turns
                (record s { route_values = rv })
                (some (new_http_proxy send grow p callers))
                world).0
              ≢ panic)
  unfolding handle
  handle-returns grow p callers uuid turns rv world w h r levels e =
      let run = handle_shadow uuid turns (new_http_proxy send grow p callers) rv world w in
      (
        λ (a, returned) s made crashed.
            returned_panics (sym (ap (reply w) crashed) ∙ sym (ap run made) ∙ returned),
        λ live. elim (new_shadow_request-cases r) [
          | inl (s, made) ↦
              let (a, same) =
                reply-returns w h _ e (live s made)
                  (λ o. cascade-new_http_proxy send grow p callers uuid turns _ world o levels) in
              (a, ap run made ∙ same)
          | inr (x, broken) ↦ (refused (new_error x 500), ap run broken)
        ],
      )
