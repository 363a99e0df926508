-- ===== src/Proxies/Http/Served.antt =====
-- The cascade of an HTTP proxy.
use iceberg.Netio.Header.{header_add}
use iceberg.Netio.Sort.{level_pre, level_post, level_request, level_response}
use iceberg.Netio.Sort.{has_level, level_none, level_connect, level_pre}
use iceberg.Netio.Response.{ShadowResponse}
use iceberg.Common.{◌≡◌, List, ltb, All}
use mathlib.Core.Path.{subst}
use mathlib.Core.List.{append_assoc}
use iceberg.Netio.Cascade.{run_copy, run_marked, start, cascade}
use iceberg.Netio.Request.{set_header}
use iceberg.Netio.Caller.{request_id, CallResult, Caller, Turn}
use iceberg.Netio.Header.{Header, header_add}
use iceberg.Netio.Request.{ShadowRequest}
use iceberg.Common.Text.{Text}
use iceberg.Netio.Message.{Request, Response, HttpError, new_error}
use iceberg.Common.{
  [], ◌∷◌, ◌++◌, some, false, refl, ◌∙◌, Bool-cases, inl, inr, Bool, ℕ, Option, List, ◌≡◌,
}
use iceberg.Common.Go.{Go, ret, fail, panic, ret_inj}
use iceberg.Common.{sym, ap}
use iceberg.Netio.Cascade.Answered.{Answers, rounds_answered}
use iceberg.Netio.Cascade.Kept.{IsSome}
use iceberg.Netio.Sort.Order.{sort-concat, of_level, latest_of}
use iceberg.Proxies.Http.{
  stamp, after_send, send_clone, proxy_call, http_caller, new_http_proxy, Proxy,
}

module _ {W : Type 0} (send : Request → W → Go Text Response × W) where
  -- A result that lets the cascade go on, with a response.
  abbrev pub Responds : Bool × Option Response → Type 0
  Responds r = (res : Response) × (r ≡ (false, some res))

  stamp-eq-ret :
      (res : Response) (h : Go HttpError Header) (r : Bool × Option Response)
      → stamp send res h ≡ ret r
      → Responds r
  stamp-eq-ret res (ret h) r e = (record res { header = h }, sym (ret_inj e))
  stamp-eq-ret res (fail x) r e = absurd cc
  stamp-eq-ret res panic r e = absurd cc

  after_send-eq-ret :
      (q : Request) (sent : Go Text Response × W) (r : Bool × Option Response)
      → (after_send send q sent).0 ≡ ret r
      → Responds r
  after_send-eq-ret q (ret res, w) r e = elim (Bool-cases (ltb 399 res.status_code)) [
    | inl too_high ↦ absurd (
        let e' : ◌≡◌ {A = CallResult} (fail (new_error res.status res.status_code)) (ret r) =
          rw too_high at e in
        cc)
    | inr fine ↦ stamp-eq-ret res _ r (rw fine at e)
  ]
  after_send-eq-ret q (fail x, w) r e = absurd cc
  after_send-eq-ret q (panic, w) r e = absurd cc

  pub send_clone-eq-ret :
      (copy : Go Text Request) (w : W) (r : Bool × Option Response)
      → (send_clone send copy w).0 ≡ ret r
      → Responds r
  send_clone-eq-ret (ret q) w r e = after_send-eq-ret q (send q w) r e
  send_clone-eq-ret (fail x) w r e = absurd cc
  send_clone-eq-ret panic w r e = absurd cc

  -- Where the proxy's own call returns no error, it returns a response.
  http_caller-Answers : (or : ShadowRequest) (p : Proxy) → Answers or (http_caller send p)
  unfolding http_caller proxy_call
  http_caller-Answers or p = record {
    sequential = refl;
    answers = λ ctx rv c o w r e.
        let (res, same) = send_clone-eq-ret _ w r e in (res, ap (λ t. t.1) same);
  }

  -- The proxy stands among the sorted callers.
  new_http_proxy-split :
      (grow : ℕ → ℕ) (p : Proxy) (callers : List (Caller W))
      → All (λ c. has_level level_none c.level ≡ false) callers
      → (before : List (Caller W)) × (after : List (Caller W)) × (new_http_proxy send grow p callers
          ≡ before ++ http_caller send p ∷ after)
  unfolding new_http_proxy
  new_http_proxy-split grow p callers h = (
    leading callers,
    trailing callers,
    sort-concat (λ c. c.level) grow callers (http_caller send p) h refl
        ∙ append_assoc (leading callers ++ http_caller send p ∷ []) _ _
        ∙ append_assoc (leading callers) (http_caller send p ∷ []) (trailing callers),
  )
    where
      leading : List (Caller W) → List (Caller W)
      leading cs =
          of_level (λ c. c.level) grow level_connect cs
          ++ latest_of (λ c. c.level) grow level_pre [] cs
          ++ of_level (λ c. c.level) grow level_request cs

      trailing : List (Caller W) → List (Caller W)
      trailing cs =
          of_level (λ c. c.level) grow level_response cs
          ++ latest_of (λ c. c.level) grow level_post [] cs

  run_copy-IsSome :
      (turns : List Turn) (request : ShadowRequest) (before after : List (Caller W)) (p : Proxy)
      (world : W) (copy : Go HttpError ShadowRequest) (o : Option ShadowResponse)
      → (run_copy turns request (before ++ http_caller send p ∷ after) world copy).0 ≡ ret o
      → IsSome o
  run_copy-IsSome turns request before after p world (ret or) o e =
      rounds_answered or turns before after (http_caller send p) (start request world) o
        (http_caller-Answers or p) e
  run_copy-IsSome turns request before after p world (fail x) o e = absurd cc
  run_copy-IsSome turns request before after p world panic o e = absurd cc

  run_marked-IsSome :
      (turns : List Turn) (request : ShadowRequest) (before after : List (Caller W)) (p : Proxy)
      (world : W) (h : Go HttpError Header) (o : Option ShadowResponse)
      → (run_marked turns request (before ++ http_caller send p ∷ after) world h).0 ≡ ret o
      → IsSome o
  run_marked-IsSome turns request before after p world (ret h) o e =
      run_copy-IsSome turns (set_header request h) before after p world _ o e
  run_marked-IsSome turns request before after p world (fail x) o e = absurd cc
  run_marked-IsSome turns request before after p world panic o e = absurd cc

  -- The cascade of an HTTP proxy, whose other callers have no LEVEL_NONE, never ends without an error
  -- and without a response, whatever the other callers do and however goroutines are scheduled.
  pub cascade-new_http_proxy :
      (grow : ℕ → ℕ) (p : Proxy) (callers : List (Caller W)) (uuid : Text) (turns : List Turn)
      (request : ShadowRequest) (world : W) (o : Option ShadowResponse)
      → All (λ c. has_level level_none c.level ≡ false) callers
      → (cascade uuid turns request (some (new_http_proxy send grow p callers)) world).0 ≡ ret o
      → IsSome o
  unfolding cascade
  cascade-new_http_proxy grow p callers uuid turns request world o h e =
      let (before, after, split) = new_http_proxy-split grow p callers h in
      run_marked-IsSome turns request before after p world _ o (
        subst
          (λ cs.
            (run_marked turns request cs world
              (header_add request.request.header request_id uuid)).0
            ≡ ret o)
          split e)
