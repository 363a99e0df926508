-- ===== src/Proxies/Http.antt =====
-- HttpProxy of internal/callers/proxies/http.go, with the Proxy of common.go. The HTTP client of the
-- standard library is the parameter `send`.
pub mod Served
pub mod Handled
pub mod Guarded
pub mod Cached
pub mod Recalled
pub mod Relayed
use iceberg.Netio.Response.{res_replace_tailer}
use iceberg.Common.{
  ℕ, List, [], ◌∷◌, ◌++◌, Option, none, some, Bool, true, false, ltb, ◌==◌, if◌then◌else◌,
}
use iceberg.Common.Go.{Go, ret, fail, panic}
use iceberg.Common.Text.{Text}
use iceberg.Common.Url.{Url}
use iceberg.Netio.Header.{header_get, header_add, Header}
use iceberg.Netio.Message.{Request, Response, Context, cancelled_after, HttpError, new_error}
use iceberg.Netio.Request.{
  with_url, with_context, RouteValues, req_replace_body, ShadowRequest, new_shadow_request,
  req_replace_header, req_replace_tailer,
}
use iceberg.Netio.Response.{
  ShadowResponse, Sent, write, res_replace_body, res_replace_header, res_replace_tailer,
}
use iceberg.Netio.Sort.{sort, level_none}
use iceberg.Netio.Caller.{Caller, CallResult, Cloner, Turn, State, request_id}
use iceberg.Netio.Cascade.{cascade}

pub record Proxy : Type 0 where
  pub name : Text
  pub address : Url
  pub timeout : ℕ
  pub await_list : List Text

-- GetContext: thirty seconds where no timeout is set.
abbrev pub proxy_context : Proxy → Context
proxy_context p = cancelled_after (if p.timeout == 0 then 30_000_000_000 else p.timeout)

-- What Handle answers: http.Error with a message and a status, or what Write wrote.
pub data Answer : Type 0 where
  refused : HttpError → Answer
  written : Sent → Answer

module _ {W : Type 0} (send : Request → W → Go Text Response × W) where
  -- The identifier of the request goes into the response.
  abbrev pub stamp : Response → Go HttpError Header → CallResult
  stamp res (ret h) = ret (false, some (record res { header = h }))
  stamp res (fail e) = fail e
  stamp res panic = panic

  abbrev pub after_send : Request → Go Text Response × W → CallResult × W
  after_send r (ret res, w) = (
    if ltb 399 res.status_code
        then fail (new_error res.status res.status_code)
        else stamp res (header_add res.header request_id (header_get r.header request_id)),
    w,
  )
  after_send r (fail e, w) = (fail (new_error e 502), w)
  after_send r (panic, w) = (panic, w)

  abbrev pub send_clone : Go Text Request → W → CallResult × W
  send_clone (ret r) w = after_send r (send r w)
  send_clone (fail e) w = (fail (new_error e 500), w)
  send_clone panic w = (panic, w)

  -- HttpProxy.Call
  unfoldable pub proxy_call : Proxy → Context → RouteValues → Cloner → Cloner → W → CallResult × W
  proxy_call p ctx rv c o w = send_clone (c (with_url p.address rv ∷ with_context ctx ∷ [])) w

  -- HttpProxy as a netio.Caller.
  unfoldable pub http_caller : Proxy → Caller W
  unfolding proxy_call
  http_caller p = record {
    level = level_none;
    is_parallel = false;
    name = p.name;
    await_list = p.await_list;
    call = proxy_call p;
    request_updaters = req_replace_body ∷ req_replace_header ∷ req_replace_tailer ∷ [];
    response_updaters = res_replace_body ∷ res_replace_header ∷ res_replace_tailer ∷ [];
    context = proxy_context p;
  }

  -- The callers of NewHttpProxy.
  unfoldable pub new_http_proxy : (ℕ → ℕ) → Proxy → List (Caller W) → List (Caller W)
  unfolding http_caller
  new_http_proxy grow p callers = sort (λ c. c.level) grow (callers ++ http_caller p ∷ [])

-- The end of Handle. A nil output has nothing to write.
abbrev pub reply : Sent → Go HttpError (Option ShadowResponse) → Go Text Answer
reply w (ret (some out)) = elim (write out w) [
  | ret w' ↦ ret (written w')
  | fail e ↦ fail e
  | panic ↦ panic
]
reply w (ret none) = panic
reply w (fail e) = ret (refused e)
reply w panic = panic

module _ {W : Type 0} where
  abbrev pub handle_shadow :
      Text
      → List Turn
      → List (Caller W)
      → RouteValues
      → W
      → Sent
      → Go Text ShadowRequest
      → Go Text Answer
  handle_shadow uuid turns callers rv world w (ret s) =
      reply w (cascade uuid turns (record s { route_values = rv }) (some callers) world).0
  handle_shadow uuid turns callers rv world w (fail e) = ret (refused (new_error e 500))
  handle_shadow uuid turns callers rv world w panic = panic

  -- HttpProxy.Handle, on what the writer holds.
  unfoldable pub handle :
      Text → List Turn → List (Caller W) → RouteValues → W → Sent → Request → Go Text Answer
  handle uuid turns callers rv world w r =
      handle_shadow uuid turns callers rv world w (new_shadow_request r)
