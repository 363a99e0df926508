-- ===== src/Filters/Http.antt =====
-- HttpFilter of internal/callers/filters/http.go. The HTTP client of the standard library is the
-- parameter `send`.
pub mod Accepted
use iceberg.Filters.Filter.{Filter, filter_caller}
use iceberg.Common.{ℕ, List, [], ◌∷◌, ◌++◌, some, Bool, false, ltb, ◌==◌, ◌||◌, if◌then◌else◌}
use iceberg.Common.Go.{Go, ret, fail, panic}
use iceberg.Common.Text.{Text, codes, text_beq}
use iceberg.Common.Url.{Url}
use iceberg.Netio.Message.{Request, Response, Context, cancelled_after, new_error}
use iceberg.Netio.Request.{
  with_url, with_context, RequestUpdater, RouteValues, req_replace_header, req_update_header,
  req_replace_body,
}
use iceberg.Netio.Response.{
  ResponseUpdater, res_replace_header, res_update_header, res_replace_body,
}
use iceberg.Netio.Sort.{level_connect, level_request, level_response}
use iceberg.Netio.Caller.{Caller, CallResult, Cloner}

module _ {W : Type 0} (send : Request → W → Go Text Response × W) where
  abbrev pub accept : Go Text Response × W → CallResult × W
  accept (ret res, w) = (
    if ltb 399 res.status_code
        then fail (new_error res.status res.status_code)
        else ret (false, some res),
    w,
  )
  accept (fail e, w) = (fail (new_error e 502), w)
  accept (panic, w) = (panic, w)

  abbrev pub send_clone : Go Text Request → W → CallResult × W
  send_clone (ret r) w = accept (send r w)
  send_clone (fail e) w = (fail (new_error e 500), w)
  send_clone panic w = (panic, w)

  -- HttpFilter.Call
  unfoldable pub filter_call :
      Filter W → Context → RouteValues → Cloner → Cloner → W → CallResult × W
  filter_call f ctx rv c o w = send_clone (c (with_url f.address rv ∷ with_context ctx ∷ [])) w

  -- HttpFilter as a netio.Caller.
  unfoldable pub http_filter : Filter W → Caller W
  unfolding filter_call
  http_filter f = filter_caller f (filter_call f)
