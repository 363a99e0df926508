-- ===== src/Tests/Proxying.antt =====
-- An HTTP proxy behind one silent caller, with a back end that answers "hello".
use iceberg.Netio.Copies.{clone_request-with_url}
use iceberg.Proxies.Http.Relayed.{Reply, came}
use iceberg.Netio.Header.{header_add, canonical, header_get, header_set}
use iceberg.Netio.Request.{
  clone_shadow_request, apply_options, new_shadow_request, clone_request, with_url, with_context,
  update_request, req_replace_body, req_replace_header, copied, fill_path, req_replace_tailer,
  req_update_header, reset_request, RouteValues,
}
use iceberg.Netio.Message.{read_all}
use iceberg.Netio.Sort.{sort_step, sort_loop}
use iceberg.Common.Slice.{values, append}
use iceberg.Netio.Clone.{
  clone_url, clone_header, clone_multipart_form, clone_transfer_encoding, clone_url_values,
}
use iceberg.Netio.Response.{new_shandow_response, create_request, reset_response}
use iceberg.Common.Map.{get, get_or, put}
use iceberg.Common.Text.{replace_all, replace_from}
use iceberg.Netio.Caller.{answer, create_or_update_response, feed, settle}
use iceberg.Netio.Cascade.{await, await_from, call_caller, round, rounds, run_tasks}
use iceberg.Proxies.Http.{proxy_call}
use iceberg.Netio.Sort.{sort}
use iceberg.Netio.Caller.{Caller, Turn, State}
use iceberg.Common.Url.{Url}
use iceberg.Common.Text.{Text, codes}
use iceberg.Netio.Request.{ShadowRequest, new_shadow_request, clone_request}
use iceberg.Netio.Response.{Sent, ShadowResponse}
use iceberg.Netio.Message.{
  HttpError, Request, Response, background, new_request, no_transport, read_all, reader,
}
use iceberg.Common.{sym, ◌∙◌, ℕ, [], ◌∷◌, ◌+◌, false, none, some, refl, ◌≡◌, ◌≢◌, List, Option, ◌↔◌}
use iceberg.Common.Go.{Go, ret, panic, ◌>>=◌}
use iceberg.Netio.Copies.{new_shadow_request-clone_request}
use iceberg.Netio.Cascade.InOrder.{outcome_of, cascade-in_order}
use iceberg.Netio.Cascade.InOrder.Spec.{in_order}
use iceberg.Netio.Cascade.Kept.{IsSome}
use iceberg.Netio.Cascade.{cascade}
use iceberg.Proxies.Http.{Proxy, new_http_proxy, handle, Answer, http_caller}
use iceberg.Proxies.Http.Served.{cascade-new_http_proxy}
use iceberg.Proxies.Http.Handled.{handle-returns}
use mathlib.Core.Path.{subst}

abbrev hello : Response
hello = record {
  status = codes "200 OK";
  status_code = 200;
  header = some [];
  trailer = some [];
  transfer_encoding = none;
  body = reader (codes "hello");
}

abbrev send_hello : Request → ℕ → Go Text Response × ℕ
send_hello r w = (ret hello, w + 1)

abbrev silent : Caller ℕ
silent = record {
  level = 8;
  is_parallel = false;
  name = [];
  await_list = [];
  call = λ ctx rv c o w. (ret (false, none), w + 1);
  request_updaters = [];
  response_updaters = [];
  context = background;
}

abbrev root : Url
root = record {
  scheme = codes "http";
  user = none;
  host = codes "a";
  path = codes "/";
  raw_query = [];
}

abbrev proxy : Proxy
proxy = record { name = []; address = root; timeout = 0; await_list = [] }

abbrev get_root : Request
get_root = record new_request {
  method = codes "GET";
  url = some root;
  header = some [];
  body = reader (codes "question");
  transport = record no_transport {
    proto = codes "HTTP/1.1";
    content_length = some 8;
    remote_addr = codes "10.0.0.1:4000";
  };
}

abbrev same : ℕ → ℕ
same n = n

abbrev uuid : Text
uuid = codes "7"

abbrev shadow : ShadowRequest
shadow = record { request = get_root; route_values = []; data_bytes = codes "question" }

abbrev proxied : List (Caller ℕ)
proxied = new_http_proxy send_hello same proxy (silent ∷ [])

abbrev cascaded : Go HttpError (Option ShadowResponse) × State ℕ
cascaded = cascade uuid [] shadow (some proxied) 0

abbrev greeting : ShadowResponse
greeting = record {
  response = record hello { header = some ((codes "X-Request-Id", uuid ∷ []) ∷ []) };
  data_bytes = codes "hello";
}

cascaded_answers : cascaded.0 ≡ ret (some greeting)
unfolding cascade new_http_proxy http_caller sort header_add clone_shadow_request apply_options
    new_shadow_request read_all sort_step values append clone_request with_url clone_url
    with_context new_shandow_response create_request update_request req_replace_body
    req_replace_header get get_or put replace_all replace_from answer create_or_update_response feed
    settle await await_from call_caller round rounds run_tasks clone_header clone_multipart_form
    clone_transfer_encoding clone_url_values canonical header_get header_set copied fill_path
    req_replace_tailer req_update_header reset_request reset_response sort_loop proxy_call
cascaded_answers = refl

cascade-new_http_proxy_example : IsSome (some greeting)
cascade-new_http_proxy_example =
    cascade-new_http_proxy send_hello same proxy (silent ∷ []) uuid [] shadow 0 (some greeting)
      (refl, tt) cascaded_answers

new_shadow_request-clone_request_example :
    (new_shadow_request (record get_root { body = reader (codes "question") }) >>= λ s.
    clone_request s [])
    ≡ ret (record get_root {
      method = [];
      host = [];
      context = background;
      body = reader (codes "question");
      transport = no_transport;
    })
new_shadow_request-clone_request_example =
    new_shadow_request-clone_request get_root (codes "question")

abbrev busy : Turn
busy = record { runs = codes "a" ∷ []; expired = codes "a" ∷ [] }

cascade-in_order_example :
    outcome_of
      (cascade uuid (busy ∷ []) shadow (some (silent ∷ http_caller send_hello proxy ∷ [])) 0)
    ≡ in_order uuid shadow (silent ∷ http_caller send_hello proxy ∷ []) 0
unfolding http_caller
cascade-in_order_example =
    cascade-in_order uuid (busy ∷ []) shadow (silent ∷ http_caller send_hello proxy ∷ []) 0
      (refl, (refl, tt))

abbrev writer : Sent
writer = record { header = some []; status = 200; body = [] }

shadow_of : {s : ShadowRequest} → ◌≡◌ {A = Go Text ShadowRequest} (ret shadow) (ret s) → shadow ≡ s
shadow_of e = cc

no_panic : {E A : Type 0} {a : A} → ◌≡◌ {A = Go E A} (ret a) panic → ⊥
no_panic e = absurd cc

handle-returns_example : ((a : Answer) × (handle uuid [] proxied [] 0 writer get_root ≡ ret a)) ↔ (
    (s : ShadowRequest)
    → new_shadow_request get_root ≡ ret s
    → (cascade uuid [] (record s { route_values = [] }) (some proxied) 0).0 ≢ panic)
handle-returns_example =
    handle-returns send_hello same proxy (silent ∷ []) uuid [] [] 0 writer [] get_root (refl, tt)
      refl

cascaded_lives :
    (s : ShadowRequest)
    → new_shadow_request get_root ≡ ret s
    → (cascade uuid [] (record s { route_values = [] }) (some proxied) 0).0 ≢ panic
unfolding new_shadow_request read_all
cascaded_lives s e =
    subst (λ s. (cascade uuid [] (record s { route_values = [] }) (some proxied) 0).0 ≢ panic)
      {x = shadow} {y = s} (shadow_of e) (λ k. no_panic (sym cascaded_answers ∙ k))

handled_here : (a : Answer) × (handle uuid [] proxied [] 0 writer get_root ≡ ret a)
handled_here = handle-returns_example.1 cascaded_lives

abbrev greeted : Reply
greeted = came hello [] (codes "hello")

abbrev users : Url
users = record {
  scheme = codes "http";
  user = none;
  host = codes "b";
  path = codes "/users/{id}";
  raw_query = [];
}

abbrev seven : RouteValues
seven = (codes "id", codes "7") ∷ []

clone_request-with_url_example :
    clone_request
      (record {
        request = record get_root { url = some root };
        route_values = [];
        data_bytes = codes "question";
      })
      (with_url users seven ∷ with_context background ∷ [])
    ≡ ret (record get_root {
      method = [];
      url = some (record root {
        host = codes "b";
        scheme = codes "http";
        path = fill_path (codes "/users/{id}") seven;
      });
      host = codes "b";
      body = reader (codes "question");
      context = background;
      transport = no_transport;
    })
clone_request-with_url_example =
    clone_request-with_url get_root root [] (codes "question") users seven background
