-- ===== src/Tests/Recalling.antt =====
-- Two requests to a proxy with a cache, whose backend says "hello".
use iceberg.Netio.Header.{canonical}
use iceberg.Common.Map.{get, get_or, put}
use iceberg.Common.Text.{contains}
use iceberg.Cache.Key.{parse_key}
use iceberg.Netio.Request.{
  clone_shadow_request, apply_options, new_shadow_request, clone_request, with_url, copied,
  fill_path, req_replace_body, req_replace_header, req_replace_tailer, req_update_header,
  reset_request, update_request, with_context,
}
use iceberg.Netio.Message.{read_all}
use iceberg.Proxies.Http.{new_http_proxy, http_caller, proxy_call}
use iceberg.Netio.Sort.{sort, sort_step, sort_loop}
use iceberg.Cache.Store.{build, get_call, marshal, set_call, unmarshal}
use iceberg.Common.Slice.{values, append}
use iceberg.Netio.Clone.{
  clone_url, clone_header, clone_multipart_file_header, clone_multipart_form,
  clone_transfer_encoding, clone_url_values,
}
use iceberg.Cache.Key.{fill_body, fill_method, fill_query, fill_route}
use iceberg.Common.Text.{join, replace_all, replace_from}
use iceberg.Netio.Caller.{answer, create_or_update_response, feed, settle, spin}
use iceberg.Netio.Cascade.{
  await, await_from, call_caller, receive, round, rounds, run_task, run_tasks,
}
use iceberg.Netio.Header.{header_get, header_set}
use iceberg.Netio.Response.{
  create_request, new_shandow_response, res_replace_body, res_replace_header, res_replace_tailer,
  reset_response, update_response,
}
use iceberg.Tests.Caching.{no_query, same_text, listed_kv, listed_kv-KvLaws, root}
use iceberg.Nats.Kv.{key_not_found}
use iceberg.Netio.Message.{new_error, background}
use iceberg.Netio.Caller.{request_id}
use iceberg.Netio.Cascade.{cascade, start}
use iceberg.Netio.Header.{Header, header_add}
use iceberg.Netio.Message.{Request, Response, HttpError, new_request, reader}
use iceberg.Netio.Request.{ShadowRequest, set_header}
use iceberg.Netio.Response.{ShadowResponse}
use iceberg.Proxies.Http.{Proxy}
use iceberg.Proxies.Http.Cached.{behind_cache, key_of, answer_of, cascade-cached}
use iceberg.Proxies.Http.Recalled.{cascade-recalled}
use iceberg.Proxies.Http.Recalled.Rounds.{unawaiting}
use iceberg.Netio.Caller.{Caller}
use iceberg.Common.{List, [], ◌∷◌, none, some, false, ◌≡◌, refl}
use iceberg.Common.Go.{Go, ret, fail}
use iceberg.Common.Map.{Map}
use iceberg.Common.Text.{Text, codes, text_eq}
use iceberg.Tests.Encoding.{seven, codec, seven_header, codec-CodecLaws}

abbrev hello : Response
hello = record {
  status = codes "200 OK";
  status_code = 200;
  header = some [];
  trailer = some [];
  transfer_encoding = none;
  body = reader (codes "hello");
}

abbrev send : Request → Map Text Text → Go Text Response × Map Text Text
send r w = (ret hello, w)

abbrev proxy : Proxy
proxy = record { name = []; address = root; timeout = 0; await_list = [] }

abbrev template : Text
template = codes "K"

abbrev key : Text
key = codes "k"

abbrev asked : ShadowRequest
asked = record {
  request = record new_request { method = codes "GET"; url = some root; header = some [] };
  route_values = [];
  data_bytes = [];
}

abbrev callers : List (Caller (Map Text Text))
callers =
    behind_cache codec no_query same_text template listed_kv send (λ n. n) (unawaiting proxy) []

abbrev answered : ShadowResponse
answered = record { response = record hello { header = seven_header }; data_bytes = codes "hello" }

asked_key : key_of no_query same_text template asked ≡ ret key
unfolding parse_key contains
asked_key = refl

missed : (listed_kv.get key []).0 ≡ fail key_not_found
unfolding get
missed = refl

first_visit : (cascade seven [] asked (some callers) []).0 ≡ ret (some answered)
unfolding cascade header_add clone_shadow_request apply_options new_shadow_request read_all
    new_http_proxy sort build sort_step values append clone_request parse_key clone_url contains get
    with_url fill_body fill_method fill_query fill_route get_call marshal set_call unmarshal get_or
    put join replace_all replace_from answer create_or_update_response feed settle spin await
    await_from call_caller receive round rounds run_task run_tasks clone_header
    clone_multipart_file_header clone_multipart_form clone_transfer_encoding clone_url_values
    canonical header_get header_set copied fill_path req_replace_body req_replace_header
    req_replace_tailer req_update_header reset_request update_request with_context create_request
    new_shandow_response res_replace_body res_replace_header res_replace_tailer reset_response
    update_response sort_loop http_caller proxy_call
first_visit = refl

eight_marked :
    header_add {E = HttpError} (some []) request_id (codes "8")
    ≡ ret (some ((request_id, codes "8" ∷ []) ∷ []))
unfolding header_add put canonical get_or
eight_marked = refl

-- Behind the first visit, another key was stored.
abbrev later : Map Text Text
later = (codes "other", codes "x") ∷ (cascade seven [] asked (some callers) []).1.world

later_kept :
    (listed_kv.get key later).0
    ≡ (listed_kv.get key (cascade seven [] asked (some callers) []).1.world).0
unfolding get
later_kept = refl

cascade-recalled_example :
    (v : Header × Text) × (v.1 ≡ codes "hello")
    × (cascade (codes "8") [] asked (some callers) later ≡ (
      ret (some (answer_of codec no_query same_text template listed_kv send v)),
      record (start (set_header asked (some ((request_id, codes "8" ∷ []) ∷ []))) []) {
        world = (listed_kv.get key later).1;
      },
    ))
cascade-recalled_example =
    cascade-recalled codec no_query same_text template listed_kv send codec-CodecLaws
      listed_kv-KvLaws (λ n. n) proxy asked asked seven (codes "8") [] [] key [] later answered
      (some ((request_id, codes "8" ∷ []) ∷ [])) asked_key asked_key missed first_visit later_kept
      eight_marked

-- A filter of the requests, which a hit does not reach.
abbrev denying : Caller (Map Text Text)
denying = record {
  level = 8;
  is_parallel = false;
  name = [];
  await_list = [];
  call = λ ctx rv c o w. (fail (new_error (codes "denied") 403), w);
  request_updaters = [];
  response_updaters = [];
  context = background;
}

abbrev filled : Map Text Text
filled = (key, codes "hello") ∷ []

filled_hit : listed_kv.get key filled ≡ (ret (codes "hello"), filled)
unfolding get
filled_hit = refl

abbrev eight_header : Header
eight_header = some ((request_id, codes "8" ∷ []) ∷ [])

cascade-cached_example :
    cascade
      (codes "8")
      []
      asked
      (some (
        behind_cache codec no_query same_text template listed_kv send
          (λ n. n)
          proxy
          (denying ∷ [])))
      filled
    ≡ (
      ret (
          some (
            answer_of codec no_query same_text template listed_kv send
              (seven_header, codes "hello"))),
      record (start (set_header asked eight_header) filled) { world = filled },
    )
cascade-cached_example =
    cascade-cached codec no_query same_text template listed_kv send asked key (codes "hello")
      (seven_header, codes "hello") filled filled asked_key filled_hit refl (λ n. n) proxy
      (denying ∷ []) (codes "8") [] eight_header ((refl, refl, refl), tt) eight_marked
