-- ===== src/Tests/Filtering.antt =====
-- An HTTP filter of level request, with a service that answers "hello", and the level in a
-- configuration.
use iceberg.Netio.Caller.{Cloner}
use iceberg.Common.Url.{Url}
use iceberg.Netio.Message.{Request, Response, background, new_request, reader}
use iceberg.Netio.Request.{ShadowRequest, with_url, with_context}
use iceberg.Common.{ℕ, List, [], ◌∷◌, ◌+◌, none, some, refl, false, ◌≡◌, Bool, Option, ltb}
use iceberg.Common.Go.{Go, ret}
use iceberg.Common.Map.{Map}
use iceberg.Common.Text.{Text, codes, text_eq}
use iceberg.Parser.Level.{level_of, level_of-Names, Names}
use iceberg.Filters.Http.{filter_call}
use iceberg.Filters.Filter.{Filter}
use iceberg.Filters.Http.Accepted.{filter_call-eq-ret}

level_of_upper : level_of (codes "Connect") ≡ ret 2
unfolding level_of
level_of_upper = refl

connect-Names : Names (codes "Connect") 2
connect-Names = level_of-Names (codes "Connect") 2 level_of_upper

abbrev root : Url
root = record {
  scheme = codes "http";
  user = none;
  host = codes "a";
  path = codes "/";
  raw_query = [];
}

abbrev filter : Filter ℕ
filter = record {
  name = [];
  address = root;
  level = 8;
  parallel = false;
  timeout = 0;
  callers = [];
  await_list = [];
  request_updaters = [];
  response_updaters = [];
}

abbrev hello : Response
hello = record {
  status = codes "200 OK";
  status_code = 200;
  header = some [];
  trailer = some [];
  transfer_encoding = none;
  body = reader (codes "hello");
}

abbrev send_hello : Request → ℕ → Go Text Response × ℕ
send_hello r w = (ret hello, w + 1)

abbrev copies : Cloner
copies options = ret new_request

call_hello :
    (filter_call send_hello filter background [] copies copies 0).0 ≡ ret (false, some hello)
unfolding filter_call
call_hello = refl

filter_call-eq-ret_example :
    (q : Request) × (res : Response) × (copies (with_url root [] ∷ with_context background ∷ [])
      ≡ ret q)
    × ((send_hello q 0).0 ≡ ret res)
    × (ltb 399 res.status_code ≡ false)
    × (◌≡◌ {A = Bool × Option Response} (false, some hello) (false, some res))
filter_call-eq-ret_example =
    filter_call-eq-ret send_hello filter background [] copies copies 0 (false, some hello)
      call_hello

abbrev asked : ShadowRequest
asked = record {
  request = record new_request { method = codes "GET"; url = some root; header = some [] };
  route_values = [];
  data_bytes = codes "question";
}

abbrev service_fields : Map Text (List Text)
service_fields = (codes "A", codes "b" ∷ []) ∷ []

abbrev service_answer : Response
service_answer = record hello { header = some service_fields }
