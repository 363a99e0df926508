-- ===== src/Tests/Sockets.antt =====
-- A WebSocket proxy whose connect caller refuses each request, and one message of a client.
use iceberg.Netio.Header.{header_set}
use iceberg.Netio.Request.{req_update_header, reset_request, update_request}
use iceberg.Netio.Response.{create_request, new_shandow_response}
use iceberg.Common.Map.{get_or, put}
use iceberg.Netio.Request.{apply_options, clone_shadow_request}
use iceberg.Netio.Header.{canonical, header_add}
use iceberg.Netio.Message.{read_all, Response, reader}
use iceberg.Netio.Caller.{Caller, State, internal}
use iceberg.Netio.Cascade.{cascade}
use iceberg.Netio.Message.{Request, HttpError, background, new_request}
use iceberg.Netio.Request.{ShadowRequest, new_shadow_request}
use iceberg.Netio.Response.{Sent}
use iceberg.Proxies.WebSocket.{SocketLib, WebSocketProxy, handle_web_socket, relay, new_web_socket}
use iceberg.Proxies.WebSocket.Refused.{handle_web_socket-refused}
use iceberg.Proxies.WebSocket.Pump.{
  Pump, written, here, next, read_and_hold, write_message, original_of,
}
use iceberg.Proxies.WebSocket.Delivered.{Reach-account, held, sent_of, lost_of, IsFate}
use iceberg.Proxies.WebSocket.Unchanged.{relay-new_web_socket}
use iceberg.Netio.Response.{res_replace_body, res_replace_header}
use iceberg.Common.Url.{Url}
use iceberg.Common.{ℕ, ◌+◌, [], ◌∷◌, ◌++◌, map, none, some, false, ◌≡◌, refl, All, length, List}
use iceberg.Common.Go.{ret, fail}
use iceberg.Common.Text.{Text, codes, text_eq}

abbrev hi : Text
hi = codes "hi"

abbrev delivered : Pump ℕ
delivered = record {
  holding = none;
  fates = written hi hi ∷ [];
  read = hi ∷ [];
  sent = hi ∷ [];
  redialled = 0;
  world = 1;
}

abbrev no_callers : List (Caller ℕ)
no_callers = []

hi_relayed : relay (codes "7") [] no_callers hi 0 ≡ (ret (some hi), 0)
unfolding relay new_shadow_request read_all cascade header_add clone_shadow_request apply_options
hi_relayed = refl

Reach-account_example :
    (delivered.read ≡ held delivered.holding ++ map original_of delivered.fates)
    × (delivered.sent ≡ sent_of delivered.fates)
    × (length (lost_of delivered.fates) ≡ delivered.redialled)
    × All (IsFate no_callers) delivered.fates
Reach-account_example = Reach-account [] 0 delivered (
    next (next here (read_and_hold hi hi (codes "7") [] 0 refl hi_relayed refl))
      (write_message hi hi 1 refl refl))

abbrev denied : HttpError
denied = internal (codes "denied")

abbrev refusing : Caller ℕ
refusing = record {
  level = 2;
  is_parallel = false;
  name = [];
  await_list = [];
  call = λ ctx rv c o w. (fail denied, w);
  request_updaters = [];
  response_updaters = [];
  context = background;
}

abbrev address : Url
address = record { scheme = codes "ws"; user = none; host = codes "b"; path = []; raw_query = [] }

abbrev proxy : WebSocketProxy ℕ
proxy = record {
  proxy = record { name = []; address = address; timeout = 0; await_list = [] };
  connect_callers = refusing ∷ [];
  request_callers = [];
  response_callers = [];
}

abbrev shout : Response
shout = record {
  status = codes "200 OK";
  status_code = 200;
  header = some [];
  trailer = some [];
  transfer_encoding = none;
  body = reader (codes "HI");
}

-- A response caller that would put its answer in the place of a message.
abbrev shouting : Caller ℕ
shouting = record {
  level = 16;
  is_parallel = false;
  name = [];
  await_list = [];
  call = λ ctx rv c o w. (ret (false, some shout), w + 1);
  request_updaters = [];
  response_updaters = res_replace_header ∷ res_replace_body ∷ [];
  context = background;
}

hi_passed :
    (relay (codes "7") [] (new_web_socket proxy.proxy (shouting ∷ [])).response_callers hi 0).0
    ≡ ret (some hi)
unfolding relay new_shadow_request read_all cascade header_add clone_shadow_request apply_options
    new_web_socket new_shandow_response create_request update_request res_replace_body
    req_update_header header_set reset_request
hi_passed = refl

relay-new_web_socket_example : hi ≡ hi
relay-new_web_socket_example =
    relay-new_web_socket proxy.proxy (shouting ∷ []) (codes "7") [] hi hi 0 (λ e. refl, tt)
      hi_passed

abbrev socket : SocketLib ℕ ℕ
socket = record { upgrade = λ writer r w. (ret 1, w + 1); dial = λ url w. (ret 2, w + 1) }

abbrev chat : Url
chat = record { scheme = []; user = none; host = []; path = codes "/chat"; raw_query = [] }

abbrev visit : Request
visit = record new_request { method = codes "GET"; url = some chat; header = some [] }

abbrev shadow : ShadowRequest
shadow = record { request = visit; route_values = []; data_bytes = [] }

abbrev marked : State ℕ
marked = record {
  request = record shadow {
    request = record visit { header = some ((codes "X-Request-Id", codes "7" ∷ []) ∷ []) };
  };
  out = none;
  tasks = [];
  world = 0;
}

abbrev writer : Sent
writer = record { header = some []; status = 0; body = [] }

shadow_made : new_shadow_request visit ≡ ret shadow
unfolding new_shadow_request read_all
shadow_made = refl

chat_refused : cascade (codes "7") [] shadow (some (refusing ∷ [])) 0 ≡ (fail denied, marked)
unfolding cascade header_add clone_shadow_request apply_options new_shadow_request read_all put
    canonical get_or
chat_refused = refl

handle_web_socket-refused_example :
    handle_web_socket socket proxy address (codes "7") [] writer visit 0 ≡ (
      ret (
        record { errors = denied ∷ []; incoming = some 1; outgoing = some 2 },
        record address { path = codes "/chat" },
      ),
      2,
    )
handle_web_socket-refused_example =
    handle_web_socket-refused socket proxy address chat (codes "7") [] writer visit 0 1 2 shadow
      denied marked 1 2 shadow_made chat_refused refl refl refl
