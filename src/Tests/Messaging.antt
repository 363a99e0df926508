-- ===== src/Tests/Messaging.antt =====
-- A broker that knows one message, and the headers library as association lists.
use iceberg.Netio.Cascade.{cascade}
use iceberg.Netio.Request.{apply_options, clone_shadow_request, new_shadow_request}
use iceberg.Filters.Message.{msg_to_request}
use iceberg.Filters.Nats.Callbacks.{run_callbacks-http_filter}
use iceberg.Nats.Kv.{nil_kv}
use iceberg.Filters.Http.{http_filter}
use iceberg.Filters.Nats.Accepted.{Answered, core_call-eq-ret}
use iceberg.Filters.Filter.{Filter}
use iceberg.Common.Url.{Url}
use iceberg.Netio.Clone.{clone_header}
use iceberg.Filters.Nats.Inbox.{
  Inbox, GaveUp, Reach-outcome, next, here, publish, expire, give_up, arrive_late,
}
use iceberg.Filters.Nats.Reflected.{HeadersLaws, reflect-durable_message}
use iceberg.Filters.Nats.{
  HeadersLib, durable_message, reflect, handle_message, awaited, NatsBase, core_call, core_message,
  run_callbacks,
}
use iceberg.Netio.Caller.{CallResult, deadline_exceeded, Cloner}
use iceberg.Netio.Message.{read_all, Request, new_request, Response, background}
use iceberg.Common.Map.{get_or, put, Map}
use iceberg.Common.Decimal.{atoi_signed}
use iceberg.Netio.Header.{canonical, header_add, header_get}
use iceberg.Netio.Response.{add_all, new_shandow_response}
use iceberg.Nats.Host.{resolve_host-env, resolve_host}
use iceberg.Nats.Broker.{Msg, Broker, message}
use iceberg.Netio.Message.{reader}
use iceberg.Netio.Response.{ShadowResponse}
use iceberg.Filters.Message.{msg_to_response}
use iceberg.Filters.Message.Status.{msg_to_response_bounds}
use iceberg.Common.{
  [], ◌∷◌, ◌++◌, ◌<◌, ◌≤◌, ◌^◌, none, some, refl, ◌≡◌, Option, List, sym, true, ◌⊎◌, false, ℕ, ◌+◌,
  arith,
}
use iceberg.Common.Go.{ret, fail, Go, panic}
use iceberg.Common.Text.{Text, codes, text_eq}

abbrev env : Text → Text
env name = name ++ codes ".local"

nats_resolved : resolve_host env (codes "[[NATS]]") ≡ codes "NATS.local"
nats_resolved =
    resolve_host-env env (codes "NATS")
      ((refl, refl), ((refl, refl), ((refl, refl), ((refl, refl), tt))))

abbrev no_text : Text → Text
no_text s = s

abbrev answer : Msg
answer = record {
  subject = codes "inbox";
  reply = [];
  header = (codes "Status", codes "200" ∷ []) ∷ [];
  body = codes "hello";
}

abbrev read_answer : ShadowResponse
read_answer = record {
  response = record {
    status = [];
    status_code = 200;
    header = some ((codes "Status", codes "200" ∷ []) ∷ []);
    trailer = none;
    transfer_encoding = none;
    body = reader (codes "hello");
  };
  data_bytes = codes "hello";
}

answer_read : msg_to_response no_text answer ≡ ret read_answer
unfolding msg_to_response add_all header_add atoi_signed header_get get_or put canonical
    new_shandow_response read_all
answer_read = refl

msg_to_response_bounds_example :
    (100 ≤ read_answer.response.status_code)
    × (read_answer.response.status_code < 2 ^ 63)
    × (read_answer.response.body ≡ reader answer.body)
    × (read_answer.data_bytes ≡ answer.body)
msg_to_response_bounds_example = msg_to_response_bounds no_text answer read_answer answer_read

abbrev first_value : Map Text (List Text) → Text
first_value [] = []
first_value ((k, []) ∷ h) = []
first_value ((k, v ∷ vs) ∷ h) = v

abbrev rest_of : Map Text (List Text) → Map Text (List Text)
rest_of [] = []
rest_of (entry ∷ h) = h

abbrev plain_headers : HeadersLib
plain_headers = record {
  import_from = λ h. ret h;
  export_to = λ h m. ret h;
  set_reflector = λ channel h. h;
  set_reply = λ reply h. (codes "Reply", reply ∷ []) ∷ h;
  get_reply = λ h. first_value h;
  delete_reply = λ h. rest_of h;
}

plain_headers-HeadersLaws : HeadersLaws plain_headers
plain_headers-HeadersLaws = record {
  import-export = λ h m e. sym e;
  get_reply-set_reply = λ reply h. refl;
}

abbrev asked : Request
asked = record new_request { header = some []; body = reader (codes "question") }

abbrev sent : Msg
sent = record {
  subject = codes "service";
  reply = [];
  header = (codes "Reply", codes "inbox" ∷ []) ∷ [];
  body = codes "question";
}

sent_made : durable_message no_text plain_headers (codes "service") (codes "inbox") asked ≡ ret sent
unfolding read_all clone_header
sent_made = refl

abbrev reflected : Msg
reflected = record { subject = codes "inbox"; reply = []; header = []; body = codes "hello" }

answer_reflected :
    reflect no_text plain_headers (record sent { body = codes "hello" }) ≡ ret (some reflected)
unfolding reflect
answer_reflected = refl

reflect-durable_message_example :
    (m : Msg) × (◌≡◌ {A = Option Msg} (some reflected) (some m))
    × (m.subject ≡ codes "inbox")
    × (m.body ≡ codes "hello")
reflect-durable_message_example =
    reflect-durable_message no_text plain_headers plain_headers-HeadersLaws (codes "service")
      (codes "inbox") asked sent (record sent { body = codes "hello" }) (some reflected) sent_made
      refl refl answer_reflected

abbrev handled : Msg → Go Text ShadowResponse
handled = handle_message no_text plain_headers

-- Call gave up at the end of its context, and then the message came.
abbrev late_inbox : Inbox
late_inbox = record {
  remaining = 0;
  buffer = none;
  published = true;
  done = true;
  returned = some (fail deadline_exceeded);
  crashed = true;
}

Reach-outcome_example :
    ((r : CallResult)
      → late_inbox.returned ≡ some r
      → GaveUp r
        ⊎ ((late_inbox.remaining ≡ 0)
            × (late_inbox.crashed ≡ false)
            × ((m : Msg) × (r ≡ awaited (handled m)))))
    × (late_inbox.crashed ≡ true
        → (late_inbox.remaining ≡ 0)
          × (late_inbox.buffer ≡ none)
          × ((r : CallResult) × (late_inbox.returned ≡ some r) × GaveUp r))
Reach-outcome_example = Reach-outcome handled late_inbox (
    next
      (next (next (next here (publish refl refl refl)) (expire refl)) (give_up refl refl refl refl))
      (arrive_late answer (fail deadline_exceeded) (omega arith) refl refl))

-- The message comes before the end of the context; the world counts the publications.
abbrev broker : Broker ℕ Unit Unit Unit
broker = record {
  connect = λ url w. (ret tt, w);
  jet_stream = λ conn w. (ret tt, w);
  create_key_value = λ js bucket ttl w. (ret nil_kv, w);
  queue_new = λ conn names w. (ret tt, w);
  pull = λ queue channel w. (ret tt, w);
  push_msg = λ queue m w. (ret tt, w + 1);
  new_resp_inbox = λ conn w. (codes "inbox", w);
  subscribe = λ conn inbox w. (ret tt, w);
  auto_unsubscribe = λ conn inbox w. (ret tt, w);
  publish_msg = λ conn m w. (ret tt, w + 1);
  first_event = λ conn inbox ctx w. (message answer (codes "id") [], w);
}

abbrev address : Url
address = record {
  scheme = codes "nats";
  user = none;
  host = codes "a";
  path = codes "/service";
  raw_query = [];
}

abbrev filter : Filter ℕ
filter = record {
  name = [];
  address = address;
  level = 8;
  parallel = false;
  timeout = 0;
  callers = [];
  await_list = [];
  request_updaters = [];
  response_updaters = [];
}

abbrev base : NatsBase ℕ
base = record { filter = filter; host = codes "a"; subject = codes "service" }

abbrev copies : Cloner
copies options = ret asked

call_answered :
    (core_call no_text plain_headers broker base tt background [] copies copies 0).0
    ≡ ret (false, some read_answer.response)
unfolding core_call read_all msg_to_request add_all header_add new_shadow_request cascade
    clone_shadow_request apply_options msg_to_response atoi_signed header_get get_or put canonical
    new_shandow_response
call_answered = refl

core_call-eq-ret_example :
    (req : Request) × (m : Msg) × (◌≡◌ {A = Go Text (Unit {0})} (ret tt) (ret tt))
    × (copies [] ≡ ret req)
    × (core_message no_text plain_headers (codes "service") (codes "inbox") req ≡ ret m)
    × (◌≡◌ {A = Go Text (Unit {0})} (ret tt) (ret tt))
    × Answered no_text plain_headers
        (message answer (codes "id") [])
        (false, some read_answer.response)
core_call-eq-ret_example =
    core_call-eq-ret no_text plain_headers broker base tt background [] copies copies 0
      (false, some read_answer.response) call_answered

abbrev send_nothing : Request → ℕ → Go Text Response × ℕ
send_nothing r w = (fail [], w)

run_callbacks-http_filter_example :
    (run_callbacks no_text plain_headers
      (http_filter send_nothing filter ∷ [])
      answer
      (codes "id")
      []
      0).0
    ≡ panic
run_callbacks-http_filter_example =
    run_callbacks-http_filter no_text plain_headers send_nothing filter [] answer (codes "id") [] 0
      refl refl
