-- ===== src/Tests/Configuring.antt =====
-- A configuration of one resource with one filter, and its program.
use iceberg.Parser.Conf.{FilterV1, Filters, end, filter, ResourceV1}
use iceberg.Parser.Runtime.{Runtime}
use iceberg.Parser.Filters.{parse_filters, filter_of}
use iceberg.Parser.Filters.Parsed.{Untimed, Configured, parse_filters-eq-ret}
use iceberg.Parser.Resources.{Registration, parse_v1}
use iceberg.Parser.Resources.Kept.{parse_v1-append}
use iceberg.Filters.Http.{http_filter}
use iceberg.Nats.Broker.{Broker, deadline}
use iceberg.Nats.Conn.{Gateway}
use iceberg.Nats.Kv.{nil_kv}
use iceberg.Netio.Caller.{Caller}
use iceberg.Netio.Message.{Response, reader}
use iceberg.Common.Url.{Url}
use iceberg.Common.{ℕ, ◌+◌, List, [], ◌∷◌, none, some, true, false, ◌≡◌, refl}
use iceberg.Common.Go.{Go, ret, fail}
use iceberg.Common.Text.{Text, codes, text_eq}

abbrev pub at_path : Text → Url
at_path path = record { scheme = codes "http"; user = none; host = []; path = path; raw_query = [] }

-- The empty text is the one that is no URL.
abbrev parse_url : Text → Go Text Url
parse_url [] = fail (codes "empty url")
parse_url (c ∷ s) = ret (at_path (c ∷ s))

abbrev silent : Broker ℕ Unit Unit Unit
silent = record {
  connect = λ url w. (ret tt, w);
  jet_stream = λ conn w. (ret tt, w);
  create_key_value = λ js bucket ttl w. (ret nil_kv, w);
  queue_new = λ conn names w. (ret tt, w);
  pull = λ queue channel w. (ret tt, w);
  push_msg = λ queue m w. (ret tt, w);
  new_resp_inbox = λ conn w. (codes "inbox", w);
  subscribe = λ conn inbox w. (ret tt, w);
  auto_unsubscribe = λ conn inbox w. (ret tt, w);
  publish_msg = λ conn m w. (ret tt, w);
  first_event = λ conn inbox ctx w. (deadline, w);
}

abbrev hello : Response
hello = record {
  status = codes "200 OK";
  status_code = 200;
  header = some [];
  trailer = some [];
  transfer_encoding = none;
  body = reader (codes "hello");
}

abbrev pub runtime : Runtime ℕ Unit Unit Unit
runtime = record {
  parse_url = parse_url;
  other_digit = λ r. false;
  atoi_error = λ s. s;
  getenv = λ s. s;
  grow = λ n. n;
  send = λ r w. (ret hello, w + 1);
  broker = silent;
  headers = record {
    import_from = λ h. ret h;
    export_to = λ h m. ret h;
    set_reflector = λ channel h. h;
    set_reply = λ reply h. h;
    get_reply = λ h. [];
    delete_reply = λ h. h;
  };
  codec = record { encode = λ h s. ret s; decode = λ s. ret (none, s) };
  query = λ s. [];
  digest = λ s. s;
  agent = λ conn. record {
    request_msg = λ subject policies text w. (fail [], w);
    marshal = λ input. ret [];
    unmarshal = λ text. fail [];
  };
}

abbrev pub gateway : Gateway ℕ Unit
gateway = record { filter_conns = []; opa_conns = []; kvs = []; world = 0 }

abbrev audit : FilterV1
audit = record {
  name = codes "audit";
  addr = codes "audit";
  level = codes "Request";
  timeout = [];
  on_error = [];
  async = false;
  await = [];
  exchange = record { headers = codes "*" ∷ []; body = true };
}

abbrev filters : Filters
filters = filter audit end end

abbrev parsed_filters : List (Caller ℕ)
parsed_filters = http_filter runtime.send (filter_of audit (at_path (codes "audit")) 8 0 []) ∷ []

filters_parsed : (parse_filters runtime filters true gateway).0 ≡ ret parsed_filters
unfolding parse_filters
filters_parsed = refl

parse_filters-eq-ret_example : Untimed filters × Configured true filters parsed_filters
parse_filters-eq-ret_example =
    parse_filters-eq-ret runtime filters true gateway parsed_filters filters_parsed

abbrev pub hello_resource : ResourceV1
hello_resource = record {
  frontend = codes "/hello";
  backend = codes "backend";
  method = codes "GET";
  use_of = record { cache = none; cors = none; opa = none };
  filters = filters;
}

abbrev bad_resource : ResourceV1
bad_resource = record hello_resource { backend = [] }

abbrev count : Registration runtime → ℕ → Go Text (Unit {0}) × ℕ
count r n = (ret tt, n + 1)

parse_v1-append_example :
    parse_v1 runtime count
      ((codes "a", hello_resource) ∷ (codes "b", bad_resource) ∷ (codes "c", hello_resource) ∷ [])
    ≡ parse_v1 runtime count ((codes "a", hello_resource) ∷ [])
parse_v1-append_example =
    parse_v1-append runtime count ((codes "a", hello_resource) ∷ [])
      ((codes "c", hello_resource) ∷ []) (codes "b") bad_resource (codes "empty url") refl
