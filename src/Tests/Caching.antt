-- ===== src/Tests/Caching.antt =====
-- A cache whose store is an association list and whose encoding keeps the body alone.
use iceberg.Common.Url.{Url}
use iceberg.Netio.Request.{RouteValues}
use iceberg.Netio.Caller.{Cloner}
use iceberg.Netio.Message.{Request, background, Body, new_request, read_all, reader}
use iceberg.Netio.Header.{Header}
use iceberg.Common.{[], ◌∷◌, none, some, refl, false, true, ◌≡◌, List, Option, ap}
use iceberg.Common.Go.{Go, ret, fail}
use iceberg.Common.Map.{Map, get, put, get-put_self}
use iceberg.Cache.Store.{marshal}
use iceberg.Netio.Message.{read_all}
use iceberg.Common.Text.{contains, replace_all, Text, codes, text_eq, to_lower}
use iceberg.Cache.Key.{parse_key, fill_route, fill_query}
use iceberg.Cache.Key.Method.{parse_key-contains}
use iceberg.Nats.Kv.{Kv, KvError, key_not_found}
use iceberg.Cache.Store.{Codec, get_call, set_call, cached}
use iceberg.Cache.Store.Hit.{CodecLaws, KvLaws, set_call-get_call}

abbrev pub no_query : Text → Map Text (List Text)
no_query s = []

abbrev pub same_text : Text → Text
same_text s = s

abbrev pub root : Url
root = record {
  scheme = codes "http";
  user = none;
  host = codes "a";
  path = codes "/";
  raw_query = [];
}

abbrev stored_request : Request
stored_request = record new_request {
  method = codes "GET";
  url = some root;
  header = none;
  body = reader (codes "hello");
}

abbrev template : Text
template = codes "K-{:Id}-{method}"

abbrev route_values : RouteValues
route_values = (codes "id", codes "7") ∷ []

key_seven :
    parse_key no_query same_text template stored_request route_values ≡ ret (codes "k-7-{method}")
unfolding parse_key contains replace_all
key_seven = refl

no_body :
    contains
      (fill_query (fill_route (to_lower template) route_values) (no_query []))
      (codes "{body}")
    ≡ false
unfolding contains replace_all fill_query fill_route
no_body = refl

parse_key-contains_example :
    parse_key no_query same_text template stored_request route_values
    ≡ ret (fill_query (fill_route (to_lower template) route_values) (no_query []))
parse_key-contains_example =
    parse_key-contains no_query same_text template stored_request route_values root refl no_body

-- An encoding of messages without a header.
abbrev plain_encode : Header → Text → Go Text Text
plain_encode none body = ret body
plain_encode (some h) body = fail (codes "unsupported")

abbrev plain : Codec
plain = record { encode = plain_encode; decode = λ content. ret (none, content) }

plain-CodecLaws : CodecLaws plain
plain-CodecLaws = record { decode-encode = decoded }
  where
    decoded :
        (h : Header) (body bytes : Text)
        → plain_encode h body ≡ ret bytes
        → ◌≡◌ {A = Go Text (Header × Text)} (ret (none, bytes)) (ret (h, body))
    decoded none body bytes e = cc
    decoded (some h) body bytes e = absurd cc

abbrev or_missing : Option Text → Go KvError Text
or_missing none = fail key_not_found
or_missing (some v) = ret v

abbrev pub listed_kv : Kv (Map Text Text)
listed_kv = record {
  get = λ key w. (or_missing (get key w), w);
  put = λ key value w. (ret tt, put key value w);
}

pub listed_kv-KvLaws : KvLaws listed_kv
listed_kv-KvLaws = record { get-put = λ key value w e. ap or_missing (get-put_self key value w) }

abbrev copies : Cloner
copies options = ret stored_request

set_seven :
    (set_call plain no_query same_text listed_kv template background route_values copies copies
      []).0
    ≡ ret (false, none)
unfolding set_call marshal read_all parse_key contains replace_all
set_seven = refl

set_call-get_call_example :
    (q : Request) × (read : Text × Body) × (copies [] ≡ ret q)
    × (read_all q.body ≡ ret read)
    × ((get_call plain no_query same_text listed_kv template background route_values copies copies
          (set_call plain no_query same_text listed_kv template background route_values copies
            copies []).1).0
        ≡ ret (true, some (cached plain (q.header, read.0))))
set_call-get_call_example =
    set_call-get_call plain plain-CodecLaws no_query same_text listed_kv listed_kv-KvLaws template
      background background route_values copies copies copies [] (false, none) set_seven
