-- ===== src/Proxies/Http/Relayed.antt =====
-- What an HTTP proxy without other callers answers.
use iceberg.Common.{List, [], ◌∷◌, ◌++◌, Option, none, some, true, false, ltb, ◌≡◌, ◌⊎◌}
use iceberg.Common.Go.{Go, ret, fail}
use iceberg.Common.Map.{Map, put, get_or}
use iceberg.Common.Text.{Text, codes, text_eq}
use iceberg.Common.Url.{Url}
use iceberg.Netio.Caller.{CallResult, request_id}
use iceberg.Netio.Cascade.InOrder.Spec.{one_by_one, taken}
use iceberg.Netio.Message.{Request, Response, HttpError, new_error, no_transport, reader}
use iceberg.Netio.Request.{ShadowRequest, RouteValues, fill_path}
use iceberg.Netio.Response.{ShadowResponse, Sent, add_all, entries, header_del}
use iceberg.Proxies.Http.{Proxy, Answer, refused, written, proxy_context, http_caller}
use iceberg.Proxies.Http.Cached.{copy_of}
use iceberg.Proxies.Http.Recalled.Rounds.{unawaiting}

-- What the HTTP client makes of a request: an error, or a response with a header that is not nil and
-- a body that can be read.
pub data Reply : Type 0 where
  unreachable : Text → Reply
  came : Response → Map Text (List Text) → Text → Reply

abbrev pub reply_of : Reply → Go Text Response
reply_of (unreachable e) = fail e
reply_of (came res fields content) =
    ret (record res { header = some fields; body = reader content })

-- Header.Add of the identifier.
abbrev pub with_id : Text → Map Text (List Text) → Map Text (List Text)
with_id id fields = put request_id (get_or request_id fields [] ++ id ∷ []) fields

-- The request that the proxy sends for a request with this URL, header and body: to the address of
-- the backend, with the identifier of the cascade, and without a method.
abbrev pub outgoing :
    Proxy → Request → Url → Map Text (List Text) → Text → RouteValues → Text → Request
outgoing p r u fields body rv uuid = record r {
  method = [];
  url = some (record u {
    host = p.address.host;
    scheme = p.address.scheme;
    path = fill_path p.address.path rv;
  });
  header = some (with_id uuid fields);
  host = p.address.host;
  body = reader body;
  context = proxy_context p;
  transport = no_transport;
}

-- What the client is told of the backend's reply to a request with this identifier. An error is 502; a
-- status above 399 is an error with that status. Any other response is written: its header, without
-- Content-Length and with the identifier added, and its body; the status of the writer stays.
abbrev pub Relays : Text → Sent → Reply → Answer → Type 0
Relays id w (unreachable e) a = a ≡ refused (new_error e 502)
Relays id w (came res fields content) a =
    ((ltb 399 res.status_code ≡ true) × (a ≡ refused (new_error res.status res.status_code)))
    ⊎ ((ltb 399 res.status_code ≡ false)
        × ((w' : Sent) × (a ≡ written w')
            × (w'.status ≡ w.status)
            × (w'.body ≡ w.body ++ content)
            × (add_all w.header
                  (entries (header_del (some (with_id id fields)) (codes "Content-Length")))
                ≡ ret w'.header)))

module _ {W : Type 0} (send : Request → W → Go Text Response × W) (p : Proxy) where
  abbrev alone : ShadowRequest → CallResult × W → Go HttpError (Option ShadowResponse)
  alone marked (r, world) =
      (taken (http_caller send (unawaiting p)) (one_by_one (copy_of marked) []) r marked none
        world).0
