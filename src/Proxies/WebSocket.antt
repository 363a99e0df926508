-- ===== src/Proxies/WebSocket.antt =====
-- WebSocketProxy of internal/callers/proxies/ws.go. The library gorilla/websocket is the parameter
-- `socket`; a connection is a handle of a type `Ws`.
pub mod Pump
pub mod BackPump
pub mod Refused
pub mod Sessions
pub mod Wrapped
pub mod Spared
pub mod Unchanged
pub mod Delivered
use iceberg.Proxies.WebSocket.Wrapped.{wrap_updaters}
use iceberg.Netio.Caller.{Caller, Turn, State}
use iceberg.Netio.Cascade.{cascade}
use iceberg.Netio.Exec.{Exec, ◌>>=◌, lift}
use iceberg.Netio.Message.{Request, HttpError, new_error, new_request, reader, read_all, Body}
use iceberg.Netio.Request.{ShadowRequest, new_shadow_request}
use iceberg.Netio.Response.{ShadowResponse, Sent}
use iceberg.Netio.Sort.{level_connect, level_request, level_response}
use iceberg.Proxies.Http.{Proxy}
use iceberg.Common.Url.{Url}
use iceberg.Common.{List, [], ◌∷◌, ◌++◌, Option, none, some, ◌==◌, if◌then◌else◌}
use iceberg.Common.Go.{Go, ret, fail, panic}
use iceberg.Common.Text.{Text, codes, text_eq}

-- Upgrade and Dial.
pub record SocketLib (W Ws : Type 0) : Type 0 where
  pub upgrade : Sent → Request → W → Go Text Ws × W
  pub dial : Url → W → Go Text Ws × W

pub record WebSocketProxy (W : Type 0) : Type 0 where
  pub proxy : Proxy
  pub connect_callers : List (Caller W)
  pub request_callers : List (Caller W)
  pub response_callers : List (Caller W)

-- What Handle leaves: the errors that it wrote, in order, and the two connections that its
-- goroutines read; a connection that failed is nil.
pub record Opened (Ws : Type 0) : Type 0 where
  pub errors : List HttpError
  pub incoming : Option Ws
  pub outgoing : Option Ws

-- http.Error, where an error came.
abbrev pub written_of : Go HttpError (Option ShadowResponse) → Go Text (List HttpError)
written_of (ret _) = ret []
written_of (fail e) = ret (e ∷ [])
written_of panic = panic

abbrev pub connection_of : {Ws : Type 0} → Go Text Ws → Go Text (Option Ws × List HttpError)
connection_of (ret ws) = ret (some ws, [])
connection_of (fail e) = ret (none, new_error e 500 ∷ [])
connection_of panic = panic

-- The address with the path of the request. A request without a URL panics.
abbrev pub addressed : Url → Option Url → Go Text Url
addressed address none = panic
addressed address (some url) = ret (record address { path = url.path })

abbrev pub with_request : Request → Go Text (List HttpError) → Go Text (Request × List HttpError)
with_request r (ret errors) = ret (r, errors)
with_request r (fail e) = fail e
with_request r panic = panic

-- A nil request panics in Cascade, behind the error that was written.
abbrev pub nil_request : Go Text ShadowRequest → Go Text ShadowRequest
nil_request (ret s) = ret s
nil_request (fail e) = panic
nil_request panic = panic

-- http.NewRequest("*", "", message), which gives no error.
abbrev pub message_request : Text → Request
message_request message = record new_request {
  method = codes "*";
  url = some (record { scheme = []; user = none; host = []; path = []; raw_query = [] });
  header = some [];
  body = reader message;
}

abbrev pub read_body : Go Text (Text × Body) → Go Text (Option Text)
read_body (ret (message, _)) = ret (some message)
read_body (fail e) = ret none
read_body panic = panic

module _ {W : Type 0} where
  -- What the two calls of Override leave of the caller. (Those whose methods do nothing have neither
  -- kind of updaters.)
  abbrev pub overridden : Caller W → Caller W
  overridden c = record c {
    request_updaters = c.request_updaters ++ wrap_updaters c.response_updaters;
    response_updaters = [];
  }

  -- The proxy behind one more caller.
  abbrev pub add_caller : Caller W → WebSocketProxy W → WebSocketProxy W
  add_caller c p =
      if c.level == level_connect
      then record p { connect_callers = p.connect_callers ++ c ∷ [] }
      else if c.level == level_request
      then record p { request_callers = p.request_callers ++ c ∷ [] }
      else if c.level == level_response
      then record p { response_callers = p.response_callers ++ overridden c ∷ [] }
      else p

  abbrev pub add_callers : List (Caller W) → WebSocketProxy W → WebSocketProxy W
  add_callers [] p = p
  add_callers (c ∷ cs) p = add_callers cs (add_caller c p)

  -- NewWebSocket
  unfoldable pub new_web_socket : Proxy → List (Caller W) → WebSocketProxy W
  unfolding wrap_updaters
  new_web_socket p callers =
      add_callers callers
        (record { proxy = p; connect_callers = []; request_callers = []; response_callers = [] })

  -- What Cascade makes of the request, which is the one that Handle was given, with what is written.
  abbrev pub connect_cascade :
      Text → List Turn → List (Caller W) → ShadowRequest → Exec W Text (Request × List HttpError)
  connect_cascade uuid turns callers s w =
      let (out, final) = cascade uuid turns s (some callers) w in
      (with_request final.request.request (written_of out), final.world)

  module _ {Ws : Type 0} (socket : SocketLib W Ws) where
    abbrev pub open_socket : (W → Go Text Ws × W) → Exec W Text (Option Ws × List HttpError)
    open_socket make w = let (r, w') = make w in (connection_of r, w')

    -- WebSocketProxy.Handle up to its goroutines, with the address that it leaves in the proxy. The
    -- address is the shared one, whose path it changes.
    unfoldable pub handle_web_socket :
        WebSocketProxy W → Url → Text → List Turn → Sent → Request → Exec W Text (Opened Ws × Url)
    handle_web_socket p address uuid turns writer r = do
      s ← lift (nil_request (new_shadow_request r))
      (q, refusals) ← connect_cascade uuid turns p.connect_callers s
      (incoming, failed) ← open_socket (socket.upgrade writer q)
      target ← lift (addressed address q.url)
      (outgoing, undialled) ← open_socket (socket.dial target)
      lift (
          ret (
            record {
              errors = refusals ++ failed ++ undialled;
              incoming = incoming;
              outgoing = outgoing;
            },
            target,
          ))

  -- The message that goes on: the body of the request behind the cascade. An error drops it.
  abbrev pub carried_on : Go HttpError (Option ShadowResponse) × State W → Go Text (Option Text) × W
  carried_on (ret _, final) = (read_body (read_all final.request.request.body), final.world)
  carried_on (fail _, final) = (ret none, final.world)
  carried_on (panic, final) = (panic, final.world)

  abbrev pub relay_request :
      Text → List Turn → List (Caller W) → W → Go Text ShadowRequest → Go Text (Option Text) × W
  relay_request uuid turns callers w (ret s) = carried_on (cascade uuid turns s (some callers) w)
  relay_request uuid turns callers w (fail e) = (ret none, w)
  relay_request uuid turns callers w panic = (panic, w)

  -- What both goroutines do with a message that was read, with the callers of their direction.
  unfoldable pub relay : Text → List Turn → List (Caller W) → Text → W → Go Text (Option Text) × W
  relay uuid turns callers message w =
      relay_request uuid turns callers w (new_shadow_request (message_request message))
