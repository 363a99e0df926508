-- ===== src/Command.antt =====
-- cmd/main.go: what it hands to ParseV1, with NewProxy of internal/callers/proxies/common.go. Each
-- log.Fatalln, which ends the program, is a panic. Reading the file and listening are left out.
pub mod Built
pub mod Served
pub mod Main
use iceberg.Bootstrap.Options.{Visit, Handler, RegistrationOption, with_cors_disabled}
use iceberg.Bootstrap.Server.{handle_func}
use iceberg.Router.{RouteTable}
use iceberg.Parser.Runtime.{Runtime}
use iceberg.Parser.Conf.{ResourceV1}
use iceberg.Parser.Resources.{Registration, Session, parse_v1}
use iceberg.Nats.Conn.{Gateway}
use iceberg.Netio.Caller.{Caller}
use iceberg.Netio.Request.{RouteValues}
use iceberg.Proxies.Http.{Proxy, Answer, new_http_proxy, handle}
use iceberg.Proxies.WebSocket.{SocketLib, WebSocketProxy, Opened, new_web_socket, handle_web_socket}
use iceberg.Common.Url.{Url}
use iceberg.Common.{
  ℕ, zero, suc, ◌+◌, ◌-◌, ◌*◌, ◌^◌, ◌≤◌, ◌<◌, List, [], ◌∷◌, ◌++◌, map, Option, none, some, Bool,
  true, false, not, ◌&&◌, ◌||◌, ◌==◌, ltb, leb, if◌then◌else◌, ◌≡◌, ◌≢◌, refl, sym, ap, ◌∙◌, ◌⊎◌,
  ◌↔◌, inl, inr, Bool-cases, Option-cases, All, length, arith,
}
use iceberg.Common.Go.{Go, ret, fail, panic, map_error}
use iceberg.Common.Text.{Text, codes, text_beq, text_eq}
use iceberg.Common.Map.{Map}

-- What a handler did: it answered, or left two connections to its goroutines.
pub data Outcome (Ws : Type 0) : Type 0 where
  answered : Answer → Outcome Ws
  taken_over : Opened Ws → Outcome Ws

-- The Proxy that NewProxy fills.
abbrev pub proxy_at : Url → Proxy
proxy_at address = record { name = []; address = address; timeout = 0; await_list = [] }

-- A nil map of route values is empty to its readers.
abbrev pub values_of : Option (Map Text Text) → RouteValues
values_of none = []
values_of (some rv) = rv

abbrev pub given : {Ws : Type 0} → Go Text Answer → Go Text (Outcome Ws)
given (ret a) = ret (answered a)
given (fail e) = fail e
given panic = panic

abbrev pub taken : {Ws W : Type 0} → Go Text (Opened Ws × Url) × W → Go Text (Outcome Ws)
taken (ret (opened, address), w) = ret (taken_over opened)
taken (fail e, w) = fail e
taken (panic, w) = panic

module _ {W Conn Js Queue Ws : Type 0} (rt : Runtime W Conn Js Queue)
    (socket : SocketLib W Ws) where
  abbrev pub Table : Type 0
  Table = RouteTable (Handler W (Outcome Ws))

  -- Handle of an HttpProxy, as the function that main registers.
  unfoldable pub http_handler : List (Caller W) → Handler W (Outcome Ws)
  unfolding handle
  http_handler callers v rv =
      given (handle v.uuid v.turns callers (values_of rv) v.world v.writer v.request)

  -- Handle of a WebSocketProxy.
  unfoldable pub web_socket_handler : Url → WebSocketProxy W → Handler W (Outcome Ws)
  unfolding handle_web_socket
  web_socket_handler address p v rv =
      taken (handle_web_socket socket p address v.uuid v.turns v.writer v.request v.world)

  abbrev pub is_http : Url → Bool
  is_http address =
      text_beq address.scheme (codes "http") || text_beq address.scheme (codes "https")

  abbrev pub is_web_socket : Url → Bool
  is_web_socket address =
      text_beq address.scheme (codes "ws") || text_beq address.scheme (codes "wss")

  -- NewProxy, to the Handle of what it returns.
  unfoldable pub new_proxy : Url → List (Caller W) → Go Text (Handler W (Outcome Ws))
  unfolding new_http_proxy new_web_socket http_handler web_socket_handler
  new_proxy address callers =
      if is_http address
      then ret (http_handler (new_http_proxy rt.send rt.grow (proxy_at address) callers))
      else if is_web_socket address
      then ret (web_socket_handler address (new_web_socket (proxy_at address) callers))
      else fail (codes "protocol not supported")

  abbrev pub options_of : Bool → List (RegistrationOption W (Outcome Ws))
  options_of true = with_cors_disabled rt.digest answered ∷ []
  options_of false = []

  abbrev pub or_fatal : Go Text (Unit {0}) × Table → Go Text (Unit {0}) × Table
  or_fatal (ret _, table) = (ret tt, table)
  or_fatal (fail e, table) = (panic, table)
  or_fatal (panic, table) = (panic, table)

  abbrev pub handle_proxy :
      Registration rt → Go Text (Handler W (Outcome Ws)) → Table → Go Text (Unit {0}) × Table
  handle_proxy r (ret handler) table = or_fatal (
      handle_func rt.digest answered rt.parse_url r.pattern r.method handler (options_of r.cors)
        table)
  handle_proxy r (fail e) table = (panic, table)
  handle_proxy r panic table = (panic, table)

  -- The function that main hands to ParseV1.
  unfoldable pub register_resource : Registration rt → Table → Go Text (Unit {0}) × Table
  unfolding new_proxy handle_func
  register_resource r table = handle_proxy r (new_proxy r.backend r.callers) table
