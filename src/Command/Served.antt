-- ===== src/Command/Served.antt =====
-- What a request gets from the program that a configuration makes.
use iceberg.Common.Go.{◌>>=◌}
use iceberg.Command.{
  Outcome, answered, given, http_handler, register_resource, web_socket_handler, is_http,
  is_web_socket, proxy_at,
}
use iceberg.Command.Built.{
  IsBuilt, for_options, for_http, for_web_socket, parse_v1-IsSound, IsBuiltEntry,
}
use iceberg.Bootstrap.Options.{Visit, Handler, Options, preflight, add_to}
use iceberg.Bootstrap.Server.{exposing, serve_http, serve_found, with_writer, run_handler}
use iceberg.Router.{Route, matched, find, serve}
use iceberg.Router.Table.{serve-get, empty_table, find-serve}
use iceberg.Parser.Runtime.{Runtime}
use iceberg.Parser.Conf.{ResourceV1}
use iceberg.Parser.Resources.{parse_v1}
use iceberg.Parser.Resources.Levelled.{IsLevelled}
use iceberg.Nats.Conn.{Gateway}
use iceberg.Netio.Caller.{Caller}
use iceberg.Netio.Cascade.{cascade}
use iceberg.Netio.Header.{Header, header_add}
use iceberg.Netio.Request.{ShadowRequest, new_shadow_request}
use iceberg.Netio.Response.{Sent}
use iceberg.Proxies.Http.{Proxy, Answer, written, new_http_proxy}
use iceberg.Proxies.Http.Handled.{handle-returns}
use iceberg.Proxies.WebSocket.{SocketLib, new_web_socket}
use iceberg.Common.Url.{Url}
use iceberg.Common.{
  List, some, Bool, true, false, not, ◌&&◌, ◌==◌, if◌then◌else◌, ◌≡◌, ◌≢◌, ◌↔◌, refl, sym, ap, ◌∙◌,
  All, length,
}
use iceberg.Common.Go.{Go, ret, fail, panic}
use iceberg.Common.Text.{Text, codes, text_eq}
use iceberg.Common.Map.{Map, All-get}

module _ {W Conn Js Queue Ws : Type 0} (rt : Runtime W Conn Js Queue)
    (socket : SocketLib W Ws) where
  -- The cascade of a request, whose body can be read, does not panic.
  abbrev pub Calm : Visit W → Map Text Text → Proxy → List (Caller W) → Type 0
  Calm v rv p callers =
      (s : ShadowRequest)
      → new_shadow_request v.request ≡ ret s
      → (cascade v.uuid v.turns (record s { route_values = rv })
          (some (new_http_proxy rt.send rt.grow p callers)) v.world).0
        ≢ panic

  -- Which handler it is, and what it does of a visit: that of a preflight answers with 200, that of an
  -- HTTP proxy answers exactly where its cascade does not panic; or it is that of a WebSocket proxy.
  pub data Behaves (v : Visit W) (rv : Map Text Text) (h : Handler W (Outcome Ws)) : Type 0 where
    preflighted :
        (origins headers max_age methods : Text) (w : Sent)
        → h ≡ preflight rt.digest answered origins headers max_age methods
        → h v (some rv) ≡ ret (answered (written w))
        → w.status ≡ 200
        → Behaves v rv h
    proxied :
        (opt : Options) (address : Url) (callers : List (Caller W))
        → is_http rt socket address ≡ true
        → h
          ≡ exposing rt.digest answered opt
              (http_handler rt socket (new_http_proxy rt.send rt.grow (proxy_at address) callers))
        → ((a : Answer) × (h v (some rv) ≡ ret (answered a))) ↔ Calm v rv (proxy_at address) callers
        → Behaves v rv h
    upgraded :
        (opt : Options) (address : Url) (callers : List (Caller W))
        → is_web_socket rt socket address ≡ true
        → h
          ≡ exposing rt.digest answered opt
              (web_socket_handler rt socket address (new_web_socket (proxy_at address) callers))
        → Behaves v rv h

  preflight-200 :
      (origins headers max_age methods : Text) (v : Visit W) (rv : Map Text Text)
      (h : Map Text (List Text))
      → v.writer.header ≡ some h
      → (w : Sent) × (preflight {A = Outcome Ws} rt.digest answered origins headers max_age methods
            v
            (some rv)
          ≡ ret (answered (written w)))
        × (w.status ≡ 200)
  unfolding preflight header_add
  preflight-200 origins headers max_age methods v rv h e = (
    _,
    ap
        (λ hd.
          preflight {A = Outcome Ws} rt.digest answered origins headers max_age methods
            (record v { writer = record (v.writer) { header = hd } }) (some rv))
        e,
    refl,
  )

  given-eq-ret :
      (r : Go Text Answer) (a : Answer) → given {Ws = Ws} r ≡ ret (answered a) → r ≡ ret a
  given-eq-ret (ret b) a e = cc
  given-eq-ret (fail x) a e = absurd (cc)
  given-eq-ret panic a e = absurd (cc)

  http_handler-answers :
      (p : Proxy) (callers : List (Caller W)) (v : Visit W) (rv : Map Text Text)
      (h : Map Text (List Text))
      → All IsLevelled callers
      → v.writer.header ≡ some h
      → ((a : Answer) × (http_handler rt socket
              (new_http_proxy rt.send rt.grow p callers)
              v
              (some rv)
            ≡ ret (answered a)))
        ↔ Calm v rv p callers
  unfolding http_handler
  http_handler-answers p callers v rv h levelled e =
      let returns =
        handle-returns rt.send rt.grow p callers v.uuid v.turns rv v.world v.writer h v.request
          levelled e in
      (
        λ (a, same). returns.0 (a, given-eq-ret _ a same),
        λ calm. let (a, same) = returns.1 calm in (a, ap given same),
      )

  -- The handler under the options runs on a writer that has a header, where the first one has.
  exposing-writer :
      (opt : Options) (handler : Handler W (Outcome Ws)) (v : Visit W) (rv : Map Text Text)
      (h : Map Text (List Text))
      → v.writer.header ≡ some h
      → (w : Sent) × (h' : Map Text (List Text)) × (w.header ≡ some h')
        × (exposing rt.digest answered opt handler v (some rv)
            ≡ handler (record v { writer = w }) (some rv))
  unfolding exposing header_add
  exposing-writer opt handler v rv h e =
      by_option (opt.cors && not (length opt.expose_headers == 0))
    where
      expose_to : Header → Go Text (Outcome Ws)
      expose_to hd =
          add_to (codes "Access-Control-Expose-Headers") opt.expose_headers
            (record (v.writer) { header = hd })
          >>= with_writer rt.digest answered handler v (some rv)

      by_option :
          (exposed : Bool)
          → (w : Sent) × (h' : Map Text (List Text)) × (w.header ≡ some h')
            × ((if exposed then expose_to v.writer.header else handler v (some rv))
                ≡ handler (record v { writer = w }) (some rv))
      by_option true = (_, _, refl, ap expose_to e)
      by_option false = (v.writer, h, e, refl)

  IsBuilt-Behaves :
      (handler : Handler W (Outcome Ws)) (v : Visit W) (rv : Map Text Text)
      (h : Map Text (List Text))
      → v.writer.header ≡ some h
      → IsBuilt rt socket handler
      → Behaves v rv handler
  IsBuilt-Behaves handler v rv h e (for_options origins headers max_age methods same) =
      let (w, answers, ok) = preflight-200 origins headers max_age methods v rv h e in
      preflighted origins headers max_age methods w same (ap (λ f. f v (some rv)) same ∙ answers) ok
  IsBuilt-Behaves handler v rv h e (for_http opt address callers at_http levelled same) =
      let proxied_by =
        http_handler rt socket (new_http_proxy rt.send rt.grow (proxy_at address) callers) in
      let (w, h', e', at) = exposing-writer opt proxied_by v rv h e in
      let answers =
        http_handler-answers (proxy_at address) callers (record v { writer = w }) rv h' levelled
          e' in
      let whole = ap (λ f. f v (some rv)) same ∙ at in
      proxied opt address callers at_http same (
        λ (a, ran). answers.0 (a, sym whole ∙ ran),
        λ calm. let (a, ran) = answers.1 calm in (a, whole ∙ ran),
      )
  IsBuilt-Behaves handler v rv h e (for_web_socket opt address callers at_socket same) =
      upgraded opt address callers at_socket same

  -- In the route table that ParseV1 leaves behind with main's function, however ParseV1 ends, a
  -- request that Find matches reaches a handler, and route values that are not nil. With a writer
  -- that has a header, this handler is that of a preflight, and answers with status 200, or that of
  -- an HTTP proxy at an address of scheme http or https, and answers exactly where its cascade does
  -- not panic, or that of a WebSocket proxy at an address of scheme ws or wss.
  pub parse_v1-serve_http :
      (resources : Map Text ResourceV1) (g : Gateway W Conn) (url : Url) (v : Visit W)
      (lrt prt : Route) (h : Map Text (List Text))
      → v.writer.header ≡ some h
      → let table = (parse_v1 rt (register_resource rt socket) resources (g, empty_table)).1.1 in
        find rt.digest table url v.request.method ≡ matched lrt prt
        → (handler : Handler W (Outcome Ws)) × (values : Map Text Text) × (serve_http rt.digest
              answered table url v
            ≡ handler v (some values))
          × Behaves v values handler
  unfolding serve_http serve
  parse_v1-serve_http resources g url v lrt prt h e found =
      let table = (parse_v1 rt (register_resource rt socket) resources (g, empty_table)).1.1 in
      let sound = parse_v1-IsSound rt socket resources g in
      let (handler, values, served) =
        find-serve rt.digest url v.request.method table lrt prt sound.valid found in
      let stored = serve-get table lrt prt handler values served in
      (
        handler,
        values,
        ap (λ f. serve_found rt.digest answered table f v) found
            ∙ ap (λ s. run_handler rt.digest answered s v) served,
        IsBuilt-Behaves handler v values h e
            (All-get (IsBuiltEntry rt socket) lrt.hash table.configs handler sound.built stored),
      )
