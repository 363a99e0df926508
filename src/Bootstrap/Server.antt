-- ===== src/Bootstrap/Server.antt =====
-- internal/bootstrap/server/server.go: HandleFunc and the handler of the mux. net/url is the parameter
-- `parse_url`. Listening is left out.
pub mod Methods
use iceberg.Netio.Response.{Sent}
use iceberg.Router.{RouteTable, Found, failed, matched, register, find, serve, error_text}
use iceberg.Bootstrap.Options.{Visit, Handler, Options, no_options, RegistrationOption, add_to}
use iceberg.Netio.Message.{new_error}
use iceberg.Common.Go.{◌>>=◌}
use iceberg.Common.Url.{Url}
use iceberg.Proxies.Http.{Answer, refused}
use iceberg.Common.{List, [], ◌∷◌, Option, none, some, not, ◌&&◌, ◌==◌, if◌then◌else◌, length}
use iceberg.Common.Go.{Go, ret, fail, panic}
use iceberg.Common.Text.{Text, codes, text_beq, text_eq}
use iceberg.Common.Map.{Map}

abbrev pub any_method : List Text
any_method = codes "GET" ∷ codes "HEAD" ∷ codes "POST" ∷ codes "PUT" ∷ codes "DELETE" ∷ []

-- The methods that a method of a configuration stands for.
abbrev pub methods_of : Text → List Text
methods_of method =
    if length method == 0
    then any_method
    else if text_beq method (codes "*")
    then any_method
    else method ∷ []

module _ {W A : Type 0} (digest : Text → Text) (answered : Answer → A) where
  -- The handler that the mux calls. A nil handler panics.
  abbrev pub run_handler : Option (Handler W A × Option (Map Text Text)) → Visit W → Go Text A
  run_handler none v = panic
  run_handler (some (handler, rv)) v = handler v rv

  abbrev pub serve_found : RouteTable (Handler W A) → Found → Visit W → Go Text A
  serve_found rt (failed e) v = ret (answered (refused (new_error (error_text e) 500)))
  serve_found rt (matched lrt prt) v = run_handler (serve rt (matched lrt prt)) v

  -- The handler of "/", on the URL of the request.
  unfoldable pub serve_http : RouteTable (Handler W A) → Url → Visit W → Go Text A
  unfolding find
  serve_http rt url v = serve_found rt (find digest rt url v.request.method) v

  abbrev pub with_writer : Handler W A → Visit W → Option (Map Text Text) → Sent → Go Text A
  with_writer handler v rv w = handler (record v { writer = w }) rv

  -- handler2
  unfoldable pub exposing : Options → Handler W A → Handler W A
  exposing opt handler v rv =
      if opt.cors && not (length opt.expose_headers == 0)
      then add_to (codes "Access-Control-Expose-Headers") opt.expose_headers v.writer
        >>= with_writer handler v rv
      else handler v rv

  abbrev run_options :
      List (RegistrationOption W A)
      → Url
      → Options × RouteTable (Handler W A)
      → Options × RouteTable (Handler W A)
  run_options [] url state = state
  run_options (option ∷ options) url state = run_options options url (option url state)

  unfoldable pub register_all :
      Url → Handler W A → List Text → RouteTable (Handler W A) → RouteTable (Handler W A)
  unfolding register
  register_all url handler [] rt = rt
  register_all url handler (method ∷ methods) rt =
      register_all url handler methods (register digest url method handler rt)

  abbrev pub register_with_options :
      Text → Handler W A → Url → Options × RouteTable (Handler W A) → RouteTable (Handler W A)
  register_with_options method handler url (opt, rt) =
      register_all url (exposing opt handler) (methods_of method) rt

  abbrev pub handle_at :
      Text
      → Handler W A
      → List (RegistrationOption W A)
      → RouteTable (Handler W A)
      → Go Text Url
      → Go Text (Unit {0}) × RouteTable (Handler W A)
  handle_at method handler options rt (ret url) =
      (ret tt, register_with_options method handler url (run_options options url (no_options, rt)))
  handle_at method handler options rt (fail e) = (fail e, rt)
  handle_at method handler options rt panic = (panic, rt)

  -- HandleFunc
  unfoldable pub handle_func :
      (Text → Go Text Url)
      → Text
      → Text
      → Handler W A
      → List (RegistrationOption W A)
      → RouteTable (Handler W A)
      → Go Text (Unit {0}) × RouteTable (Handler W A)
  unfolding exposing register_all
  handle_func parse_url pattern method handler options rt =
      handle_at method handler options rt (parse_url pattern)
