-- ===== src/Command/Built.antt =====
-- The route table that a configuration makes.
use iceberg.Router.Table.{register_of_none, register_of_some}
use mathlib.Core.Path.{subst}
use iceberg.Command.{
  Outcome, answered, Table, http_handler, web_socket_handler, new_proxy, options_of, or_fatal,
  handle_proxy, register_resource, proxy_at, is_http, is_web_socket,
}
use iceberg.Bootstrap.Options.{Handler, Options, preflight, with_cors_disabled}
use iceberg.Bootstrap.Server.{exposing, register_all, handle_func, handle_at, methods_of}
use iceberg.Router.{register, parse_route}
use iceberg.Router.Table.{IsValid, empty_table, empty_table-IsValid, register-IsValid}
use iceberg.Parser.Runtime.{Runtime}
use iceberg.Parser.Conf.{ResourceV1}
use iceberg.Parser.Resources.{Registration, parse_v1}
use iceberg.Parser.Resources.Levelled.{IsLevelled}
use iceberg.Parser.Resources.Kept.{parse_v1-keeps}
use iceberg.Nats.Conn.{Gateway}
use iceberg.Netio.Caller.{Caller}
use iceberg.Proxies.Http.{new_http_proxy}
use iceberg.Proxies.WebSocket.{SocketLib, new_web_socket}
use iceberg.Common.Map.{get, All-put}
use iceberg.Common.Url.{Url}
use iceberg.Common.{
  List, [], ◌∷◌, Bool, true, false, if◌then◌else◌, ◌≡◌, refl, inl, inr, Option-cases, All, sym,
}
use iceberg.Common.Go.{Go, ret, fail, panic}
use iceberg.Common.Text.{Text, codes, text_eq}
use iceberg.Common.Map.{Map}

module _ {W Conn Js Queue Ws : Type 0} (rt : Runtime W Conn Js Queue)
    (socket : SocketLib W Ws) where
  -- The handlers that main registers.
  pub data IsBuilt (h : Handler W (Outcome Ws)) : Type 0 where
    for_options :
        (origins headers max_age methods : Text)
        → h ≡ preflight rt.digest answered origins headers max_age methods
        → IsBuilt h
    for_http :
        (opt : Options) (address : Url) (callers : List (Caller W))
        → is_http rt socket address ≡ true
        → All IsLevelled callers
        → h
          ≡ exposing rt.digest answered opt
              (http_handler rt socket (new_http_proxy rt.send rt.grow (proxy_at address) callers))
        → IsBuilt h
    for_web_socket :
        (opt : Options) (address : Url) (callers : List (Caller W))
        → is_web_socket rt socket address ≡ true
        → h
          ≡ exposing rt.digest answered opt
              (web_socket_handler rt socket address (new_web_socket (proxy_at address) callers))
        → IsBuilt h

  abbrev pub IsBuiltEntry : Text × Handler W (Outcome Ws) → Type 0
  IsBuiltEntry e = IsBuilt e.1

  abbrev pub AllBuilt : Table rt socket → Type 0
  AllBuilt table = All IsBuiltEntry table.configs

  pub record IsSound (table : Table rt socket) : Type 0 where
    pub valid : IsValid table
    pub built : AllBuilt table

  register-IsSound :
      (url : Url) (method : Text) (h : Handler W (Outcome Ws)) (table : Table rt socket)
      → IsBuilt h
      → IsSound table
      → IsSound (register rt.digest url method h table)
  unfolding register
  register-IsSound url method h table b s = record {
    valid = register-IsValid rt.digest url method h table s.valid;
    built = elim (Option-cases (get (parse_route rt.digest url method).hash table.configs)) [
      | inl fresh ↦
          subst AllBuilt (sym (register_of_none rt.digest url method h table fresh))
            (All-put IsBuiltEntry _ h table.configs s.built b)
      | inr (_, taken) ↦
          subst AllBuilt (sym (register_of_some rt.digest url method h table taken)) s.built
    ];
  }

  register_all-IsSound :
      (url : Url) (h : Handler W (Outcome Ws)) (methods : List Text) (table : Table rt socket)
      → IsBuilt h
      → IsSound table
      → IsSound (register_all rt.digest answered url h methods table)
  unfolding register_all
  register_all-IsSound url h [] table b s = s
  register_all-IsSound url h (method ∷ methods) table b s =
      register_all-IsSound url h methods _ b (register-IsSound url method h table b s)

  module _ (h : Handler W (Outcome Ws))
      (b : (opt : Options) → IsBuilt (exposing rt.digest answered opt h)) where
    options-IsSound :
        (method : Text) (cors : Bool) (found : Go Text Url) (table : Table rt socket)
        → IsSound table
        → IsSound
            (or_fatal rt socket
              (handle_at rt.digest answered method h (options_of rt socket cors) table found)).1
    unfolding with_cors_disabled
    options-IsSound method false (ret url) table s =
        register_all-IsSound url _ (methods_of method) table (b _) s
    options-IsSound method true (ret url) table s =
        register_all-IsSound url _ (methods_of method) _ (b _)
          (register-IsSound url (codes "OPTIONS") _ table (for_options _ _ _ _ refl) s)
    options-IsSound method cors (fail e) table s = s
    options-IsSound method cors panic table s = s

    handle_proxy-IsSound :
        (r : Registration rt) (table : Table rt socket)
        → IsSound table
        → IsSound (handle_proxy rt socket r (ret h) table).1
    unfolding handle_func
    handle_proxy-IsSound r table s =
        options-IsSound r.method r.cors (rt.parse_url r.pattern) table s

  register_resource-IsSound :
      (r : Registration rt) (table : Table rt socket)
      → All IsLevelled r.callers
      → IsSound table
      → IsSound (register_resource rt socket r table).1
  unfolding register_resource new_proxy
  register_resource-IsSound r table levelled s =
      by_scheme (is_http rt socket r.backend) refl (is_web_socket rt socket r.backend) refl
    where
      by_scheme :
          (http : Bool)
          → is_http rt socket r.backend ≡ http
          → (web_socket : Bool) → is_web_socket rt socket r.backend ≡ web_socket
          → IsSound
              (handle_proxy rt socket r
                (if http
                  then ret (
                      http_handler rt socket
                        (new_http_proxy rt.send rt.grow (proxy_at r.backend) r.callers))
                  else if web_socket
                  then ret (
                      web_socket_handler rt socket r.backend
                        (new_web_socket (proxy_at r.backend) r.callers))
                  else fail (codes "protocol not supported"))
                table).1
      by_scheme true at_http _ _ =
          handle_proxy-IsSound
            (http_handler rt socket (new_http_proxy rt.send rt.grow (proxy_at r.backend) r.callers))
            (λ opt. for_http opt r.backend r.callers at_http levelled refl) r table s
      by_scheme false _ true at_socket =
          handle_proxy-IsSound
            (web_socket_handler rt socket r.backend (new_web_socket (proxy_at r.backend) r.callers))
            (λ opt. for_web_socket opt r.backend r.callers at_socket refl) r table s
      by_scheme false _ false _ = s

  empty-IsSound : IsSound empty_table
  empty-IsSound = record { valid = empty_table-IsValid; built = tt }

  pub parse_v1-IsSound :
      (resources : Map Text ResourceV1) (g : Gateway W Conn)
      → IsSound (parse_v1 rt (register_resource rt socket) resources (g, empty_table)).1.1
  parse_v1-IsSound resources g =
      parse_v1-keeps rt (register_resource rt socket) IsSound (λ r t. register_resource-IsSound r t)
        resources g empty_table empty-IsSound
