-- ===== src/Proxies/WebSocket/Unchanged.antt =====
-- What the response callers of a WebSocket proxy can do to the messages of the backend.
use mathlib.Core.Path.{subst}
use iceberg.Netio.Cascade.Fed.{FeedsBoth, cascade-keeps}
use iceberg.Netio.Caller.{Caller, Turn, State, carried, request_id}
use iceberg.Netio.Message.{HttpError, read_all}
use iceberg.Netio.Request.{ShadowRequest, new_shadow_request}
use iceberg.Netio.Response.{ShadowResponse}
use iceberg.Netio.Sort.{level_response, level_connect, level_request}
use iceberg.Proxies.Http.{Proxy}
use iceberg.Proxies.WebSocket.{
  WebSocketProxy, new_web_socket, add_caller, add_callers, overridden, relay, relay_request,
  carried_on, message_request, read_body,
}
use iceberg.Proxies.WebSocket.Wrapped.{wrap_updaters}
use iceberg.Proxies.WebSocket.Spared.{wrap_updaters-Spares, message-Bears}
use iceberg.Netio.Spared.{Spares, Bears, req_update_header-Spares, Spares-Feeds}
use iceberg.Common.{
  if◌then◌else◌, List, [], ◌∷◌, ◌++◌, Option, some, Bool, true, false, ◌≡◌, refl, All, All-append,
  sym, ap, ◌∙◌, All-imp, some_inj, ◌==◌, arith,
}
use iceberg.Common.Go.{Go, ret, fail, panic, ret_inj}
use iceberg.Common.Text.{Text, text_eq}

module _ {W : Type 0} where
  -- A caller at the response level has no request updaters of its own.
  abbrev pub Plain : Caller W → Type 0
  Plain c = c.level ≡ level_response → c.request_updaters ≡ []

  -- What NewWebSocket appends to the response callers.
  abbrev Sparing : Caller W → Type 0
  Sparing c = All Spares c.request_updaters

  Sparing-FeedsBoth : (message : Text) (c : Caller W) → Sparing c → FeedsBoth (Bears message) c
  Sparing-FeedsBoth message c all = (
    Spares-Feeds message c.request_updaters all,
    Spares-Feeds message (carried c) (
        All-append Spares c.request_updaters _ all
          (req_update_header-Spares (request_id ∷ []), tt)),
  )

  overridden-Sparing : (c : Caller W) → c.request_updaters ≡ [] → Sparing (overridden c)
  overridden-Sparing c none_own =
      subst (λ us. All Spares (us ++ wrap_updaters c.response_updaters)) (sym none_own)
        (wrap_updaters-Spares c.response_updaters)

  AllSparing : WebSocketProxy W → Type 0
  AllSparing p = All Sparing p.response_callers

  add_caller-AllSparing :
      (c : Caller W) (p : WebSocketProxy W) → Plain c → AllSparing p → AllSparing (add_caller c p)
  unfolding AllSparing
  add_caller-AllSparing c p plain all =
      by_level (c.level == level_connect) (c.level == level_request) (c.level == level_response)
        (λ e. plain (ground arith))
    where
      by_level :
          (connect request response : Bool)
          → (response ≡ true → c.request_updaters ≡ [])
          → AllSparing (
              if connect
              then record p { connect_callers = p.connect_callers ++ c ∷ [] }
              else if request
              then record p { request_callers = p.request_callers ++ c ∷ [] }
              else if response
              then record p { response_callers = p.response_callers ++ overridden c ∷ [] }
              else p)
      by_level true _ _ own = all
      by_level false true _ own = all
      by_level false false true own =
          All-append Sparing p.response_callers _ all (overridden-Sparing c (own refl), tt)
      by_level false false false own = all

  add_callers-AllSparing :
      (cs : List (Caller W)) (p : WebSocketProxy W)
      → All Plain cs
      → AllSparing p
      → AllSparing (add_callers cs p)
  add_callers-AllSparing [] p plain all = all
  add_callers-AllSparing (c ∷ cs) p (plain, rest) all =
      add_callers-AllSparing cs (add_caller c p) rest (add_caller-AllSparing c p plain all)

  new_web_socket-AllSparing :
      (p : Proxy) (cs : List (Caller W)) → All Plain cs → AllSparing (new_web_socket p cs)
  unfolding new_web_socket AllSparing
  new_web_socket-AllSparing p cs plain = add_callers-AllSparing cs _ plain tt

  bearing :
      (message x : Text) (out : Go HttpError (Option ShadowResponse)) (final : State W)
      → Bears message final.request
      → (carried_on (out, final)).0 ≡ ret (some x)
      → x ≡ message
  unfolding read_all
  bearing message x (ret _) final (same, body) e =
      some_inj (ret_inj (sym e ∙ ap (λ b. read_body (read_all b)) body))
  bearing message x (fail y) final b e = absurd (cc)
  bearing message x panic final b e = absurd (cc)

  relayed :
      (uuid : Text) (turns : List Turn) (cs : List (Caller W)) (message x : Text) (w : W)
      (made : Go Text ShadowRequest)
      → All Sparing cs
      → ((s : ShadowRequest) → made ≡ ret s → Bears message s)
      → (relay_request uuid turns cs w made).0 ≡ ret (some x)
      → x ≡ message
  relayed uuid turns cs message x w (ret s) all bears e =
      bearing message x _ _
        (cascade-keeps (Bears message) s (λ h. bears s refl) uuid turns cs w
          (All-imp cs (Sparing-FeedsBoth message) all))
        e
  relayed uuid turns cs message x w (fail y) all bears e = absurd (cc)
  relayed uuid turns cs message x w panic all bears e = absurd (cc)

  -- A message of the backend that the cascade of the response callers lets pass reaches the client
  -- as it was, whatever the response updaters of these callers, where those at the response level have
  -- no request updaters of their own.
  pub relay-new_web_socket :
      (p : Proxy) (callers : List (Caller W)) (uuid : Text) (turns : List Turn) (message x : Text)
      (w : W)
      → All Plain callers
      → (relay uuid turns (new_web_socket p callers).response_callers message w).0 ≡ ret (some x)
      → x ≡ message
  unfolding relay AllSparing
  relay-new_web_socket p callers uuid turns message x w plain e =
      relayed uuid turns _ message x w (new_shadow_request (message_request message))
        (new_web_socket-AllSparing p callers plain) (message-Bears message) e
