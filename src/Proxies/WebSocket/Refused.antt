-- ===== src/Proxies/WebSocket/Refused.antt =====
-- Handle of a WebSocket proxy where the cascade of the connect callers fails.
use iceberg.Netio.Exec.{exec_ret, lift}
use iceberg.Proxies.WebSocket.{
  SocketLib, WebSocketProxy, handle_web_socket, nil_request, connect_cascade, with_request,
  written_of, open_socket, connection_of, addressed,
}
use iceberg.Netio.Caller.{Turn, State}
use iceberg.Netio.Cascade.{cascade}
use iceberg.Netio.Message.{Request, HttpError}
use iceberg.Netio.Request.{ShadowRequest, new_shadow_request}
use iceberg.Netio.Response.{Sent, ShadowResponse}
use iceberg.Common.Url.{Url}
use iceberg.Common.{List, [], ◌∷◌, some, ◌≡◌, ap, ◌∙◌, Option}
use iceberg.Common.Go.{ret, fail, Go}
use iceberg.Common.Text.{Text, text_eq}

module _ {W Ws : Type 0} (socket : SocketLib W Ws) where
  -- A request that the connect callers refuse is upgraded, and its backend dialled, all the same,
  -- where the client and the backend let that happen: Handle writes the refusal, and goes on to its
  -- goroutines with both connections.
  pub handle_web_socket-refused :
      (p : WebSocketProxy W) (address url : Url) (uuid : Text) (turns : List Turn) (writer : Sent)
      (r : Request) (w w₁ w₂ : W) (s : ShadowRequest) (e : HttpError) (final : State W)
      (incoming outgoing : Ws)
      → new_shadow_request r ≡ ret s
      → cascade uuid turns s (some p.connect_callers) w ≡ (fail e, final)
      → final.request.request.url ≡ some url
      → socket.upgrade writer final.request.request final.world ≡ (ret incoming, w₁)
      → socket.dial (record address { path = url.path }) w₁ ≡ (ret outgoing, w₂)
      → handle_web_socket socket p address uuid turns writer r w ≡ (
        ret (
          record { errors = e ∷ []; incoming = some incoming; outgoing = some outgoing },
          record address { path = url.path },
        ),
        w₂,
      )
  unfolding handle_web_socket
  handle_web_socket-refused p address url uuid turns writer r w w₁ w₂ s e final incoming outgoing
        read refusal at_url upgraded dialled =
      let q = final.request.request in
      exec_ret (lift (nil_request (new_shadow_request r))) _ w w s
        (ap (λ t. (nil_request t, w)) read)
      ∙ exec_ret (connect_cascade uuid turns p.connect_callers s) _ w final.world (q, e ∷ [])
          (ap
            (λ (t : Go HttpError (Option ShadowResponse) × State W).
              (with_request t.1.request.request (written_of t.0), t.1.world))
            refusal)
      ∙ exec_ret (open_socket socket (socket.upgrade writer q)) _ final.world w₁ (some incoming, [])
          (ap (λ t. (connection_of t.0, t.1)) upgraded)
      ∙ exec_ret (lift (addressed address q.url)) _ w₁ w₁ (record address { path = url.path })
          (ap (λ u. (addressed address u, w₁)) at_url)
      ∙ exec_ret (open_socket socket (socket.dial (record address { path = url.path }))) _ w₁ w₂
          (some outgoing, []) (ap (λ t. (connection_of t.0, t.1)) dialled)
