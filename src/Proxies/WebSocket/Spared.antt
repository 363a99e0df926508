-- ===== src/Proxies/WebSocket/Spared.antt =====
-- The updaters that NewWebSocket wraps leave the bytes of a message alone.
use iceberg.Netio.Message.{reader, read_all}
use iceberg.Netio.Request.{ShadowRequest, set_body, new_shadow_request}
use iceberg.Netio.Response.{ResponseUpdater, ShadowResponse, new_shandow_response}
use iceberg.Proxies.WebSocket.{message_request}
use iceberg.Proxies.WebSocket.Wrapped.{wrap_updater, wrap_updaters, shared_with, last_of}
use iceberg.Common.{List, [], ◌∷◌, map, Bool, true, false, ◌≡◌, refl, All, sym, ap, ◌∙◌}
use iceberg.Common.Go.{ret, >>=-eq-ret, ret_inj}
use iceberg.Common.Text.{Text, text_eq}
use iceberg.Netio.Spared.{Spares, Bears}

shared_with-data_bytes :
    (b : Bool) (s : ShadowRequest) (res : ShadowResponse)
    → (set_body (shared_with b s res) (reader [])).data_bytes ≡ s.data_bytes
shared_with-data_bytes true s res = refl
shared_with-data_bytes false s res = refl

wrap_updater-Spares : (updater : ResponseUpdater) → Spares (wrap_updater updater)
unfolding wrap_updater
wrap_updater-Spares updater s s' q q' e =
    let (res, _, e₁) = >>=-eq-ret (new_shandow_response _) _ (s', q') e in
    let ((res', http_res), _, e₂) = >>=-eq-ret (updater.update res _) _ (s', q') e₁ in
    ap (λ t. t.0.data_bytes) (sym (ret_inj e₂)) ∙ shared_with-data_bytes updater.in_place s res'

map-Spares :
    (updater : ResponseUpdater) (updaters : List ResponseUpdater)
    → All Spares (map (λ _. wrap_updater updater) updaters)
map-Spares updater [] = tt
map-Spares updater (u ∷ us) = (wrap_updater-Spares updater, map-Spares updater us)

pub wrap_updaters-Spares : (updaters : List ResponseUpdater) → All Spares (wrap_updaters updaters)
unfolding wrap_updaters
wrap_updaters-Spares [] = tt
wrap_updaters-Spares (u ∷ us) = map-Spares (last_of u us) (u ∷ us)

pub message-Bears :
    (message : Text) (s : ShadowRequest)
    → new_shadow_request (message_request message) ≡ ret s
    → Bears message s
unfolding new_shadow_request read_all
message-Bears message s e =
    (ap (λ t. t.data_bytes) (sym (ret_inj e)), ap (λ t. t.request.body) (sym (ret_inj e)))
