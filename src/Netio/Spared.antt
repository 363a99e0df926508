-- ===== src/Netio/Spared.antt =====
-- Request updaters that leave the bytes of a request alone.
use iceberg.Netio.Cascade.Fed.{Feeds}
use iceberg.Netio.Caller.{feed, internal}
use iceberg.Netio.Header.{header_set, header_get}
use iceberg.Netio.Message.{Request, HttpError, reader, read_all}
use iceberg.Netio.Request.{
  ShadowRequest, RequestUpdater, set_header, new_shadow_request, req_update_header, update_request,
  reset_request, req_replace_body, req_replace_header, req_replace_tailer,
}
use iceberg.Netio.Response.{ShadowResponse, create_request}
use iceberg.Common.{List, [], ◌∷◌, ◌≡◌, refl, All, sym, ap, ◌∙◌}
use iceberg.Common.Go.{Go, ret, fail, panic, >>=-eq-ret, ret_inj}
use iceberg.Common.Text.{Text, text_eq}

-- An updater that does not change the bytes that a reset reads.
abbrev pub Spares : RequestUpdater → Type 0
Spares fn =
    (s s' : ShadowRequest) (q q' : Request) → fn s q ≡ ret (s', q') → s'.data_bytes ≡ s.data_bytes

pub req_update_header-Spares : (keys : List Text) → Spares (req_update_header keys)
unfolding req_update_header
req_update_header-Spares [] s s' q q' e = ap (λ t. t.0.data_bytes) (sym (ret_inj e))
req_update_header-Spares (key ∷ keys) s s' q q' e =
    let (h, _, e₁) =
      >>=-eq-ret (header_set s.request.header key (header_get q.header key)) _ (s', q') e in
    req_update_header-Spares keys (set_header s h) s' q q' e₁

update_request-Spares :
    (us : List RequestUpdater) (s s' : ShadowRequest) (q q' : Request)
    → All Spares us
    → update_request s q us ≡ ret (s', q')
    → s'.data_bytes ≡ s.data_bytes
unfolding update_request
update_request-Spares [] s s' q q' all e = ap (λ t. t.0.data_bytes) (sym (ret_inj e))
update_request-Spares (fn ∷ us) s s' q q' (f, all) e =
    let ((s₁, q₁), e₁, e₂) = >>=-eq-ret (fn s q) _ (s', q') e in
    update_request-Spares us s₁ s' q₁ q' all e₂ ∙ f s s₁ q q₁ e₁

-- The request holds the message, and its body has all of it still to read.
abbrev pub Bears : Text → ShadowRequest → Type 0
Bears message s = (s.data_bytes ≡ message) × (s.request.body ≡ reader message)

-- Inversion of feed: the updates returned, and the request was reset.
abbrev reset_of : Go Text (ShadowRequest × Request) → Go HttpError ShadowRequest
reset_of r = elim r [
  | ret (s', _) ↦ ret (reset_request s')
  | fail e ↦ fail (internal e)
  | panic ↦ panic
]

reset_of-eq-ret :
    (r : Go Text (ShadowRequest × Request)) (s' : ShadowRequest)
    → reset_of r ≡ ret s'
    → (s₁ : ShadowRequest) × (q₁ : Request) × (r ≡ ret (s₁, q₁)) × (s' ≡ reset_request s₁)
reset_of-eq-ret (ret (s₁, q₁)) s' e = (s₁, q₁, refl, sym (ret_inj e))
reset_of-eq-ret (fail x) s' e = absurd (cc)
reset_of-eq-ret panic s' e = absurd (cc)

feed_of : ShadowRequest → List RequestUpdater → Go Text ShadowRequest → Go HttpError ShadowRequest
feed_of s us r = elim r [
  | fail e ↦ fail (internal e)
  | panic ↦ panic
  | ret tmp ↦ reset_of (update_request s tmp.request us)
]

feed_of-eq-ret :
    (s s' : ShadowRequest) (us : List RequestUpdater) (r : Go Text ShadowRequest)
    → feed_of s us r ≡ ret s'
    → (q s₁ : ShadowRequest) × (q₁ : Request) × (update_request s q.request us ≡ ret (s₁, q₁))
      × (s' ≡ reset_request s₁)
      × (r ≡ ret q)
unfolding feed_of
feed_of-eq-ret s s' us (ret tmp) e =
    let (s₁, q₁, e₁, same) = reset_of-eq-ret (update_request s tmp.request us) s' e in
    (tmp, s₁, q₁, e₁, same, refl)
feed_of-eq-ret s s' us (fail x) e = absurd (cc)
feed_of-eq-ret s s' us panic e = absurd (cc)

pub Spares-Feeds :
    (message : Text) (us : List RequestUpdater) → All Spares us → Feeds (Bears message) us
unfolding feed feed_of reset_request
Spares-Feeds message us all s s' out (same, body) e =
    let (q, s₁, q₁, updated, reset, _) = feed_of-eq-ret s s' us (create_request out) e in
    let kept = update_request-Spares us s s₁ q.request q₁ all updated ∙ same in
    (ap (λ t. t.data_bytes) reset ∙ kept, ap (λ t. t.request.body) reset ∙ ap reader kept)

pub req_replace_header-Spares : Spares req_replace_header
unfolding req_replace_header
req_replace_header-Spares s s' q q' e = ap (λ t. t.0.data_bytes) (sym (ret_inj e))

pub req_replace_tailer-Spares : Spares req_replace_tailer
unfolding req_replace_tailer
req_replace_tailer-Spares s s' q q' e = ap (λ t. t.0.data_bytes) (sym (ret_inj e))

req_replace_body-data_bytes :
    (s s' : ShadowRequest) (q q' : Request) (content : Text)
    → q.body ≡ reader content
    → req_replace_body s q ≡ ret (s', q')
    → s'.data_bytes ≡ content
unfolding req_replace_body read_all
req_replace_body-data_bytes s s' q q' content whole e =
    let ((body, rest), at, e₁) = >>=-eq-ret (read_all q.body) _ (s', q') e in
    ap (λ t. t.0.data_bytes) (sym (ret_inj e₁))
    ∙ ap (λ t. t.0) (ret_inj (sym at ∙ ap read_all whole))

-- Behind an update of the body, and updates that spare it, the request bears the response.
pub feed-data_bytes :
    (s s' : ShadowRequest) (out : ShadowResponse) (us : List RequestUpdater)
    → All Spares us
    → feed s out (req_replace_body ∷ us) ≡ ret s'
    → s'.data_bytes ≡ out.data_bytes
unfolding feed feed_of reset_request update_request create_request new_shadow_request read_all
feed-data_bytes s s' out us all e =
    let (q, s₁, q₁, updated, reset, made) =
      feed_of-eq-ret s s' (req_replace_body ∷ us) (create_request out) e in
    let ((s₂, q₂), replaced, spared) =
      >>=-eq-ret (req_replace_body s q.request) _ (s₁, q₁) updated in
    ap (λ t. t.data_bytes) reset
    ∙ update_request-Spares us s₂ s₁ q₂ q₁ all spared
    ∙ req_replace_body-data_bytes s s₂ q.request q₂ out.data_bytes
        (ap (λ t. t.request.body) (sym (ret_inj made))) replaced
