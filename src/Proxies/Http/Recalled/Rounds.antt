-- ===== src/Proxies/Http/Recalled/Rounds.antt =====
-- The three rounds of a proxy behind a cache: the store is asked, the backend, and the store again.
use iceberg.Cache.Store.{Codec, marshal}
use iceberg.Cache.Store.Hit.{CodecLaws}
use iceberg.Nats.Kv.{Kv, key_not_found}
use iceberg.Netio.Caller.{Caller, Turn, later_turns, settle, request_id}
use iceberg.Netio.Cascade.{rounds, call_caller, start}
use iceberg.Netio.Clone.{clone_header}
use iceberg.Netio.Header.{Header}
use iceberg.Netio.Message.{Request, Response, read_all}
use iceberg.Netio.Request.{
  ShadowRequest, set_header, clone_request, copied, apply_options, with_url, with_context,
}
use iceberg.Netio.Response.{ShadowResponse}
use iceberg.Netio.Spared.{
  feed-data_bytes, req_replace_header-Spares, req_replace_tailer-Spares, req_update_header-Spares,
}
use iceberg.Proxies.Http.{Proxy, proxy_context, http_caller, proxy_call, send_clone}
use iceberg.Proxies.Http.Cached.{call_caller-getter, original_key-copy_of, copy_of, key_of}
use iceberg.Proxies.Http.Recalled.Stages.{onward, onward-eq-ret}
use iceberg.Proxies.Http.Served.{send_clone-eq-ret}
use iceberg.Common.{List, [], ◌∷◌, some, ◌≡◌, refl, sym, ap, ◌∙◌}
use iceberg.Common.Go.{Go, ret, fail, ◌>>=◌}
use iceberg.Common.Map.{Map}
use iceberg.Common.Text.{Text, text_eq}
use iceberg.Proxies.Http.Recalled.Storing.{
  the_getter, the_setter, ready_to_store, last_round, rounds-onward,
}

-- A proxy that awaits no task, as NewProxy makes it.
abbrev pub unawaiting : Proxy → Proxy
unawaiting p = record p { await_list = [] }

module _ (codec : Codec) (query : Text → Map Text (List Text)) (digest : Text → Text)
    (template : Text) {W : Type 0} (kv : Kv W) (send : Request → W → Go Text Response × W) where
  abbrev proxy_of : Proxy → Caller W
  proxy_of p = http_caller send (unawaiting p)

  module _ (p : Proxy) (request : ShadowRequest) (h : Header) (key : Text)
      (keyed : key_of query digest template request ≡ ret key) where
    abbrev marked : ShadowRequest
    marked = set_header request h

    abbrev original : ShadowRequest
    original = copy_of marked

    -- The round of a miss.
    first_round :
        (turns : List Turn) (cals : List (Caller W)) (w w₁ : W)
        → kv.get key w ≡ (fail key_not_found, w₁)
        → rounds original turns
            ((the_getter codec query digest template kv send) ∷ cals)
            (start marked w)
          ≡ rounds original (later_turns turns) cals (start marked w₁)
    unfolding settle
    first_round turns cals w w₁ missed =
        (rounds-onward codec query digest template kv send) original
          (the_getter codec query digest template kv send) turns cals (start marked w) refl
        ∙ ap
            (onward (the_getter codec query digest template kv send)
              (rounds original (later_turns turns) cals) original)
            (call_caller-getter codec query digest template kv send request h key w
              (fail key_not_found, w₁) keyed missed)

    -- The round of the proxy: the request bears the response that is the output.
    middle_round :
        (turns : List Turn) (w : W) (o : ShadowResponse)
        → (rounds original turns
            (proxy_of p ∷ (the_setter codec query digest template kv send) ∷ [])
            (start marked w)).0
          ≡ ret (some o)
        → (q : ShadowRequest) × (out : ShadowResponse) × (w' : W) × (q.data_bytes ≡ out.data_bytes)
          × (rounds original turns
                (proxy_of p ∷ (the_setter codec query digest template kv send) ∷ [])
                (start marked w)
              ≡ rounds original
                  (later_turns turns)
                  ((the_setter codec query digest template kv send) ∷ [])
                  ((ready_to_store codec query digest template kv send) q out w'))
    unfolding call_caller http_caller proxy_call copied
    middle_round turns w o e =
        let rest =
          rounds original (later_turns turns)
            ((the_setter codec query digest template kv send) ∷ []) in
        let (r, w') =
          send_clone send
            (clone_request marked (
              with_url p.address request.route_values
              ∷ with_context (proxy_context (unawaiting p))
              ∷ []))
            w in
        let path =
          (rounds-onward codec query digest template kv send) original (proxy_of p) turns
            ((the_setter codec query digest template kv send) ∷ []) (start marked w) refl in
        let (q, out, fed, same) =
          onward-eq-ret original rest (some o) (proxy_of p) r marked w'
            (λ b at. send_clone-eq-ret send _ w b at) (sym (ap (λ t. t.0) path) ∙ e) in
        (
          q,
          out,
          w',
          feed-data_bytes marked q out _
              (
                req_replace_header-Spares,
                (req_replace_tailer-Spares, (req_update_header-Spares (request_id ∷ []), tt)),
              )
              fed,
          path ∙ same,
        )

    -- What is stored of a request that was not found, and answered.
    pub miss_rounds :
        (turns : List Turn) (w w₁ : W) (o : ShadowResponse)
        → kv.get key w ≡ (fail key_not_found, w₁)
        → let run =
            rounds original turns
              ((the_getter codec query digest template kv send)
                ∷ proxy_of p
                ∷ (the_setter codec query digest template kv send)
                ∷ [])
              (start marked w) in
          run.0 ≡ ret (some o)
          → (q : ShadowRequest) × (w₂ : W) × (bytes : Text) × ((clone_request q []
                >>= marshal codec)
              ≡ ret bytes)
            × ((kv.put key bytes w₂).0 ≡ ret tt)
            × (q.data_bytes ≡ o.data_bytes)
            × (run.1.world ≡ (kv.put key bytes w₂).1)
    unfolding copied
    miss_rounds turns w w₁ o missed e =
        let step₁ =
          first_round turns (proxy_of p ∷ (the_setter codec query digest template kv send) ∷ []) w
            w₁ missed in
        let (q, out, w₂, bears, step₂) =
          middle_round (later_turns turns) w₁ o (sym (ap (λ t. t.0) step₁) ∙ e) in
        let (bytes, content, put_here, same, at_world) =
          (last_round codec query digest template kv send) original q out key
            (original_key-copy_of codec query digest template kv send request h key keyed)
            (later_turns (later_turns turns)) w₂ o (sym (ap (λ t. t.0) (step₁ ∙ step₂)) ∙ e) in
        (
          q,
          w₂,
          bytes,
          content,
          put_here,
          bears ∙ sym same,
          ap (λ t. t.1.world) (step₁ ∙ step₂) ∙ at_world,
        )

  pub marshal-clone_request :
      (laws : CodecLaws codec) (q : ShadowRequest) (bytes : Text)
      → (clone_request q [] >>= marshal codec) ≡ ret bytes
      → codec.decode bytes ≡ ret (clone_header q.request.header, q.data_bytes)
  unfolding clone_request copied apply_options marshal read_all
  marshal-clone_request laws q bytes e = laws.decode-encode _ _ bytes e
