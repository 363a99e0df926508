-- ===== src/Proxies/Http/Recalled.antt =====
-- An HTTP proxy behind a cache, asked twice.
pub mod Stages
pub mod Storing
pub mod Rounds
use iceberg.Cache.Store.{
  Codec, get_call, set_call, look_up, found, original_key, store, stored, marshal, unmarshal,
  cached,
}
use iceberg.Cache.Store.Hit.{CodecLaws, KvLaws, stored-eq-ret}
use iceberg.Nats.Kv.{Kv, KvError, key_not_found}
use iceberg.Netio.Caller.{
  Caller, CallResult, M, Turn, State, carried, internal, later_turns, next_turn, reset_out, settle,
  request_id,
}
use iceberg.Netio.Cascade.{
  cascade, rounds, round, run_tasks, await, await_from, call_caller, go_on, start, run_marked,
}
use iceberg.Netio.Cascade.Schedule.{round-Idle}
use iceberg.Netio.Cascade.Gate.{sequential}
use iceberg.Netio.Clone.{clone_header}
use iceberg.Netio.Exec.{proceed}
use iceberg.Netio.Header.{Header, header_add}
use iceberg.Netio.Message.{Request, Response, HttpError, read_all}
use iceberg.Netio.Request.{
  ShadowRequest, set_header, clone_request, copied, apply_options, with_url, with_context,
}
use iceberg.Netio.Response.{ShadowResponse, reset_response}
use iceberg.Netio.Spared.{
  feed-data_bytes, req_replace_header-Spares, req_replace_tailer-Spares, req_update_header-Spares,
}
use iceberg.Proxies.Http.{Proxy, proxy_context, http_caller, proxy_call, send_clone}
use iceberg.Proxies.Http.Cached.{
  behind_cache, call_caller-getter, original_key-copy_of, behind_cache_alone, copy_of, key_of,
  getter, setter, answer_of, cascade-cached,
}
use iceberg.Proxies.Http.Recalled.Stages.{marked_rounds, onward, onward-eq-ret}
use iceberg.Proxies.Http.Served.{send_clone-eq-ret}
use iceberg.Common.{
  ℕ, List, [], ◌∷◌, Option, none, some, Bool, true, false, ◌≡◌, refl, sym, ap, ◌∙◌, some_inj,
  if◌then◌else◌,
}
use iceberg.Common.Go.{Go, ret, fail, panic, map_error, ◌>>=◌, ret_inj}
use iceberg.Common.Map.{Map}
use iceberg.Common.Text.{Text, text_eq}
use mathlib.Core.Path.{subst}
use iceberg.Proxies.Http.Recalled.Rounds.{unawaiting, miss_rounds, marshal-clone_request}

module _ (codec : Codec) (query : Text → Map Text (List Text)) (digest : Text → Text)
    (template : Text) {W : Type 0} (kv : Kv W) (send : Request → W → Go Text Response × W) where
  -- A request that the store had nothing for and that the cascade of a proxy answered, whose other
  -- callers are the two of its cache alone, is not sent again: for a request of the same key, in any
  -- later world in which the store gives for the key what it gave behind the first, the cascade
  -- returns a response with the bytes of the first, and leaves the world that reading the store
  -- leaves. This rests on what the store and the encoding promise: what was put is got, what was
  -- encoded is decoded.
  pub cascade-recalled :
      (codec_laws : CodecLaws codec) (kv_laws : KvLaws kv) (grow : ℕ → ℕ) (p : Proxy)
      (first second : ShadowRequest) (uuid uuid' : Text) (turns turns' : List Turn) (key : Text)
      (w later : W) (out : ShadowResponse) (h : Header)
      → let callers = behind_cache codec query digest template kv send grow (unawaiting p) [] in
        let visit = cascade uuid turns first (some callers) w in
        key_of query digest template first ≡ ret key
        → key_of query digest template second ≡ ret key
        → (kv.get key w).0 ≡ fail key_not_found
        → visit.0 ≡ ret (some out)
        → (kv.get key later).0 ≡ (kv.get key visit.1.world).0
        → header_add {E = HttpError} second.request.header request_id uuid' ≡ ret h
        → (v : Header × Text) × (v.1 ≡ out.data_bytes)
          × (cascade uuid' turns' second (some callers) later ≡ (
            ret (some (answer_of codec query digest template kv send v)),
            record (start (set_header second h) w) { world = (kv.get key later).1 },
          ))
  unfolding cascade
  cascade-recalled codec_laws kv_laws grow p first second uuid uuid' turns turns' key w later out h
        keyed keyed' missed answered kept marked' =
      let callers = behind_cache codec query digest template kv send grow (unawaiting p) [] in
      let visit = cascade uuid turns first (some callers) w in
      let (h₁, through) =
        marked_rounds turns first callers w (header_add first.request.header request_id uuid)
          (some out) answered in
      let path =
        through
        ∙ ap (λ cs. rounds (copy_of (set_header first h₁)) turns cs (start (set_header first h₁) w))
            (behind_cache_alone codec query digest template kv send grow (unawaiting p)) in
      let (q, w₂, bytes, content, put_here, same, at_world) =
        miss_rounds codec query digest template kv send p first h₁ key keyed turns w
          (kv.get key w).1 out (ap (λ r. (r, (kv.get key w).1)) missed)
          (sym (ap (λ t. t.0) path) ∙ answered) in
      let world : visit.1.world ≡ (kv.put key bytes w₂).1 = ap (λ t. t.1.world) path ∙ at_world in
      let hit : (kv.get key later).0 ≡ ret bytes =
        kept ∙ ap (λ x. (kv.get key x).0) world ∙ kv_laws.get-put key bytes w₂ put_here in
      (
        (clone_header q.request.header, q.data_bytes),
        same,
        cascade-cached codec query digest template kv send second key bytes
            (clone_header q.request.header, q.data_bytes) later (kv.get key later).1 keyed'
            (ap (λ r. (r, (kv.get key later).1)) hit)
            (marshal-clone_request codec query digest template kv send codec_laws q bytes content)
            grow (unawaiting p) [] uuid' turns' h tt marked',
      )
