-- ===== src/Proxies/Http/Cached.antt =====
-- An HTTP proxy behind a cache.
pub mod Keyed
pub use Keyed.{copy_of, copy_original_lem, key_of}
use Keyed.{select_none, latest_none, copy_of-key}
use iceberg.Cache.Key.{parse_key, key_at, fill_body, fill_query, fill_route, fill_method}
use iceberg.Cache.Store.{
  Codec, build, cached, cache_caller, get_call, set_call, look_up, found, unmarshal, original_key,
}
use iceberg.Nats.Kv.{Kv, KvError}
use iceberg.Netio.Caller.{Caller, Turn, request_id, internal, settle, next_turn, later_turns}
use iceberg.Netio.Cascade.{
  cascade, rounds, round, run_tasks, await, await_from, call_caller, go_on, start, run_copy,
  run_marked, copy_original,
}
use iceberg.Netio.Cascade.Schedule.{round-Idle}
use iceberg.Netio.Clone.{clone_url}
use iceberg.Netio.Copies.{clone_url_lem}
use iceberg.Netio.Exec.{proceed}
use iceberg.Netio.Header.{Header, header_add}
use iceberg.Netio.Message.{Request, Response, HttpError, new_request, reader, read_all}
use iceberg.Netio.Request.{
  ShadowRequest, RouteValues, set_header, clone_request, clone_shadow_request, new_shadow_request,
  copied, apply_options,
}
use iceberg.Netio.Response.{ShadowResponse, new_shandow_response}
use iceberg.Netio.Sort.{
  has_level, level_none, level_post, level_pre, level_connect, level_request, level_response,
}
use iceberg.Netio.Sort.Order.{sort-concat, of_level, latest_of, select, latest}
use iceberg.Proxies.Http.{Proxy, http_caller, new_http_proxy}
use iceberg.Common.{
  ℕ, List, [], ◌∷◌, ◌++◌, Option, none, some, Bool, true, false, ◌≡◌, refl, ap, ◌∙◌, ◌==◌, All,
  All-imp,
}
use iceberg.Common.Go.{Go, ret, map_error, ◌>>=◌}
use iceberg.Common.Url.{Url}
use iceberg.Common.Map.{Map}
use iceberg.Common.Text.{Text, text_eq, to_lower}
use mathlib.Core.Path.{ap₂}

module _ (codec : Codec) (query : Text → Map Text (List Text)) (digest : Text → Text)
    (template : Text) {W : Type 0} (kv : Kv W) (send : Request → W → Go Text Response × W) where
  -- The proxy of a resource with a cache and the filters `cs`.
  abbrev pub behind_cache : (ℕ → ℕ) → Proxy → List (Caller W) → List (Caller W)
  behind_cache grow p cs = new_http_proxy send grow p (build codec query digest kv template ++ cs)

  abbrev pub getter : Caller W
  getter = cache_caller codec query digest kv level_pre (get_call codec query digest kv template)

  abbrev pub setter : Caller W
  setter = cache_caller codec query digest kv level_post (set_call codec query digest kv template)

  -- A caller that Sort puts behind those of LEVEL_PRE.
  abbrev pub Later : Caller W → Type 0
  Later c =
      (has_level level_none c.level ≡ false)
      × (has_level level_connect c.level ≡ false)
      × ((c.level == level_pre) ≡ false)

  -- The order of Sort, for these connect callers and pre callers.
  abbrev sorted :
      Proxy → (ℕ → ℕ) → List (Caller W) → List (Caller W) → List (Caller W) → List (Caller W)
  sorted p grow cs connects pres =
      let all = getter ∷ setter ∷ cs in
      connects
      ++ pres
      ++ of_level (λ c. c.level) grow level_request all
      ++ (http_caller send p ∷ [])
      ++ of_level (λ c. c.level) grow level_response all
      ++ latest_of (λ c. c.level) grow level_post [] all

  pub behind_cache-first :
      (grow : ℕ → ℕ) (p : Proxy) (cs : List (Caller W))
      → All Later cs
      → (rest : List (Caller W)) × (behind_cache grow p cs ≡ getter ∷ rest)
  unfolding new_http_proxy build http_caller
  behind_cache-first grow p cs later = (
    sorted p grow cs [] [],
    sort-concat (λ c. c.level) grow (getter ∷ setter ∷ cs) (http_caller send p)
          (refl, (refl, All-imp cs (λ c l. l.0) later)) refl
        ∙ ap₂ (sorted p grow cs)
            (select_none (λ (c : Caller W). has_level level_connect c.level) cs
              (All-imp cs (λ c l. l.1) later))
            (latest_none (λ (c : Caller W). c.level == level_pre) (getter ∷ []) cs
              (All-imp cs (λ c l. l.2) later)),
  )

  -- Without filters.
  pub behind_cache_alone :
      (grow : ℕ → ℕ) (p : Proxy)
      → behind_cache grow p [] ≡ getter ∷ http_caller send p ∷ setter ∷ []
  unfolding new_http_proxy build http_caller
  behind_cache_alone grow p =
      sort-concat (λ c. c.level) grow (getter ∷ setter ∷ []) (http_caller send p) (refl, (refl, tt))
        refl

  -- What a hit answers.
  abbrev pub answer_of : Header × Text → ShadowResponse
  answer_of (h, body) = record { response = cached codec (h, body); data_bytes = body }

  -- The key of the original request, as both callers of the cache compute it.
  pub original_key-copy_of :
      (request : ShadowRequest) (h : Header) (key : Text)
      → key_of query digest template request ≡ ret key
      → original_key codec query digest kv template request.route_values
          (clone_request (copy_of (set_header request h)) [])
        ≡ ret key
  original_key-copy_of request h key keyed =
      ap (map_error internal) (copy_of-key query digest template request h ∙ keyed)

  -- The first call asks the store.
  pub call_caller-getter :
      (request : ShadowRequest) (h : Header) (key : Text) (w : W) (t : Go KvError Text × W)
      → key_of query digest template request ≡ ret key
      → kv.get key w ≡ t
      → call_caller (copy_of (set_header request h)) getter (start (set_header request h) w) ≡ (
        (found codec query digest kv t).0,
        start (set_header request h) (found codec query digest kv t).1,
      )
  unfolding call_caller get_call copied
  call_caller-getter request h key w t keyed asked =
      ap
        (λ k.
          let (r, w₁) = look_up codec query digest kv k w in (r, start (set_header request h) w₁))
        (original_key-copy_of request h key keyed)
      ∙ ap
          (λ t. let (r, w₁) = found codec query digest kv t in (r, start (set_header request h) w₁))
          asked

  module _ (request : ShadowRequest) (key value : Text) (v : Header × Text) (w w' : W)
      (keyed : key_of query digest template request ≡ ret key)
      (hit : kv.get key w ≡ (ret value, w')) (decoded : codec.decode value ≡ ret v) where
    getter-hit :
        (h : Header)
        → call_caller (copy_of (set_header request h)) getter (start (set_header request h) w) ≡ (
          ret (true, some (cached codec v)),
          record (start (set_header request h) w) { world = w' },
        )
    unfolding unmarshal
    getter-hit h =
        call_caller-getter request h key w (ret value, w') keyed hit
        ∙ ap
            (λ d. (
              map_error internal (d >>= λ val. ret (cached codec val))
                  >>= (λ res. ret (true, some res)),
              start (set_header request h) w',
            ))
            decoded

    rounds-hit :
        (turns : List Turn) (h : Header) (cals : List (Caller W))
        → rounds
            (copy_of (set_header request h))
            turns
            (getter ∷ cals)
            (start (set_header request h) w)
          ≡ (ret (some (answer_of v)), record (start (set_header request h) w) { world = w' })
    unfolding rounds round run_tasks await await_from settle new_shandow_response read_all
    rounds-hit turns h cals =
        let or = copy_of (set_header request h) in
        let rest = go_on or (rounds or (later_turns turns) cals) in
        let s = start (set_header request h) w in
        ap (λ t. proceed t.0 rest t.1) (round-Idle or (next_turn turns) getter s refl)
        ∙ ap (λ t. let u = proceed t.0 (settle getter) t.1 in proceed u.0 rest u.1) (getter-hit h)

    -- Where the store has a value for the key of a request, the cascade of a proxy with a cache, and
    -- with filters of later levels, returns the stored header and body. The outside world is that
    -- behind the read: neither the backend nor a filter was called.
    pub cascade-cached :
        (grow : ℕ → ℕ) (p : Proxy) (cs : List (Caller W)) (uuid : Text) (turns : List Turn)
        (h : Header)
        → All Later cs
        → header_add {E = HttpError} request.request.header request_id uuid ≡ ret h
        → cascade uuid turns request (some (behind_cache grow p cs)) w
          ≡ (ret (some (answer_of v)), record (start (set_header request h) w) { world = w' })
    unfolding cascade
    cascade-cached grow p cs uuid turns h later marked =
        let (rest, first) = behind_cache-first grow p cs later in
        let callers = getter ∷ rest in
        ap (λ cals. cascade uuid turns request (some cals) w) first
        ∙ ap (run_marked turns request callers w) marked
        ∙ ap (run_copy turns (set_header request h) callers w)
            (copy_original_lem (set_header request h))
        ∙ rounds-hit turns h rest
