-- ===== src/Cache/Store.antt =====
-- The callers of internal/middleware/cache/jetstream.go, with Marshal and Unmarshal of common.go. The
-- key-value store and encoding/gob are parameters.
pub mod Hit
use iceberg.Nats.Kv.{key_not_found, kv_failed}
use iceberg.Nats.Kv.{Kv, KvError, kv_failed}
use iceberg.Netio.Request.{RouteValues}
use iceberg.Common.{ℕ, List, [], ◌∷◌, none, some, true, false}
use iceberg.Common.Go.{◌>>=◌, Go, ret, fail, panic, ◌>>=◌, map_error}
use iceberg.Common.Map.{Map}
use iceberg.Common.Text.{Text, codes}
use iceberg.Netio.Header.{Header}
use iceberg.Netio.Clone.{clone_header}
use iceberg.Netio.Message.{Request, Response, Context, background, reader, read_all, HttpError}
use iceberg.Netio.Sort.{level_pre, level_post}
use iceberg.Netio.Caller.{Caller, CallResult, Cloner, internal}
use iceberg.Cache.Key.{parse_key}

-- gob, on the two fields of a cached response.
pub record Codec : Type 0 where
  pub encode : Header → Text → Go Text Text
  pub decode : Text → Go Text (Header × Text)

module _ (codec : Codec) where
  unfoldable pub marshal : Request → Go Text Text
  marshal r = read_all r.body >>= λ (body, _). codec.encode r.header body

  abbrev pub cached : Header × Text → Response
  cached (header, body) = record {
    status = [];
    status_code = 0;
    header = clone_header header;
    trailer = none;
    transfer_encoding = none;
    body = reader body;
  }

  unfoldable pub unmarshal : Text → Go Text Response
  unmarshal content = codec.decode content >>= λ val. ret (cached val)

  module _ (query : Text → Map Text (List Text)) (digest : Text → Text) {W : Type 0}
      (kv : Kv W) where
    -- The key, from the original request.
    abbrev pub original_key : Text → RouteValues → Go Text Request → Go HttpError Text
    original_key template rv copy =
        map_error internal (copy >>= λ req. parse_key query digest template req rv)

    abbrev pub found : Go KvError Text × W → CallResult × W
    found (ret value, w) = (map_error internal (unmarshal value) >>= λ res. ret (true, some res), w)
    found (fail key_not_found, w) = (ret (false, none), w)
    found (fail (kv_failed e), w) = (fail (internal e), w)
    found (panic, w) = (panic, w)

    abbrev pub look_up : Go HttpError Text → W → CallResult × W
    look_up (ret key) w = found (kv.get key w)
    look_up (fail e) w = (fail e, w)
    look_up panic w = (panic, w)

    -- JetStreamGet.Call
    unfoldable pub get_call : Text → Context → RouteValues → Cloner → Cloner → W → CallResult × W
    unfolding unmarshal
    get_call template ctx rv c o w = look_up (original_key template rv (o [])) w

    abbrev pub stored : Go Text (Unit {0}) × W → CallResult × W
    stored (ret _, w) = (ret (false, none), w)
    stored (fail e, w) = (fail (internal e), w)
    stored (panic, w) = (panic, w)

    abbrev pub store : Go HttpError Text → Go Text Text → W → CallResult × W
    store (ret key) (ret content) w = stored (kv.put key content w)
    store (ret key) (fail e) w = (fail (internal e), w)
    store (ret key) panic w = (panic, w)
    store (fail e) content w = (fail e, w)
    store panic content w = (panic, w)

    -- JetStreamSet.Call
    unfoldable pub set_call : Text → Context → RouteValues → Cloner → Cloner → W → CallResult × W
    unfolding marshal
    set_call template ctx rv c o w = store (original_key template rv (o [])) (c [] >>= marshal) w

    abbrev pub cache_caller :
        ℕ → (Context → RouteValues → Cloner → Cloner → W → CallResult × W) → Caller W
    cache_caller level call = record {
      level = level;
      is_parallel = false;
      name = codes "Cache";
      await_list = [];
      call = call;
      request_updaters = [];
      response_updaters = [];
      context = background;
    }

    -- JetStreamGet and JetStreamSet as callers, as Build returns them.
    unfoldable pub build : Text → List (Caller W)
    unfolding get_call set_call
    build template =
        cache_caller level_pre (get_call template)
        ∷ cache_caller level_post (set_call template)
        ∷ []
