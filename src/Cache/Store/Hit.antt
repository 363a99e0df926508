-- ===== src/Cache/Store/Hit.antt =====
-- What JetStreamGet finds of what JetStreamSet stored.
use iceberg.Common.{List, [], some, Bool, Option, true, refl, ◌≡◌, ◌∙◌, ap}
use iceberg.Common.Go.{Go, ret, fail, panic, ◌>>=◌, >>=-eq-ret, map_error}
use iceberg.Common.Map.{Map}
use iceberg.Common.Text.{Text}
use iceberg.Netio.Header.{Header}
use iceberg.Netio.Message.{Request, Response, Context, Body, read_all, HttpError}
use iceberg.Netio.Request.{RouteValues}
use iceberg.Netio.Caller.{Cloner, internal}
use iceberg.Nats.Kv.{Kv}
use iceberg.Cache.Store.{
  Codec, marshal, unmarshal, cached, get_call, set_call, store, stored, look_up, found,
  original_key,
}

-- gob: what was encoded is decoded to the same values.
pub record CodecLaws (codec : Codec) : Type 0 where
  pub decode-encode :
      (h : Header) (body bytes : Text)
      → codec.encode h body ≡ ret bytes
      → codec.decode bytes ≡ ret (h, body)

-- A value that was just put under a key is what get returns for it.
pub record KvLaws {W : Type 0} (kv : Kv W) : Type 0 where
  pub get-put :
      (key value : Text) (w : W)
      → (kv.put key value w).0 ≡ ret tt
      → (kv.get key (kv.put key value w).1).0 ≡ ret value

module _ (codec : Codec) (codec_laws : CodecLaws codec) where
  unmarshal-marshal :
      (q : Request) (bytes : Text)
      → marshal codec q ≡ ret bytes
      → (read : Text × Body) × (read_all q.body ≡ ret read)
        × (unmarshal codec bytes ≡ ret (cached codec (q.header, read.0)))
  unfolding marshal unmarshal
  unmarshal-marshal q bytes e =
      let (read, whole, encoded) =
        >>=-eq-ret (read_all q.body) (λ (body, _). codec.encode q.header body) bytes e in
      (
        read,
        whole,
        ap (λ t. t >>= λ val. ret (cached codec val))
            (codec_laws.decode-encode q.header read.0 bytes encoded),
      )

  module _ (query : Text → Map Text (List Text)) (digest : Text → Text) {W : Type 0} (kv : Kv W)
      (kv_laws : KvLaws kv) where
    pub stored-eq-ret :
        (out : Go Text (Unit {0}) × W) (r : Bool × Option Response)
        → (stored codec query digest kv out).0 ≡ ret r
        → (out.0 ≡ ret tt) × ((stored codec query digest kv out).1 ≡ out.1)
    stored-eq-ret (ret tt, w) r e = (refl, refl)
    stored-eq-ret (fail x, w) r e = absurd cc
    stored-eq-ret (panic, w) r e = absurd cc

    store-look_up :
        (key : Go HttpError Text) (content : Go Text Text) (w : W) (r : Bool × Option Response)
        → (store codec query digest kv key content w).0 ≡ ret r
        → (bytes : Text) × (content ≡ ret bytes)
          × ((look_up codec query digest kv key (store codec query digest kv key content w).1).0
              ≡ (map_error internal (unmarshal codec bytes) >>= λ res. ret (true, some res)))
    store-look_up (ret key) (ret bytes) w r e =
        let (put_here, same) = stored-eq-ret (kv.put key bytes w) r e in
        (
          bytes,
          refl,
          ap (λ w'. (found codec query digest kv (kv.get key w')).0) same
              ∙ ap (λ t. (found codec query digest kv (t, (kv.get key (kv.put key bytes w).1).1)).0)
                  (kv_laws.get-put key bytes w put_here),
        )
    store-look_up (ret key) (fail x) w r e = absurd cc
    store-look_up (ret key) panic w r e = absurd cc
    store-look_up (fail x) content w r e = absurd cc
    store-look_up panic content w r e = absurd cc

    -- After JetStreamSet returned no error, JetStreamGet, for the same template, route values and
    -- original request, ends the cascade with a response of the header and the whole body of the
    -- request that was stored.
    pub set_call-get_call :
        (template : Text) (ctx ctx' : Context) (rv : RouteValues) (c c' o : Cloner) (w : W)
        (r : Bool × Option Response)
        → (set_call codec query digest kv template ctx rv c o w).0 ≡ ret r
        → (q : Request) × (read : Text × Body) × (c [] ≡ ret q)
          × (read_all q.body ≡ ret read)
          × ((get_call codec query digest kv template ctx' rv c' o
                (set_call codec query digest kv template ctx rv c o w).1).0
              ≡ ret (true, some (cached codec (q.header, read.0))))
    unfolding set_call get_call
    set_call-get_call template ctx ctx' rv c c' o w r e =
        let (bytes, marshalled, hit) =
          store-look_up (original_key codec query digest kv template rv (o []))
            (c [] >>= marshal codec) w r e in
        let (q, copied, encoded) = >>=-eq-ret (c []) (marshal codec) bytes marshalled in
        let (read, whole, decoded) = unmarshal-marshal q bytes encoded in
        (
          q,
          read,
          copied,
          whole,
          hit ∙ ap (λ t. map_error internal t >>= λ res. ret (true, some res)) decoded,
        )
