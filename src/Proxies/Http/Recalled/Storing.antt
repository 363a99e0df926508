-- ===== src/Proxies/Http/Recalled/Storing.antt =====
-- The last round of a proxy behind a cache: the response is stored.
use iceberg.Cache.Store.{Codec, set_call, original_key, store, stored, marshal}
use iceberg.Nats.Kv.{Kv}
use iceberg.Netio.Caller.{Caller, CallResult, Turn, State, later_turns, next_turn, settle}
use iceberg.Netio.Cascade.{rounds, round, run_tasks, await, await_from, call_caller, go_on}
use iceberg.Netio.Cascade.Schedule.{round-Idle}
use iceberg.Netio.Cascade.Gate.{sequential}
use iceberg.Netio.Exec.{proceed}
use iceberg.Netio.Message.{Request, Response}
use iceberg.Netio.Request.{ShadowRequest, clone_request}
use iceberg.Netio.Response.{ShadowResponse, reset_response}
use iceberg.Proxies.Http.Cached.{getter, setter}
use iceberg.Proxies.Http.Recalled.Stages.{onward}
use iceberg.Common.{
  List, [], ◌∷◌, Option, none, some, Bool, true, false, ◌≡◌, refl, sym, ap, ◌∙◌, some_inj,
}
use iceberg.Common.Go.{Go, ret, fail, panic, ◌>>=◌, ret_inj}
use iceberg.Common.Map.{Map}
use iceberg.Common.Text.{Text, text_eq}

module _ (codec : Codec) (query : Text → Map Text (List Text)) (digest : Text → Text)
    (template : Text) {W : Type 0} (kv : Kv W) (send : Request → W → Go Text Response × W) where
  abbrev pub the_getter : Caller W
  the_getter = getter codec query digest template kv send

  abbrev pub the_setter : Caller W
  the_setter = setter codec query digest template kv send

  -- A round of a caller that awaits nothing, with no task.
  pub rounds-onward :
      (or : ShadowRequest) (cal : Caller W) (turns : List Turn) (cals : List (Caller W))
      (s : State W)
      → s.tasks ≡ []
      → rounds or turns (sequential cal ∷ cals) s
        ≡ onward
            (sequential cal)
            (rounds or (later_turns turns) cals)
            or
            (call_caller or (sequential cal) s)
  unfolding rounds round run_tasks await await_from
  rounds-onward or cal turns cals s idle =
      ap (λ t. proceed t.0 (go_on or (rounds or (later_turns turns) cals)) t.1)
        (round-Idle or (next_turn turns) (sequential cal) s idle)

  -- Storing: a key and a content, which were put, and no more to say.
  store-eq-ret :
      (key : Text) (content : Go Text Text) (w : W) (r : Bool × Option Response)
      → (store codec query digest kv (ret key) content w).0 ≡ ret r
      → (bytes : Text) × (content ≡ ret bytes)
        × ((kv.put key bytes w).0 ≡ ret tt)
        × (store codec query digest kv (ret key) content w
            ≡ (ret (false, none), (kv.put key bytes w).1))
  store-eq-ret key (ret bytes) w r e =
      let put_here = stored-put (kv.put key bytes w).0 (kv.put key bytes w).1 r e in
      (
        bytes,
        refl,
        put_here,
        ap (λ t. stored codec query digest kv (t, (kv.put key bytes w).1)) put_here,
      )
    where
      stored-put :
          (t : Go Text (Unit {0})) (w : W) (r : Bool × Option Response)
          → (stored codec query digest kv (t, w)).0 ≡ ret r
          → t ≡ ret tt
      stored-put (ret tt) w r e = refl
      stored-put (fail x) w r e = absurd (cc)
      stored-put panic w r e = absurd (cc)
  store-eq-ret key (fail x) w r e = absurd (cc)
  store-eq-ret key panic w r e = absurd (cc)

  -- Behind the round of the proxy: the request bears the output.
  abbrev pub ready_to_store : ShadowRequest → ShadowResponse → W → State W
  ready_to_store q out w = record { request = q; out = some out; tasks = []; world = w }

  -- The last round: the response that Cascade returns is the one that it had, and was stored.
  module _ (or q : ShadowRequest) (out : ShadowResponse) (key : Text)
      (keyed : original_key codec query digest kv template or.route_values (clone_request or [])
        ≡ ret key) where
    stored_case :
        (ts : List Turn) (t : CallResult) (w : W) (o : ShadowResponse)
        → ((b : Bool × Option Response) → t ≡ ret b → b ≡ (false, none))
        → (onward the_setter (rounds or ts []) or (t, ready_to_store q out w)).0 ≡ ret (some o)
        → (t ≡ ret (false, none))
          × (o.data_bytes ≡ out.data_bytes)
          × ((onward the_setter (rounds or ts []) or (t, ready_to_store q out w)).1.world ≡ w)
    unfolding rounds settle reset_response
    stored_case ts (ret (true, x)) w o shape e = let wrong = shape (true, x) refl in absurd (cc)
    stored_case ts (ret (false, some x)) w o shape e =
        let wrong = shape (false, some x) refl in absurd (cc)
    stored_case ts (ret (false, none)) w o shape e =
        (refl, ap (λ (r : ShadowResponse). r.data_bytes) (sym (some_inj (ret_inj e))), refl)
    stored_case ts (fail x) w o shape e = absurd (cc)
    stored_case ts panic w o shape e = absurd (cc)

    abbrev content_of : Go Text Text
    content_of = clone_request q [] >>= marshal codec

    pub last_round :
        (turns : List Turn) (w : W) (o : ShadowResponse)
        → (rounds or turns (the_setter ∷ []) (ready_to_store q out w)).0 ≡ ret (some o)
        → (bytes : Text) × (content_of ≡ ret bytes)
          × ((kv.put key bytes w).0 ≡ ret tt)
          × (o.data_bytes ≡ out.data_bytes)
          × ((rounds or turns (the_setter ∷ []) (ready_to_store q out w)).1.world
              ≡ (kv.put key bytes w).1)
    unfolding call_caller set_call
    last_round turns w o e =
        let tried = store codec query digest kv (ret key) content_of w in
        let path =
          rounds-onward or the_setter turns [] (ready_to_store q out w) refl
          ∙ ap
              (λ k.
                let (r, w') = store codec query digest kv k content_of w in
                onward the_setter (rounds or (later_turns turns) []) or
                  (r, ready_to_store q out w'))
              keyed in
        let (at, same_bytes, at_world) =
          stored_case (later_turns turns) tried.0 tried.1 o
            (λ b at.
              let (_, _, _, same) = store-eq-ret key content_of w b at in
              ret_inj (sym at ∙ ap (λ t. t.0) same))
            (sym (ap (λ t. t.0) path) ∙ e) in
        let (bytes, content, put_here, same) = store-eq-ret key content_of w (false, none) at in
        (
          bytes,
          content,
          put_here,
          same_bytes,
          ap (λ t. t.1.world) path ∙ at_world ∙ ap (λ t. t.1) same,
        )
