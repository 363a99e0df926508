-- ===== src/Filters/Nats/Callbacks.antt =====
-- The cascade that a NATS message starts, where it calls an HTTP filter.
use iceberg.Netio.Response.{ShadowResponse}
use iceberg.Common.Go.{◌>>=◌}
use iceberg.Netio.Exec.{Exec, proceed}
use mathlib.Core.Path.{subst}
use iceberg.Nats.Broker.{Msg}
use iceberg.Netio.Message.{Request, Response, new_request, reader, read_all, HttpError}
use iceberg.Netio.Request.{
  clone_request, clone_shadow_request, copied, apply_options, with_url, new_shadow_request,
  ShadowRequest,
}
use iceberg.Netio.Clone.{clone_url}
use iceberg.Netio.Header.{header_add}
use iceberg.Netio.Caller.{Caller, Turn, next_turn, State}
use iceberg.Netio.Cascade.{cascade, rounds, round, run_tasks, await, await_from, call_caller, start}
use iceberg.Netio.Cascade.Schedule.{round-Idle}
use iceberg.Netio.Written.{add_all-some}
use iceberg.Filters.Filter.{Filter}
use iceberg.Filters.Http.{http_filter, filter_call}
use iceberg.Filters.Message.{msg_to_request}
use iceberg.Filters.Nats.{HeadersLib, run_callbacks, run_request, finished}
use iceberg.Common.{List, [], ◌∷◌, Option, some, false, ◌≡◌, refl, sym, ap, ◌∙◌}
use iceberg.Common.Go.{Go, ret, fail, panic}
use iceberg.Common.Text.{Text, text_eq}
use iceberg.Common.Map.{Map}

-- A request without a URL.
abbrev without_url : Map Text (List Text) → Text → ShadowRequest
without_url h body = record {
  request = record new_request { header = some h; body = reader body };
  route_values = [];
  data_bytes = body;
}

abbrev in_turn : {W : Type 0} → Filter W → Filter W
in_turn f = record f { parallel = false; await_list = [] }

proceed-panic :
    {S E A B : Type 0} (r : Go E A) (k : A → Exec S E B) (s : S)
    → r ≡ panic
    → (proceed r k s).0 ≡ panic
proceed-panic r k s e = ap (λ r. (proceed r k s).0) e

module _ {W : Type 0} (send : Request → W → Go Text Response × W) where
  round-http_filter :
      (or : ShadowRequest) (turn : Turn) (f : Filter W) (h : Map Text (List Text)) (body : Text)
      (w : W)
      → (round or turn (http_filter send (in_turn f)) (start (without_url h body) w)).0 ≡ panic
  unfolding round run_tasks await await_from call_caller http_filter filter_call clone_request
      copied apply_options with_url clone_url
  round-http_filter or turn f h body w =
      ap (λ t. t.0)
        (round-Idle or turn (http_filter send (in_turn f)) (start (without_url h body) w) refl)

  cascade-http_filter :
      (f : Filter W) (cals : List (Caller W)) (uuid : Text) (turns : List Turn)
      (h : Map Text (List Text)) (body : Text) (w : W)
      → (cascade uuid turns (without_url h body) (some (http_filter send (in_turn f) ∷ cals)) w).0
        ≡ panic
  unfolding cascade rounds header_add clone_shadow_request apply_options new_shadow_request read_all
      copied
  cascade-http_filter f cals uuid turns h body w =
      proceed-panic _ _ _ (round-http_filter _ (next_turn turns) f _ body w)

module _ (atoi_error : Text → Text) (headers : HeadersLib) {W : Type 0}
    (send : Request → W → Go Text Response × W) where
  finished-panic :
      (out : Go HttpError (Option ShadowResponse) × State W)
      → out.0 ≡ panic
      → (finished atoi_error headers out).0 ≡ panic
  finished-panic (ret _, s) e = absurd (cc)
  finished-panic (fail _, s) e = absurd (cc)
  finished-panic (panic, s) e = refl

  -- The callbacks of a NATS filter panic, which ends the program, where the first of its own callers
  -- is an HTTP filter that is neither parallel nor awaits a task: the request that is made of a
  -- message has no URL for the filter to write to.
  pub run_callbacks-http_filter :
      (f : Filter W) (cals : List (Caller W)) (m : Msg) (uuid : Text) (turns : List Turn) (w : W)
      → f.parallel ≡ false
      → f.await_list ≡ []
      → (run_callbacks atoi_error headers (http_filter send f ∷ cals) m uuid turns w).0 ≡ panic
  unfolding run_callbacks msg_to_request new_shadow_request read_all
  run_callbacks-http_filter f cals m uuid turns w sequential awaits =
      let (h, added) = add_all-some m.header [] in
      let in_turn_same : in_turn f ≡ f =
        λ i. record f { parallel = sym sequential i; await_list = sym awaits i } in
      subst
        (λ g.
          (run_callbacks atoi_error headers (http_filter send g ∷ cals) m uuid turns w).0 ≡ panic)
        in_turn_same
        (ap
            (λ r.
              (run_request atoi_error headers (http_filter send (in_turn f) ∷ cals) uuid turns w (
                r >>= λ header.
                new_shadow_request
                  (record new_request { header = header; body = reader m.body }))).0)
            added
          ∙ finished-panic _ (cascade-http_filter send f cals uuid turns h m.body w))
