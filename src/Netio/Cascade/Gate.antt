-- ===== src/Netio/Cascade/Gate.antt =====
-- A cascade whose first caller lets nothing pass.
use iceberg.Netio.Cascade.{
  rounds, round, run_tasks, await, await_from, call_caller, settle, go_on, start, run_copy,
  run_marked, cascade, copy_original,
}
use iceberg.Netio.Cascade.Schedule.{round-Idle}
use iceberg.Netio.Caller.{
  Caller, CallResult, Cloner, Turn, State, next_turn, later_turns, settle, request_id,
}
use iceberg.Netio.Exec.{proceed}
use iceberg.Netio.Header.{Header, header_add}
use iceberg.Netio.Message.{Response, Context, HttpError}
use iceberg.Netio.Request.{ShadowRequest, set_header, clone_request, clone_shadow_request}
use iceberg.Netio.Response.{ShadowResponse}
use mathlib.Core.Path.{subst}
use iceberg.Common.{
  List, [], ◌∷◌, Option, some, Bool, false, ◌≡◌, ◌≢◌, refl, sym, ap, ◌⊎◌, inl, inr,
}
use iceberg.Common.Go.{Go, ret, fail, panic, ret_inj}
use iceberg.Common.Text.{Text, text_eq}

-- A caller that is neither parallel nor awaits a task.
abbrev pub sequential : {W : Type 0} → Caller W → Caller W
sequential c = record c { is_parallel = false; await_list = [] }

abbrev pub Ended : Type 0 → Type 0
Ended W = Go HttpError (Option ShadowResponse) × State W

-- The one run is the other, and it returns an error or panics.
abbrev pub Stops : {W : Type 0} → Ended W → Ended W → Type 0
Stops a b = (a ≡ b) × ((o : Option ShadowResponse) → a.0 ≢ ret o)

copy_original-route_values :
    (request or : ShadowRequest)
    → copy_original request ≡ ret or
    → or.route_values ≡ request.route_values
copy_original-route_values request or = of_clone (clone_shadow_request request [])
  where
    of_clone :
        (clone : Go Text ShadowRequest)
        → ◌≡◌ {A = Go HttpError ShadowRequest}
            (elim clone [
              | ret or ↦ ret (record or { route_values = request.route_values })
              | fail e ↦ panic
              | panic ↦ panic
            ])
            (ret or)
        → or.route_values ≡ request.route_values
    of_clone (ret copy) e = ap (λ (s : ShadowRequest). s.route_values) (sym (ret_inj e))
    of_clone (fail x) e = absurd (cc)
    of_clone panic e = absurd (cc)

module _ {W : Type 0} where
  module _ (gate : Caller W) (P : Type 0) (world : W) (asked : ShadowRequest)
      (opens : (ctx : Context) (o : Cloner) (r : Bool × Option Response)
        → (gate.call ctx asked.route_values (clone_request asked) o world).0 ≡ ret r
        → P) where
    module _ (or : ShadowRequest) (turns : List Turn)
        (same : or.route_values ≡ asked.route_values) where
      after : CallResult × State W → List (Caller W) → Ended W
      after (r, s) cals =
          let (done, s') = proceed r (settle gate) s in
          proceed done (go_on or (rounds or (later_turns turns) cals)) s'

      rounds-after :
          (cals : List (Caller W))
          → rounds or turns (sequential gate ∷ cals) (start asked world)
            ≡ after (call_caller or gate (start asked world)) cals
      unfolding rounds round run_tasks await await_from call_caller after
      rounds-after cals =
          ap (λ t. proceed t.0 (go_on or (rounds or (later_turns turns) cals)) t.1)
            (round-Idle or (next_turn turns) (sequential gate) (start asked world) refl)

      by_result :
          (cals : List (Caller W)) (r : CallResult) (s : State W)
          → ((b : Bool × Option Response) → r ≡ ret b → P)
          → P ⊎ Stops (after (r, s) cals) (after (r, s) [])
      unfolding after
      by_result cals (ret b) s h = inl (h b refl)
      by_result cals (fail e) s h = inr (refl, λ o e. cc)
      by_result cals panic s h = inr (refl, λ o e. cc)

      opens_call :
          (b : Bool × Option Response) → (call_caller or gate (start asked world)).0 ≡ ret b → P
      unfolding call_caller
      opens_call b e = opens gate.context (clone_request or) b (
          subst
            (λ rv.
              (gate.call gate.context rv (clone_request asked) (clone_request or) world).0 ≡ ret b)
            same e)

      rounds_gated :
          (cals : List (Caller W))
          → P
            ⊎ Stops
                (rounds or turns (sequential gate ∷ cals) (start asked world))
                (rounds or turns (sequential gate ∷ []) (start asked world))
      rounds_gated cals =
          subst (λ a. P ⊎ Stops a (rounds or turns (sequential gate ∷ []) (start asked world)))
            (sym (rounds-after cals))
            (subst (λ b. P ⊎ Stops (after (call_caller or gate (start asked world)) cals) b)
              (sym (rounds-after [])) (by_result cals _ _ opens_call))

    copy_gated :
        (turns : List Turn) (cals : List (Caller W)) (copy : Go HttpError ShadowRequest)
        → copy_original asked ≡ copy
        → P
          ⊎ Stops
              (run_copy turns asked (sequential gate ∷ cals) world copy)
              (run_copy turns asked (sequential gate ∷ []) world copy)
    copy_gated turns cals (ret or) e =
        rounds_gated or turns (copy_original-route_values asked or e) cals
    copy_gated turns cals (fail x) e = inr (refl, λ o e. cc)
    copy_gated turns cals panic e = inr (refl, λ o e. cc)

  module _ (gate : Caller W) (P : Type 0) (world : W) (request : ShadowRequest) where
    -- P follows where the first caller returns on the request with the header `h`.
    abbrev pub Opens : Header → Type 0
    Opens h =
        (ctx : Context) (o : Cloner) (r : Bool × Option Response)
        → (gate.call ctx request.route_values (clone_request (set_header request h)) o world).0
          ≡ ret r
        → P

    marked_gated :
        (turns : List Turn) (cals : List (Caller W)) (marked : Go HttpError Header)
        → ((h : Header) → marked ≡ ret h → Opens h)
        → P
          ⊎ Stops
              (run_marked turns request (sequential gate ∷ cals) world marked)
              (run_marked turns request (sequential gate ∷ []) world marked)
    marked_gated turns cals (ret h) opens =
        copy_gated gate P world (set_header request h) (opens h refl) turns cals _ refl
    marked_gated turns cals (fail e) opens = inr (refl, λ o e. cc)
    marked_gated turns cals panic opens = inr (refl, λ o e. cc)

    -- Either the first caller returns on the request, marked with its identifier, which P follows from,
    -- or the cascade runs as if no caller stood behind it, and returns an error or panics.
    pub cascade_gated :
        (uuid : Text) (turns : List Turn) (cals : List (Caller W))
        → ((h : Header)
            → header_add {E = HttpError} request.request.header request_id uuid ≡ ret h
            → Opens h)
        → P
          ⊎ Stops
              (cascade uuid turns request (some (sequential gate ∷ cals)) world)
              (cascade uuid turns request (some (sequential gate ∷ [])) world)
    unfolding cascade
    cascade_gated uuid turns cals opens = marked_gated turns cals _ opens
