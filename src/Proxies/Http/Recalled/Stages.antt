-- ===== src/Proxies/Http/Recalled/Stages.antt =====
-- What a round that returned leaves, of the proxy and of the caller that stores its response.
use iceberg.Netio.Caller.{
  Caller, CallResult, M, Turn, State, answer, carried, create_or_update_response, feed, feed_state,
  publish, put_request, settle,
}
use iceberg.Netio.Cascade.{rounds, go_on, start, run_copy, run_marked}
use iceberg.Netio.Exec.{proceed, lift, ◌>>=◌}
use iceberg.Netio.Header.{Header}
use iceberg.Netio.Message.{Response, HttpError}
use iceberg.Netio.Request.{ShadowRequest, RequestUpdater, set_header}
use iceberg.Netio.Response.{ShadowResponse}
use iceberg.Proxies.Http.Cached.{copy_of, copy_original_lem}
use iceberg.Common.{List, Option, none, some, Bool, true, false, ◌≡◌, refl, ap, ◌∙◌}
use iceberg.Common.Go.{Go, ret, fail, panic}
use iceberg.Common.Text.{text_eq}

-- The cascade of a request that returned went through the rounds.
pub marked_rounds :
    {W : Type 0} (turns : List Turn) (request : ShadowRequest) (cals : List (Caller W)) (w : W)
    (m : Go HttpError Header) (o : Option ShadowResponse)
    → (run_marked turns request cals w m).0 ≡ ret o
    → (h : Header) × (run_marked turns request cals w m
        ≡ rounds (copy_of (set_header request h)) turns cals (start (set_header request h) w))
marked_rounds turns request cals w (ret h) o e = (
  h,
  ap (run_copy turns (set_header request h) cals w) (copy_original_lem (set_header request h)),
)
marked_rounds turns request cals w (fail x) o e = absurd (cc)
marked_rounds turns request cals w panic o e = absurd (cc)

module _ {W : Type 0} where
  -- The rest of a round and what follows it, behind the result of a call.
  abbrev pub onward :
      Caller W
      → M W (Option ShadowResponse)
      → ShadowRequest
      → CallResult × State W
      → Go HttpError (Option ShadowResponse) × State W
  onward cal rest or (r, s) =
      let (done, s') = proceed r (settle cal) s in proceed done (go_on or rest) s'

  feed_case :
      (f : Go HttpError ShadowRequest) (s : State W) (out a : ShadowResponse)
      → ((lift f >>= put_request >>= λ _. lift (ret out)) s).0 ≡ ret a
      → (q : ShadowRequest) × (f ≡ ret q)
        × ((lift f >>= put_request >>= λ _. lift (ret out)) s ≡ (ret out, record s { request = q }))
  feed_case (ret q) s out a e = (q, refl, refl)
  feed_case (fail x) s out a e = absurd (cc)
  feed_case panic s out a e = absurd (cc)

  made_case :
      (m : Go HttpError ShadowResponse) (us : List RequestUpdater) (s : State W)
      (a : ShadowResponse)
      → let run = λ (m : Go HttpError ShadowResponse).
        (lift m >>= λ out. publish true out >>= λ _. feed_state out us >>= λ _. lift (ret out)) s in
        (run m).0 ≡ ret a
        → (q : ShadowRequest) × (out : ShadowResponse) × (feed s.request out us ≡ ret q)
          × (run m ≡ (ret out, record s { request = q; out = some out }))
  made_case (ret out) us s a e =
      let (q, fed, same) =
        feed_case (feed s.request out us) (record s { out = some out }) out a e in
      (q, out, fed, same)
  made_case (fail x) us s a e = absurd (cc)
  made_case panic us s a e = absurd (cc)

  answer-eq-ret :
      (cal : Caller W) (us : List RequestUpdater) (res : Option Response) (s : State W)
      (a : ShadowResponse)
      → (answer cal us true none res s).0 ≡ ret a
      → (q : ShadowRequest) × (out : ShadowResponse) × (feed s.request out us ≡ ret q)
        × (answer cal us true none res s ≡ (ret out, record s { request = q; out = some out }))
  unfolding answer
  answer-eq-ret cal us res s a e =
      made_case (create_or_update_response none res cal.response_updaters) us s a e

  module _ (or : ShadowRequest) (rest : M W (Option ShadowResponse))
      (o : Option ShadowResponse) where
    abbrev after_answer :
        Go HttpError ShadowResponse × State W → Go HttpError (Option ShadowResponse) × State W
    after_answer (r, s) =
        let (done, s') = proceed r (λ _. lift (ret none)) s in proceed done (go_on or rest) s'

    after_answer-eq-ret :
        (r : Go HttpError ShadowResponse) (s : State W)
        → (after_answer (r, s)).0 ≡ ret o
        → (a : ShadowResponse) × (r ≡ ret a) × (after_answer (r, s) ≡ rest s)
    after_answer-eq-ret (ret a) s e = (a, refl, refl)
    after_answer-eq-ret (fail x) s e = absurd (cc)
    after_answer-eq-ret panic s e = absurd (cc)

    -- A call that answers with a response, the first of the cascade.
    answered-eq-ret :
        (cal : Caller W) (b : Bool × Option Response) (res : Response) (request : ShadowRequest)
        (w : W)
        → b ≡ (false, some res)
        → (onward cal rest or (ret b, start request w)).0 ≡ ret o
        → (q : ShadowRequest) × (out : ShadowResponse) × (feed request out (carried cal) ≡ ret q)
          × (onward cal rest or (ret b, start request w)
              ≡ rest (record (start request w) { request = q; out = some out }))
    unfolding settle
    answered-eq-ret cal (true, x) res request w shape e = absurd (cc)
    answered-eq-ret cal (false, none) res request w shape e = absurd (cc)
    answered-eq-ret cal (false, some x) res request w shape e =
        let run = answer cal (carried cal) true none (some x) (start request w) in
        let (a, ran, whole) = after_answer-eq-ret run.0 run.1 e in
        let (q, out, fed, same) =
          answer-eq-ret cal (carried cal) (some x) (start request w) a ran in
        (q, out, fed, whole ∙ ap (λ t. rest t.1) same)

    pub onward-eq-ret :
        (cal : Caller W) (r : CallResult) (request : ShadowRequest) (w : W)
        → ((b : Bool × Option Response) → r ≡ ret b → (res : Response) × (b ≡ (false, some res)))
        → (onward cal rest or (r, start request w)).0 ≡ ret o
        → (q : ShadowRequest) × (out : ShadowResponse) × (feed request out (carried cal) ≡ ret q)
          × (onward cal rest or (r, start request w)
              ≡ rest (record (start request w) { request = q; out = some out }))
    onward-eq-ret cal (ret b) request w shape e =
        let (res, at) = shape b refl in answered-eq-ret cal b res request w at e
    onward-eq-ret cal (fail x) request w shape e = absurd (cc)
    onward-eq-ret cal panic request w shape e = absurd (cc)
