-- ===== src/Netio/Cascade/Kept.antt =====
-- Whether the actions of a cascade keep its output.
use mathlib.Core.Path.{subst}
use iceberg.Common.Text.{Text}
use iceberg.Netio.Cascade.{
  await, await_from, receive, round, rounds, run_tasks, perform, call_caller, go_on,
}
use iceberg.Netio.Response.{ShadowResponse, new_shandow_response, reset_response}
use iceberg.Netio.Caller.{
  M, State, settle, Caller, publish, is_some, answer, Turn, internal, create_or_update_response,
  carried, feed_state, spin, next_turn, later_turns,
}
use iceberg.Netio.Request.{ShadowRequest, RequestUpdater}
use iceberg.Netio.Message.{HttpError, Response}
use iceberg.Common.{
  Bool, Option, ◌∙◌, ◌≡◌, some, List, true, ◌∷◌, none, Bool-cases, inl, inr, arith, ap,
}
use iceberg.Common.{[], ◌∷◌, none, some, true, false, refl, sym, if◌then◌else◌}
use iceberg.Common.Go.{Go, ret, fail, panic, map_error}
use iceberg.Netio.Exec.{◌>>=◌, ◌>>◌, lift, proceed, proceed-eq-ret}
use iceberg.Netio.Cascade.Output.{
  SameOut, SameOut-run_tasks, SameOut-receive, SameOut-feed_state, SameOut-call_caller,
}

abbrev pub IsSome {ℓ} : {A : Type ℓ} → Option A → Type ℓ
IsSome {A} o = (a : A) × (o ≡ some a)

module _ {W : Type 0} where
  -- An output is kept, however the action ends.
  pub record KeepsOut {A : Type 0} (m : M W A) : Type 0 where
    pub at : (s : State W) → IsSome s.out → IsSome (m s).1.out

  pub KeepsOut-of_SameOut : {A : Type 0} (m : M W A) → SameOut m → KeepsOut m
  KeepsOut-of_SameOut m h = record { at = λ s (o, e). (o, h.at s ∙ e) }

  pub KeepsOut-proceed :
      {A B : Type 0} (r : Go HttpError A) (f : A → M W B)
      → ((a : A) → KeepsOut (f a))
      → KeepsOut (proceed r f)
  KeepsOut-proceed (ret a) f k = record { at = λ s. (k a).at s }
  KeepsOut-proceed (fail e) f k = record { at = λ s h. h }
  KeepsOut-proceed panic f k = record { at = λ s h. h }

  pub KeepsOut-bind :
      {A B : Type 0} (m : M W A) (f : A → M W B)
      → KeepsOut m
      → ((a : A) → KeepsOut (f a))
      → KeepsOut (m >>= f)
  KeepsOut-bind m f h k = record {
    at = λ s o. (KeepsOut-proceed (m s).0 f k).at (m s).1 (h.at s o);
  }

  pub KeepsOut-lift : {A : Type 0} (r : Go HttpError A) → KeepsOut (lift r)
  KeepsOut-lift r = record { at = λ s h. h }

  KeepsOut-publish : (shared : Bool) (out : ShadowResponse) → KeepsOut (publish {W = W} shared out)
  KeepsOut-publish true out = record { at = λ s h. (out, refl) }
  KeepsOut-publish false out = record { at = λ s h. h }

  KeepsOut-answer :
      (cal : Caller W) (us : List RequestUpdater) (shared : Bool) (out : Option ShadowResponse)
      (res : Option Response)
      → KeepsOut (answer cal us shared out res)
  unfolding answer
  KeepsOut-answer cal us shared out res = record {
    at = λ s.
        (KeepsOut-proceed (create_or_update_response out res cal.response_updaters)
            (λ out'. publish shared out' >> (feed_state out' us >> lift (ret out')))
            (λ out'.
              KeepsOut-bind (publish shared out') (λ _. feed_state out' us >> lift (ret out'))
                (KeepsOut-publish shared out')
                (λ _.
                  KeepsOut-bind (feed_state out' us) (λ _. lift (ret out'))
                    (KeepsOut-of_SameOut _ (SameOut-feed_state out' us))
                    (λ _. KeepsOut-lift (ret out'))))).at
          s;
  }

  module _ (or : ShadowRequest) where
    KeepsOut-await_from :
        (cal : Caller W) (expired : List Text) (shared : Bool) (out : Option ShadowResponse)
        (tasks : List Text)
        → KeepsOut (await_from or cal expired shared out tasks)
    unfolding await_from
    KeepsOut-await_from cal expired shared out [] = KeepsOut-lift (ret tt)
    KeepsOut-await_from cal expired shared out (task ∷ tasks) =
        KeepsOut-bind (receive or expired task)
          (λ res. answer cal cal.request_updaters shared out res >>= λ out'.
            await_from or cal expired shared (some out') tasks)
          (KeepsOut-of_SameOut _ (SameOut-receive or expired task))
          (λ res.
            KeepsOut-bind (answer cal cal.request_updaters shared out res)
              (λ out'. await_from or cal expired shared (some out') tasks)
              (KeepsOut-answer cal cal.request_updaters shared out res)
              (λ out'. KeepsOut-await_from cal expired shared (some out') tasks))

    KeepsOut-await : (cal : Caller W) (expired : List Text) → KeepsOut (await or cal expired)
    unfolding await
    KeepsOut-await cal expired = record {
      at = λ s. (KeepsOut-await_from cal expired (is_some s.out) s.out cal.await_list).at s;
    }

    KeepsOut-settle : (cal : Caller W) (r : Bool × Option Response) → KeepsOut (settle cal r)
    unfolding settle
    KeepsOut-settle cal (true, res) = record {
      at = λ s.
          (KeepsOut-proceed (map_error internal (new_shandow_response res))
              (λ r. lift (ret (some r))) (λ r. KeepsOut-lift (ret (some r)))).at
            s;
    }
    KeepsOut-settle cal (false, none) = record { at = λ s h. h }
    KeepsOut-settle cal (false, some res) = record {
      at = λ s.
          (KeepsOut-bind (answer cal (carried cal) true s.out (some res)) (λ _. lift (ret none))
              (KeepsOut-answer cal (carried cal) true s.out (some res))
              (λ _. KeepsOut-lift (ret none))).at
            s;
    }

    pub perform_of :
        (cal : Caller W) {b : Bool}
        → cal.is_parallel ≡ b
        → perform or cal
          ≡ (if b then spin cal >> lift (ret none) else call_caller or cal >>= settle cal)
    perform_of cal e =
        ap (λ b. if b then spin cal >> lift (ret none) else call_caller or cal >>= settle cal) e

    KeepsOut-spin : (cal : Caller W) → KeepsOut (spin cal)
    unfolding spin
    KeepsOut-spin cal = record { at = λ s h. h }

    KeepsOut-perform : (cal : Caller W) → KeepsOut (perform or cal)
    KeepsOut-perform cal = elim (Bool-cases cal.is_parallel) [
      | inl parallel ↦ subst KeepsOut (sym (perform_of cal parallel)) (
          KeepsOut-bind (spin cal) (λ _. lift (ret none)) (KeepsOut-spin cal)
            (λ _. KeepsOut-lift (ret none)))
      | inr sequential ↦ subst KeepsOut (sym (perform_of cal sequential)) (
          KeepsOut-bind (call_caller or cal) (settle cal)
            (KeepsOut-of_SameOut _ (SameOut-call_caller or cal)) (KeepsOut-settle cal))
    ]

    KeepsOut-round : (turn : Turn) (cal : Caller W) → KeepsOut (round or turn cal)
    unfolding round
    KeepsOut-round turn cal =
        KeepsOut-bind (run_tasks or turn.runs) (λ _. await or cal turn.expired >> perform or cal)
          (KeepsOut-of_SameOut _ (SameOut-run_tasks or turn.runs))
          (λ _.
            KeepsOut-bind (await or cal turn.expired) (λ _. perform or cal)
              (KeepsOut-await cal turn.expired) (λ _. KeepsOut-perform cal))

    pub go_on-IsSome :
        (rest : M W (Option ShadowResponse)) (done : Option ShadowResponse) (s : State W)
        (o : Option ShadowResponse)
        → (done ≡ none → (rest s).0 ≡ ret o → IsSome o)
        → (go_on or rest done s).0 ≡ ret o
        → IsSome o
    go_on-IsSome rest (some res) s o ih e = (res, cc)
    go_on-IsSome rest none s o ih e = ih refl e

    pub rounds_kept :
        (turns : List Turn) (cals : List (Caller W)) (s : State W) (o : Option ShadowResponse)
        → IsSome s.out
        → (rounds or turns cals s).0 ≡ ret o
        → IsSome o
    unfolding rounds
    rounds_kept turns [] s o (r, h) e = (reset_response r, ground arith)
    rounds_kept turns (cal ∷ cals) s o h e =
        let turn = next_turn turns in
        let rest = rounds or (later_turns turns) cals in
        let (done, returned, k) =
          proceed-eq-ret (round or turn cal s).0 (go_on or rest) (round or turn cal s).1 o e in
        go_on-IsSome rest done (round or turn cal s).1 o
          (λ _.
            rounds_kept (later_turns turns) cals (round or turn cal s).1 o
              ((KeepsOut-round turn cal).at s h))
          k
