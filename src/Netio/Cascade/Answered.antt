-- ===== src/Netio/Cascade/Answered.antt =====
-- Cascades with a caller that always answers.
use mathlib.Core.Path.{subst}
use iceberg.Netio.Cascade.{await, round, rounds, run_tasks, perform, call_caller, go_on}
use iceberg.Netio.Response.{ShadowResponse, new_shandow_response}
use iceberg.Netio.Caller.{
  State, settle, Caller, publish, answer, Turn, internal, create_or_update_response, carried,
  feed_state, Cloner, next_turn, later_turns,
}
use iceberg.Netio.Request.{ShadowRequest, RequestUpdater, RouteValues, clone_request}
use iceberg.Netio.Message.{HttpError, Response, Context}
use iceberg.Common.{Bool, Option, ◌∙◌, ◌≡◌, some, List, true, ◌∷◌, none, ap, ◌++◌}
use iceberg.Common.{[], ◌∷◌, none, some, true, false, refl, sym}
use iceberg.Common.Go.{Go, ret, fail, panic, map_error}
use iceberg.Netio.Exec.{◌>>◌, lift, proceed, proceed-eq-ret, proceed_ret}
use iceberg.Netio.Cascade.Output.{SameOut-feed_state}
use iceberg.Netio.Cascade.Kept.{
  IsSome, KeepsOut-of_SameOut, KeepsOut-proceed, KeepsOut-bind, KeepsOut-lift, go_on-IsSome,
  rounds_kept, perform_of,
}

module _ {W : Type 0} where
  module _ (or : ShadowRequest) where
    -- A caller that is called in its turn and whose calls, where they return no error, return a
    -- response.
    pub record Answers (cal : Caller W) : Type 0 where
      pub sequential : cal.is_parallel ≡ false
      pub answers :
          (ctx : Context) (rv : RouteValues) (c o : Cloner) (w : W) (r : Bool × Option Response)
          → (cal.call ctx rv c o w).0 ≡ ret r
          → IsSome r.1

    published :
        (r : Go HttpError ShadowResponse) (us : List RequestUpdater) (s : State W)
        (a : ShadowResponse)
        → (proceed r (λ out. publish true out >> (feed_state out us >> lift (ret out))) s).0 ≡ ret a
        → IsSome
            (proceed r (λ out. publish true out >> (feed_state out us >> lift (ret out))) s).1.out
    published (ret out) us s a e =
        (KeepsOut-bind (feed_state out us) (λ _. lift (ret out))
            (KeepsOut-of_SameOut _ (SameOut-feed_state out us)) (λ _. KeepsOut-lift (ret out))).at
          (record s { out = some out }) (out, refl)
    published (fail _) us s a e = cc
    published panic us s a e = cc

    answer_published :
        (cal : Caller W) (us : List RequestUpdater) (out : Option ShadowResponse)
        (res : Option Response) (s : State W) (a : ShadowResponse)
        → (answer cal us true out res s).0 ≡ ret a
        → IsSome (answer cal us true out res s).1.out
    unfolding answer
    answer_published cal us out res s a e =
        published (create_or_update_response out res cal.response_updaters) us s a e

    call_returned :
        (cal : Caller W) (s : State W) (r : Bool × Option Response)
        → (call_caller or cal s).0 ≡ ret r
        → (cal.call cal.context or.route_values
            (clone_request s.request)
            (clone_request or)
            s.world).0
          ≡ ret r
    unfolding call_caller
    call_returned cal s r e = e

    settle_answered :
        (cal : Caller W) (r : Bool × Option Response) (s : State W)
        → IsSome r.1
        → (settle cal r s).0 ≡ ret none
        → IsSome (settle cal r s).1.out
    unfolding settle
    settle_answered cal (true, res) s h e =
        let (r, _, k) =
          proceed-eq-ret (map_error internal (new_shandow_response res)) (λ r. lift (ret (some r)))
            s none e in
        cc
    settle_answered cal (false, none) s (r, h) e = cc
    settle_answered cal (false, some res) s h e =
        let after = answer cal (carried cal) true s.out (some res) s in
        let (out, answered, _) = proceed-eq-ret after.0 (λ _. lift (ret none)) after.1 none e in
        (KeepsOut-proceed after.0 (λ _. lift (ret none)) (λ _. KeepsOut-lift (ret none))).at after.1
          (answer_published cal (carried cal) s.out (some res) s out answered)

    perform_answered :
        (cal : Caller W) (s : State W)
        → Answers cal
        → (perform or cal s).0 ≡ ret none
        → IsSome (perform or cal s).1.out
    perform_answered cal s a =
        subst (λ m. (m s).0 ≡ ret none → IsSome (m s).1.out) (sym (perform_of or cal a.sequential))
          (λ e.
            let called = call_caller or cal s in
            let (r, returned, same) = proceed_ret called.0 (settle cal) called.1 none e in
            subst (λ t. t.0 ≡ ret none → IsSome t.1.out) (sym same)
              (λ k.
                settle_answered cal r called.1
                  (a.answers _ _ _ _ _ r (call_returned cal s r returned)) k)
              e)

    round_answered :
        (turn : Turn) (cal : Caller W) (s : State W)
        → Answers cal
        → (round or turn cal s).0 ≡ ret none
        → IsSome (round or turn cal s).1.out
    unfolding round
    round_answered turn cal s a e =
        let ran = run_tasks or turn.runs s in
        let (_, _, same) =
          proceed_ret ran.0 (λ _. await or cal turn.expired >> perform or cal) ran.1 none e in
        let waited = await or cal turn.expired ran.1 in
        subst (λ t. t.0 ≡ ret none → IsSome t.1.out) (sym same)
          (λ k.
            let (_, _, then_same) = proceed_ret waited.0 (λ _. perform or cal) waited.1 none k in
            subst (λ t. t.0 ≡ ret none → IsSome t.1.out) (sym then_same)
              (perform_answered cal waited.1 a) k)
          e

    -- A cascade in which some caller, called in its turn, answers each call with a response does not
    -- return nil: it returns an error, panics, or returns a response, whatever the other callers do.
    pub rounds_answered :
        (turns : List Turn) (before after : List (Caller W)) (cal : Caller W) (s : State W)
        (o : Option ShadowResponse)
        → Answers cal
        → (rounds or turns (before ++ cal ∷ after) s).0 ≡ ret o
        → IsSome o
    unfolding rounds
    rounds_answered turns [] after cal s o a e =
        let rest = rounds or (later_turns turns) after in
        let here = round or (next_turn turns) cal s in
        let (done, returned, k) = proceed-eq-ret here.0 (go_on or rest) here.1 o e in
        go_on-IsSome or rest done here.1 o
          (λ e.
            rounds_kept or (later_turns turns) after here.1 o
              (round_answered (next_turn turns) cal s a (returned ∙ ap ret e)))
          k
    rounds_answered turns (c ∷ before) after cal s o a e =
        let rest = rounds or (later_turns turns) (before ++ cal ∷ after) in
        let here = round or (next_turn turns) c s in
        let (done, _, k) = proceed-eq-ret here.0 (go_on or rest) here.1 o e in
        go_on-IsSome or rest done here.1 o
          (λ _. rounds_answered (later_turns turns) before after cal here.1 o a) k
