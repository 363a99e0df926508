-- ===== src/Netio/Cascade/InOrder.antt =====
-- Cascades without parallel callers do what the reference of Spec does, under every schedule.
pub mod Spec
use Spec.{
  Outcome, Rest, fed, updated, final, taken, called, one_by_one, from_copy, from_marked, in_order,
}
use iceberg.Netio.Caller.{
  Caller, CallResult, M, Turn, State, answer, carried, create_or_update_response, feed, feed_state,
  internal, publish, put_request, settle, is_some, next_turn, later_turns,
}
use iceberg.Netio.Cascade.{
  rounds, round, run_tasks, await, await_from, receive, perform, call_caller, go_on, cascade, start,
  run_copy, run_marked, copy_original,
}
use iceberg.Netio.Cascade.Kept.{perform_of}
use iceberg.Netio.Cascade.Schedule.{Sequential, cascade-Sequential}
use iceberg.Netio.Exec.{proceed, lift, ◌>>=◌, ◌>>◌}
use iceberg.Netio.Header.{Header, header_add}
use iceberg.Netio.Message.{HttpError, Response}
use iceberg.Netio.Request.{ShadowRequest, RequestUpdater, clone_request, set_header}
use iceberg.Netio.Response.{ShadowResponse, new_shandow_response}
use iceberg.Common.{List, [], ◌∷◌, Option, none, some, Bool, true, false, ◌≡◌, refl, ap, ◌∙◌, All}
use iceberg.Common.Go.{Go, ret, fail, panic, map_error}
use iceberg.Common.Map.{get}
use iceberg.Common.Text.{Text}

module _ {W : Type 0} where
  abbrev pub outcome_of : Go HttpError (Option ShadowResponse) × State W → Outcome W
  outcome_of (r, s) = (r, s.request, s.world)

  -- A state without tasks.
  abbrev idle : ShadowRequest → Option ShadowResponse → W → State W
  idle request out world = record { request = request; out = out; tasks = []; world = world }

  module _ (or : ShadowRequest) (cal : Caller W) (left : M W (Option ShadowResponse))
      (rest : Rest W)
      (agree : (q : ShadowRequest) (out : Option ShadowResponse) (w : W)
        → outcome_of (left (idle q out w)) ≡ rest q out w) where
    abbrev closing : Go HttpError (Option ShadowResponse) × State W → Outcome W
    closing (done, s) = outcome_of (proceed done (go_on or left) s)

    abbrev closing_answer : Go HttpError ShadowResponse × State W → Outcome W
    closing_answer (r, s) = closing (proceed r (λ _. lift (ret none)) s)

    closing-fed :
        (f : Go HttpError ShadowRequest) (q : ShadowRequest) (out : ShadowResponse) (w : W)
        → closing_answer ((lift f >>= put_request >>= λ _. lift (ret out)) (idle q (some out) w))
          ≡ fed rest out f q w
    closing-fed (ret q') q out w = agree q' (some out) w
    closing-fed (fail e) q out w = refl
    closing-fed panic q out w = refl

    closing-updated :
        (m : Go HttpError ShadowResponse) (q : ShadowRequest) (out : Option ShadowResponse) (w : W)
        → closing_answer (
            (lift m >>= λ out'.
            publish true out' >>= λ _. feed_state out' (carried cal) >>= λ _. lift (ret out'))
              (idle q out w))
          ≡ updated cal rest m q w
    closing-updated (ret out') q out w = closing-fed (feed q out' (carried cal)) q out' w
    closing-updated (fail e) q out w = refl
    closing-updated panic q out w = refl

    closing-final :
        (m : Go Text ShadowResponse) (q : ShadowRequest) (out : Option ShadowResponse) (w : W)
        → closing ((lift (map_error internal m) >>= λ r. lift (ret (some r))) (idle q out w))
          ≡ final m q w
    closing-final (ret res) q out w = refl
    closing-final (fail e) q out w = refl
    closing-final panic q out w = refl

    closing-taken :
        (r : CallResult) (q : ShadowRequest) (out : Option ShadowResponse) (w : W)
        → closing (proceed r (settle cal) (idle q out w)) ≡ taken cal rest r q out w
    unfolding settle answer
    closing-taken (ret (true, res)) q out w = closing-final (new_shandow_response res) q out w
    closing-taken (ret (false, none)) q out w = agree q out w
    closing-taken (ret (false, some res)) q out w =
        closing-updated (create_or_update_response out (some res) cal.response_updaters) q out w
    closing-taken (fail e) q out w = refl
    closing-taken panic q out w = refl

    closing-called :
        Sequential cal
        → (shared : Bool) (waits : List Text) (q : ShadowRequest) (out : Option ShadowResponse)
          (w : W)
        → closing ((await_from or cal [] shared out waits >>= λ _. perform or cal) (idle q out w))
          ≡ called or cal rest waits q out w
    unfolding await_from receive call_caller get
    closing-called e shared [] q out w =
        ap (λ m. closing (m (idle q out w))) (perform_of or cal e) ∙ closing-taken _ q out _
    closing-called e shared (_ ∷ _) q out w = refl

  rounds-one_by_one :
      (or : ShadowRequest) (cals : List (Caller W)) (q : ShadowRequest)
      (out : Option ShadowResponse) (w : W)
      → All Sequential cals
      → outcome_of (rounds or [] cals (idle q out w)) ≡ one_by_one or cals q out w
  unfolding rounds one_by_one round run_tasks await
  rounds-one_by_one or [] q out w a = refl
  rounds-one_by_one or (cal ∷ cals) q out w (e, a) =
      closing-called or cal (rounds or [] cals) (one_by_one or cals)
        (λ q out w. rounds-one_by_one or cals q out w a) e (is_some out) cal.await_list q out w

  run_copy-from_copy :
      (c : Go HttpError ShadowRequest) (cals : List (Caller W)) (q : ShadowRequest) (w : W)
      → All Sequential cals
      → outcome_of (run_copy [] q cals w c) ≡ from_copy c cals q w
  run_copy-from_copy (ret or) cals q w a = rounds-one_by_one or cals q none w a
  run_copy-from_copy (fail e) cals q w a = refl
  run_copy-from_copy panic cals q w a = refl

  run_marked-from_marked :
      (m : Go HttpError Header) (cals : List (Caller W)) (q : ShadowRequest) (w : W)
      → All Sequential cals
      → outcome_of (run_marked [] q cals w m) ≡ from_marked m cals q w
  run_marked-from_marked (ret h) cals q w a =
      run_copy-from_copy (copy_original (set_header q h)) cals (set_header q h) w a
  run_marked-from_marked (fail e) cals q w a = refl
  run_marked-from_marked panic cals q w a = refl

  -- Without parallel callers Cascade does what the reference in_order does, which calls them one
  -- behind the other: what it returns, the request that it leaves and what became of the world are
  -- the same, whatever the scheduler and the clock do, panics and errors included. A caller that
  -- awaits a task ends it with the error of a task that is not found.
  pub cascade-in_order :
      (uuid : Text) (turns : List Turn) (request : ShadowRequest) (cals : List (Caller W))
      (world : W)
      → All Sequential cals
      → outcome_of (cascade uuid turns request (some cals) world) ≡ in_order uuid request cals world
  unfolding cascade
  cascade-in_order uuid turns request cals world a =
      ap outcome_of (cascade-Sequential uuid turns request cals world a)
      ∙ run_marked-from_marked _ cals request world a
