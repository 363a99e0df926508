-- ===== src/Netio/Cascade/Fed.antt =====
-- Properties of the request that all rounds of a cascade keep.
pub mod Tasks
pub use Tasks.{OfRequest, Feeds, FeedsBoth}
use Tasks.{Keeps-answer, Keeps-settle, Keeps-spin, Keeps-run_tasks, Keeps-receive}
use iceberg.Netio.Header.{Header}
use iceberg.Netio.Exec.{◌>>=◌, ◌>>◌, lift, proceed}
use iceberg.Netio.Keeps.{Keeps, Keeps-lift, Keeps-proceed, Keeps-bind}
use iceberg.Netio.Caller.{
  Caller, M, State, Task, Turn, pending, ready, closed, answer, publish, feed, feed_state,
  put_request, set_task, spin, settle, carried, deliver, create_or_update_response, internal,
  listed, is_some, deadline_exceeded, next_turn, later_turns,
}
use iceberg.Netio.Cascade.{
  call_caller, run_task, run_found, run_tasks, receive_from, receive_found, receive, await_from,
  await, perform, round, go_on, rounds, start, run_copy, run_marked, cascade,
}
use iceberg.Netio.Message.{Response, HttpError}
use iceberg.Netio.Request.{ShadowRequest, RequestUpdater, set_header}
use iceberg.Netio.Response.{ShadowResponse, new_shandow_response}
use iceberg.Common.{
  List, [], ◌∷◌, Option, none, some, Bool, true, false, if◌then◌else◌, ◌≡◌, refl, All,
}
use iceberg.Common.Go.{Go, ret, fail, panic, map_error}
use iceberg.Common.Map.{get}
use iceberg.Common.Text.{Text, text_eq}

module _ {W : Type 0} (Q : ShadowRequest → Type 0) where
  module _ (or : ShadowRequest) where
    Keeps-await_from :
        (cal : Caller W) (expired : List Text) (shared : Bool) (out : Option ShadowResponse)
        (tasks : List Text)
        → Feeds Q cal.request_updaters
        → Keeps (OfRequest Q) (await_from or cal expired shared out tasks)
    unfolding await_from
    Keeps-await_from cal expired shared out [] f = Keeps-lift (OfRequest Q) (ret tt)
    Keeps-await_from cal expired shared out (task ∷ tasks) f =
        Keeps-bind (OfRequest Q) (receive or expired task) _ (Keeps-receive Q or expired task)
          (λ res.
            Keeps-bind (OfRequest Q) (answer cal cal.request_updaters shared out res) _
              (Keeps-answer Q cal cal.request_updaters shared out res f)
              (λ out'. Keeps-await_from cal expired shared (some out') tasks f))

    Keeps-await :
        (cal : Caller W) (expired : List Text)
        → Feeds Q cal.request_updaters
        → Keeps (OfRequest Q) (await or cal expired)
    unfolding await
    Keeps-await cal expired f = record {
      at = λ s. (Keeps-await_from cal expired (is_some s.out) s.out cal.await_list f).at s;
    }

    Keeps-perform : (cal : Caller W) → Feeds Q (carried cal) → Keeps (OfRequest Q) (perform or cal)
    unfolding call_caller
    Keeps-perform cal f = by_kind cal.is_parallel
      where
        by_kind :
            (parallel : Bool)
            → Keeps (OfRequest Q) (
                if parallel then spin cal >> lift (ret none) else call_caller or cal >>= settle cal)
        by_kind true =
            Keeps-bind (OfRequest Q) (spin cal) _ (Keeps-spin Q cal)
              (λ _. Keeps-lift (OfRequest Q) (ret none))
        by_kind false =
            Keeps-bind (OfRequest Q) (call_caller or cal) (settle cal) (record { at = λ s h. h })
              (λ r. Keeps-settle Q cal r f)

    Keeps-round :
        (turn : Turn) (cal : Caller W) → (FeedsBoth Q) cal → Keeps (OfRequest Q) (round or turn cal)
    unfolding round
    Keeps-round turn cal (f, g) =
        Keeps-bind (OfRequest Q) (run_tasks or turn.runs) _ (Keeps-run_tasks Q or turn.runs) (λ _.
          Keeps-bind (OfRequest Q) (await or cal turn.expired) _ (Keeps-await cal turn.expired f)
            (λ _. Keeps-perform cal g))

    Keeps-go_on :
        (rest : M W (Option ShadowResponse))
        → Keeps (OfRequest Q) rest
        → (done : Option ShadowResponse) → Keeps (OfRequest Q) (go_on or rest done)
    Keeps-go_on rest k (some res) = Keeps-lift (OfRequest Q) (ret (some res))
    Keeps-go_on rest k none = record { at = λ s. k.at s }

    pub Keeps-rounds :
        (turns : List Turn) (cals : List (Caller W))
        → All (FeedsBoth Q) cals
        → Keeps (OfRequest Q) (rounds or turns cals)
    unfolding rounds
    Keeps-rounds turns [] all = record { at = λ s h. h }
    Keeps-rounds turns (cal ∷ cals) (f, all) =
        Keeps-bind (OfRequest Q) (round or (next_turn turns) cal) _
          (Keeps-round (next_turn turns) cal f)
          (Keeps-go_on _ (Keeps-rounds (later_turns turns) cals all))

  module _ (request : ShadowRequest) (holds : (h : Header) → Q (set_header request h)) where
    copy_keeps :
        (turns : List Turn) (cals : List (Caller W)) (w : W) (h : Header)
        (copy : Go HttpError ShadowRequest)
        → All (FeedsBoth Q) cals
        → Q (run_copy turns (set_header request h) cals w copy).1.request
    copy_keeps turns cals w h (ret or) all =
        (Keeps-rounds or turns cals all).at (start (set_header request h) w) (holds h)
    copy_keeps turns cals w h (fail e) all = holds h
    copy_keeps turns cals w h panic all = holds h

    marked_keeps :
        (turns : List Turn) (cals : List (Caller W)) (w : W) (h : Go HttpError Header)
        → All (FeedsBoth Q) cals
        → Q (run_marked turns request cals w h).1.request
    marked_keeps turns cals w (ret h) all = copy_keeps turns cals w h _ all
    marked_keeps turns cals w (fail e) all = holds request.request.header
    marked_keeps turns cals w panic all = holds request.request.header

    -- A property of the request that does not depend on its header, and that the updaters of every
    -- caller keep, holds of the request that the cascade leaves, however it ends.
    pub cascade-keeps :
        (uuid : Text) (turns : List Turn) (cals : List (Caller W)) (w : W)
        → All (FeedsBoth Q) cals
        → Q (cascade uuid turns request (some cals) w).1.request
    unfolding cascade
    cascade-keeps uuid turns cals w all = marked_keeps turns cals w _ all
