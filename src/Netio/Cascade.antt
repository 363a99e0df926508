-- ===== src/Netio/Cascade.antt =====
-- Cascade and await of internal/common/netio/exports.go. A goroutine that
-- `spin` starts reads the request when it runs: it runs whole, at the head of a round of the loop
-- where the schedule says so, or at the latest while the loop waits for it.
use iceberg.Netio.Caller.{
  Caller, M, State, Task, Turn, feed, spin, create_or_update_response, deliver, is_some, pending,
  request_id, reset_out, settle, task_not_found, listed, next_turn, publish, set_task, closed,
  deadline_exceeded, feed_state, later_turns, ready, answer,
}
pub mod Output
pub mod Kept
pub mod Answered
pub mod Schedule
pub mod Gate
pub mod Fed
pub mod Counting
pub mod Once
pub mod InOrder
use iceberg.Common.{List, [], ◌∷◌, Option, none, some, Bool, if◌then◌else◌}
use iceberg.Common.Go.{Go, ret, fail, panic}
use iceberg.Common.Map.{get}
use iceberg.Common.Text.{Text, text_eq}
use iceberg.Netio.Exec.{◌>>=◌, ◌>>◌, lift}
use iceberg.Netio.Header.{header_add, Header}
use iceberg.Netio.Message.{Response, HttpError}
use iceberg.Netio.Request.{ShadowRequest, set_header, clone_request, clone_shadow_request}
use iceberg.Netio.Response.{ShadowResponse}

module _ (or : ShadowRequest) {W : Type 0} where
  -- cal.Call, with the cloners of the request as it is now and of the original one.
  unfoldable pub call_caller : Caller W → M W (Bool × Option Response)
  call_caller cal s =
      let (r, w) =
        cal.call cal.context or.route_values (clone_request s.request) (clone_request or) s.world in
      (r, record s { world = w })

  -- The goroutine of `spin`. A panic in it ends the program.
  unfoldable pub run_task : Text → Caller W → M W (Unit {0})
  unfolding call_caller
  run_task name cal s =
      let (r, s') = call_caller cal s in
      (lift (deliver r) >>= λ sent. set_task name (ready sent)) s'

  -- A task that has not run yet runs; of any other nothing is left to run.
  abbrev pub run_found : Text → Option (Task W) → M W (Unit {0})
  run_found name (some (pending cal)) = run_task name cal
  run_found name _ = lift (ret tt)

  -- The goroutines that the scheduler runs before a round.
  unfoldable pub run_tasks : List Text → M W (Unit {0})
  unfolding run_task
  run_tasks [] s = (ret tt, s)
  run_tasks (name ∷ names) s = (run_found name (get name s.tasks) >> run_tasks names) s

  -- The `select` of await on the channel and the context of a task that was found.
  -- A closed channel yields a nil response, whose field Error cannot be read.
  abbrev pub receive_from : Text → Task W → M W (Option Response)
  receive_from name (pending cal) s =
      let (r, s') = call_caller cal s in
      (lift (deliver r) >>= λ sent. set_task name closed >> lift sent) s'
  receive_from name (ready sent) s = (set_task name closed >> lift sent) s
  receive_from name closed s = (panic, s)

  abbrev pub receive_found : List Text → Text → Option (Task W) → M W (Option Response)
  receive_found expired name none s = (fail task_not_found, s)
  receive_found expired name (some task) s =
      if listed name expired then (fail deadline_exceeded, s) else receive_from name task s

  unfoldable pub receive : List Text → Text → M W (Option Response)
  unfolding call_caller
  receive expired name s = receive_found expired name (get name s.tasks) s

  -- The loop of await.
  unfoldable pub await_from :
      Caller W → List Text → Bool → Option ShadowResponse → List Text → M W (Unit {0})
  unfolding receive answer
  await_from cal expired shared out [] = lift (ret tt)
  await_from cal expired shared out (task ∷ tasks) = do
    res ← receive expired task
    out' ← answer cal cal.request_updaters shared out res
    await_from cal expired shared (some out') tasks

  unfoldable pub await : Caller W → List Text → M W (Unit {0})
  unfolding await_from
  await cal expired s = await_from cal expired (is_some s.out) s.out cal.await_list s

  -- The rest of a round behind await: spin, or the call and what follows it.
  abbrev pub perform : Caller W → M W (Option ShadowResponse)
  perform cal =
      if cal.is_parallel then spin cal >> lift (ret none) else call_caller cal >>= settle cal

  -- One round of the loop of Cascade.
  unfoldable pub round : Turn → Caller W → M W (Option ShadowResponse)
  unfolding run_tasks await spin call_caller settle
  round turn cal = do run_tasks turn.runs; await cal turn.expired; perform cal

  -- A round that ended the cascade returns its response; otherwise the next round follows.
  abbrev pub go_on :
      M W (Option ShadowResponse) → Option ShadowResponse → M W (Option ShadowResponse)
  go_on rest (some res) = lift (ret (some res))
  go_on rest none = rest

  unfoldable pub rounds : List Turn → List (Caller W) → M W (Option ShadowResponse)
  unfolding round
  rounds turns [] s = (ret (reset_out s.out), s)
  rounds turns (cal ∷ cals) s =
      (round (next_turn turns) cal >>= λ done. go_on (rounds (later_turns turns) cals) done) s

-- The original request is copied before any caller runs. (That copy cannot fail: the body is read
-- from memory; a failure would end in a nil pointer.)
abbrev pub copy_original : ShadowRequest → Go HttpError ShadowRequest
copy_original request = elim (clone_shadow_request request []) [
  | ret or ↦ ret (record or { route_values = request.route_values })
  | fail e ↦ panic
  | panic ↦ panic
]

module _ {W : Type 0} where
  abbrev pub start : ShadowRequest → W → State W
  start request world = record { request = request; out = none; tasks = []; world = world }

  -- The loop of Cascade, on the request that was marked with its identifier and the copy of it.
  abbrev pub run_copy :
      List Turn
      → ShadowRequest
      → List (Caller W)
      → W
      → Go HttpError ShadowRequest
      → Go HttpError (Option ShadowResponse) × State W
  run_copy turns request callers world (ret or) = rounds or turns callers (start request world)
  run_copy turns request callers world (fail e) = (fail e, start request world)
  run_copy turns request callers world panic = (panic, start request world)

  abbrev pub run_marked :
      List Turn
      → ShadowRequest
      → List (Caller W)
      → W
      → Go HttpError Header
      → Go HttpError (Option ShadowResponse) × State W
  run_marked turns request callers world (ret h) =
      let marked = set_header request h in
      run_copy turns marked callers world (copy_original marked)
  run_marked turns request callers world (fail e) = (fail e, start request world)
  run_marked turns request callers world panic = (panic, start request world)

  -- Cascade; `none` for the callers is the nil slice, and the text is the new UUID.
  unfoldable pub cascade :
      Text
      → List Turn
      → ShadowRequest
      → Option (List (Caller W))
      → W
      → Go HttpError (Option ShadowResponse) × State W
  unfolding rounds
  cascade uuid turns request none world = (ret none, start request world)
  cascade uuid turns request (some callers) world =
      run_marked turns request callers world (header_add request.request.header request_id uuid)
