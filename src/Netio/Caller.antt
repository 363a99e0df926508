-- ===== src/Netio/Caller.antt =====
-- The state of a cascade and the parts of a round that do not call anything:
-- createOrUpdateResponse, spin, and what Cascade does with a response.
-- A caller is the interface Caller; `W` is the outside world that its calls change.
use iceberg.Common.{ℕ, List, [], ◌∷◌, ◌++◌, Option, none, some, Bool, true, false, if◌then◌else◌}
use iceberg.Common.Go.{Go, ret, fail, panic, map_error}
use iceberg.Common.Map.{Map, put}
use iceberg.Common.Text.{Text, text_eq, text_beq, codes}
use iceberg.Netio.Exec.{Exec, ◌>>=◌, ◌>>◌, lift}
use iceberg.Netio.Message.{Request, Response, Context, HttpError, new_error}
use iceberg.Netio.Request.{
  ShadowRequest, RouteValues, RequestOption, RequestUpdater, update_request, req_update_header,
  reset_request,
}
use iceberg.Netio.Response.{
  ShadowResponse, ResponseUpdater, new_shandow_response, update_response, reset_response,
  create_request,
}

-- http.StatusInternalServerError and http.StatusGatewayTimeout
abbrev pub internal : Text → HttpError
internal message = new_error message 500

abbrev pub deadline_exceeded : HttpError
deadline_exceeded = new_error (codes "context deadline exceeded") 504

abbrev pub task_not_found : HttpError
task_not_found = new_error (codes "task not found") 500

abbrev pub request_id : Text
request_id = codes "X-Request-Id"

abbrev pub Cloner : Type 0
Cloner = List RequestOption → Go Text Request

-- What Call returns: an error, or whether the caller terminates the cascade, with a response.
abbrev pub CallResult : Type 0
CallResult = Go HttpError (Bool × Option Response)

pub record Caller (W : Type 0) : Type 0 where
  pub level : ℕ
  pub is_parallel : Bool
  pub name : Text
  pub await_list : List Text
  pub call : Context → RouteValues → Cloner → Cloner → W → CallResult × W
  pub request_updaters : List RequestUpdater
  pub response_updaters : List ResponseUpdater
  pub context : Context

-- The channel of a task: its goroutine has yet to run, its result waits in the channel, or the
-- result was taken and the channel is closed.
pub data Task (W : Type 0) : Type 0 where
  pending : Caller W → Task W
  ready : Go HttpError (Option Response) → Task W
  closed : Task W

-- What the scheduler and the clock do in one round: the goroutines that run before it, and the
-- tasks whose context is done when they are awaited.
pub record Turn : Type 0 where
  pub runs : List Text
  pub expired : List Text

pub record State (W : Type 0) : Type 0 where
  pub request : ShadowRequest
  pub out : Option ShadowResponse
  pub tasks : Map Text (Task W)
  pub world : W

abbrev pub listed : Text → List Text → Bool
listed name [] = false
listed name (n ∷ names) = if text_beq n name then true else listed name names

-- Updating through the nil response panics in each updater that reads its header or body.
abbrev update_from :
    ShadowResponse → Option Response → List ResponseUpdater → Go Text ShadowResponse
update_from s none [] = ret s
update_from s none (fn ∷ fns) = let rest = update_from s none fns in if fn.idle then rest else panic
update_from s (some r) fns = elim (update_response s r fns) [
  | ret (s', _) ↦ ret s'
  | fail e ↦ fail e
  | panic ↦ panic
]

unfoldable pub create_or_update_response :
    Option ShadowResponse → Option Response → List ResponseUpdater → Go HttpError ShadowResponse
create_or_update_response none res ru = map_error internal (new_shandow_response res)
create_or_update_response (some out) res ru = elim (update_from out res ru) [
  | ret out' ↦ ret (reset_response out')
  | fail e ↦ fail (internal e)
  | panic ↦ panic
]

-- The request that the next caller sees: changed by the updaters from the response, and reset.
unfoldable pub feed :
    ShadowRequest → ShadowResponse → List RequestUpdater → Go HttpError ShadowRequest
feed s out updaters = elim (create_request out) [
  | fail e ↦ fail (internal e)
  | panic ↦ panic
  | ret tmp ↦ elim (update_request s tmp.request updaters) [
    | ret (s', _) ↦ ret (reset_request s')
    | fail e ↦ fail (internal e)
    | panic ↦ panic
  ]
]

-- The actions of a cascade.
abbrev pub M : Type 0 → Type 0 → Type 0
M W A = Exec (State W) HttpError A

-- The schedule has a turn for each round; a missing one runs nothing.
abbrev pub next_turn : List Turn → Turn
next_turn [] = record { runs = []; expired = [] }
next_turn (t ∷ ts) = t

abbrev pub later_turns : List Turn → List Turn
later_turns [] = []
later_turns (t ∷ ts) = ts

abbrev pub reset_out : Option ShadowResponse → Option ShadowResponse
reset_out none = none
reset_out (some out) = some (reset_response out)

-- What the goroutine sends: the error, or the response.
abbrev pub deliver : CallResult → Go HttpError (Go HttpError (Option Response))
deliver (ret (_, r)) = ret (ret r)
deliver (fail e) = ret (fail e)
deliver panic = panic

abbrev pub is_some : Option ShadowResponse → Bool
is_some none = false
is_some (some _) = true

module _ {W : Type 0} where
  abbrev pub set_task : Text → Task W → M W (Unit {0})
  set_task name task s = (ret tt, record s { tasks = put name task s.tasks })

  -- The pointer `out` of await is the one of Cascade (`shared`) or one that await made itself.
  abbrev pub publish : Bool → ShadowResponse → M W (Unit {0})
  publish shared out s = (ret tt, if shared then record s { out = some out } else s)

  abbrev pub put_request : ShadowRequest → M W (Unit {0})
  put_request request s = (ret tt, record s { request = request })

  abbrev pub feed_state : ShadowResponse → List RequestUpdater → M W (Unit {0})
  feed_state out updaters s = (lift (feed s.request out updaters) >>= put_request) s

  -- A response that arrived: it makes or updates the output, and changes the request.
  unfoldable pub answer :
      Caller W
      → List RequestUpdater
      → Bool
      → Option ShadowResponse
      → Option Response
      → M W ShadowResponse
  unfolding feed create_or_update_response
  answer cal updaters shared out res = do
    out' ← lift (create_or_update_response out res cal.response_updaters)
    publish shared out'
    feed_state out' updaters
    lift (ret out')

  -- The updaters of a sequential caller, with the one that Cascade adds.
  abbrev pub carried : Caller W → List RequestUpdater
  carried cal = cal.request_updaters ++ req_update_header (request_id ∷ []) ∷ []

  -- The rest of a round behind a call that returned: `some` ends the cascade.
  unfoldable pub settle : Caller W → Bool × Option Response → M W (Option ShadowResponse)
  unfolding answer
  settle cal (true, res) s =
      (lift (map_error internal (new_shandow_response res)) >>= λ r. lift (ret (some r))) s
  settle cal (false, none) s = (ret none, s)
  settle cal (false, some res) s =
      (answer cal (carried cal) true s.out (some res) >>= λ _. lift (ret none)) s

  unfoldable pub spin : Caller W → M W (Unit {0})
  spin cal = set_task cal.name (pending cal)
