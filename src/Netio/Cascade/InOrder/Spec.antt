-- ===== src/Netio/Cascade/InOrder/Spec.antt =====
-- A reference for Cascade of internal/common/netio/exports.go where no caller is parallel: callers
-- are called one behind the other, without tasks, a scheduler or a clock.
use iceberg.Netio.Caller.{
  Caller, CallResult, carried, create_or_update_response, feed, internal, request_id, reset_out,
  task_not_found,
}
use iceberg.Netio.Cascade.{copy_original}
use iceberg.Netio.Header.{Header, header_add}
use iceberg.Netio.Message.{HttpError}
use iceberg.Netio.Request.{ShadowRequest, clone_request, set_header}
use iceberg.Netio.Response.{ShadowResponse, new_shandow_response}
use iceberg.Common.{List, [], ◌∷◌, Option, none, some, true, false}
use iceberg.Common.Go.{Go, ret, fail, panic}
use iceberg.Common.Text.{Text}

-- What a cascade returns, the request that it leaves, and the world.
abbrev pub Outcome : Type 0 → Type 0
Outcome W = Go HttpError (Option ShadowResponse) × ShadowRequest × W

-- The callers that are left, from the request, the response so far and the world.
abbrev pub Rest : Type 0 → Type 0
Rest W = ShadowRequest → Option ShadowResponse → W → Outcome W

module _ {W : Type 0} where
  -- The next caller sees the request that was fed.
  abbrev pub fed :
      Rest W → ShadowResponse → Go HttpError ShadowRequest → ShadowRequest → W → Outcome W
  fed rest out (ret request') request world = rest request' (some out) world
  fed rest out (fail e) request world = (fail e, request, world)
  fed rest out panic request world = (panic, request, world)

  abbrev pub updated :
      Caller W → Rest W → Go HttpError ShadowResponse → ShadowRequest → W → Outcome W
  updated cal rest (ret out) request world =
      fed rest out (feed request out (carried cal)) request world
  updated cal rest (fail e) request world = (fail e, request, world)
  updated cal rest panic request world = (panic, request, world)

  abbrev pub final : Go Text ShadowResponse → ShadowRequest → W → Outcome W
  final (ret res) request world = (ret (some res), request, world)
  final (fail e) request world = (fail (internal e), request, world)
  final panic request world = (panic, request, world)

  -- An error ends the cascade; a caller that terminates it gives its response; another response
  -- goes on with the rest; no response leaves everything to the rest.
  abbrev pub taken : Caller W → Rest W → CallResult → Rest W
  taken cal rest (fail e) request out world = (fail e, request, world)
  taken cal rest panic request out world = (panic, request, world)
  taken cal rest (ret (true, res)) request out world =
      final (new_shandow_response res) request world
  taken cal rest (ret (false, none)) request out world = rest request out world
  taken cal rest (ret (false, some res)) request out world =
      updated cal rest (create_or_update_response out (some res) cal.response_updaters) request
        world

  -- There is no task to wait for.
  abbrev pub called : ShadowRequest → Caller W → Rest W → List Text → Rest W
  called or cal rest [] request out world =
      let (r, world') =
        cal.call cal.context or.route_values (clone_request request) (clone_request or) world in
      taken cal rest r request out world'
  called or cal rest (_ ∷ _) request out world = (fail task_not_found, request, world)

  unfoldable pub one_by_one : ShadowRequest → List (Caller W) → Rest W
  one_by_one or [] request out world = (ret (reset_out out), request, world)
  one_by_one or (cal ∷ cals) request out world =
      called or cal (one_by_one or cals) cal.await_list request out world

  abbrev pub from_copy :
      Go HttpError ShadowRequest → List (Caller W) → ShadowRequest → W → Outcome W
  from_copy (ret or) cals request world = one_by_one or cals request none world
  from_copy (fail e) cals request world = (fail e, request, world)
  from_copy panic cals request world = (panic, request, world)

  abbrev pub from_marked : Go HttpError Header → List (Caller W) → ShadowRequest → W → Outcome W
  from_marked (ret h) cals request world =
      from_copy (copy_original (set_header request h)) cals (set_header request h) world
  from_marked (fail e) cals request world = (fail e, request, world)
  from_marked panic cals request world = (panic, request, world)

  -- The request is marked with the identifier, and every caller gets a copy of it as it was then.
  abbrev pub in_order : Text → ShadowRequest → List (Caller W) → W → Outcome W
  in_order uuid request cals world =
      from_marked (header_add request.request.header request_id uuid) cals request world
