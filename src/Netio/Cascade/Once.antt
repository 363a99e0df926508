-- ===== src/Netio/Cascade/Once.antt =====
-- How often a cascade calls its callers.
use iceberg.Netio.Header.{Header}
use iceberg.Netio.Response.{ShadowResponse}
use mathlib.Core.Path.{subst}
use iceberg.Netio.Exec.{◌>>=◌, lift, ◌>>◌}
use iceberg.Netio.Caller.{
  Caller, M, pending, answer, settle, Turn, spin, is_some, next_turn, later_turns,
}
use iceberg.Netio.Message.{HttpError}
use iceberg.Netio.Request.{ShadowRequest, clone_request, set_header}
use iceberg.Common.{ℕ, ◌+◌, ◌≤◌, [], ◌∷◌, Option, some, refl, All, arith, Bool, List, true, length}
use iceberg.Common.Go.{Go, ret, fail, panic}
use iceberg.Common.Map.{All-put}
use iceberg.Common.Text.{Text, text_eq}
use iceberg.Common.{true, false, none, some, refl, if◌then◌else◌}
use iceberg.Netio.Cascade.Counting.{
  open_calls, open_calls-put, Counts, CountsTask, Adds, Adds-bind, Adds-still,
}
use iceberg.Netio.Cascade.{
  call_caller, run_tasks, receive, await_from, await, perform, round, go_on, rounds, start,
  run_copy, run_marked, cascade,
}
use iceberg.Netio.Request.{set_header}
use iceberg.Common.Go.{ret, fail, panic}
use iceberg.Netio.Cascade.Counting.Tasks.{
  Adds-lift, Adds-answer, Adds-settle, Adds-run_tasks, Adds-receive,
}

module _ {W : Type 0} (count : W → ℕ) where
  module _ (or : ShadowRequest) where
    Adds-await_from :
        (cal : Caller W) (expired : List Text) (shared : Bool) (out : Option ShadowResponse)
        (tasks : List Text)
        → Adds count 0 (await_from or cal expired shared out tasks)
    unfolding await_from
    Adds-await_from cal expired shared out [] = Adds-lift count (ret tt)
    Adds-await_from cal expired shared out (task ∷ tasks) =
        Adds-bind count 0 0 (receive or expired task) _ (Adds-receive count or expired task) (λ res.
          Adds-bind count 0 0 (answer cal cal.request_updaters shared out res) _
            (Adds-answer count cal cal.request_updaters shared out res)
            (λ out'. Adds-await_from cal expired shared (some out') tasks))

    Adds-await : (cal : Caller W) (expired : List Text) → Adds count 0 (await or cal expired)
    unfolding await
    Adds-await cal expired = record {
      at = λ s. (Adds-await_from cal expired (is_some s.out) s.out cal.await_list).at s;
    }

    Adds-call : (cal : Caller W) → Counts count cal → Adds count 1 (call_caller or cal)
    unfolding call_caller
    Adds-call cal once = record {
      at = λ s c.
          let k =
            once cal.context or.route_values (clone_request s.request) (clone_request or) s.world in
          (omega (arith, k), λ a e. (omega (arith, k), c));
    }

    Adds-spin : (cal : Caller W) → Counts count cal → Adds count 1 (spin cal)
    unfolding spin
    Adds-spin cal once = record {
      at = λ s c. (
        omega arith,
        λ a e. (
          omega (arith, open_calls-put cal.name (pending cal) s.tasks),
          All-put (CountsTask count) cal.name (pending cal) s.tasks c once,
        ),
      );
    }

    Adds-perform : (cal : Caller W) → Counts count cal → Adds count 1 (perform or cal)
    Adds-perform cal once = by_kind cal.is_parallel
      where
        by_kind :
            (parallel : Bool)
            → Adds count 1 (
                if parallel then spin cal >> lift (ret none) else call_caller or cal >>= settle cal)
        by_kind true =
            Adds-bind count 1 0 (spin cal) _ (Adds-spin cal once) (λ _. Adds-lift count (ret none))
        by_kind false =
            Adds-bind count 1 0 (call_caller or cal) (settle cal) (Adds-call cal once)
              (Adds-settle count cal)

    Adds-round :
        (turn : Turn) (cal : Caller W) → Counts count cal → Adds count 1 (round or turn cal)
    unfolding round
    Adds-round turn cal once =
        Adds-bind count 0 1 (run_tasks or turn.runs) _ (Adds-run_tasks count or turn.runs) (λ _.
          Adds-bind count 0 1 (await or cal turn.expired) _ (Adds-await cal turn.expired)
            (λ _. Adds-perform cal once))

    Adds-go_on :
        (n : ℕ) (rest : M W (Option ShadowResponse))
        → Adds count n rest
        → (done : Option ShadowResponse) → Adds count n (go_on or rest done)
    Adds-go_on n rest h (some res) = Adds-still count n (lift (ret (some res))) (λ s. (refl, refl))
    Adds-go_on n rest h none = record { at = λ s. h.at s }

    Adds-rounds :
        (turns : List Turn) (cals : List (Caller W))
        → All (Counts count) cals
        → Adds count (length cals) (rounds or turns cals)
    unfolding rounds
    Adds-rounds turns [] all = Adds-still count 0 (rounds or turns []) (λ s. (refl, refl))
    Adds-rounds turns (cal ∷ cals) (once, all) =
        subst (λ n. Adds count n (rounds or turns (cal ∷ cals))) (omega arith)
          (Adds-bind count 1 (length cals) (round or (next_turn turns) cal) _
            (Adds-round (next_turn turns) cal once)
            (Adds-go_on (length cals) _ (Adds-rounds (later_turns turns) cals all)))

  module _ (turns : List Turn) (cals : List (Caller W)) (w : W)
      (all : All (Counts count) cals) where
    copy_calls :
        (asked : ShadowRequest) (copy : Go HttpError ShadowRequest)
        → count (run_copy turns asked cals w copy).1.world ≤ count w + length cals
    unfolding open_calls
    copy_calls asked (ret or) =
        omega (arith, ((Adds-rounds or turns cals all).at (start asked w) tt).0)
    copy_calls asked (fail e) = omega arith
    copy_calls asked panic = omega arith

    marked_calls :
        (request : ShadowRequest) (h : Go HttpError Header)
        → count (run_marked turns request cals w h).1.world ≤ count w + length cals
    marked_calls request (ret h) = copy_calls (set_header request h) _
    marked_calls request (fail e) = omega arith
    marked_calls request panic = omega arith

    -- However a cascade ends, and whatever the schedule and the clock: a counter that each call of a
    -- caller raises by at most one is raised by at most the number of callers. Not more calls are
    -- made than there are callers, those of parallel callers that are awaited included.
    pub cascade-calls :
        (uuid : Text) (request : ShadowRequest)
        → count (cascade uuid turns request (some cals) w).1.world ≤ count w + length cals
    unfolding cascade
    cascade-calls uuid request = marked_calls request _
