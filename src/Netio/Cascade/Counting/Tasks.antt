-- ===== src/Netio/Cascade/Counting/Tasks.antt =====
-- The calls that the goroutines of a cascade make.
use iceberg.Netio.Response.{ShadowResponse, new_shandow_response}
use iceberg.Netio.Exec.{proceed, lift, ◌>>◌}
use iceberg.Netio.Caller.{
  Caller, State, Task, pending, ready, closed, answer, settle, publish, put_request, set_task,
  internal, create_or_update_response, feed_state, carried, feed, deadline_exceeded, listed,
}
use iceberg.Netio.Message.{HttpError, Response}
use iceberg.Netio.Request.{ShadowRequest, RequestUpdater, clone_request}
use iceberg.Common.{ℕ, ◌+◌, ◌≤◌, [], ◌∷◌, Option, some, ◌≡◌, refl, arith, Bool, ap, List, true}
use iceberg.Common.Go.{Go, ret, fail, panic, map_error}
use iceberg.Common.Map.{get, put, All-put, All-get}
use iceberg.Common.Text.{Text, text_eq}
use iceberg.Common.{true, false, none, some, refl, ap, if◌then◌else◌}
use iceberg.Netio.Cascade.Counting.{
  open_calls_of, open_calls-put, CountsTask, AllCounted, total, Bounded, Adds, Bounded-proceed,
  Adds-bind, Adds-still, Adds-exact,
}
use iceberg.Netio.Cascade.{
  call_caller, run_task, run_found, run_tasks, receive_from, receive_found, receive,
}
use iceberg.Common.Go.{ret, fail, panic}

module _ {W : Type 0} (count : W → ℕ) where
  pub Adds-lift : {A : Type 0} (r : Go HttpError A) → Adds count 0 (lift r)
  Adds-lift r = Adds-still count 0 (lift r) (λ s. (refl, refl))

  Adds-publish : (shared : Bool) (out : ShadowResponse) → Adds count 0 (publish {W = W} shared out)
  Adds-publish true out = Adds-still count 0 (publish true out) (λ s. (refl, refl))
  Adds-publish false out = Adds-still count 0 (publish false out) (λ s. (refl, refl))

  Adds-put_request : (request : ShadowRequest) → Adds count 0 (put_request {W = W} request)
  Adds-put_request request = Adds-still count 0 (put_request request) (λ s. (refl, refl))

  Adds-feed_state :
      (out : ShadowResponse) (us : List RequestUpdater) → Adds count 0 (feed_state {W = W} out us)
  Adds-feed_state out us = record {
    at = λ s.
        (Adds-bind count 0 0 (lift (feed s.request out us)) put_request
            (Adds-lift (feed s.request out us)) Adds-put_request).at
          s;
  }

  pub Adds-answer :
      (cal : Caller W) (us : List RequestUpdater) (shared : Bool) (out : Option ShadowResponse)
      (res : Option Response)
      → Adds count 0 (answer cal us shared out res)
  unfolding answer
  Adds-answer cal us shared out res =
      let made = create_or_update_response out res cal.response_updaters in
      Adds-bind count 0 0 (lift made) _ (Adds-lift made) (λ out'.
        Adds-bind count 0 0 (publish shared out') _ (Adds-publish shared out') (λ _.
          Adds-bind count 0 0 (feed_state out' us) _ (Adds-feed_state out' us)
            (λ _. Adds-lift (ret out'))))

  pub Adds-settle : (cal : Caller W) (r : Bool × Option Response) → Adds count 0 (settle cal r)
  unfolding settle
  Adds-settle cal (true, res) =
      let made = map_error internal (new_shandow_response res) in
      Adds-bind count 0 0 (lift made) _ (Adds-lift made) (λ r. Adds-lift (ret (some r)))
  Adds-settle cal (false, none) = Adds-lift (ret none)
  Adds-settle cal (false, some res) = record {
    at = λ s.
        (Adds-bind count 0 0 (answer cal (carried cal) true s.out (some res)) (λ _. lift (ret none))
            (Adds-answer cal (carried cal) true s.out (some res)) (λ _. Adds-lift (ret none))).at
          s;
  }

  -- A task that was open is called, and is then no more.
  module _ (name : Text) (cal : Caller W) (s : State W) (w : W)
      (found : get name s.tasks ≡ some (pending cal)) (counted : AllCounted count s)
      (once : count w ≤ count s.world + 1) where
    called-count : count w ≤ total count s
    called-count = omega (arith, once, open_calls-put name closed s.tasks, ap open_calls_of found)

    called-total :
        (t : Task W)
        → open_calls_of (some t) ≡ 0
        → total count (record s { tasks = put name t s.tasks; world = w }) ≤ total count s
    called-total t e = omega (arith, once, e, open_calls-put name t s.tasks, ap open_calls_of found)

    run_delivered :
        (d : Go HttpError (Go HttpError (Option Response)))
        → Bounded count
            (total count s)
            (proceed d (λ sent. set_task name (ready sent)) (record s { world = w }))
    run_delivered (ret sent) = (
      called-count,
      λ a e. (
        called-total (ready sent) refl,
        All-put (CountsTask count) name (ready sent) s.tasks counted tt,
      ),
    )
    run_delivered (fail x) = (called-count, λ a e. absurd (cc))
    run_delivered panic = (called-count, λ a e. absurd (cc))

    receive_delivered :
        (d : Go HttpError (Go HttpError (Option Response)))
        → Bounded count
            (total count s)
            (proceed d (λ sent. set_task name closed >> lift sent) (record s { world = w }))
    receive_delivered (ret sent) = (
      called-count,
      λ a e. (called-total closed refl, All-put (CountsTask count) name closed s.tasks counted tt),
    )
    receive_delivered (fail x) = (called-count, λ a e. absurd (cc))
    receive_delivered panic = (called-count, λ a e. absurd (cc))

  module _ (or : ShadowRequest) where
    -- The call of a task that waits for its goroutine.
    abbrev call_world : Caller W → State W → W
    call_world cal s =
        (cal.call cal.context or.route_values (clone_request s.request) (clone_request or)
          s.world).1

    call_world-count :
        (name : Text) (cal : Caller W) (s : State W)
        → get name s.tasks ≡ some (pending cal)
        → AllCounted count s
        → count (call_world cal s) ≤ count s.world + 1
    call_world-count name cal s found counted =
        All-get (CountsTask count) name s.tasks (pending cal) counted found cal.context
          or.route_values (clone_request s.request) (clone_request or) s.world

    run_found-Bounded :
        (name : Text) (s : State W) (task : Option (Task W))
        → get name s.tasks ≡ task
        → AllCounted count s
        → Bounded count (total count s) (run_found or name task s)
    unfolding run_task call_caller
    run_found-Bounded name s none found counted = (omega arith, λ a e. (omega arith, counted))
    run_found-Bounded name s (some (pending cal)) found counted =
        run_delivered name cal s (call_world cal s) found counted
          (call_world-count name cal s found counted) _
    run_found-Bounded name s (some (ready sent)) found counted =
        (omega arith, λ a e. (omega arith, counted))
    run_found-Bounded name s (some closed) found counted =
        (omega arith, λ a e. (omega arith, counted))

    pub Adds-run_tasks : (names : List Text) → Adds count 0 (run_tasks or names)
    unfolding run_tasks
    Adds-run_tasks [] = Adds-still count 0 (run_tasks or []) (λ s. (refl, refl))
    Adds-run_tasks (name ∷ names) = record {
      at = λ s c.
          Bounded-proceed count (total count s) 0 (run_found or name (get name s.tasks) s).0
            (λ _. run_tasks or names) (run_found or name (get name s.tasks) s).1
            (run_found-Bounded name s _ refl c) (λ _. Adds-run_tasks names);
    }

    receive_from-Bounded :
        (name : Text) (s : State W) (task : Task W)
        → get name s.tasks ≡ some task
        → AllCounted count s
        → Bounded count (total count s) (receive_from or name task s)
    unfolding call_caller
    receive_from-Bounded name s (pending cal) found counted =
        receive_delivered name cal s (call_world cal s) found counted
          (call_world-count name cal s found counted) _
    receive_from-Bounded name s (ready sent) found counted = (
      omega arith,
      λ a e. (
        omega (arith, open_calls-put name closed s.tasks),
        All-put (CountsTask count) name closed s.tasks counted tt,
      ),
    )
    receive_from-Bounded name s closed found counted = (omega arith, λ a e. absurd (cc))

    receive_found-Bounded :
        (expired : List Text) (name : Text) (s : State W) (task : Option (Task W))
        → get name s.tasks ≡ task
        → AllCounted count s
        → Bounded count (total count s) (receive_found or expired name task s)
    receive_found-Bounded expired name s none found counted = (omega arith, λ a e. absurd (cc))
    receive_found-Bounded expired name s (some task) found counted = by_clock (listed name expired)
      where
        by_clock :
            (late : Bool)
            → Bounded count
                (total count s)
                (if late then (fail deadline_exceeded, s) else receive_from or name task s)
        by_clock true = (omega arith, λ a e. absurd (cc))
        by_clock false = receive_from-Bounded name s task found counted

    pub Adds-receive : (expired : List Text) (name : Text) → Adds count 0 (receive or expired name)
    unfolding receive
    Adds-receive expired name =
        Adds-exact count (receive or expired name)
          (λ s c. receive_found-Bounded expired name s _ refl c)
