-- ===== src/Netio/Cascade/Fed/Tasks.antt =====
-- A property of the request that updaters keep, over what the goroutines of a cascade do.
use iceberg.Netio.Exec.{◌>>◌, lift, proceed}
use iceberg.Netio.Keeps.{Keeps, Keeps-lift, Keeps-proceed, Keeps-bind}
use iceberg.Netio.Caller.{
  Caller, State, Task, pending, ready, closed, answer, publish, feed, feed_state, put_request,
  set_task, spin, settle, carried, deliver, create_or_update_response, internal, listed,
  deadline_exceeded,
}
use iceberg.Netio.Cascade.{
  call_caller, run_task, run_found, run_tasks, receive_from, receive_found, receive,
}
use iceberg.Netio.Message.{Response, HttpError}
use iceberg.Netio.Request.{ShadowRequest, RequestUpdater}
use iceberg.Netio.Response.{ShadowResponse, new_shandow_response}
use iceberg.Common.{List, [], ◌∷◌, Option, none, some, Bool, true, false, if◌then◌else◌, ◌≡◌, refl}
use iceberg.Common.Go.{Go, ret, fail, panic, map_error}
use iceberg.Common.Map.{get}
use iceberg.Common.Text.{Text, text_eq}

module _ (Q : ShadowRequest → Type 0) where
  -- What the updaters make of the request and any response keeps the property.
  abbrev pub Feeds : List RequestUpdater → Type 0
  Feeds us = (s s' : ShadowRequest) (out : ShadowResponse) → Q s → feed s out us ≡ ret s' → Q s'

module _ {W : Type 0} (Q : ShadowRequest → Type 0) where
  abbrev pub OfRequest : State W → Type 0
  OfRequest s = Q s.request

  abbrev pub FeedsBoth : Caller W → Type 0
  FeedsBoth cal = Feeds Q cal.request_updaters × Feeds Q (carried cal)

  pub Keeps-set_task : (name : Text) (task : Task W) → Keeps OfRequest (set_task name task)
  Keeps-set_task name task = record { at = λ s h. h }

  pub Keeps-publish :
      (shared : Bool) (out : ShadowResponse) → Keeps OfRequest (publish {W = W} shared out)
  Keeps-publish true out = record { at = λ s h. h }
  Keeps-publish false out = record { at = λ s h. h }

  fed :
      (r : Go HttpError ShadowRequest) (s : State W)
      → ((q : ShadowRequest) → r ≡ ret q → Q q)
      → OfRequest s
      → OfRequest (proceed r put_request s).1
  fed (ret q) s f h = f q refl
  fed (fail e) s f h = h
  fed panic s f h = h

  Keeps-feed_state :
      (out : ShadowResponse) (us : List RequestUpdater)
      → Feeds Q us
      → Keeps OfRequest (feed_state {W = W} out us)
  Keeps-feed_state out us f = record {
    at = λ s h. fed (feed s.request out us) s (λ q. f s.request q out h) h;
  }

  pub Keeps-answer :
      (cal : Caller W) (us : List RequestUpdater) (shared : Bool) (out : Option ShadowResponse)
      (res : Option Response)
      → Feeds Q us
      → Keeps OfRequest (answer cal us shared out res)
  unfolding answer
  Keeps-answer cal us shared out res f = record {
    at =
        (Keeps-proceed OfRequest (create_or_update_response out res cal.response_updaters) _
          (λ out'. Keeps-bind OfRequest (publish shared out') _ (Keeps-publish shared out') (λ _.
            Keeps-bind OfRequest (feed_state out' us) _ (Keeps-feed_state out' us f)
              (λ _. Keeps-lift OfRequest (ret out'))))).at;
  }

  pub Keeps-settle :
      (cal : Caller W) (r : Bool × Option Response)
      → Feeds Q (carried cal)
      → Keeps OfRequest (settle cal r)
  unfolding settle
  Keeps-settle cal (true, res) f = record {
    at =
        (Keeps-proceed OfRequest (map_error internal (new_shandow_response res)) _
          (λ r. Keeps-lift OfRequest (ret (some r)))).at;
  }
  Keeps-settle cal (false, none) f = record { at = λ s h. h }
  Keeps-settle cal (false, some res) f = record {
    at = λ s.
        (Keeps-bind OfRequest (answer cal (carried cal) true s.out (some res))
            (λ _. lift (ret none)) (Keeps-answer cal (carried cal) true s.out (some res) f)
            (λ _. Keeps-lift OfRequest (ret none))).at
          s;
  }

  pub Keeps-spin : (cal : Caller W) → Keeps OfRequest (spin cal)
  unfolding spin
  Keeps-spin cal = Keeps-set_task cal.name (pending cal)

  module _ (or : ShadowRequest) where
    Keeps-run_task : (name : Text) (cal : Caller W) → Keeps OfRequest (run_task or name cal)
    unfolding run_task call_caller
    Keeps-run_task name cal = record {
      at = λ s h.
          let r = (call_caller or cal s).0 in
          (Keeps-proceed OfRequest (deliver r) _ (λ sent. Keeps-set_task name (ready sent))).at
            (call_caller or cal s).1 h;
    }

    Keeps-run_found :
        (name : Text) (task : Option (Task W)) → Keeps OfRequest (run_found or name task)
    Keeps-run_found name none = Keeps-lift OfRequest (ret tt)
    Keeps-run_found name (some (pending cal)) = Keeps-run_task name cal
    Keeps-run_found name (some (ready sent)) = Keeps-lift OfRequest (ret tt)
    Keeps-run_found name (some closed) = Keeps-lift OfRequest (ret tt)

    pub Keeps-run_tasks : (names : List Text) → Keeps OfRequest (run_tasks or names)
    unfolding run_tasks
    Keeps-run_tasks [] = record { at = λ s h. h }
    Keeps-run_tasks (name ∷ names) = record {
      at = λ s.
          (Keeps-bind OfRequest (run_found or name (get name s.tasks)) (λ _. run_tasks or names)
              (Keeps-run_found name (get name s.tasks)) (λ _. Keeps-run_tasks names)).at
            s;
    }

    Keeps-receive_from : (name : Text) (task : Task W) → Keeps OfRequest (receive_from or name task)
    unfolding call_caller
    Keeps-receive_from name (pending cal) = record {
      at = λ s h.
          (Keeps-proceed OfRequest (deliver (call_caller or cal s).0)
              (λ sent. set_task name closed >> lift sent)
              (λ sent.
                Keeps-bind OfRequest (set_task name closed) (λ _. lift sent)
                  (Keeps-set_task name closed) (λ _. Keeps-lift OfRequest sent))).at
            (call_caller or cal s).1 h;
    }
    Keeps-receive_from name (ready sent) = record { at = λ s h. h }
    Keeps-receive_from name closed = record { at = λ s h. h }

    Keeps-receive_found :
        (expired : List Text) (name : Text) (task : Option (Task W))
        → Keeps OfRequest (receive_found or expired name task)
    Keeps-receive_found expired name none = record { at = λ s h. h }
    Keeps-receive_found expired name (some task) = by_clock (listed name expired)
      where
        by_clock :
            (late : Bool)
            → Keeps OfRequest
                (λ s. if late then (fail deadline_exceeded, s) else receive_from or name task s)
        by_clock true = record { at = λ s h. h }
        by_clock false = record { at = λ s. (Keeps-receive_from name task).at s }

    pub Keeps-receive :
        (expired : List Text) (name : Text) → Keeps OfRequest (receive or expired name)
    unfolding receive
    Keeps-receive expired name = record {
      at = λ s. (Keeps-receive_found expired name (get name s.tasks)).at s;
    }
