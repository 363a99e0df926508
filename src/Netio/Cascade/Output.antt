-- ===== src/Netio/Cascade/Output.antt =====
-- What the actions of a cascade do to its output.
use iceberg.Common.{List, [], ◌∷◌, Option, none, some, false, ◌≡◌, refl, ◌∙◌, inl, inr, Bool-cases}
use iceberg.Common.Go.{Go, ret, fail, panic}
use iceberg.Common.Map.{get}
use iceberg.Common.Text.{Text, text_eq}
use iceberg.Netio.Exec.{◌>>=◌, lift, proceed, ◌>>◌}
use iceberg.Netio.Message.{Response, HttpError}
use iceberg.Netio.Request.{ShadowRequest, RequestUpdater}
use iceberg.Netio.Response.{ShadowResponse}
use iceberg.Netio.Caller.{
  Caller, State, Task, M, pending, ready, closed, feed_state, feed, put_request, set_task, deliver,
  listed, answer, create_or_update_response,
}
use iceberg.Netio.Cascade.{
  call_caller, run_task, run_tasks, receive, receive_from, await_from, await, receive_found,
  run_found,
}

module _ {W : Type 0} where
  -- The action leaves the output as it is, however it ends.
  pub record SameOut {A : Type 0} (m : M W A) : Type 0 where
    pub at : (s : State W) → (m s).1.out ≡ s.out

  SameOut-lift : {A : Type 0} (r : Go HttpError A) → SameOut (lift r)
  SameOut-lift r = record { at = λ s. refl }

  SameOut-proceed :
      {A B : Type 0} (r : Go HttpError A) (f : A → M W B)
      → ((a : A) → SameOut (f a))
      → SameOut (proceed r f)
  SameOut-proceed (ret a) f k = record { at = λ s. (k a).at s }
  SameOut-proceed (fail e) f k = record { at = λ s. refl }
  SameOut-proceed panic f k = record { at = λ s. refl }

  SameOut-bind :
      {A B : Type 0} (m : M W A) (f : A → M W B)
      → SameOut m
      → ((a : A) → SameOut (f a))
      → SameOut (m >>= f)
  SameOut-bind m f h k = record { at = λ s. (SameOut-proceed (m s).0 f k).at (m s).1 ∙ h.at s }

  SameOut-set_task : (name : Text) (task : Task W) → SameOut (set_task name task)
  SameOut-set_task name task = record { at = λ s. refl }

  pub SameOut-feed_state :
      (out : ShadowResponse) (us : List RequestUpdater) → SameOut (feed_state {W = W} out us)
  SameOut-feed_state out us = record {
    at = λ s.
        (SameOut-proceed (feed s.request out us) put_request (λ q. record { at = λ t. refl })).at s;
  }

  SameOut-answer :
      (cal : Caller W) (us : List RequestUpdater) (out : Option ShadowResponse)
      (res : Option Response)
      → SameOut (answer cal us false out res)
  unfolding answer
  SameOut-answer cal us out res = record {
    at = λ s.
        (SameOut-proceed (create_or_update_response out res cal.response_updaters)
            (λ out'. feed_state out' us >> lift (ret out'))
            (λ out'.
              SameOut-bind (feed_state out' us) (λ _. lift (ret out')) (SameOut-feed_state out' us)
                (λ _. SameOut-lift (ret out')))).at
          s;
  }

  module _ (or : ShadowRequest) where
    pub SameOut-call_caller : (cal : Caller W) → SameOut (call_caller or cal)
    unfolding call_caller
    SameOut-call_caller cal = record { at = λ s. refl }

    -- An action on what a call sends, behind that call.
    SameOut-sent :
        {A : Type 0} (cal : Caller W) (f : Go HttpError (Option Response) → M W A)
        → ((sent : Go HttpError (Option Response)) → SameOut (f sent))
        → (s : State W)
        → ((lift (deliver (call_caller or cal s).0) >>= f) (call_caller or cal s).1).1.out ≡ s.out
    SameOut-sent cal f k s =
        (SameOut-proceed (deliver (call_caller or cal s).0) f k).at (call_caller or cal s).1
        ∙ (SameOut-call_caller cal).at s

    SameOut-run_task : (name : Text) (cal : Caller W) → SameOut (run_task or name cal)
    unfolding run_task
    SameOut-run_task name cal = record {
      at = SameOut-sent cal _ (λ sent. SameOut-set_task name (ready sent));
    }

    SameOut-run_found : (name : Text) (found : Option (Task W)) → SameOut (run_found or name found)
    SameOut-run_found name (some (pending cal)) = SameOut-run_task name cal
    SameOut-run_found name (some (ready _)) = SameOut-lift (ret tt)
    SameOut-run_found name (some closed) = SameOut-lift (ret tt)
    SameOut-run_found name none = SameOut-lift (ret tt)

    pub SameOut-run_tasks : (names : List Text) → SameOut (run_tasks or {W = W} names)
    unfolding run_tasks
    SameOut-run_tasks [] = record { at = λ s. refl }
    SameOut-run_tasks (name ∷ names) = record {
      at = λ s.
          (SameOut-bind _ _ (SameOut-run_found name (get name s.tasks))
              (λ _. SameOut-run_tasks names)).at
            s;
    }

    SameOut-receive_from : (name : Text) (task : Task W) → SameOut (receive_from or name task)
    SameOut-receive_from name (pending cal) = record {
      at =
          SameOut-sent cal _
            (λ sent. SameOut-bind _ _ (SameOut-set_task name closed) (λ _. SameOut-lift sent));
    }
    SameOut-receive_from name (ready sent) =
        SameOut-bind _ _ (SameOut-set_task name closed) (λ _. SameOut-lift sent)
    SameOut-receive_from name closed = record { at = λ s. refl }

    SameOut-receive_found :
        (expired : List Text) (name : Text) (found : Option (Task W))
        → SameOut (receive_found or expired name found)
    SameOut-receive_found expired name none = record { at = λ s. refl }
    SameOut-receive_found expired name (some task) = record {
      at = λ s. elim (Bool-cases (listed name expired)) [
        | inl late ↦ rw late refl
        | inr soon ↦ rw soon ((SameOut-receive_from name task).at s)
      ];
    }

    pub SameOut-receive :
        (expired : List Text) (name : Text) → SameOut (receive or {W = W} expired name)
    unfolding receive
    SameOut-receive expired name = record {
      at = λ s. (SameOut-receive_found expired name (get name s.tasks)).at s;
    }

    -- An await that starts with no output publishes none.
    SameOut-await_from :
        (cal : Caller W) (expired : List Text) (out : Option ShadowResponse) (tasks : List Text)
        → SameOut (await_from or cal expired false out tasks)
    unfolding await_from
    SameOut-await_from cal expired out [] = SameOut-lift (ret tt)
    SameOut-await_from cal expired out (task ∷ tasks) =
        SameOut-bind (receive or expired task)
          (λ res. answer cal cal.request_updaters false out res >>= λ out'.
            await_from or cal expired false (some out') tasks)
          (SameOut-receive expired task)
          (λ res.
            SameOut-bind (answer cal cal.request_updaters false out res)
              (λ out'. await_from or cal expired false (some out') tasks)
              (SameOut-answer cal cal.request_updaters out res)
              (λ out'. SameOut-await_from cal expired (some out') tasks))

    -- While the cascade has no output, awaiting tasks gives it none, whatever they answered: the
    -- responses change the request at most.
    pub await-out :
        (cal : Caller W) (expired : List Text) (s : State W)
        → s.out ≡ none
        → (await or cal expired s).1.out ≡ none
    unfolding await
    await-out cal expired s e =
        rw e ((SameOut-await_from cal expired none cal.await_list).at (record s { out = none }))
