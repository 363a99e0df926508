-- ===== src/Netio/Cascade/Schedule.antt =====
-- Cascades without parallel callers, under different schedules.
use iceberg.Netio.Header.{Header}
use iceberg.Common.{if◌then◌else◌}
use iceberg.Common.Text.{text_eq}
use iceberg.Netio.Message.{Response, HttpError}
use iceberg.Netio.Caller.{
  put_request, carried, M, Turn, task_not_found, is_some, later_turns, next_turn, spin,
}
use iceberg.Common.Map.{get}
use iceberg.Netio.Cascade.{run_found, receive_found, run_copy, run_marked, start, cascade}
use iceberg.Netio.Request.{set_header}
use mathlib.Core.Path.{subst}
use iceberg.Common.Text.{Text}
use iceberg.Netio.Response.{ShadowResponse, new_shandow_response}
use iceberg.Netio.Request.{ShadowRequest, RequestUpdater}
use iceberg.Netio.Caller.{
  Caller, State, answer, settle, publish, create_or_update_response, feed_state, internal, feed,
  carried, put_request,
}
use iceberg.Common.{
  [], ◌∷◌, none, some, true, false, refl, ap, ◌∙◌, sym, All, Bool, List, Option, ◌≡◌,
}
use iceberg.Common.Go.{Go, ret, fail, panic, map_error}
use iceberg.Netio.Exec.{proceed, lift, ◌>>=◌, ◌>>◌}
use iceberg.Netio.Keeps.{Keeps, Keeps-lift, Keeps-proceed, Keeps-bind}
use iceberg.Netio.Cascade.{
  rounds, round, run_tasks, await, await_from, receive, perform, call_caller, go_on,
}

module _ {W : Type 0} where
  -- No task was started.
  abbrev pub Idle : State W → Type 0
  Idle s = s.tasks ≡ []

  -- The caller is called in its turn.
  abbrev pub Sequential : Caller W → Type 0
  Sequential cal = cal.is_parallel ≡ false

  Keeps-publish : (shared : Bool) (out : ShadowResponse) → Keeps Idle (publish {W = W} shared out)
  Keeps-publish true out = record { at = λ s h. h }
  Keeps-publish false out = record { at = λ s h. h }

  Keeps-feed_state :
      (out : ShadowResponse) (us : List RequestUpdater) → Keeps Idle (feed_state {W = W} out us)
  Keeps-feed_state out us = record {
    at = λ s.
        (Keeps-proceed Idle (feed s.request out us) put_request (λ r. record { at = λ s h. h })).at
          s;
  }

  Keeps-answer :
      (cal : Caller W) (us : List RequestUpdater) (shared : Bool) (out : Option ShadowResponse)
      (res : Option Response)
      → Keeps Idle (answer cal us shared out res)
  unfolding answer
  Keeps-answer cal us shared out res = record {
    at =
        (Keeps-proceed Idle (create_or_update_response out res cal.response_updaters) _ (λ out'.
          Keeps-bind Idle (publish shared out') _ (Keeps-publish shared out') (λ _.
            Keeps-bind Idle (feed_state out' us) _ (Keeps-feed_state out' us)
              (λ _. Keeps-lift Idle (ret out'))))).at;
  }

  Keeps-settle : (cal : Caller W) (r : Bool × Option Response) → Keeps Idle (settle cal r)
  unfolding settle
  Keeps-settle cal (true, res) = record {
    at =
        (Keeps-proceed Idle (map_error internal (new_shandow_response res)) _
          (λ r. Keeps-lift Idle (ret (some r)))).at;
  }
  Keeps-settle cal (false, none) = record { at = λ s h. h }
  Keeps-settle cal (false, some res) = record {
    at = λ s.
        (Keeps-bind Idle (answer cal (carried cal) true s.out (some res)) (λ _. lift (ret none))
            (Keeps-answer cal (carried cal) true s.out (some res))
            (λ _. Keeps-lift Idle (ret none))).at
          s;
  }

  module _ (or : ShadowRequest) where
    get-Idle : (name : Text) (s : State W) → Idle s → get name s.tasks ≡ none
    unfolding get
    get-Idle name s h = ap (get name) h

    -- With no task, no goroutine runs.
    run_tasks-Idle : (names : List Text) (s : State W) → Idle s → run_tasks or names s ≡ (ret tt, s)
    unfolding run_tasks
    run_tasks-Idle [] s h = refl
    run_tasks-Idle (name ∷ names) s h =
        ap (λ t. (run_found or name t >> run_tasks or names) s) (get-Idle name s h)
        ∙ run_tasks-Idle names s h

    -- With no task, awaiting one fails at once, whatever the clock says.
    receive-Idle :
        (expired : List Text) (name : Text) (s : State W)
        → Idle s
        → receive or expired name s ≡ (fail task_not_found, s)
    unfolding receive
    receive-Idle expired name s h = ap (λ t. receive_found or expired name t s) (get-Idle name s h)

    await_from-Idle :
        (cal : Caller W) (expired : List Text) (shared : Bool) (out : Option ShadowResponse)
        (tasks : List Text) (s : State W)
        → Idle s
        → await_from or cal expired shared out tasks s
          ≡ (elim tasks [ [] ↦ ret tt | _ ∷ _ ↦ fail task_not_found ], s)
    unfolding await_from
    await_from-Idle cal expired shared out [] s h = refl
    await_from-Idle cal expired shared out (task ∷ tasks) s h =
        ap
          (λ t.
            proceed t.0
              (λ res. answer cal cal.request_updaters shared out res >>= λ out'.
                await_from or cal expired shared (some out') tasks)
              t.1)
          (receive-Idle expired task s h)

    await-Idle :
        (cal : Caller W) (expired : List Text) (s : State W)
        → Idle s
        → await or cal expired s
          ≡ (elim cal.await_list [ [] ↦ ret tt | _ ∷ _ ↦ fail task_not_found ], s)
    unfolding await
    await-Idle cal expired s h =
        await_from-Idle cal expired (is_some s.out) s.out cal.await_list s h

    pub round-Idle :
        (turn : Turn) (cal : Caller W) (s : State W)
        → Idle s
        → round or turn cal s ≡ round or (next_turn []) cal s
    unfolding round
    round-Idle turn cal s h = quiet turn ∙ sym (quiet (next_turn []))
      where
        quiet :
            (turn : Turn)
            → (run_tasks or turn.runs >>= λ _. await or cal turn.expired >> perform or cal) s
              ≡ proceed {B = Option ShadowResponse}
                  (elim cal.await_list [ [] ↦ ret tt | _ ∷ _ ↦ fail task_not_found ])
                  (λ _. perform or cal)
                  s
        quiet turn =
            ap (λ t. proceed t.0 (λ _. await or cal turn.expired >> perform or cal) t.1)
              (run_tasks-Idle turn.runs s h)
            ∙ ap (λ t. proceed t.0 (λ _. perform or cal) t.1) (await-Idle cal turn.expired s h)

    Keeps-call : (cal : Caller W) → Keeps Idle (call_caller or cal)
    unfolding call_caller
    Keeps-call cal = record { at = λ s h. h }

    Keeps-perform : (cal : Caller W) → Sequential cal → Keeps Idle (perform or cal)
    Keeps-perform cal e =
        subst
          (λ b.
            Keeps Idle
              (if b then spin cal >> lift (ret none) else call_caller or cal >>= settle cal))
          (sym e)
          (Keeps-bind Idle (call_caller or cal) (settle cal) (Keeps-call cal) (Keeps-settle cal))

    Keeps-round : (turn : Turn) (cal : Caller W) → Sequential cal → Keeps Idle (round or turn cal)
    unfolding round
    Keeps-round turn cal e =
        Keeps-bind Idle (run_tasks or turn.runs) _ ran
          (λ _. Keeps-bind Idle (await or cal turn.expired) _ awaited (λ _. Keeps-perform cal e))
      where
        ran : Keeps Idle (run_tasks or turn.runs)
        ran = record { at = λ s h. ap (λ t. t.1.tasks) (run_tasks-Idle turn.runs s h) ∙ h }

        awaited : Keeps Idle (await or cal turn.expired)
        awaited = record { at = λ s h. ap (λ t. t.1.tasks) (await-Idle cal turn.expired s h) ∙ h }

    proceed-go_on :
        (rest rest' : M W (Option ShadowResponse)) (r : Go HttpError (Option ShadowResponse))
        (s : State W)
        → (rest s ≡ rest' s)
        → proceed r (go_on or rest) s ≡ proceed r (go_on or rest') s
    proceed-go_on rest rest' (ret none) s e = e
    proceed-go_on rest rest' (ret (some res)) s e = refl
    proceed-go_on rest rest' (fail x) s e = refl
    proceed-go_on rest rest' panic s e = refl

    rounds-Idle :
        (turns : List Turn) (cals : List (Caller W)) (s : State W)
        → All Sequential cals
        → Idle s
        → rounds or turns cals s ≡ rounds or [] cals s
    unfolding rounds
    rounds-Idle turns [] s a h = refl
    rounds-Idle turns (cal ∷ cals) s (e, a) h =
        ap (λ t. proceed t.0 (go_on or (rounds or (later_turns turns) cals)) t.1)
          (round-Idle (next_turn turns) cal s h)
        ∙ proceed-go_on (rounds or (later_turns turns) cals) (rounds or [] cals)
            (round or (next_turn []) cal s).0 (round or (next_turn []) cal s).1
            (rounds-Idle (later_turns turns) cals _ a ((Keeps-round (next_turn []) cal e).at s h))

  run_copy-Idle :
      (turns : List Turn) (request : ShadowRequest) (cals : List (Caller W)) (world : W)
      (copy : Go HttpError ShadowRequest)
      → All Sequential cals
      → run_copy turns request cals world copy ≡ run_copy [] request cals world copy
  run_copy-Idle turns request cals world (ret or) a =
      rounds-Idle or turns cals (start request world) a refl
  run_copy-Idle turns request cals world (fail e) a = refl
  run_copy-Idle turns request cals world panic a = refl

  run_marked-Idle :
      (turns : List Turn) (request : ShadowRequest) (cals : List (Caller W)) (world : W)
      (h : Go HttpError Header)
      → All Sequential cals
      → run_marked turns request cals world h ≡ run_marked [] request cals world h
  run_marked-Idle turns request cals world (ret h) a =
      run_copy-Idle turns (set_header request h) cals world _ a
  run_marked-Idle turns request cals world (fail e) a = refl
  run_marked-Idle turns request cals world panic a = refl

  -- Without parallel callers a cascade is deterministic: what it returns, the request it leaves and
  -- what its callers did to the world do not depend on the scheduler or the clock, even where
  -- callers await tasks (which do not exist).
  pub cascade-Sequential :
      (uuid : Text) (turns : List Turn) (request : ShadowRequest) (cals : List (Caller W))
      (world : W)
      → All Sequential cals
      → cascade uuid turns request (some cals) world ≡ cascade uuid [] request (some cals) world
  unfolding cascade
  cascade-Sequential uuid turns request cals world a = run_marked-Idle turns request cals world _ a
