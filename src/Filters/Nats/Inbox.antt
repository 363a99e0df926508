-- ===== src/Filters/Nats/Inbox.antt =====
-- The two channels of one Call of a NATS filter, from SubscribeOnce to the return, and the message
-- that may come behind it: Call closes the channels when it returns, and the subscription, which
-- takes one message, outlives it.
use mathlib.Core.Path.{subst}
use iceberg.Nats.Broker.{Msg}
use iceberg.Netio.Response.{ShadowResponse}
use iceberg.Netio.Caller.{CallResult, deadline_exceeded}
use iceberg.Netio.Message.{new_error}
use iceberg.Filters.Nats.{awaited}
use iceberg.Common.{
  ℕ, ◌-◌, ◌≤◌, ◌<◌, Option, none, some, Bool, true, false, ◌≡◌, refl, sym, ap, ◌∙◌, ◌⊎◌, inl, inr,
  arith, some_inj, Option-cases, Bool-cases,
}
use iceberg.Common.Go.{Go, fail, panic}
use iceberg.Common.Text.{Text, text_eq}

-- How many messages the subscription takes, what a handler put into a channel, whether the request
-- was published, whether the context is done, what Call returned (which closes the channels), and
-- whether a handler sent on a closed channel, which ends the program.
pub record Inbox : Type 0 where
  pub remaining : ℕ
  pub buffer : Option (Go Text ShadowResponse)
  pub published : Bool
  pub done : Bool
  pub returned : Option CallResult
  pub crashed : Bool

-- Behind a SubscribeOnce that returned no error.
abbrev pub opened : Inbox
opened = record {
  remaining = 1;
  buffer = none;
  published = false;
  done = false;
  returned = none;
  crashed = false;
}

some_ne : {A : Type 0} {a : A} → some a ≡ none → ⊥
some_ne e = absurd (cc)

-- How Call gives up, which closes its channels: the end of its context, an error of Publish, or a
-- panic in it, which the HTTP server recovers.
pub data GaveUp (r : CallResult) : Type 0 where
  timed_out : r ≡ fail deadline_exceeded → GaveUp r
  unpublished : (e : Text) → r ≡ fail (new_error e 502) → GaveUp r
  panicked : r ≡ panic → GaveUp r

module _ (handle : Msg → Go Text ShadowResponse) where
  -- What Publish, the messages, the clock and the select of Await do, in any order that the code
  -- allows. An arrival is the moment at which the handler of the message sends its result.
  pub data Step (s t : Inbox) : Type 0 where
    publish : s.returned ≡ none → s.published ≡ false → t ≡ record s { published = true } → Step s t
    publish_failed :
        (e : Text)
        → s.returned ≡ none
        → s.published ≡ false
        → t ≡ record s { returned = some (fail (new_error e 502)) }
        → Step s t
    publish_panicked :
        s.returned ≡ none → s.published ≡ false → t ≡ record s { returned = some panic } → Step s t
    arrive :
        (m : Msg)
        → 0 < s.remaining
        → s.returned ≡ none
        → t ≡ record s { remaining = s.remaining - 1; buffer = some (handle m) }
        → Step s t
    arrive_late :
        (m : Msg) (r : CallResult)
        → 0 < s.remaining
        → s.returned ≡ some r
        → t ≡ record s { remaining = s.remaining - 1; crashed = true }
        → Step s t
    expire : t ≡ record s { done = true } → Step s t
    receive :
        (v : Go Text ShadowResponse)
        → s.returned ≡ none
        → s.published ≡ true
        → s.buffer ≡ some v
        → t ≡ record s { buffer = none; returned = some (awaited v) }
        → Step s t
    give_up :
        s.returned ≡ none
        → s.published ≡ true
        → s.done ≡ true
        → t ≡ record s { returned = some (fail deadline_exceeded) }
        → Step s t

  pub data Reach : Inbox → Type 0 where
    here : Reach opened
    next : {s t : Inbox} → Reach s → Step s t → Reach t

  pub record Inv (s : Inbox) : Type 0 where
    pub once : s.remaining ≤ 1
    pub taken :
        (v : Go Text ShadowResponse)
        → s.buffer ≡ some v
        → (s.remaining ≡ 0) × ((m : Msg) × (v ≡ handle m))
    pub settled :
        (r : CallResult)
        → s.returned ≡ some r
        → GaveUp r
          ⊎ ((s.remaining ≡ 0) × (s.crashed ≡ false) × ((m : Msg) × (r ≡ awaited (handle m))))
    pub late :
        s.crashed ≡ true
        → (s.remaining ≡ 0)
          × (s.buffer ≡ none)
          × ((r : CallResult) × (s.returned ≡ some r) × GaveUp r)

  opened-Inv : Inv opened
  opened-Inv = record { once = omega arith; taken = λ v e. cc; settled = λ r e. cc; late = λ e. cc }

  -- While Call has not returned, no handler sent on a closed channel.
  waits-crashed : {s : Inbox} → Inv s → s.returned ≡ none → s.crashed ≡ true → ⊥
  waits-crashed h waits k = let (_, _, (_, gone, _)) = h.late k in some_ne (sym gone ∙ waits)

  -- A message that waits in a channel is the only one.
  none_left : {s : Inbox} → Inv s → 0 < s.remaining → s.buffer ≡ none
  none_left {s} h left = elim (Option-cases s.buffer) [
    | inl empty ↦ empty
    | inr (v, full) ↦ let (z, _) = h.taken v full in absurd (omega arith)
  ]

  -- Nothing more is left for a message than it was.
  unchanged-Inv :
      {s t : Inbox}
      → Inv s
      → s.returned ≡ none
      → t.remaining ≡ s.remaining
      → t.crashed ≡ s.crashed
      → ((v : Go Text ShadowResponse) → t.buffer ≡ some v → s.buffer ≡ some v)
      → ((r : CallResult)
          → t.returned ≡ some r
          → GaveUp r
            ⊎ ((s.remaining ≡ 0) × (s.crashed ≡ false) × ((m : Msg) × (r ≡ awaited (handle m)))))
      → Inv t
  unchanged-Inv {s} {t} h waits same safe buffered settles = record {
    once = ground (arith, h.once, same);
    taken = λ v k. let (z, made) = h.taken v (buffered v k) in (same ∙ z, made);
    settled = λ r k. elim (settles r k) [
      | inl a ↦ inl a
      | inr (z, kept, made) ↦ inr (same ∙ z, safe ∙ kept, made)
    ];
    late = λ k. absurd (waits-crashed h waits (sym safe ∙ k));
  }

  still : {s : Inbox} → Inv s → s.returned ≡ none → s.crashed ≡ false
  still {s} h waits = elim (Bool-cases s.crashed) [
    | inl k ↦ absurd (waits-crashed h waits k)
    | inr k ↦ k
  ]

  Step-Inv : {s t : Inbox} → Step s t → Inv s → Inv t
  Step-Inv {s} {t} (publish waits _ e) h =
      subst Inv (sym e)
        (unchanged-Inv h waits refl refl (λ v k. k) (λ r k. absurd (some_ne (sym k ∙ waits))))
  Step-Inv {s} {t} (publish_failed x waits _ e) h =
      subst Inv (sym e)
        (unchanged-Inv h waits refl refl (λ v k. k) (λ r k. inl (unpublished x (sym (some_inj k)))))
  Step-Inv {s} {t} (publish_panicked waits _ e) h =
      subst Inv (sym e)
        (unchanged-Inv h waits refl refl (λ v k. k) (λ r k. inl (panicked (sym (some_inj k)))))
  Step-Inv {s} {t} (arrive m left waits e) h = subst Inv (sym e) (record {
    once = ground (arith, h.once);
    taken = λ v k. (ground (arith, h.once), (m, cc));
    settled = λ r k. cc;
    late = λ k. absurd (waits-crashed h waits k);
  })
  Step-Inv {s} {t} (arrive_late m r left gone e) h = subst Inv (sym e) (record {
    once = ground (arith, h.once);
    taken = λ v k. let (z, _) = h.taken v k in absurd (omega arith);
    settled = λ q k. elim (h.settled q k) [ inl a ↦ inl a | inr (z, _, _) ↦ absurd (omega arith) ];
    late = λ k. elim (h.settled r gone) [
      | inl a ↦ (ground (arith, h.once), none_left h left, (r, gone, a))
      | inr (z, _, _) ↦ absurd (omega arith)
    ];
  })
  Step-Inv {s} {t} (expire e) h =
      subst Inv (sym e)
        (record { once = h.once; taken = h.taken; settled = h.settled; late = h.late })
  Step-Inv {s} {t} (receive v waits _ full e) h =
      let (z, (m, same)) = h.taken v full in
      subst Inv (sym e) (
        unchanged-Inv h waits refl refl (λ u k. absurd (some_ne (sym k)))
          (λ r k. inr (z, still h waits, (m, sym (some_inj k) ∙ ap awaited same))))
  Step-Inv {s} {t} (give_up waits _ _ e) h =
      subst Inv (sym e)
        (unchanged-Inv h waits refl refl (λ v k. k) (λ r k. inl (timed_out (sym (some_inj k)))))

  Reach-Inv : {s : Inbox} → Reach s → Inv s
  Reach-Inv here = opened-Inv
  Reach-Inv (next r st) = Step-Inv st (Reach-Inv r)

  -- Behind a SubscribeOnce that returned no error, whatever comes in whatever order: Call ends with the
  -- error of Publish, a panic in it, the end of the context, or what Await makes of the one message,
  -- which the subscription took. A message ends the program by a send on a closed channel only where
  -- Call ended in one of the first three ways before; it is then the one message that the
  -- subscription took, and none waits in a channel.
  pub Reach-outcome :
      (s : Inbox)
      → Reach s
      → ((r : CallResult)
          → s.returned ≡ some r
          → GaveUp r
            ⊎ ((s.remaining ≡ 0) × (s.crashed ≡ false) × ((m : Msg) × (r ≡ awaited (handle m)))))
        × (s.crashed ≡ true
            → (s.remaining ≡ 0)
              × (s.buffer ≡ none)
              × ((r : CallResult) × (s.returned ≡ some r) × GaveUp r))
  Reach-outcome s reached = let h = Reach-Inv reached in (h.settled, h.late)
