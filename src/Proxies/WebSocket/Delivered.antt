-- ===== src/Proxies/WebSocket/Delivered.antt =====
-- What the backend gets of the messages of a client.
use iceberg.Proxies.WebSocket.{relay}
use iceberg.Proxies.WebSocket.Pump.{
  Fate, written, lost, dropped, original_of, Pump, idle, Step, read_and_drop, read_and_hold,
  write_message, redial, retry, Reach, here, next,
}
use iceberg.Netio.Caller.{Caller, Turn}
use mathlib.Core.Path.{subst}
use iceberg.Common.{
  List, [], ◌∷◌, ◌++◌, map, Option, none, some, ◌≡◌, refl, sym, ap, ◌∙◌, All, length, arith,
  some_inj,
}
use iceberg.Common.Go.{ret}
use iceberg.Common.Text.{Text, text_eq}

-- The message that waits in the inner loop.
abbrev pub held : Option (Text × Text) → List Text
held none = []
held (some (original, carried)) = original ∷ []

abbrev pub sent_of : List Fate → List Text
sent_of [] = []
sent_of (written original carried ∷ fates) = carried ∷ sent_of fates
sent_of (lost original carried ∷ fates) = sent_of fates
sent_of (dropped original ∷ fates) = sent_of fates

abbrev pub lost_of : List Fate → List Text
lost_of [] = []
lost_of (written original carried ∷ fates) = lost_of fates
lost_of (lost original carried ∷ fates) = original ∷ lost_of fates
lost_of (dropped original ∷ fates) = lost_of fates

module _ {W : Type 0} (callers : List (Caller W)) where
  -- The cascade made the second text of the first, at some time.
  abbrev pub Carried : Text → Text → Type 0
  Carried message carried =
      (uuid : Text) × (turns : List Turn) × (w : W) × ((relay uuid turns callers message w).0
        ≡ ret (some carried))

  abbrev pub IsFate : Fate → Type 0
  IsFate (written message carried) = Carried message carried
  IsFate (lost message carried) = Carried message carried
  IsFate (dropped message) =
      (uuid : Text) × (turns : List Turn) × (w : W) × ((relay uuid turns callers message w).0
        ≡ ret none)

  record Inv (s : Pump W) : Type 0 where
    account : s.read ≡ held s.holding ++ map original_of s.fates
    delivered : s.sent ≡ sent_of s.fates
    counted : length (lost_of s.fates) ≡ s.redialled
    relayed : All IsFate s.fates
    carried : (m c : Text) → s.holding ≡ some (m, c) → Carried m c

  idle-Inv : (w : W) → Inv (idle w)
  idle-Inv w = record {
    account = refl;
    delivered = refl;
    counted = refl;
    relayed = tt;
    carried = λ m c e. cc;
  }

  account_of :
      {s : Pump W} (waiting : Option (Text × Text))
      → Inv s
      → s.holding ≡ waiting
      → s.read ≡ held waiting ++ map original_of s.fates
  account_of {s} waiting h e = h.account ∙ ap (λ x. held x ++ map original_of s.fates) e

  Step-Inv : {s t : Pump W} → Step callers s t → Inv s → Inv t
  Step-Inv {s} {t} (read_and_drop m uuid turns w free same e) h = subst Inv (sym e) (record {
    account =
        ap (λ ms. m ∷ ms) (account_of none h free)
        ∙ sym (ap (λ x. held x ++ m ∷ map original_of s.fates) free);
    delivered = h.delivered;
    counted = h.counted;
    relayed = ((uuid, turns, s.world, ap (λ r. r.0) same), h.relayed);
    carried = h.carried;
  })
  Step-Inv {s} {t} (read_and_hold m c uuid turns w free same e) h = subst Inv (sym e) (record {
    account = ap (λ ms. m ∷ ms) (account_of none h free);
    delivered = h.delivered;
    counted = h.counted;
    relayed = h.relayed;
    carried = λ m' c' k.
        subst (λ p. Carried p.0 p.1) (some_inj k) (uuid, turns, s.world, ap (λ r. r.0) same);
  })
  Step-Inv {s} {t} (write_message m c w full e) h = subst Inv (sym e) (record {
    account = account_of (some (m, c)) h full;
    delivered = ap (λ ms. c ∷ ms) h.delivered;
    counted = h.counted;
    relayed = (h.carried m c full, h.relayed);
    carried = λ m' c' k. cc;
  })
  Step-Inv {s} {t} (redial m c w full e) h = subst Inv (sym e) (record {
    account = account_of (some (m, c)) h full;
    delivered = h.delivered;
    counted = omega (arith, h.counted);
    relayed = (h.carried m c full, h.relayed);
    carried = λ m' c' k. cc;
  })
  Step-Inv {s} {t} (retry m c w full e) h = subst Inv (sym e) (record {
    account = h.account;
    delivered = h.delivered;
    counted = h.counted;
    relayed = h.relayed;
    carried = h.carried;
  })

  Reach-Inv : (w : W) {s : Pump W} → Reach callers w s → Inv s
  Reach-Inv w here = idle-Inv w
  Reach-Inv w (next r st) = Step-Inv st (Reach-Inv w r)

  -- At any time: the messages that were read are those whose fate is known, in order, and the one
  -- that waits; the messages that were written are what the cascade of the request callers made of
  -- those with the fate `written`, each once and in order; and as many were lost as there were
  -- redials.
  pub Reach-account :
      (w : W) (s : Pump W)
      → Reach callers w s
      → (s.read ≡ held s.holding ++ map original_of s.fates)
        × (s.sent ≡ sent_of s.fates)
        × (length (lost_of s.fates) ≡ s.redialled)
        × All IsFate s.fates
  Reach-account w s r = let h = Reach-Inv w r in (h.account, h.delivered, h.counted, h.relayed)
