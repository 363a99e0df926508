-- ===== src/Proxies/WebSocket/BackPump.antt =====
-- The goroutine of WebSocketProxy.Handle that carries the messages of the backend to the client
-- (internal/callers/proxies/ws.go), as a step relation, like Pump. The error of a write to the client
-- is ignored; a read that fails dials the backend anew.
use iceberg.Proxies.WebSocket.{relay}
use iceberg.Proxies.WebSocket.Pump.{Fate, written, lost, dropped, original_of}
use iceberg.Proxies.WebSocket.Delivered.{sent_of, IsFate}
use iceberg.Netio.Caller.{Caller, Turn}
use mathlib.Core.Path.{subst}
use iceberg.Common.{ℕ, ◌+◌, List, [], ◌∷◌, map, none, some, ◌≡◌, refl, sym, ap, All}
use iceberg.Common.Go.{ret}
use iceberg.Common.Text.{Text, text_eq}

pub record BackPump (W : Type 0) : Type 0 where
  pub fates : List Fate
  pub read : List Text
  pub sent : List Text
  pub redialled : ℕ
  pub world : W

abbrev pub silent : {W : Type 0} → W → BackPump W
silent w = record { fates = []; read = []; sent = []; redialled = 0; world = w }

module _ {W : Type 0} (callers : List (Caller W)) where
  pub data BackStep (s t : BackPump W) : Type 0 where
    drop :
        (message uuid : Text) (turns : List Turn) (w : W)
        → relay uuid turns callers message s.world ≡ (ret none, w)
        → t ≡ record s { fates = dropped message ∷ s.fates; read = message ∷ s.read; world = w }
        → BackStep s t
    deliver :
        (message carried uuid : Text) (turns : List Turn) (w w' : W)
        → relay uuid turns callers message s.world ≡ (ret (some carried), w)
        → t ≡ record s {
          fates = written message carried ∷ s.fates;
          read = message ∷ s.read;
          sent = carried ∷ s.sent;
          world = w';
        }
        → BackStep s t
    lose :
        (message carried uuid : Text) (turns : List Turn) (w w' : W)
        → relay uuid turns callers message s.world ≡ (ret (some carried), w)
        → t
          ≡ record s { fates = lost message carried ∷ s.fates; read = message ∷ s.read; world = w' }
        → BackStep s t
    redial_read : (w : W) → t ≡ record s { redialled = s.redialled + 1; world = w } → BackStep s t
    retry_read : (w : W) → t ≡ record s { world = w } → BackStep s t

  pub data BackReach (w : W) : BackPump W → Type 0 where
    started : BackReach w (silent w)
    then_step : {s t : BackPump W} → BackReach w s → BackStep s t → BackReach w t

  abbrev BackInv : BackPump W → Type 0
  BackInv s =
      (s.read ≡ map original_of s.fates) × (s.sent ≡ sent_of s.fates) × All (IsFate callers) s.fates

  -- The messages that were read are those whose fate is known, in order; the client was sent what the
  -- cascade of the response callers made of those with the fate `written`, each once and in order.
  pub BackReach-account :
      (w : W) (s : BackPump W)
      → BackReach w s
      → (s.read ≡ map original_of s.fates)
        × (s.sent ≡ sent_of s.fates)
        × All (IsFate callers) s.fates
  BackReach-account w _ started = (refl, refl, tt)
  BackReach-account w t (then_step {s} reached (drop m uuid turns w₁ same e)) =
      let (account, sent, fates) = BackReach-account w s reached in
      subst BackInv (sym e)
        (ap (λ ms. m ∷ ms) account, sent, ((uuid, turns, s.world, ap (λ r. r.0) same), fates))
  BackReach-account w t (then_step {s} reached (deliver m c uuid turns w₁ w₂ same e)) =
      let (account, sent, fates) = BackReach-account w s reached in
      subst BackInv (sym e) (
        ap (λ ms. m ∷ ms) account,
        ap (λ ms. c ∷ ms) sent,
        ((uuid, turns, s.world, ap (λ r. r.0) same), fates),
      )
  BackReach-account w t (then_step {s} reached (lose m c uuid turns w₁ w₂ same e)) =
      let (account, sent, fates) = BackReach-account w s reached in
      subst BackInv (sym e)
        (ap (λ ms. m ∷ ms) account, sent, ((uuid, turns, s.world, ap (λ r. r.0) same), fates))
  BackReach-account w t (then_step {s} reached (redial_read w₁ e)) =
      subst BackInv (sym e) (BackReach-account w s reached)
  BackReach-account w t (then_step {s} reached (retry_read w₁ e)) =
      subst BackInv (sym e) (BackReach-account w s reached)
