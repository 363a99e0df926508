-- ===== src/Proxies/WebSocket/Pump.antt =====
-- The goroutine of WebSocketProxy.Handle that carries the messages of the client to the backend
-- (internal/callers/proxies/ws.go), as a step relation. What the network does, which messages come
-- and which writes and dials succeed, is the choice of a step.
use iceberg.Proxies.WebSocket.{relay}
use iceberg.Netio.Caller.{Caller, Turn}
use iceberg.Common.{ℕ, ◌+◌, List, [], ◌∷◌, Option, none, some, ◌≡◌}
use iceberg.Common.Go.{ret}
use iceberg.Common.Text.{Text, text_eq}

-- What became of a message that was read.
pub data Fate : Type 0 where
  written : (original carried : Text) → Fate
  lost : (original carried : Text) → Fate
  dropped : (original : Text) → Fate

abbrev pub original_of : Fate → Text
original_of (written original carried) = original
original_of (lost original carried) = original
original_of (dropped original) = original

-- What waits in the inner loop, the fates of the messages before it, the latest first, what was read
-- and what was written, the latest first, how often the backend was dialled anew, and the world.
pub record Pump (W : Type 0) : Type 0 where
  pub holding : Option (Text × Text)
  pub fates : List Fate
  pub read : List Text
  pub sent : List Text
  pub redialled : ℕ
  pub world : W

abbrev pub idle : {W : Type 0} → W → Pump W
idle w = record { holding = none; fates = []; read = []; sent = []; redialled = 0; world = w }

module _ {W : Type 0} (callers : List (Caller W)) where
  pub data Step (s t : Pump W) : Type 0 where
    read_and_drop :
        (message uuid : Text) (turns : List Turn) (w : W)
        → s.holding ≡ none
        → relay uuid turns callers message s.world ≡ (ret none, w)
        → t ≡ record s { fates = dropped message ∷ s.fates; read = message ∷ s.read; world = w }
        → Step s t
    read_and_hold :
        (message carried uuid : Text) (turns : List Turn) (w : W)
        → s.holding ≡ none
        → relay uuid turns callers message s.world ≡ (ret (some carried), w)
        → t ≡ record s { holding = some (message, carried); read = message ∷ s.read; world = w }
        → Step s t
    write_message :
        (message carried : Text) (w : W)
        → s.holding ≡ some (message, carried)
        → t ≡ record s {
          holding = none;
          fates = written message carried ∷ s.fates;
          sent = carried ∷ s.sent;
          world = w;
        }
        → Step s t
    -- The write failed, the dial did not: the loop ends, and the message is not written again.
    redial :
        (message carried : Text) (w : W)
        → s.holding ≡ some (message, carried)
        → t ≡ record s {
          holding = none;
          fates = lost message carried ∷ s.fates;
          redialled = s.redialled + 1;
          world = w;
        }
        → Step s t
    -- The write and the dial failed: the loop goes on five seconds later.
    retry :
        (message carried : Text) (w : W)
        → s.holding ≡ some (message, carried)
        → t ≡ record s { world = w }
        → Step s t

  pub data Reach (w : W) : Pump W → Type 0 where
    here : Reach w (idle w)
    next : {s t : Pump W} → Reach w s → Step s t → Reach w t
