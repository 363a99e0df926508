-- ===== src/Proxies/WebSocket/Sessions.antt =====
-- All sessions of one WebSocketProxy of internal/callers/proxies/ws.go, interleaved: what they share is
-- the address of the proxy, whose path each Handle changes; the two goroutines of a session share its
-- variable `out`. What the network does is the choice of a step, and what is done is recorded.
pub mod Spec
pub mod Fits
pub mod Isolated
use iceberg.Netio.Caller.{Turn}
use iceberg.Proxies.WebSocket.{SocketLib, WebSocketProxy, relay}
use iceberg.Common.Url.{Url}
use iceberg.Common.{ℕ, List, [], ◌∷◌, Option, none, some, ◌≡◌, nat_eq}
use iceberg.Common.Go.{ret, fail}
use iceberg.Common.Text.{Text, text_eq}
use mathlib.Core.Logic.{ite}
use native.Mathlib.Decide.{ℕ_discrete}

-- What a session did that others can observe; the first argument is the session.
pub data Event (Ws : Type 0) : Type 0 where
  visited : ℕ → (path : Text) → Event Ws
  dialled : ℕ → (target : Url) → Ws → Event Ws
  received : ℕ → (message : Text) → Event Ws
  wrote : ℕ → Ws → (original carried : Text) → Event Ws
  heard : ℕ → Ws → (message : Text) → Event Ws
  showed : ℕ → Ws → (original carried : Text) → Event Ws

-- Where the goroutine stands that carries the messages of the client.
pub data Forward : Type 0 where
  reading : Forward
  holding : (original carried : Text) → Forward
  redialling : (original carried : Text) → Forward
  stopped : Forward

-- Where the goroutine stands that carries the messages of the backend.
pub data Backward (Ws : Type 0) : Type 0 where
  waiting : Backward Ws
  listening : Ws → Backward Ws
  showing : Ws → (original carried : Text) → Backward Ws
  cut_off : Backward Ws

-- A session before it changes the address, before its first dial, and with its variable `out` and
-- its goroutines. A goroutine that meets a nil connection ends the program, and so has no step.
pub data Phase (Ws : Type 0) : Type 0 where
  absent : Phase Ws
  arrived : Phase Ws
  serving : (out : Option Ws) → Forward → Backward Ws → Phase Ws

pub record Sessions (W Ws : Type 0) : Type 0 where
  pub address : Url
  pub phase : ℕ → Phase Ws
  -- The latest first.
  pub history : List (Event Ws)
  pub world : W

-- No session has come yet.
abbrev pub unvisited : {W Ws : Type 0} → Url → W → Sessions W Ws
unvisited address w = record { address = address; phase = λ _. absent; history = []; world = w }

abbrev pub set_phase : {Ws : Type 0} → (ℕ → Phase Ws) → ℕ → Phase Ws → ℕ → Phase Ws
set_phase phase i p j = ite (ℕ_discrete i j) p (phase j)

-- What a step leaves of the address.
abbrev pub readdressed : {Ws : Type 0} → Event Ws → Url → Url
readdressed (visited i path) address = record address { path = path }
readdressed _ address = address

-- A step of session `i` that is observed, and one that is not.
abbrev pub seen : {W Ws : Type 0} → ℕ → Event Ws → Phase Ws → W → Sessions W Ws → Sessions W Ws
seen i e p w s = record {
  address = readdressed e s.address;
  phase = set_phase s.phase i p;
  history = e ∷ s.history;
  world = w;
}

abbrev pub unseen : {W Ws : Type 0} → ℕ → Phase Ws → W → Sessions W Ws → Sessions W Ws
unseen i p w s = record s { phase = set_phase s.phase i p; world = w }

module _ {W Ws : Type 0} (socket : SocketLib W Ws) (proxy : WebSocketProxy W) where
  -- What session `i` does next where it stands at the phase: the event, the next phase and the world.
  -- The address is read when a dial begins.
  pub data Move (i : ℕ) (address : Url) (w : W) : Phase Ws → Event Ws → Phase Ws → W → Type 0 where
    visit : (path : Text) → Move i address w absent (visited i path) arrived w
    open_backend :
        {c : Ws} {w' : W}
        → socket.dial address w ≡ (ret c, w')
        → Move i address w arrived (dialled i address c) (serving (some c) reading waiting) w'
    read_and_drop :
        {o : Option Ws} {b : Backward Ws} {w' : W} (message uuid : Text) (turns : List Turn)
        → relay uuid turns proxy.request_callers message w ≡ (ret none, w')
        → Move i address w (serving o reading b) (received i message) (serving o reading b) w'
    read_and_hold :
        {o : Option Ws} {b : Backward Ws} {w' : W} (message carried uuid : Text) (turns : List Turn)
        → relay uuid turns proxy.request_callers message w ≡ (ret (some carried), w')
        → Move i address w
            (serving o reading b)
            (received i message)
            (serving o (holding message carried) b)
            w'
    write_message :
        {c : Ws} {b : Backward Ws} {m x : Text} (w' : W)
        → Move i address w
            (serving (some c) (holding m x) b)
            (wrote i c m x)
            (serving (some c) reading b)
            w'
    -- The message that was held is not written again.
    redial :
        {o : Option Ws} {b : Backward Ws} {m x : Text} {c : Ws} {w' : W}
        → socket.dial address w ≡ (ret c, w')
        → Move i address w
            (serving o (redialling m x) b)
            (dialled i address c)
            (serving (some c) reading b)
            w'
    hear_and_drop :
        {o : Option Ws} {f : Forward} {c : Ws} {w' : W} (message uuid : Text) (turns : List Turn)
        → relay uuid turns proxy.response_callers message w ≡ (ret none, w')
        → Move i address w (serving o f (listening c)) (heard i c message) (serving o f waiting) w'
    hear_and_hold :
        {o : Option Ws} {f : Forward} {c : Ws} {w' : W} (message carried uuid : Text)
        (turns : List Turn)
        → relay uuid turns proxy.response_callers message w ≡ (ret (some carried), w')
        → Move i address w
            (serving o f (listening c))
            (heard i c message)
            (serving o f (showing c message carried))
            w'
    show :
        {o : Option Ws} {f : Forward} {c : Ws} {m x : Text} (w' : W)
        → Move i address w (serving o f (showing c m x)) (showed i c m x) (serving o f waiting) w'
    rejoin :
        {o : Option Ws} {f : Forward} {c : Ws} {w' : W}
        → socket.dial address w ≡ (ret c, w')
        → Move i address w
            (serving o f cut_off)
            (dialled i address c)
            (serving (some c) f waiting)
            w'

  -- A move that nobody else observes: a read begins, or a call fails.
  pub data Quiet (address : Url) (w : W) : Phase Ws → Phase Ws → W → Type 0 where
    open_failed :
        {e : Text} {w' : W}
        → socket.dial address w ≡ (fail e, w')
        → Quiet address w arrived (serving none reading waiting) w'
    client_gone :
        {o : Option Ws} {b : Backward Ws} (w' : W)
        → Quiet address w (serving o reading b) (serving o stopped b) w'
    write_failed :
        {c : Ws} {b : Backward Ws} {m x : Text} (w' : W)
        → Quiet address w
            (serving (some c) (holding m x) b)
            (serving (some c) (redialling m x) b)
            w'
    redial_failed :
        {o : Option Ws} {b : Backward Ws} {m x : Text} {e : Text} {w' : W}
        → socket.dial address w ≡ (fail e, w')
        → Quiet address w (serving o (redialling m x) b) (serving o (holding m x) b) w'
    listen :
        {c : Ws} {f : Forward}
        → Quiet address w (serving (some c) f waiting) (serving (some c) f (listening c)) w
    backend_gone :
        {o : Option Ws} {f : Forward} {c : Ws} (w' : W)
        → Quiet address w (serving o f (listening c)) (serving o f cut_off) w'
    rejoin_failed :
        {o : Option Ws} {f : Forward} {e : Text} {w' : W}
        → socket.dial address w ≡ (fail e, w')
        → Quiet address w (serving o f cut_off) (serving o f waiting) w'
    show_failed :
        {o : Option Ws} {f : Forward} {c : Ws} {m x : Text} (w' : W)
        → Quiet address w (serving o f (showing c m x)) (serving o f waiting) w'

  -- A session moves, or the rest of the program changes the world.
  pub data Step (s : Sessions W Ws) : Sessions W Ws → Type 0 where
    act :
        (i : ℕ) {e : Event Ws} {p : Phase Ws} {w : W}
        → Move i s.address s.world (s.phase i) e p w
        → Step s (seen i e p w s)
    act_quietly :
        (i : ℕ) {p : Phase Ws} {w : W}
        → Quiet s.address s.world (s.phase i) p w
        → Step s (unseen i p w s)
    elsewhere : (w : W) → Step s (record s { world = w })

  pub data Reach (address : Url) (world : W) : Sessions W Ws → Type 0 where
    begun : Reach address world (unvisited address world)
    later : {s t : Sessions W Ws} → Reach address world s → Step s t → Reach address world t
