-- ===== src/Proxies/WebSocket/Sessions/Fits.antt =====
-- What the history of the sessions of a WebSocket proxy says of a session at its phase.
use iceberg.Proxies.WebSocket.{SocketLib, WebSocketProxy}
use iceberg.Proxies.WebSocket.Delivered.{Carried}
use iceberg.Proxies.WebSocket.Sessions.{
  Event, visited, received, heard, Forward, reading, holding, redialling, stopped, Backward,
  waiting, listening, showing, cut_off, Phase, absent, arrived, serving,
}
use iceberg.Proxies.WebSocket.Sessions.Spec.{latest_path, Visited, DialledBy}
use mathlib.Core.List.{Memᴰ}
use mathlib.Core.Path.{subst}
use iceberg.Common.Url.{Url}
use iceberg.Common.{ℕ, List, [], ◌∷◌, Option, none, some, ◌≡◌, refl}
use iceberg.Common.Text.{Text, text_eq}

module _ {Ws : Type 0} where
  abbrev pub HasPath : List (Event Ws) → Type 0
  HasPath h = (p : Text) × (latest_path h ≡ some p)

  HasPath-cons : (e : Event Ws) (h : List (Event Ws)) → HasPath h → HasPath (e ∷ h)
  HasPath-cons (visited j p) h q = (p, refl)
  HasPath-cons _ h q = q

  pub visited-HasPath :
      {i : ℕ} {path : Text} (h : List (Event Ws)) → Memᴰ (visited i path) h → HasPath h
  visited-HasPath [] m = elim m [ ]
  visited-HasPath {path} (e ∷ h) (Memᴰ.head q) = subst (λ d. HasPath (d ∷ h)) q (path, refl)
  visited-HasPath (e ∷ h) (Memᴰ.tail m) = HasPath-cons e h (visited-HasPath h m)

  pub Visited-cons : {i : ℕ} {e : Event Ws} {h : List (Event Ws)} → Visited i h → Visited i (e ∷ h)
  Visited-cons (path, m) = (path, Memᴰ.tail m)

  pub DialledBy-cons :
      {i : ℕ} {c : Ws} {e : Event Ws} {h : List (Event Ws)}
      → DialledBy i c h
      → DialledBy i c (e ∷ h)
  DialledBy-cons (target, m) = (target, Memᴰ.tail m)

module _ {W Ws : Type 0} (socket : SocketLib W Ws) (proxy : WebSocketProxy W) (address : Url) where
  abbrev pub FitsOut : List (Event Ws) → ℕ → Option Ws → Type 0
  FitsOut h i none = Unit {0}
  FitsOut h i (some c) = DialledBy i c h

  abbrev pub FitsForward : List (Event Ws) → ℕ → Forward → Type 0
  FitsForward h i (holding m x) = Memᴰ (received i m) h × Carried proxy.request_callers m x
  FitsForward h i (redialling m x) = Memᴰ (received i m) h × Carried proxy.request_callers m x
  FitsForward h i _ = Unit {0}

  abbrev pub FitsBackward : List (Event Ws) → ℕ → Backward Ws → Type 0
  FitsBackward h i (listening c) = DialledBy i c h
  FitsBackward h i (showing c m x) =
      DialledBy i c h × Memᴰ (heard i c m) h × Carried proxy.response_callers m x
  FitsBackward h i _ = Unit {0}

  -- What the history says of a session at this phase.
  abbrev pub Fits : List (Event Ws) → ℕ → Phase Ws → Type 0
  Fits h i absent = Unit {0}
  Fits h i arrived = Visited i h
  Fits h i (serving o f b) = Visited i h × FitsOut h i o × FitsForward h i f × FitsBackward h i b

  module _ (e : Event Ws) (h : List (Event Ws)) (i : ℕ) where
    pub FitsOut-cons : (o : Option Ws) → FitsOut h i o → FitsOut (e ∷ h) i o
    FitsOut-cons none q = q
    FitsOut-cons (some c) q = DialledBy-cons q

    pub FitsForward-cons : (f : Forward) → FitsForward h i f → FitsForward (e ∷ h) i f
    FitsForward-cons (holding m x) (q, r) = (Memᴰ.tail q, r)
    FitsForward-cons (redialling m x) (q, r) = (Memᴰ.tail q, r)
    FitsForward-cons reading q = q
    FitsForward-cons stopped q = q

    pub FitsBackward-cons : (b : Backward Ws) → FitsBackward h i b → FitsBackward (e ∷ h) i b
    FitsBackward-cons (listening c) q = DialledBy-cons q
    FitsBackward-cons (showing c m x) (d, q, r) = (DialledBy-cons d, Memᴰ.tail q, r)
    FitsBackward-cons waiting q = q
    FitsBackward-cons cut_off q = q

    pub Fits-cons : (p : Phase Ws) → Fits h i p → Fits (e ∷ h) i p
    Fits-cons absent q = q
    Fits-cons arrived q = Visited-cons q
    Fits-cons (serving o f b) (v, d, r, s) =
        (Visited-cons v, FitsOut-cons o d, FitsForward-cons f r, FitsBackward-cons b s)
