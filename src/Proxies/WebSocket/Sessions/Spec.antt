-- ===== src/Proxies/WebSocket/Sessions/Spec.antt =====
-- What a history of the sessions of a WebSocket proxy must look like.
use iceberg.Proxies.WebSocket.Delivered.{Carried}
use iceberg.Proxies.WebSocket.Sessions.{Event, visited, dialled, received, wrote, heard, showed}
use iceberg.Netio.Caller.{Caller}
use mathlib.Core.List.{Memᴰ}
use iceberg.Common.Url.{Url}
use iceberg.Common.{ℕ, List, [], ◌∷◌, Option, none, some, ◌≡◌}
use iceberg.Common.Text.{Text, text_eq}

module _ {Ws : Type 0} where
  -- The path of the latest visit, of any session.
  abbrev pub latest_path : List (Event Ws) → Option Text
  latest_path [] = none
  latest_path (visited i path ∷ h) = some path
  latest_path (_ ∷ h) = latest_path h

  abbrev pub Visited : ℕ → List (Event Ws) → Type 0
  Visited i h = (path : Text) × Memᴰ (visited i path) h

  abbrev pub DialledBy : ℕ → Ws → List (Event Ws) → Type 0
  DialledBy i c h = (target : Url) × Memᴰ (dialled i target c) h

  module _ {W : Type 0} (address : Url) (request_callers response_callers : List (Caller W)) where
    -- What an event needs of the history before it.
    abbrev pub Allowed : Event Ws → List (Event Ws) → Type 0
    Allowed (visited i path) h = Unit {0}
    Allowed (dialled i target c) h =
        (path : Text) × Visited i h
        × (latest_path h ≡ some path)
        × (target ≡ record address { path = path })
    Allowed (received i message) h = Visited i h
    Allowed (wrote i c m x) h =
        DialledBy i c h × Memᴰ (received i m) h × Carried request_callers m x
    Allowed (heard i c message) h = DialledBy i c h
    Allowed (showed i c m x) h =
        DialledBy i c h × Memᴰ (heard i c m) h × Carried response_callers m x

    abbrev pub Sound : List (Event Ws) → Type 0
    Sound [] = Unit {0}
    Sound (e ∷ h) = Allowed e h × Sound h
