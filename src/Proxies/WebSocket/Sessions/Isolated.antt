-- ===== src/Proxies/WebSocket/Sessions/Isolated.antt =====
-- The sessions of a WebSocket proxy do not see each other's messages.
use iceberg.Proxies.WebSocket.{SocketLib, WebSocketProxy}
use iceberg.Proxies.WebSocket.Sessions.{
  Event, dialled, Phase, absent, Sessions, Move, visit, open_backend, read_and_drop, read_and_hold,
  write_message, redial, hear_and_drop, hear_and_hold, show, rejoin, Quiet, open_failed,
  client_gone, write_failed, redial_failed, listen, backend_gone, rejoin_failed, show_failed, Step,
  act, act_quietly, elsewhere, Reach, begun, later, set_phase, readdressed, ite,
}
use iceberg.Proxies.WebSocket.Sessions.Spec.{latest_path, Visited, Allowed, Sound}
use mathlib.Core.List.{Memᴰ}
use mathlib.Core.Path.{subst}
use native.Mathlib.Decide.{ℕ_discrete}
use iceberg.Common.Url.{Url}
use iceberg.Common.{ℕ, List, [], ◌∷◌, Option, none, some, ◌≡◌, refl, ap, ◌∙◌}
use iceberg.Common.Text.{Text, text_eq}
use iceberg.Proxies.WebSocket.Sessions.Fits.{
  visited-HasPath, Visited-cons, DialledBy-cons, Fits, Fits-cons, FitsOut-cons, FitsForward-cons,
  FitsBackward-cons,
}

module _ {W Ws : Type 0} (socket : SocketLib W Ws) (proxy : WebSocketProxy W) (address : Url) where
  -- The address of the proxy behind a history.
  address_at : Option Text → Url
  address_at none = address
  address_at (some path) = record address { path = path }

  record Inv (s : Sessions W Ws) : Type 0 where
    sound : Sound address proxy.request_callers proxy.response_callers s.history
    addressed : s.address ≡ address_at (latest_path s.history)
    fits : (i : ℕ) → Fits socket proxy address s.history i (s.phase i)

  begun-Inv :
      (w : W) → Inv (record { address = address; phase = λ _. absent; history = []; world = w })
  unfolding address_at
  begun-Inv w = record { sound = tt; addressed = refl; fits = λ i. tt }

  -- What a move needs of a history, and leaves.
  Moved : ℕ → Url → List (Event Ws) → Event Ws → Phase Ws → Type 0
  Moved i a h e p =
      Allowed address proxy.request_callers proxy.response_callers e h
      × Fits socket proxy address (e ∷ h) i p
      × (readdressed e a ≡ address_at (latest_path (e ∷ h)))

  dial-Allowed :
      (i : ℕ) (a : Url) (c : Ws) (h : List (Event Ws))
      → Visited i h
      → a ≡ address_at (latest_path h)
      → Allowed address proxy.request_callers proxy.response_callers (dialled i a c) h
  unfolding address_at
  dial-Allowed i a c h (path, m) same =
      let (p, q) = visited-HasPath h m in (p, (path, m), q, same ∙ ap address_at q)

  address_at-path :
      (o : Option Text) (path : Text)
      → record (address_at o) { path = path } ≡ record address { path = path }
  unfolding address_at
  address_at-path none path = refl
  address_at-path (some p) path = refl

  Move-Moved :
      {i : ℕ} {a : Url} {w w' : W} {p p' : Phase Ws} {e : Event Ws} (h : List (Event Ws))
      → Move socket proxy i a w p e p' w'
      → Fits socket proxy address h i p
      → a ≡ address_at (latest_path h)
      → Moved i a h e p'
  unfolding Moved address_at
  Move-Moved h (visit path) q same = (
    tt,
    (path, Memᴰ.head refl),
    ap (λ (u : Url). record u { path = path }) same ∙ address_at-path (latest_path h) path,
  )
  Move-Moved {i} {a} h (open_backend {c} d) v same =
      (dial-Allowed i a c h v same, (Visited-cons v, (a, Memᴰ.head refl), tt, tt), same)
  Move-Moved {i} h (read_and_drop {o} {b} m u ts r) (v, d, f, k) same = (
    v,
    (
      Visited-cons v,
      FitsOut-cons socket proxy address _ h i o d,
      tt,
      FitsBackward-cons socket proxy address _ h i b k,
    ),
    same,
  )
  Move-Moved {i} {w} h (read_and_hold {o} {b} m x u ts r) (v, d, f, k) same = (
    v,
    (
      Visited-cons v,
      FitsOut-cons socket proxy address _ h i o d,
      (Memᴰ.head refl, (u, ts, w, ap (λ t. t.0) r)),
      FitsBackward-cons socket proxy address _ h i b k,
    ),
    same,
  )
  Move-Moved {i} h (write_message {c} {b} w₁) (v, d, (m, k), l) same = (
    (d, m, k),
    (Visited-cons v, DialledBy-cons d, tt, FitsBackward-cons socket proxy address _ h i b l),
    same,
  )
  Move-Moved {i} {a} h (redial {b} {c} q) (v, d, f, k) same = (
    dial-Allowed i a c h v same,
    (Visited-cons v, (a, Memᴰ.head refl), tt, FitsBackward-cons socket proxy address _ h i b k),
    same,
  )
  Move-Moved {i} h (hear_and_drop {o} {f} m u ts r) (v, d, q, k) same = (
    k,
    (
      Visited-cons v,
      FitsOut-cons socket proxy address _ h i o d,
      FitsForward-cons socket proxy address _ h i f q,
      tt,
    ),
    same,
  )
  Move-Moved {i} {w} h (hear_and_hold {o} {f} m x u ts r) (v, d, q, k) same = (
    k,
    (
      Visited-cons v,
      FitsOut-cons socket proxy address _ h i o d,
      FitsForward-cons socket proxy address _ h i f q,
      (DialledBy-cons k, Memᴰ.head refl, (u, ts, w, ap (λ t. t.0) r)),
    ),
    same,
  )
  Move-Moved {i} h (show {o} {f} w₁) (v, d, q, k) same = (
    k,
    (
      Visited-cons v,
      FitsOut-cons socket proxy address _ h i o d,
      FitsForward-cons socket proxy address _ h i f q,
      tt,
    ),
    same,
  )
  Move-Moved {i} {a} h (rejoin {f} {c} q) (v, d, k, l) same = (
    dial-Allowed i a c h v same,
    (Visited-cons v, (a, Memᴰ.head refl), FitsForward-cons socket proxy address _ h i f k, tt),
    same,
  )

  -- A quiet move keeps what the history says.
  Quiet-Fits :
      (i : ℕ) {a : Url} {w w' : W} {p p' : Phase Ws} (h : List (Event Ws))
      → Quiet socket proxy a w p p' w'
      → Fits socket proxy address h i p
      → Fits socket proxy address h i p'
  Quiet-Fits _ h (open_failed e) v = (v, tt, tt, tt)
  Quiet-Fits _ h (client_gone w) (v, d, f, k) = (v, d, tt, k)
  Quiet-Fits _ h (write_failed w) q = q
  Quiet-Fits _ h (redial_failed e) q = q
  Quiet-Fits _ h listen (v, d, f, k) = (v, d, f, d)
  Quiet-Fits _ h (backend_gone w) (v, d, f, k) = (v, d, f, tt)
  Quiet-Fits _ h (rejoin_failed e) (v, d, f, k) = (v, d, f, tt)
  Quiet-Fits _ h (show_failed w) (v, d, f, k) = (v, d, f, tt)

  -- A family that holds of the phases of all sessions, where that of `i` changes.
  set_phase-Fits :
      (h : List (Event Ws)) (phase : ℕ → Phase Ws) (i : ℕ) (p : Phase Ws)
      → Fits socket proxy address h i p
      → ((j : ℕ) → Fits socket proxy address h j (phase j))
      → (j : ℕ) → Fits socket proxy address h j (set_phase phase i p j)
  set_phase-Fits h phase i p q all j =
      elim (ℕ_discrete i j) as (λ d. Fits socket proxy address h j (ite d p (phase j))) [
        | yes e ↦ subst (λ k. Fits socket proxy address h k p) e q
        | no _ ↦ all j
      ]

  Step-Inv : {s t : Sessions W Ws} → Step socket proxy s t → Inv s → Inv t
  unfolding Moved
  Step-Inv {s} (act i {e} {p} m) inv =
      let (allowed, fits, same) = Move-Moved s.history m (inv.fits i) inv.addressed in
      record {
        sound = (allowed, inv.sound);
        addressed = same;
        fits =
            set_phase-Fits _ s.phase i p fits
              (λ j. Fits-cons socket proxy address e s.history j _ (inv.fits j));
      }
  Step-Inv {s} (act_quietly i {p} m) inv = record {
    sound = inv.sound;
    addressed = inv.addressed;
    fits = set_phase-Fits _ s.phase i p (Quiet-Fits i s.history m (inv.fits i)) inv.fits;
  }
  Step-Inv (elsewhere w) inv = record {
    sound = inv.sound;
    addressed = inv.addressed;
    fits = inv.fits;
  }

  Reach-Inv : {w : W} {s : Sessions W Ws} → Reach socket proxy address w s → Inv s
  Reach-Inv {w} begun = begun-Inv w
  Reach-Inv (later r step) = Step-Inv step (Reach-Inv r)

  -- However the sessions of a proxy interleave, what they did is sound. Every dial is that of a session
  -- that came before, and goes to the configured address with the path of the session that came
  -- last, whichever that is. A session writes to, and hears, connections only that it dialled itself;
  -- what it writes there is what the cascade of the request callers made of a message of its own
  -- client, and what it shows its client is what that of the response callers made of a message that
  -- it heard.
  pub Reach-Sound :
      (w : W) (s : Sessions W Ws)
      → Reach socket proxy address w s
      → Sound address proxy.request_callers proxy.response_callers s.history
  Reach-Sound w s r = (Reach-Inv r).sound
