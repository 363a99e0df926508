-- ===== src/Netio/Cascade/Counting.antt =====
-- Bounds for the calls that a cascade makes. `count` is a counter in the outside world.
pub mod Tasks
use mathlib.Core.Path.{subst, ap₂}
use iceberg.Netio.Exec.{◌>>=◌, proceed}
use iceberg.Netio.Caller.{Caller, Cloner, M, State, Task, pending, ready, closed}
use iceberg.Netio.Message.{Context, HttpError}
use iceberg.Netio.Request.{RouteValues}
use iceberg.Common.{ℕ, ◌+◌, ◌≤◌, [], ◌∷◌, Option, some, ◌≡◌, refl, sym, All, arith}
use iceberg.Common.Go.{Go, ret, fail, panic}
use iceberg.Common.Map.{Map, get, put}
use iceberg.Common.Text.{Text, text_eq}

module _ {W : Type 0} where
  -- The calls that a task still has to make.
  abbrev pub open_calls_of : Option (Task W) → ℕ
  open_calls_of (some (pending cal)) = 1
  open_calls_of _ = 0

  unfoldable pub open_calls : Map Text (Task W) → ℕ
  open_calls [] = 0
  open_calls ((_, t) ∷ tasks) = open_calls_of (some t) + open_calls tasks

  pub open_calls-put :
      (name : Text) (t : Task W) (tasks : Map Text (Task W))
      → open_calls (put name t tasks) + open_calls_of (get name tasks)
        ≡ open_calls tasks + open_calls_of (some t)
  unfolding open_calls put get
  open_calls-put name t [] = omega arith
  open_calls-put name t ((j, u) ∷ tasks) = ground (arith, open_calls-put name t tasks)

  module _ (count : W → ℕ) where
    -- A call raises the counter by at most one.
    abbrev pub Counts : Caller W → Type 0
    Counts cal =
        (ctx : Context) (rv : RouteValues) (c o : Cloner) (w : W)
        → count (cal.call ctx rv c o w).1 ≤ count w + 1

    abbrev pub CountsTask : Text × Task W → Type 0
    CountsTask (_, pending cal) = Counts cal
    CountsTask (_, ready sent) = Unit {0}
    CountsTask (_, closed) = Unit {0}

    abbrev pub AllCounted : State W → Type 0
    AllCounted s = All CountsTask s.tasks

    -- The calls that were made, and those that tasks will make.
    abbrev pub total : State W → ℕ
    total s = count s.world + open_calls s.tasks

    abbrev pub Bounded : {A : Type 0} → ℕ → Go HttpError A × State W → Type 0
    Bounded {A} n out =
        (count out.1.world ≤ n) × ((a : A) → out.0 ≡ ret a → (total out.1 ≤ n) × AllCounted out.1)

    -- An action that adds at most `n` calls, made or to be made.
    pub record Adds {A : Type 0} (n : ℕ) (m : M W A) : Type 0 where
      pub at : (s : State W) → AllCounted s → Bounded (total s + n) (m s)

    pub Bounded-proceed :
        {A B : Type 0} (n k : ℕ) (r : Go HttpError A) (f : A → M W B) (s : State W)
        → Bounded n (r, s)
        → ((a : A) → Adds k (f a))
        → Bounded (n + k) (proceed r f s)
    Bounded-proceed n k (ret a) f s (small, h) g =
        let (below, counted) = h a refl in
        let (small', h') = (g a).at s counted in
        (omega (arith, small', below), λ b e. let (q, c) = h' b e in (omega (arith, q, below), c))
    Bounded-proceed n k (fail e) f s (small, h) g = (omega (arith, small), λ b e. absurd (cc))
    Bounded-proceed n k panic f s (small, h) g = (omega (arith, small), λ b e. absurd (cc))

    pub Adds-bind :
        {A B : Type 0} (n k : ℕ) (m : M W A) (f : A → M W B)
        → Adds n m
        → ((a : A) → Adds k (f a))
        → Adds (n + k) (m >>= f)
    Adds-bind n k m f h g = record {
      at = λ s c.
          subst (λ j. Bounded j ((m >>= f) s)) (omega arith)
            (Bounded-proceed (total s + n) k (m s).0 f (m s).1 (h.at s c) g);
    }

    -- An action that leaves the tasks and the world alone.
    pub Adds-still :
        {A : Type 0} (n : ℕ) (m : M W A)
        → ((s : State W) → ((m s).1.tasks ≡ s.tasks) × ((m s).1.world ≡ s.world))
        → Adds n m
    Adds-still n m h = record {
      at = λ s c.
          let (tasks, world) = h s in
          let same : total (m s).1 ≡ total s = ap₂ (λ w ts. count w + open_calls ts) world tasks in
          (
            omega (arith, same),
            λ a e. (omega (arith, same), subst (λ ts. All CountsTask ts) (sym tasks) c),
          );
    }

    pub Adds-exact :
        {A : Type 0} (m : M W A)
        → ((s : State W) → AllCounted s → Bounded (total s) (m s))
        → Adds 0 m
    Adds-exact m h = record { at = λ s c. subst (λ j. Bounded j (m s)) (omega arith) (h s c) }
