-- ===== src/Router/Rank.antt =====
-- What RouteCompare computes: when a pattern fits a request, and the rank of the fit.
use mathlib.Core.List.{Perm, Permᴰ}
use mathlib.Core.Logic.{∥∥₁_elim}
use mathlib.Core.Path.{ap₂}
use native.Mathlib.Nat.{ℕ_set}
use iceberg.Common.{
  ℕ, suc, ◌+◌, ◌<◌, List, [], ◌∷◌, ◌≡◌, ◌≢◌, ◌⊎◌, refl, sym, ap, ◌∙◌, ◌↔◌, length, All, arith,
  nat_eq, if◌then◌else◌,
}
use iceberg.Common.Map.{Map, get_or}
use iceberg.Common.Text.{Text, text_beq, text_beq_iff}
use iceberg.Router.{Route, wildcard, rank_from, route_compare}

-- A segment of the pattern accepts the request's segment at the same index.
abbrev pub Accepts : Map ℕ Text → ℕ × Text → Type 0
Accepts given (key, value) = (value ≡ wildcard) ⊎ (value ≡ get_or key given [])

-- The number of segments of a pattern that are not parameters.
abbrev pub literals : Map ℕ Text → ℕ
literals [] = 0
literals ((key, value) ∷ rest) = (if text_beq value wildcard then 0 else 1) + literals rest

rank_from_fit :
    (rank : ℕ) (m given : Map ℕ Text)
    → All (Accepts given) m
    → rank_from rank m given ≡ rank + length m + literals m
unfolding rank_from
rank_from_fit rank [] given h = omega arith
rank_from_fit rank ((key, value) ∷ rest) given (a, h) = ground (
  arith,
  text_beq_iff value wildcard,
  text_beq_iff value (get_or key given []),
  rank_from_fit (rank + 1) rest given h,
  rank_from_fit (rank + 2) rest given h,
)

rank_from_fits :
    (rank : ℕ) (m given : Map ℕ Text) → rank_from rank m given ≢ 0 → All (Accepts given) m
unfolding rank_from
rank_from_fits rank [] given h = tt
rank_from_fits rank ((key, value) ∷ rest) given h = ground (
  arith,
  text_beq_iff value wildcard,
  text_beq_iff value (get_or key given []),
  rank_from_fits (rank + 1) rest given,
  rank_from_fits (rank + 2) rest given,
)

-- The pattern has as many segments as the request, and accepts each.
pub record Fits (pattern request : Route) : Type 0 where
  pub same_length : length pattern.route_values ≡ length request.route_values
  pub accepted : All (Accepts request.route_values) pattern.route_values

-- A fitting pattern has a rank that the pattern alone determines: one, one more for each segment,
-- and one more again for each literal segment.
pub route_compare_of_Fits :
    {pattern request : Route}
    → Fits pattern request
    → route_compare pattern request
      ≡ 1 + length pattern.route_values + literals pattern.route_values
unfolding route_compare
route_compare_of_Fits {pattern} {request} f =
    ground (arith, rank_from_fit 1 pattern.route_values request.route_values f.accepted)

-- The rank of a pattern for a request is not 0 exactly when they have as many segments and each
-- segment of the pattern is a parameter or equals the request's segment at its index.
pub route_compare-ne-zero_iff :
    (pattern request : Route) → (route_compare pattern request ≢ 0) ↔ Fits pattern request
unfolding route_compare
route_compare-ne-zero_iff pattern request = (
  λ h. record { same_length = ground arith; accepted = rank_from_fits 1 _ _ (ground arith) },
  λ f e. ground (arith, route_compare_of_Fits f),
)

-- Of two patterns that fit one request, the rank of the second is higher exactly when it has more
-- literal segments.
pub route_compare-lt_iff :
    (p q request : Route)
    → Fits p request
    → Fits q request
    → (route_compare p request < route_compare q request)
      ↔ (literals p.route_values < literals q.route_values)
route_compare-lt_iff p q request f g =
    let rank_p = route_compare_of_Fits f in
    let rank_q = route_compare_of_Fits g in
    let same = f.same_length ∙ sym g.same_length in (λ h. omega arith, λ h. omega arith)

length-perm {ℓ} : {A : Type ℓ} {m m' : List A} → Permᴰ m m' → length m ≡ length m'
length-perm Permᴰ.nil = refl
length-perm (Permᴰ.cons e p) = ap suc (length-perm p)
length-perm (Permᴰ.swap e e') = refl
length-perm (Permᴰ.trans p q) = length-perm p ∙ length-perm q

rank_from-cons :
    (given : Map ℕ Text) (x : ℕ × Text) (m m' : Map ℕ Text)
    → ((rank : ℕ) → rank_from rank m given ≡ rank_from rank m' given)
    → (rank : ℕ) → rank_from rank (x ∷ m) given ≡ rank_from rank (x ∷ m') given
unfolding rank_from
rank_from-cons given (key, value) m m' h rank = ground (arith, h (rank + 1), h (rank + 2))

rank_from-swap :
    (given : Map ℕ Text) (x y : ℕ × Text) (m : Map ℕ Text) (rank : ℕ)
    → rank_from rank (x ∷ y ∷ m) given ≡ rank_from rank (y ∷ x ∷ m) given
unfolding rank_from
rank_from-swap given (key, value) (key', value') m rank = ground arith

rank_from-perm :
    (given : Map ℕ Text) {m m' : Map ℕ Text}
    → Permᴰ m m'
    → (rank : ℕ) → rank_from rank m given ≡ rank_from rank m' given
rank_from-perm given Permᴰ.nil rank = refl
rank_from-perm given (Permᴰ.cons {a} {l₁} {l₂} e p) rank =
    rank_from-cons given a l₁ l₂ (rank_from-perm given p) rank
    ∙ ap (λ x. rank_from rank (x ∷ l₂) given) e
rank_from-perm given (Permᴰ.swap {a} {b} {l} e e') rank =
    rank_from-swap given a b l rank ∙ ap₂ (λ x y. rank_from rank (x ∷ y ∷ l) given) e' e
rank_from-perm given (Permᴰ.trans p q) rank =
    rank_from-perm given p rank ∙ rank_from-perm given q rank

-- RouteCompare ranges over a Go map, whose order is not determined: for every order of the values
-- of the pattern the rank is the same.
pub route_compare-perm :
    (p p' request : Route)
    → Perm p.route_values p'.route_values
    → route_compare p request ≡ route_compare p' request
unfolding route_compare
route_compare-perm p p' request same =
    ∥∥₁_elim same (ℕ_set _ _)
      λ perm. rw (length-perm perm, rank_from-perm request.route_values perm 1)
