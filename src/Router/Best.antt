-- ===== src/Router/Best.antt =====
-- Which route RouteTable.Find chooses.
use mathlib.Core.List.{Memᴰ}
use mathlib.Core.Path.{subst}
use native.Mathlib.Nat.{le_trans}
use iceberg.Common.{
  ℕ, ◌==◌, ◌≤◌, ◌↔◌, if◌then◌else◌, All-mem, suc-beq-zero, List, [], ◌∷◌, Option, none, some, ◌≡◌,
  ◌≢◌, ◌⊎◌, inl, inr, refl, length, All, arith, nat_eq, Option-cases, ◌∙◌,
}
use iceberg.Common.Map.{Map, get, get_or, get_or-none, get_or-some}
use iceberg.Common.Text.{Text, text_beq_iff, to_upper}
use iceberg.Common.Url.{Url}
use iceberg.Router.{
  Route, RouteTable, RouterError, no_match_found, no_url_registered, Found, failed, matched,
  route_compare, pick, pick_all, conclude, parse_route, find,
}

-- The route answers the request's method, and fits its path.
abbrev pub IsCandidate : Route → Text → Route → Type 0
IsCandidate prt method url = (url.method ≡ to_upper method) × (route_compare url prt ≢ 0)

-- No candidate of the list ranks higher than `rank`.
abbrev pub IsTop : Route → Text → List Route → ℕ → Type 0
IsTop prt method routes rank =
    All (λ url. IsCandidate prt method url → route_compare url prt ≤ rank) routes

-- What a choice from `routes` may become, from the best so far.
abbrev Origin : Route → Text → List Route → ℕ × Option Route → ℕ × Option Route → Type 0
Origin prt method routes start end =
    (end ≡ start)
    ⊎ ((url : Route) × (end ≡ (route_compare url prt, some url))
        × IsCandidate prt method url
        × Memᴰ url routes)

-- The result of the loop over `routes`, from the best so far.
record Picked (prt : Route) (method : Text) (routes : List Route) (start end : ℕ × Option Route)
    : Type 0 where
  above : start.0 ≤ end.0
  top : IsTop prt method routes end.0
  origin : Origin prt method routes start end

pick-Picked :
    (prt : Route) (method : Text) (url : Route) (best : ℕ × Option Route)
    → (best.0 ≤ (pick prt method url best).0)
      × (IsCandidate prt method url → route_compare url prt ≤ (pick prt method url best).0)
      × ((pick prt method url best ≡ best)
          ⊎ ((pick prt method url best ≡ (route_compare url prt, some url))
              × IsCandidate prt method url))
unfolding pick
pick-Picked prt method url (lrnk, lrt) =
    let same = text_beq_iff url.method (to_upper method) in
    (ground (arith, same), λ c. ground (arith, same), ground (arith, same))

Origin-cons :
    (prt url : Route) (method : Text) {routes : List Route} {start next end : ℕ × Option Route}
    → (next ≡ start) ⊎ ((next ≡ (route_compare url prt, some url)) × IsCandidate prt method url)
    → Origin prt method routes next end
    → Origin prt method (url ∷ routes) start end
Origin-cons prt url method (inl kept) (inl e) = inl (e ∙ kept)
Origin-cons prt url method (inr (taken, c)) (inl e) = inr (_, e ∙ taken, c, Memᴰ.head refl)
Origin-cons prt url method _ (inr (found, e, c, m)) = inr (found, e, c, Memᴰ.tail m)

pick_all-Picked :
    (prt : Route) (method : Text) (routes : List Route) (best : ℕ × Option Route)
    → Picked prt method routes best (pick_all prt method routes best)
unfolding pick_all
pick_all-Picked prt method [] best = record { above = omega arith; top = tt; origin = inl refl }
pick_all-Picked prt method (url ∷ routes) best =
    let (above, top, origin) = pick-Picked prt method url best in
    let rest = pick_all-Picked prt method routes (pick prt method url best) in
    record {
      above = le_trans above rest.above;
      top = (λ c. le_trans (top c) rest.above, rest.top);
      origin = Origin-cons prt url method origin rest.origin;
    }

-- The bucket of a table that Find searches: the routes with as many segments as the request.
abbrev pub bucket {ℓ} : {H : Type ℓ} → RouteTable H → Route → List Route
bucket rt prt = get_or (length prt.route_values) rt.routes []

-- The route answers the request, and no candidate of the bucket fits it with a higher rank.
pub record IsBest (prt : Route) (method : Text) (routes : List Route) (lrt : Route) : Type 0 where
  pub listed : Memᴰ lrt routes
  pub candidate : IsCandidate prt method lrt
  pub top : IsTop prt method routes (route_compare lrt prt)

-- What Find makes of the routes of the bucket: the best, or no match where none is a candidate.
Settled : Route → Text → List Route → Found → Type 0
Settled prt method routes (failed e) = All (λ url. ¬ IsCandidate prt method url) routes
Settled prt method routes (matched lrt request) = (request ≡ prt) × IsBest prt method routes lrt

none_of_top :
    (prt : Route) (method : Text) (routes : List Route)
    → IsTop prt method routes 0
    → All (λ url. ¬ IsCandidate prt method url) routes
none_of_top prt method [] h = tt
none_of_top prt method (url ∷ routes) (top, h) =
    (λ c. c.1 (omega (arith, top c)), none_of_top prt method routes h)

conclude_of_candidate :
    (prt url : Route) (method : Text)
    → IsCandidate prt method url
    → conclude prt (route_compare url prt, some url) ≡ matched url prt
unfolding conclude
conclude_of_candidate prt url method c = ground arith

conclude-Settled :
    (prt : Route) (method : Text) (routes : List Route) (end : ℕ × Option Route)
    → IsTop prt method routes end.0
    → Origin prt method routes (0, none) end
    → Settled prt method routes (conclude prt end)
unfolding Settled
conclude-Settled prt method routes end top (inl e) = rw e (
    unfold conclude in
    none_of_top prt method routes (subst (λ b. IsTop prt method routes b.0) e top))
conclude-Settled prt method routes end top (inr (url, e, c, m)) =
    rw (e, conclude_of_candidate prt url method c)
      (
        refl,
        record { listed = m; candidate = c; top = subst (λ b. IsTop prt method routes b.0) e top },
      )

find_in-Settled :
    (prt : Route) (method : Text) (n : ℕ) (m : Map ℕ (List Route))
    → Settled prt method (get_or n m []) (
        if length m == 0 then failed no_url_registered else elim (get n m) [
          | none ↦ failed no_match_found
          | some routes ↦ conclude prt (pick_all prt method routes (0, none))
        ])
unfolding Settled
find_in-Settled prt method n [] = unfold get_or in tt
find_in-Settled prt method n (x ∷ m) = elim (Option-cases (get n (x ∷ m))) [
  | inl e ↦ rw (e, get_or-none n (x ∷ m) [] e, suc-beq-zero (length m)) tt
  | inr (routes, e) ↦
      let p = pick_all-Picked prt method routes (0, none) in
      rw (e, get_or-some n (x ∷ m) [] routes e, suc-beq-zero (length m))
        (conclude-Settled prt method routes _ p.top p.origin)
]

module _ {ℓ} {H : Type ℓ} (digest : Text → Text) (rt : RouteTable H) (url : Url)
    (method : Text) where
  find-Settled :
      Settled
        (parse_route digest url method)
        method
        (bucket rt (parse_route digest url method))
        (find digest rt url method)
  unfolding find
  find-Settled = find_in-Settled _ method _ rt.routes

  -- A route that Find returns is in the table, answers the method and fits the path, and no other
  -- such route with as many segments ranks higher; the closure holds the parsed request.
  pub find-IsBest :
      (lrt prt : Route)
      → find digest rt url method ≡ matched lrt prt
      → (prt ≡ parse_route digest url method) × IsBest prt method (bucket rt prt) lrt
  unfolding Settled
  find-IsBest lrt prt e =
      let (same, best) = subst (Settled _ method _) e find-Settled in (same, rw same best)

  -- Find fails exactly when no route of the table with as many segments as the request answers its
  -- method and fits its path.
  pub find-failed_iff :
      ((e : RouterError) × (find digest rt url method ≡ failed e))
      ↔ All
          (λ r. ¬ IsCandidate (parse_route digest url method) method r)
          (bucket rt (parse_route digest url method))
  unfolding Settled
  find-failed_iff = (λ (e, h). subst (Settled _ method _) h find-Settled, from _ find-Settled)
    where
      from :
          (r : Found)
          → Settled
              (parse_route digest url method)
              method
              (bucket rt (parse_route digest url method))
              r
          → All
              (λ r. ¬ IsCandidate (parse_route digest url method) method r)
              (bucket rt (parse_route digest url method))
          → (e : RouterError) × (r ≡ failed e)
      from (failed e) _ _ = (e, refl)
      from (matched lrt prt) (_, best) absent = absurd (All-mem _ best.listed absent best.candidate)
