-- ===== src/Router/Serving.antt =====
-- Find and Register together, against the list of the registrations.
use iceberg.Router.{
  Route, RouteTable, RouterError, Found, failed, matched, parse_route, route_compare, find, serve,
}
use iceberg.Router.Best.{IsCandidate, find-IsBest, find-failed_iff}
use iceberg.Router.Table.{find-serve, serve-get}
use iceberg.Router.Spec.{Registered, route_of, table_of, original, NoCollision}
use iceberg.Router.Refines.{get-table_of, table_of-IsValid}
use iceberg.Router.Listed.{routes_of, table_of-IsRegistered, listed-route}
use iceberg.Common.Url.{Url}
use mathlib.Core.List.{Memᴰ}
use mathlib.Core.Path.{subst}
use iceberg.Common.{
  nat_eq, ◌≤◌, List, some, ◌==◌, ◌≡◌, ◌≢◌, refl, sym, ap, ◌∙◌, inl, inr, Bool-cases, length,
  All-mem,
}
use iceberg.Common.Text.{Text, text_eq}
use iceberg.Common.Map.{Map}

route_compare-length :
    (preferred route : Route)
    → route_compare preferred route ≢ 0
    → length preferred.route_values ≡ length route.route_values
unfolding route_compare
route_compare-length preferred route fits =
    elim (Bool-cases (length preferred.route_values == length route.route_values)) [
      | inl same ↦ (nat_eq.beq_iff _ _).0 same
      | inr other ↦ absurd (fits (rw other refl))
    ]

module _ {ℓ} {H : Type ℓ} (digest : Text → Text) (regs : List (Registered H)) (url : Url)
    (method : Text) where
  abbrev asked : Route
  asked = parse_route digest url method

  -- What a registration is to a request: its method is the request's, and its pattern fits the path.
  abbrev pub Fit : Registered H → Type 0
  Fit r = IsCandidate asked method (route_of digest r)

  -- What Find and the closure that it returns do, told by the registrations alone. The request fails
  -- when none fits it. Otherwise it is served by the handler that was registered first with the hash
  -- of one that fits, to which no other that fits is preferred.
  pub data Served : Found → Type ℓ where
    not_found :
        (e : RouterError) → ((r : Registered H) → Memᴰ r regs → Fit r → ⊥) → Served (failed e)
    found :
        (r : Registered H) (handler : H) (values : Map Text Text)
        → Memᴰ r regs
        → Fit r
        → ((other : Registered H)
            → Memᴰ other regs
            → Fit other
            → route_compare (route_of digest other) asked ≤ route_compare (route_of digest r) asked)
        → original digest (route_of digest r).hash regs ≡ some handler
        → serve (table_of digest regs) (matched (route_of digest r) asked)
          ≡ some (handler, some values)
        → Served (matched (route_of digest r) asked)

  -- A registration that fits stands in the bucket of the request.
  fit-listed :
      (r : Registered H)
      → NoCollision digest regs
      → Memᴰ r regs
      → Fit r
      → Memᴰ
          (route_of digest r)
          (routes_of digest (table_of digest regs) (length asked.route_values))
  fit-listed r apart m fits =
      subst (λ n. Memᴰ (route_of digest r) (routes_of digest (table_of digest regs) n))
        (route_compare-length (route_of digest r) asked fits.1) (listed-route digest regs r apart m)

  -- The table that registrations leave behind serves a request as the list of them says, where the
  -- digest did not collide on them: it fails when none has its method and fits its path, and
  -- otherwise the handler is the one that was registered first under the hash of a registration that
  -- fits and ranks highest, and gets route values that are not nil.
  pub find-Served : NoCollision digest regs → Served (find digest (table_of digest regs) url method)
  find-Served apart = by_result (find digest (table_of digest regs) url method) refl
    where
      rt : RouteTable H
      rt = table_of digest regs

      by_route :
          (r : Registered H)
          → Memᴰ r regs
          → find digest rt url method ≡ matched (route_of digest r) asked
          → Served (matched (route_of digest r) asked)
      by_route r m eq =
          let (_, best) = find-IsBest digest rt url method (route_of digest r) asked eq in
          let (handler, values, served) =
            find-serve digest url method rt (route_of digest r) asked (table_of-IsValid digest regs)
              eq in
          let stored = serve-get rt (route_of digest r) asked handler values served in
          found r handler values m best.candidate
            (λ other listed fits. All-mem _ (fit-listed other apart listed fits) best.top fits)
            (sym (get-table_of digest regs (route_of digest r).hash) ∙ stored) served

      by_result : (f : Found) → find digest rt url method ≡ f → Served f
      by_result (failed e) eq =
          let none_fits = (find-failed_iff digest rt url method).0 (e, eq) in
          not_found e (λ r m fits. All-mem _ (fit-listed r apart m fits) none_fits fits)
      by_result (matched lrt prt) eq =
          let (same, best) = find-IsBest digest rt url method lrt prt eq in
          let (r, m, is_r) =
            All-mem _ best.listed (table_of-IsRegistered digest regs (length prt.route_values)) in
          subst (λ x. Served (matched x prt)) (sym is_r)
            (subst (λ y. Served (matched (route_of digest r) y)) (sym same)
              (by_route r m
                (eq ∙ ap (λ x. matched x prt) is_r ∙ ap (λ y. matched (route_of digest r) y) same)))
