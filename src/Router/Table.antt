-- ===== src/Router/Table.antt =====
-- The invariant of a route table, and what becomes of a route that Register adds.
use mathlib.Core.List.{Memᴰ}
use mathlib.Core.Path.{subst}
use iceberg.Common.{
  some_inj, Option, ℕ, ◌≤◌, List, [], ◌∷◌, ◌++◌, none, some, ◌≡◌, ◌≢◌, inl, inr, refl, sym, ap, ◌∙◌,
  Memᴰ-concat, length, All, All-append, All-mem, All-imp, arith, nat_eq, Option-cases, Bool-cases,
}
use iceberg.Common.Map.{
  Map, get, put, get-put, get_or, All-put, All-get_or, get-put_self, get_or-put_self,
}
use iceberg.Common.Text.{Text, text_eq, text_beq, to_upper}
use iceberg.Common.Url.{Url}
use iceberg.Router.{
  bind, Route, RouteTable, Found, failed, matched, route_compare, create_hash, parse_route,
  register, find, bind_from, serve,
}
use iceberg.Router.Rank.{Fits, route_compare-ne-zero_iff}
use iceberg.Router.Best.{IsCandidate, bucket, find-IsBest, find-failed_iff}

module _ {ℓ} {H : Type ℓ} where
  -- A handler is registered under the hash.
  abbrev pub IsServed : RouteTable H → Text → Type ℓ
  IsServed rt hash = (handler : H) × (get hash rt.configs ≡ some handler)

  -- Each route is in the bucket of its number of segments, and has a handler.
  pub record IsValid (rt : RouteTable H) : Type ℓ where
    pub buckets :
        All
          (λ (b : ℕ × List Route).
            All (λ r. (length r.route_values ≡ b.0) × IsServed rt r.hash) b.1)
          rt.routes

  abbrev pub empty_table : RouteTable H
  empty_table = record { routes = []; configs = [] }

  pub empty_table-IsValid : IsValid empty_table
  empty_table-IsValid = record { buckets = tt }

  -- The table behind a new route, appended to its bucket.
  abbrev pub with_route : Route → H → RouteTable H → RouteTable H
  with_route route handler rt =
      let len = length route.route_values in
      record {
        routes = put len (get_or len rt.routes [] ++ route ∷ []) rt.routes;
        configs = put route.hash handler rt.configs;
      }

  IsServed-with_route :
      (route : Route) (handler : H) (rt : RouteTable H) (hash : Text)
      → IsServed rt hash
      → IsServed (with_route route handler rt) hash
  IsServed-with_route route handler rt hash (h, e) = elim (Bool-cases (text_beq route.hash hash)) [
    | inl same ↦ (handler, rw get-put (rw same))
    | inr other ↦ (h, rw get-put (rw other e))
  ]

  with_route-IsValid :
      (route : Route) (handler : H) (rt : RouteTable H)
      → IsValid rt
      → IsValid (with_route route handler rt)
  with_route-IsValid route handler rt v =
      let n = length route.route_values in
      let after = λ (b : ℕ × List Route).
        All (λ r. (length r.route_values ≡ b.0) × IsServed (with_route route handler rt) r.hash)
          b.1 in
      let old =
        All-imp rt.routes
          (λ b h.
            All-imp b.1 (λ r (e, served). (e, IsServed-with_route route handler rt r.hash served))
              h)
          v.buckets in
      record {
        buckets = All-put after n _ rt.routes old (
            All-append _ (get_or n rt.routes []) (route ∷ [])
              (All-get_or after n rt.routes [] old tt)
              ((refl, (handler, get-put_self route.hash handler rt.configs)), tt));
      }

  serve_of_candidate :
      (rt : RouteTable H) (lrt prt : Route) (handler : H)
      → get lrt.hash rt.configs ≡ some handler
      → route_compare lrt prt ≢ 0
      → serve rt (matched lrt prt) ≡ some (handler, some (bind_from lrt.route_values lrt prt []))
  unfolding serve
  serve_of_candidate rt lrt prt handler found h = rw (found, serve) (ground arith)

  -- The handler that is served is the one under the hash of the route.
  pub serve-get :
      (rt : RouteTable H) (lrt prt : Route) (handler : H) (values : Map Text Text)
      → serve rt (matched lrt prt) ≡ some (handler, some values)
      → get lrt.hash rt.configs ≡ some handler
  unfolding serve
  serve-get rt lrt prt handler values e = stored (get lrt.hash rt.configs) (bind lrt prt) e
    where
      stored :
          (slot : Option H) (bound : Option (Map Text Text))
          → ◌≡◌ {A = Option (H × Option (Map Text Text))}
              (elim slot [ none ↦ none | some f ↦ some (f, bound) ])
              (some (handler, some values))
          → slot ≡ some handler
      stored none bound e = absurd (cc)
      stored (some f) bound e = ap some (ap (λ p. p.0) (some_inj e))

  module _ (digest : Text → Text) (url : Url) (method : Text) where
    pub register_of_none :
        (handler : H) (rt : RouteTable H)
        → get (parse_route digest url method).hash rt.configs ≡ none
        → register digest url method handler rt
          ≡ with_route (parse_route digest url method) handler rt
    unfolding register
    register_of_none handler rt e = rw (e, register)

    pub register_of_some :
        (handler : H) (rt : RouteTable H) {old : H}
        → get (parse_route digest url method).hash rt.configs ≡ some old
        → register digest url method handler rt ≡ rt
    unfolding register
    register_of_some handler rt e = rw (e, register)

    -- Register keeps the invariant.
    pub register-IsValid :
        (handler : H) (rt : RouteTable H)
        → IsValid rt
        → IsValid (register digest url method handler rt)
    register-IsValid handler rt v =
        elim (Option-cases (get (parse_route digest url method).hash rt.configs)) [
          | inr (_, e) ↦ rw (register_of_some handler rt e) v
          | inl fresh ↦ rw (register_of_none handler rt fresh) (with_route-IsValid _ handler rt v)
        ]

    -- Registering a method and path again changes nothing: the first handler stays.
    pub register-register :
        (first second : H) (rt : RouteTable H)
        → register digest url method second (register digest url method first rt)
          ≡ register digest url method first rt
    register-register first second rt =
        elim (Option-cases (get (parse_route digest url method).hash rt.configs)) [
          | inr (_, e) ↦ rw (register_of_some first rt e) (register_of_some second rt e)
          | inl fresh ↦
              rw (register_of_none first rt fresh)
                (register_of_some second _ (get-put_self _ first rt.configs))
        ]

    -- In a valid table, what Find returns has a handler, and Bind gives route values and not nil:
    -- the request never reaches a nil function.
    pub find-serve :
        (rt : RouteTable H) (lrt prt : Route)
        → IsValid rt
        → find digest rt url method ≡ matched lrt prt
        → (handler : H) × (values : Map Text Text) × (serve rt (matched lrt prt)
            ≡ some (handler, some values))
    find-serve rt lrt prt v e =
        let (_, best) = find-IsBest digest rt url method lrt prt e in
        let filed =
          All-get_or
            (λ (b : ℕ × List Route).
              All (λ r. (length r.route_values ≡ b.0) × IsServed rt r.hash) b.1)
            (length prt.route_values) rt.routes [] v.buckets tt in
        let (_, (handler, found)) = All-mem _ best.listed filed in
        (
          handler,
          bind_from lrt.route_values lrt prt [],
          serve_of_candidate rt lrt prt handler found best.candidate.1,
        )

    -- After a registration that is new to the table, every request with its method, in any case,
    -- whose path fits the pattern is found, by a route that ranks at least as high.
    pub find-register :
        (request : Url) (method' : Text) (handler : H) (rt : RouteTable H)
        → get (create_hash digest url method) rt.configs ≡ none
        → to_upper method' ≡ to_upper method
        → Fits (parse_route digest url method) (parse_route digest request method')
        → (lrt : Route) × (find digest (register digest url method handler rt) request method'
            ≡ matched lrt (parse_route digest request method'))
          × (route_compare (parse_route digest url method) (parse_route digest request method')
              ≤ route_compare lrt (parse_route digest request method'))
    unfolding parse_route
    find-register request method' handler rt fresh same fits =
        rw (register_of_none handler rt fresh) (settle _ refl)
      where
        route : Route
        route = parse_route digest url method

        prt : Route
        prt = parse_route digest request method'

        listed : Memᴰ route (bucket (with_route route handler rt) prt)
        listed = rw (sym fits.same_length, get_or-put_self) (Memᴰ-concat _ route)

        candidate : IsCandidate prt method' route
        candidate = (sym same, (route_compare-ne-zero_iff _ _).1 fits)

        settle :
            (r : Found)
            → find digest (with_route route handler rt) request method' ≡ r
            → (lrt : Route) × (find digest (with_route route handler rt) request method'
                ≡ matched lrt prt)
              × (route_compare route prt ≤ route_compare lrt prt)
        settle (failed e) h =
            absurd
              (All-mem _ listed ((find-failed_iff digest _ request method').0 (e, h)) candidate)
        settle (matched lrt found) h =
            let (e, best) = find-IsBest digest _ request method' lrt found h in
            (
              lrt,
              h ∙ ap (matched lrt) e,
              subst
                  (λ q.
                    Memᴰ route (bucket (with_route route handler rt) q)
                    → IsCandidate q method' route
                    → route_compare route q ≤ route_compare lrt q)
                  e (λ m c. All-mem _ m best.top c) listed candidate,
            )
