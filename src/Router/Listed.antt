-- ===== src/Router/Listed.antt =====
-- The routes that a list of registrations leaves in the buckets.
use mathlib.Core.List.Memᴰ.{append_left}
use iceberg.Router.{Route, RouteTable, register}
use iceberg.Router.Table.{with_route, register_of_none, register_of_some}
use iceberg.Router.Spec.{Registered, route_of, table_of, NoCollision}
use iceberg.Router.Refines.{get-table_of, original-get}
use iceberg.Common.Map.{get, get_or, get_or-put}
use mathlib.Core.List.{Memᴰ}
use mathlib.Core.Path.{subst}
use iceberg.Common.{nat_eq, All-append, All-imp, All-mem, Memᴰ-concat}
use iceberg.Common.{
  ℕ, List, [], ◌∷◌, ◌++◌, Bool, true, false, ◌==◌, if◌then◌else◌, ◌≡◌, refl, sym, ◌∙◌, inl, inr,
  Bool-cases, Option-cases, All, length,
}
use iceberg.Common.Text.{Text, text_eq}

module _ {ℓ} {H : Type ℓ} (digest : Text → Text) where
  -- The routes with so many segments.
  abbrev pub routes_of : RouteTable H → ℕ → List Route
  routes_of rt n = get_or n rt.routes []

  routes_of-with_route :
      (route : Route) (handler : H) (rt : RouteTable H) (n : ℕ)
      → routes_of (with_route route handler rt) n ≡ (
          if length route.route_values == n
          then routes_of rt (length route.route_values) ++ route ∷ []
          else routes_of rt n)
  routes_of-with_route route handler rt n = rw get_or-put refl

  -- The route was registered.
  abbrev pub IsRegistered : List (Registered H) → Route → Type ℓ
  IsRegistered regs route = (r : Registered H) × Memᴰ r regs × (route ≡ route_of digest r)

  IsRegistered-cons :
      (r : Registered H) (earlier : List (Registered H)) (routes : List Route)
      → All (IsRegistered earlier) routes
      → All (IsRegistered (r ∷ earlier)) routes
  IsRegistered-cons r earlier routes h = All-imp routes (λ route (r', m, e). (r', Memᴰ.tail m, e)) h

  with_route-IsRegistered :
      (r : Registered H) (earlier : List (Registered H)) (rt : RouteTable H) (n : ℕ)
      → ((k : ℕ) → All (IsRegistered earlier) (routes_of rt k))
      → All (IsRegistered (r ∷ earlier)) (routes_of (with_route (route_of digest r) r.handler rt) n)
  with_route-IsRegistered r earlier rt n h =
      let len = length (route_of digest r).route_values in
      subst (All (IsRegistered (r ∷ earlier)))
        (sym (routes_of-with_route (route_of digest r) r.handler rt n)) (by_length (len == n))
    where
      by_length :
          (same : Bool)
          → All (IsRegistered (r ∷ earlier)) (
              if same
              then routes_of rt (length (route_of digest r).route_values) ++ route_of digest r ∷ []
              else routes_of rt n)
      by_length true =
          All-append (IsRegistered (r ∷ earlier)) _ _ (IsRegistered-cons r earlier _ (h _))
            ((r, Memᴰ.head refl, refl), tt)
      by_length false = IsRegistered-cons r earlier _ (h n)

  -- Each route of the table was registered.
  pub table_of-IsRegistered :
      (regs : List (Registered H)) (n : ℕ)
      → All (IsRegistered regs) (routes_of (table_of digest regs) n)
  unfolding table_of get_or
  table_of-IsRegistered [] n = tt
  table_of-IsRegistered (r ∷ earlier) n =
      let rt = table_of digest earlier in
      elim (Option-cases (get (route_of digest r).hash rt.configs)) [
        | inl fresh ↦
            subst (λ t. All (IsRegistered (r ∷ earlier)) (routes_of t n))
              (sym (register_of_none digest r.url r.method r.handler rt fresh))
              (with_route-IsRegistered r earlier rt n (table_of-IsRegistered earlier))
        | inr (_, taken) ↦
            subst (λ t. All (IsRegistered (r ∷ earlier)) (routes_of t n))
              (sym (register_of_some digest r.url r.method r.handler rt taken))
              (IsRegistered-cons r earlier _ (table_of-IsRegistered earlier n))
      ]

  with_route-keeps :
      (route x : Route) (handler : H) (rt : RouteTable H) (n : ℕ)
      → Memᴰ x (routes_of rt n)
      → Memᴰ x (routes_of (with_route route handler rt) n)
  with_route-keeps route x handler rt n m =
      subst (Memᴰ x) (sym (routes_of-with_route route handler rt n))
        (elim (Bool-cases (length route.route_values == n)) [
          | inl same ↦
              let there : Memᴰ x (routes_of rt (length route.route_values)) =
                subst (λ k. Memᴰ x (routes_of rt k))
                  (sym ((nat_eq.beq_iff (length route.route_values) n).0 same)) m in
              rw same (append_left (route ∷ []) there)
          | inr other ↦ rw other m
        ])

  register-keeps :
      (r : Registered H) (x : Route) (rt : RouteTable H) (n : ℕ)
      → Memᴰ x (routes_of rt n)
      → Memᴰ x (routes_of (register digest r.url r.method r.handler rt) n)
  register-keeps r x rt n m = elim (Option-cases (get (route_of digest r).hash rt.configs)) [
    | inl fresh ↦
        subst (λ t. Memᴰ x (routes_of t n))
          (sym (register_of_none digest r.url r.method r.handler rt fresh))
          (with_route-keeps (route_of digest r) x r.handler rt n m)
    | inr (_, taken) ↦
        subst (λ t. Memᴰ x (routes_of t n))
          (sym (register_of_some digest r.url r.method r.handler rt taken)) m
  ]

  with_route-listed :
      (route : Route) (handler : H) (rt : RouteTable H)
      → Memᴰ route (routes_of (with_route route handler rt) (length route.route_values))
  with_route-listed route handler rt =
      subst (Memᴰ route) (sym (routes_of-with_route route handler rt (length route.route_values))) (
        rw ((nat_eq.beq_iff (length route.route_values) (length route.route_values)).1 refl)
          (Memᴰ-concat (routes_of rt (length route.route_values)) route))

  -- The route of each registration is listed, where no digest collided.
  pub listed-route :
      (regs : List (Registered H)) (r : Registered H)
      → NoCollision digest regs
      → Memᴰ r regs
      → Memᴰ
          (route_of digest r)
          (routes_of (table_of digest regs) (length (route_of digest r).route_values))
  unfolding table_of
  listed-route [] r _ m = elim m [ ]
  listed-route (r₀ ∷ earlier) r (_, apart) (Memᴰ.tail m) =
      register-keeps r₀ (route_of digest r) (table_of digest earlier) _
        (listed-route earlier r apart m)
  listed-route (r₀ ∷ earlier) r (same_route, apart) (Memᴰ.head e) =
      let rt = table_of digest earlier in
      let here : Memᴰ (route_of digest r₀) (
          routes_of (register digest r₀.url r₀.method r₀.handler rt)
            (length (route_of digest r₀).route_values)) =
        elim (Option-cases (get (route_of digest r₀).hash rt.configs)) [
          | inl fresh ↦
              subst
                (λ t.
                  Memᴰ (route_of digest r₀)
                    (routes_of t (length (route_of digest r₀).route_values)))
                (sym (register_of_none digest r₀.url r₀.method r₀.handler rt fresh))
                (with_route-listed (route_of digest r₀) r₀.handler rt)
          | inr (old, taken) ↦
              let (r', m, same_hash, _) =
                original-get digest earlier _ old (sym (get-table_of digest earlier _) ∙ taken) in
              let same = All-mem _ m same_route same_hash in
              register-keeps r₀ (route_of digest r₀) rt _ (
                subst (λ (x : Route). Memᴰ x (routes_of rt (length x.route_values))) same
                  (listed-route earlier r' apart m))
        ] in
      subst
        (λ x. Memᴰ (route_of digest x) (
          routes_of (register digest r₀.url r₀.method r₀.handler rt)
            (length (route_of digest x).route_values)))
        (sym e) here
