-- ===== src/Bootstrap/Server/Methods.antt =====
-- Which requests reach the handler that HandleFunc registers.
use iceberg.Bootstrap.Options.{Handler, Visit, no_options}
use iceberg.Bootstrap.Server.{
  exposing, methods_of, register_all, handle_func, handle_at, serve_http, serve_found, run_handler,
}
use iceberg.Proxies.Http.{Answer}
use iceberg.Router.{Route, Found, find, parse_route}
use iceberg.Router.Best.{IsCandidate}
use iceberg.Router.Spec.{Registered, table_of, route_of, original, NoCollision}
use iceberg.Router.Refines.{original-get, NoCollision-route}
use iceberg.Router.Serving.{Served, not_found, found, find-Served}
use iceberg.Common.Url.{Url}
use iceberg.Common.Map.{Map}
use mathlib.Core.List.{Memᴰ}
use mathlib.Core.Path.{subst}
use iceberg.Common.{
  List, [], ◌∷◌, some, false, ◌==◌, ◌≡◌, ◌⊎◌, inl, inr, refl, sym, ap, ◌∙◌, All, All-mem, length,
}
use iceberg.Common.Go.{Go, ret}
use iceberg.Common.Text.{Text, codes, text_beq, text_eq}

-- The methods for which "*" stands.
abbrev pub five_methods : List Text
five_methods = codes "GET" ∷ codes "HEAD" ∷ codes "POST" ∷ codes "PUT" ∷ codes "DELETE" ∷ []

-- The methods that the pattern of a resource answers for its configured method.
pub data Exposes (method asked : Text) : Type 0 where
  for_none : method ≡ [] → Memᴰ asked five_methods → Exposes method asked
  for_any : method ≡ codes "*" → Memᴰ asked five_methods → Exposes method asked
  itself :
      (length method == 0) ≡ false
      → text_beq method (codes "*") ≡ false
      → asked ≡ method
      → Exposes method asked

Exposes-listed : (method asked : Text) → Exposes method asked → Memᴰ asked (methods_of method)
Exposes-listed method asked (for_none e m) = subst (λ x. Memᴰ asked (methods_of x)) (sym e) m
Exposes-listed method asked (for_any e m) = subst (λ x. Memᴰ asked (methods_of x)) (sym e) m
Exposes-listed method asked (itself some_text one e) = rw (some_text, one) (Memᴰ.head e)

module _ {W A : Type 0} (digest : Text → Text) (answered : Answer → A) where
  -- The registrations behind those of one handler, for each method.
  abbrev pub registered :
      Url
      → Handler W A
      → List Text
      → List (Registered (Handler W A))
      → List (Registered (Handler W A))
  registered url h [] regs = regs
  registered url h (m ∷ methods) regs =
      registered url h methods (record { url = url; method = m; handler = h } ∷ regs)

  registered-old :
      (url : Url) (h : Handler W A) (methods : List Text) (regs : List (Registered (Handler W A)))
      (r : Registered (Handler W A))
      → Memᴰ r regs
      → Memᴰ r (registered url h methods regs)
  registered-old url h [] regs r m = m
  registered-old url h (x ∷ methods) regs r m = registered-old url h methods _ r (Memᴰ.tail m)

  registered-new :
      (url : Url) (h : Handler W A) (methods : List Text) (regs : List (Registered (Handler W A)))
      (method : Text)
      → Memᴰ method methods
      → Memᴰ (record { url = url; method = method; handler = h }) (registered url h methods regs)
  registered-new url h [] regs method m = elim m [ ]
  registered-new url h (x ∷ methods) regs method (Memᴰ.head e) =
      registered-old url h methods _ _
        (Memᴰ.head (ap (λ m. record { url = url; method = m; handler = h }) e))
  registered-new url h (x ∷ methods) regs method (Memᴰ.tail m) =
      registered-new url h methods _ method m

  register_all-table_of :
      (url : Url) (h : Handler W A) (methods : List Text) (regs : List (Registered (Handler W A)))
      → register_all digest answered url h methods (table_of digest regs)
        ≡ table_of digest (registered url h methods regs)
  unfolding register_all table_of
  register_all-table_of url h [] regs = refl
  register_all-table_of url h (m ∷ methods) regs = register_all-table_of url h methods _

  handle_func-table_of :
      (parse_url : Text → Go Text Url) (pattern method : Text) (h : Handler W A)
      (regs : List (Registered (Handler W A))) (url : Url)
      → parse_url pattern ≡ ret url
      → (handle_func digest answered parse_url pattern method h [] (table_of digest regs)).1
        ≡ table_of digest
            (registered url (exposing digest answered no_options h) (methods_of method) regs)
  unfolding handle_func
  handle_func-table_of parse_url pattern method h regs url parsed =
      ap (λ u. (handle_at digest answered method h [] (table_of digest regs) u).1) parsed
      ∙ register_all-table_of url (exposing digest answered no_options h) (methods_of method) regs

  -- What was registered behind the earlier registrations has the handler.
  registered-handler :
      (url : Url) (h : Handler W A) (methods : List Text) (regs : List (Registered (Handler W A)))
      (r : Registered (Handler W A))
      → Memᴰ r (registered url h methods regs)
      → Memᴰ r regs ⊎ (r.handler ≡ h)
  registered-handler url h [] regs r m = inl m
  registered-handler url h (x ∷ methods) regs r m = elim (registered-handler url h methods _ r m) [
    | inl (Memᴰ.head e) ↦ inr (ap (λ (s : Registered (Handler W A)). s.handler) e)
    | inl (Memᴰ.tail old) ↦ inl old
    | inr new ↦ inr new
  ]

  module _ (regs : List (Registered (Handler W A))) (url request : Url) (v : Visit W)
      (h : Handler W A) (methods : List Text) where
    abbrev behind : List (Registered (Handler W A))
    behind = registered url (exposing digest answered no_options h) methods regs

    abbrev FitsHere : Route → Type 0
    FitsHere r = IsCandidate (parse_route digest request v.request.method) v.request.method r

    -- Where no earlier registration fits, the handler that is found is the new one.
    found-handler :
        (r : Registered (Handler W A)) (handler : Handler W A)
        → NoCollision digest behind
        → All (λ old. ¬ FitsHere (route_of digest old)) regs
        → Memᴰ r behind
        → FitsHere (route_of digest r)
        → original digest (route_of digest r).hash behind ≡ some handler
        → handler ≡ exposing digest answered no_options h
    found-handler r handler apart unfit m fits first =
        let (r', m', same_hash, its) = original-get digest behind _ handler first in
        let same_route = NoCollision-route digest behind r r' apart m m' same_hash in
        elim (registered-handler url _ methods regs r' m') [
          | inl old ↦ absurd (All-mem _ old unfit (subst FitsHere (sym same_route) fits))
          | inr new ↦ sym its ∙ new
        ]

    Served-handled :
        (r : Registered (Handler W A)) (f : Found)
        → NoCollision digest behind
        → All (λ old. ¬ FitsHere (route_of digest old)) regs
        → Memᴰ r behind
        → FitsHere (route_of digest r)
        → Served digest behind request v.request.method f
        → (values : Map Text Text) × (serve_found digest answered (table_of digest behind) f v
            ≡ h v (some values))
    unfolding exposing
    Served-handled r f apart unfit m fits (not_found e none_fits) = absurd (none_fits r m fits)
    Served-handled r f apart unfit m fits (found r' handler values listed fits' _ first served) = (
      values,
      ap (λ s. run_handler digest answered s v) served
          ∙ ap (λ g. g v (some values)) (found-handler r' handler apart unfit listed fits' first),
    )

  -- After HandleFunc without options on a table of earlier registrations, none of which fits the
  -- request, the mux calls the handler, with route values that are not nil, for each request that
  -- fits the pattern with a method that the configured one stands for: GET, HEAD, POST, PUT and
  -- DELETE for "*" and for none, and itself for any other; where the digest did not collide.
  pub handle_func-serve_http :
      (parse_url : Text → Go Text Url) (pattern method : Text) (h : Handler W A)
      (regs : List (Registered (Handler W A))) (url request : Url) (v : Visit W) (asked : Text)
      → parse_url pattern ≡ ret url
      → NoCollision digest
          (registered url (exposing digest answered no_options h) (methods_of method) regs)
      → Exposes method asked
      → IsCandidate
          (parse_route digest request v.request.method)
          v.request.method
          (parse_route digest url asked)
      → All
          (λ old.
            ¬ IsCandidate
              (parse_route digest request v.request.method)
              v.request.method
              (route_of digest old))
          regs
      → (values : Map Text Text) × (serve_http digest answered
            (handle_func digest answered parse_url pattern method h [] (table_of digest regs)).1
            request
            v
          ≡ h v (some values))
  unfolding serve_http
  handle_func-serve_http parse_url pattern method h regs url request v asked parsed apart exposed
        fits unfit =
      let all = registered url (exposing digest answered no_options h) (methods_of method) regs in
      let (values, same) =
        Served-handled regs url request v h (methods_of method) _ _ apart unfit
          (registered-new url _ (methods_of method) regs asked
            (Exposes-listed method asked exposed))
          fits (find-Served digest all request v.request.method apart) in
      (
        values,
        ap (λ t. serve_found digest answered t (find digest t request v.request.method) v)
              (handle_func-table_of parse_url pattern method h regs url parsed)
            ∙ same,
      )
