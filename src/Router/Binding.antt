-- ===== src/Router/Binding.antt =====
-- The route values that Bind hands to a handler.
use mathlib.Core.Path.{subst}
use mathlib.Core.List.{Memᴰ}
use iceberg.Common.{
  ℕ, suc, List, [], ◌∷◌, some, ◌≡◌, ◌≢◌, refl, sym, ◌∙◌, All, arith, nat_eq, Bool-cases, length,
  ◌==◌, false, if◌then◌else◌, inl, inr, true, ◌⊎◌, ◌↔◌, All-mem,
}
use iceberg.Common.Map.{Map, get, get_or, get-put_ne, get-put_self, put, All-put, All-get_or}
use iceberg.Common.Text.{Text, text_eq, text_beq, text_beq_iff, codes, has_prefix, split}
use iceberg.Common.Url.{Url}
use iceberg.Router.{
  Route, wildcard, parse_segment, parse_segments, parse_route, bind_from, bind, bind_in,
}

abbrev HasNoColon : {K : Type 0} → Map K Text → Type 0
HasNoColon m = All (λ x. has_prefix x.1 (codes ":") ≡ false) m

parse_segments-HasNoColon :
    (index : ℕ) (segments : List Text) (maps : Map ℕ Text × Map ℕ Text)
    → HasNoColon maps.0
    → HasNoColon (parse_segments index segments maps).0
unfolding parse_segments parse_segment
parse_segments-HasNoColon index [] maps h = h
parse_segments-HasNoColon index (segment ∷ rest) (values, params) h =
    parse_segments-HasNoColon (suc index) rest (parse_segment index segment (values, params))
      (elim (Bool-cases (length segment == 0)) [
        | inl empty ↦ rw empty h
        | inr some_text ↦ rw some_text (elim (Bool-cases (has_prefix segment (codes ":"))) [
          | inl param ↦ rw param (All-put _ index wildcard values h refl)
          | inr literal ↦ rw literal (All-put _ index segment values h literal)
        ])
      ])

bind_from-HasNoColon :
    (m : Map ℕ Text) (r route : Route) (bound : Map Text Text)
    → HasNoColon route.route_values
    → HasNoColon bound
    → HasNoColon (bind_from m r route bound)
unfolding bind_from
bind_from-HasNoColon [] r route bound h k = k
bind_from-HasNoColon ((key, value) ∷ rest) r route bound h k =
    bind_from-HasNoColon rest r route _ h (
      All-put _ _ _ bound k (
        All-get_or (λ (x : ℕ × Text). has_prefix x.1 (codes ":") ≡ false) key route.route_values []
          h refl))

bind_in-eq-some :
    (order : Map ℕ Text) (r route : Route) (values : Map Text Text)
    → bind_in order r route ≡ some values
    → bind_from order r route [] ≡ values
unfolding bind_in
bind_in-eq-some order r route values e = ground arith

-- Whatever a request's path holds, no route value that Bind takes from it begins with a colon: a
-- request segment that does is read as a parameter and is bound as "?".
pub bind-HasNoColon :
    (digest : Text → Text) (pattern : Route) (url : Url) (method : Text) (values : Map Text Text)
    → bind pattern (parse_route digest url method) ≡ some values
    → All (λ x. has_prefix x.1 (codes ":") ≡ false) values
unfolding bind parse_route
bind-HasNoColon digest pattern url method values e =
    subst HasNoColon (bind_in-eq-some pattern.route_values pattern _ values e) (
      bind_from-HasNoColon _ pattern _ []
        (parse_segments-HasNoColon 0 (split url.path b'/') ([], []) tt) tt)

-- The name under which Bind enters the value of a segment of the pattern.
abbrev pub bound_name : Route → ℕ × Text → Text
bound_name r (key, value) =
    if text_beq value wildcard then get_or key r.route_params [] else get_or key r.route_values []

-- The entries of a map, in the order of some range over it.
abbrev pub IsRange : Map ℕ Text → Map ℕ Text → Type 0
IsRange order m = (x : ℕ × Text) → Memᴰ x order ↔ Memᴰ x m

module _ (r route : Route) where
  -- What the loop leaves under a name: the value of a segment that has it, or what was there.
  bound_by :
      (order : Map ℕ Text) (name : Text) (bound : Map Text Text)
      → ((y : ℕ × Text) × Memᴰ y order
          × (bound_name r y ≡ name)
          × (get name (bind_from order r route bound) ≡ some (get_or y.0 route.route_values [])))
        ⊎ (All (λ y. bound_name r y ≢ name) order
            × (get name (bind_from order r route bound) ≡ get name bound))
  unfolding bind_from
  bound_by [] name bound = inr (tt, refl)
  bound_by ((key, value) ∷ rest) name bound =
      let here = bound_name r (key, value) in
      let v = get_or key route.route_values [] in
      elim (bound_by rest name (put here v bound)) [
        | inl (y, m, same, found) ↦ inl (y, Memᴰ.tail m, same, found)
        | inr (others, kept) ↦ elim (Bool-cases (text_beq here name)) [
          | inl e ↦
              let same = (text_beq_iff here name).0 e in
              inl (
                (key, value),
                Memᴰ.head refl,
                same,
                kept
                    ∙ subst (λ k. get k (put here v bound) ≡ some v) same
                        (get-put_self here v bound),
              )
          | inr e ↦
              let other : here ≢ name = λ same.
                let wrong : true ≡ false = sym ((text_beq_iff here name).1 same) ∙ e in cc in
              inr ((other, others), kept ∙ get-put_ne here name v bound other)
        ]
      ]

  -- In whatever order the range visits the segments of the pattern: for every segment of the pattern
  -- Bind enters, under the parameter's name or under the literal, the segment of the request at the
  -- index of a segment of the pattern that has this name; which is the same index where no other
  -- segment has it.
  pub get-bind_in :
      (order : Map ℕ Text) (x : ℕ × Text) (values : Map Text Text)
      → IsRange order r.route_values
      → Memᴰ x r.route_values
      → bind_in order r route ≡ some values
      → (y : ℕ × Text) × Memᴰ y r.route_values
        × (bound_name r y ≡ bound_name r x)
        × (get (bound_name r x) values ≡ some (get_or y.0 route.route_values []))
  get-bind_in order x values range m b = elim (bound_by order (bound_name r x) []) [
    | inl (y, listed, same, found) ↦ (
      y,
      (range y).0 listed,
      same,
      subst (λ vs. get (bound_name r x) vs ≡ some (get_or y.0 route.route_values []))
          (bind_in-eq-some order r route values b) found,
    )
    | inr (others, _) ↦ absurd (All-mem _ ((range x).1 m) others refl)
  ]
