-- ===== src/Router/Parsed.antt =====
-- The routes that ParseRoute makes, compared with each other.
use iceberg.Common.{
  ℕ, suc, ◌<◌, List, [], ◌∷◌, ◌≡◌, ◌≢◌, inl, inr, refl, sym, length, All, All-imp, arith, nat_eq,
  Bool-cases, ◌==◌, ==_iff,
}
use iceberg.Common.Map.{Map, put, get_or, get_or-put, All-put}
use iceberg.Common.Text.{Text, codes, has_prefix, split}
use iceberg.Common.Url.{Url}
use iceberg.Router.{wildcard, route_compare, parse_segment, parse_segments, parse_route}
use iceberg.Router.Rank.{Fits, route_compare-ne-zero_iff}

-- Every value stands under an index below `index`, and is the one that its index reads.
abbrev IsFiled : ℕ → Map ℕ Text → Type 0
IsFiled index values = All (λ (x : ℕ × Text). (x.0 < index) × (get_or x.0 values [] ≡ x.1)) values

IsFiled-put :
    (index : ℕ) (value : Text) (values : Map ℕ Text)
    → IsFiled index values
    → IsFiled (suc index) (put index value values)
IsFiled-put index value values h =
    All-put _ index value values
      (All-imp values (λ x (lt, e). (omega arith, rw get_or-put (ground (arith, ==_iff index x.0))))
        h)
      (omega arith, rw get_or-put (ground (arith, ==_iff index index)))

IsFiled-suc : (index : ℕ) (values : Map ℕ Text) → IsFiled index values → IsFiled (suc index) values
IsFiled-suc index values h = All-imp values (λ x (lt, e). (omega arith, e)) h

parse_segment-IsFiled :
    (index : ℕ) (segment : Text) (maps : Map ℕ Text × Map ℕ Text)
    → IsFiled index maps.0
    → IsFiled (suc index) (parse_segment index segment maps).0
unfolding parse_segment
parse_segment-IsFiled index segment (values, params) h = elim (Bool-cases (length segment == 0)) [
  | inl empty ↦ rw empty (IsFiled-suc index values h)
  | inr some_text ↦ rw some_text (elim (Bool-cases (has_prefix segment (codes ":"))) [
    | inl param ↦ rw param (IsFiled-put index wildcard values h)
    | inr literal ↦ rw literal (IsFiled-put index segment values h)
  ])
]

parse_segments-IsFiled :
    (index : ℕ) (segments : List Text) (maps : Map ℕ Text × Map ℕ Text)
    → IsFiled index maps.0
    → (last : ℕ) × IsFiled last (parse_segments index segments maps).0
unfolding parse_segments
parse_segments-IsFiled index [] maps h = (index, h)
parse_segments-IsFiled index (segment ∷ rest) maps h =
    parse_segments-IsFiled (suc index) rest (parse_segment index segment maps)
      (parse_segment-IsFiled index segment maps h)

module _ (digest : Text → Text) where
  pub parse_route-Fits_self :
      (url : Url) (method method' : Text)
      → Fits (parse_route digest url method) (parse_route digest url method')
  unfolding parse_route
  parse_route-Fits_self url method method' = record {
    same_length = refl;
    accepted =
        All-imp _ (λ x (lt, e). inr (sym e))
          (parse_segments-IsFiled 0 (split url.path b'/') ([], []) tt).1;
  }

  -- A request with the path of a pattern fits that pattern, whatever the methods of the two.
  pub route_compare-parse_route :
      (url : Url) (method method' : Text)
      → route_compare (parse_route digest url method) (parse_route digest url method') ≢ 0
  route_compare-parse_route url method method' =
      (route_compare-ne-zero_iff _ _).1 (parse_route-Fits_self url method method')
