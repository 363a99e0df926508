-- ===== src/Router/Spec.antt =====
-- What the route table is for, on the list of the registrations, the latest first: no buckets, no
-- hashes of routes in use.
use iceberg.Router.{Route, RouteTable, register, parse_route}
use iceberg.Router.Table.{empty_table}
use iceberg.Common.Url.{Url}
use iceberg.Common.{List, [], ◌∷◌, Option, none, some, if◌then◌else◌, ◌≡◌, All}
use iceberg.Common.Text.{Text, text_beq, text_eq}

pub record Registered {ℓ} (H : Type ℓ) : Type ℓ where
  pub url : Url
  pub method : Text
  pub handler : H

module _ {ℓ} {H : Type ℓ} (digest : Text → Text) where
  abbrev pub route_of : Registered H → Route
  route_of r = parse_route digest r.url r.method

  -- The table behind the registrations.
  unfoldable pub table_of : List (Registered H) → RouteTable H
  unfolding register
  table_of [] = empty_table
  table_of (r ∷ earlier) = register digest r.url r.method r.handler (table_of earlier)

  abbrev pub first_or : Option H → Text → Registered H → Option H
  first_or (some h) hash r = some h
  first_or none hash r = if text_beq (route_of r).hash hash then some r.handler else none

  -- The handler of the first registration with a hash.
  unfoldable pub original : Text → List (Registered H) → Option H
  original hash [] = none
  original hash (r ∷ earlier) = first_or (original hash earlier) hash r

  -- Registrations with the same hash have the same route: the digest did not collide on them.
  abbrev pub NoCollision : List (Registered H) → Type 0
  NoCollision [] = Unit
  NoCollision (r ∷ earlier) =
      All (λ other. (route_of other).hash ≡ (route_of r).hash → route_of other ≡ route_of r) earlier
      × NoCollision earlier
