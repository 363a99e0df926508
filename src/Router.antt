-- ===== src/Router.antt =====
-- internal/common/router/router.go. A handler is any value of a type `H`. SHA-256 in hexadecimal
-- is the parameter `digest`: no theorem needs more of it than that it is a function.
pub mod Rank
pub mod Best
pub mod Parsed
pub mod Table
pub mod Binding
pub mod Spec
pub mod Refines
pub mod Listed
pub mod Serving
use iceberg.Common.{
  ℕ, suc, ◌+◌, List, [], ◌∷◌, ◌++◌, Option, none, some, not, length, ltb, ◌==◌, nat_eq,
  if◌then◌else◌,
}
use iceberg.Common.Map.{Map, get, put, get_or}
use iceberg.Common.Text.{Text, text_eq, codes, text_beq, has_prefix, split, to_upper}
use iceberg.Common.Url.{Url}

pub data RouterError : Type 0 where
  no_match_found no_url_registered : RouterError

-- RouterError.Error
abbrev pub error_text : RouterError → Text
error_text no_match_found = codes "no match found"
error_text no_url_registered = codes "no url registered"

pub record Route : Type 0 where
  pub path : Text
  pub method : Text
  pub route_values : Map ℕ Text
  pub route_params : Map ℕ Text
  pub hash : Text

pub record RouteTable {ℓ} (H : Type ℓ) : Type ℓ where
  pub routes : Map ℕ (List Route)
  pub configs : Map Text H

abbrev pub wildcard : Text
wildcard = codes "?"

abbrev tail_text : Text → Text
tail_text [] = []
tail_text (c ∷ s) = s

-- One round of the loop of ParseRoute; the maps are routeValues and routeParams.
-- (The source writes a literal segment to routeValues twice.)
unfoldable pub parse_segment : ℕ → Text → Map ℕ Text × Map ℕ Text → Map ℕ Text × Map ℕ Text
parse_segment index segment (values, params) =
    if length segment == 0
    then (values, params)
    else if has_prefix segment (codes ":")
    then (put index wildcard values, put index (tail_text segment) params)
    else (put index segment values, params)

unfoldable pub parse_segments : ℕ → List Text → Map ℕ Text × Map ℕ Text → Map ℕ Text × Map ℕ Text
parse_segments index [] maps = maps
parse_segments index (segment ∷ rest) maps =
    parse_segments (suc index) rest (parse_segment index segment maps)

-- The loop of RouteCompare, in the order of the list, with its `break` at a mismatch.
unfoldable pub rank_from : ℕ → Map ℕ Text → Map ℕ Text → ℕ
rank_from rank [] given = rank
rank_from rank ((key, value) ∷ rest) given =
    let wild = rank_from (rank + 1) rest given in
    let literal = rank_from (rank + 2) rest given in
    if text_beq value wildcard
    then wild
    else if not (text_beq value (get_or key given []))
    then 0
    else literal

unfoldable pub route_compare : Route → Route → ℕ
route_compare preferred route =
    if not (length preferred.route_values == length route.route_values)
    then 0
    else rank_from 1 preferred.route_values route.route_values

-- The loop of Route.Bind over the values of the pattern, in the order in which the range visits them.
unfoldable pub bind_from : Map ℕ Text → Route → Route → Map Text Text → Map Text Text
bind_from [] r route bound = bound
bind_from ((key, value) ∷ rest) r route bound =
    let k =
      if text_beq value wildcard
      then get_or key r.route_params []
      else get_or key r.route_values [] in
    bind_from rest r route (put k (get_or key route.route_values []) bound)

-- Route.Bind, where the range over the values of the pattern visits them in this order, which Go
-- chooses anew for each range; `none` is a nil map.
unfoldable pub bind_in : Map ℕ Text → Route → Route → Option (Map Text Text)
bind_in order r route =
    if route_compare r route == 0 then none else some (bind_from order r route [])

-- Route.Bind, for the range in the order of the list.
unfoldable pub bind : Route → Route → Option (Map Text Text)
unfolding bind_in
bind r route = bind_in r.route_values r route

-- One round of the loop of RouteTable.Find: the highest rank so far and its route.
unfoldable pub pick : Route → Text → Route → ℕ × Option Route → ℕ × Option Route
pick prt method url (lrnk, lrt) =
    if not (text_beq url.method (to_upper method))
    then (lrnk, lrt)
    else let rnk = route_compare url prt in
      if not (rnk == 0) then if ltb lrnk rnk then (rnk, some url) else (lrnk, lrt) else (lrnk, lrt)

unfoldable pub pick_all : Route → Text → List Route → ℕ × Option Route → ℕ × Option Route
pick_all prt method [] best = best
pick_all prt method (url ∷ routes) best = pick_all prt method routes (pick prt method url best)

-- What Find returns: an error, or the route found with the parsed request that its closure holds.
pub data Found : Type 0 where
  failed : RouterError → Found
  matched : Route → Route → Found

-- The end of Find, on the values of `lrnk` and `lrt`. A positive rank comes with a route.
unfoldable pub conclude : Route → ℕ × Option Route → Found
conclude prt (lrnk, none) = failed no_match_found
conclude prt (lrnk, some lrt) = if lrnk == 0 then failed no_match_found else matched lrt prt

module _ (digest : Text → Text) where
  unfoldable pub create_hash : Url → Text → Text
  create_hash url method = digest (to_upper method ++ codes ":" ++ url.path)

  unfoldable pub parse_route : Url → Text → Route
  unfolding create_hash
  parse_route url method =
      let (values, params) = parse_segments 0 (split url.path b'/') ([], []) in
      record {
        path = url.path;
        method = to_upper method;
        route_values = values;
        route_params = params;
        hash = create_hash url method;
      }

  module _ {ℓ} {H : Type ℓ} where
    unfoldable pub register : Url → Text → H → RouteTable H → RouteTable H
    register url method handler rt =
        let route = parse_route url method in
        let len = length route.route_values in
        elim (get route.hash rt.configs) [
          | some _ ↦ rt
          | none ↦ record {
            routes = put len (get_or len rt.routes [] ++ route ∷ []) rt.routes;
            configs = put route.hash handler rt.configs;
          }
        ]

    unfoldable pub find : RouteTable H → Url → Text → Found
    find rt url method =
        if length rt.routes == 0
        then failed no_url_registered
        else let prt = parse_route url method in
          elim (get (length prt.route_values) rt.routes) [
            | none ↦ failed no_match_found
            | some routes ↦ conclude prt (pick_all prt method routes (0, none))
          ]

module _ {ℓ} {H : Type ℓ} where
  -- RouteTable.GetHandlerFunc; `none` is the nil function, whose call panics.
  unfoldable pub get_handler_func : RouteTable H → Text → Option H
  get_handler_func rt hash = get hash rt.configs

  -- What the closure that Find returns calls: the handler, and the route values it is given.
  unfoldable pub serve : RouteTable H → Found → Option (H × Option (Map Text Text))
  unfolding get_handler_func bind
  serve rt (failed _) = none
  serve rt (matched lrt prt) = elim (get_handler_func rt lrt.hash) [
    | none ↦ none
    | some handler ↦ some (handler, bind lrt prt)
  ]
