-- ===== src/Cache/Key/Method.antt =====
-- The method and a cache key.
use iceberg.Common.{List, some, false, refl, ◌≡◌, ◌∙◌, ap, Bool-cases, inl, inr}
use iceberg.Common.Go.{ret, ◌>>=◌}
use iceberg.Common.Map.{Map}
use iceberg.Common.Text.{Text, codes, to_lower, replace_all-contains, contains}
use iceberg.Common.Url.{Url}
use iceberg.Netio.Message.{Request, Body}
use iceberg.Netio.Request.{RouteValues}
use iceberg.Cache.Key.{fill_route, fill_query, fill_method, fill_body, parse_key, key_at}

fill_method-contains :
    (method key : Text) → contains key (codes "{body}") ≡ false → fill_method method key ≡ key
unfolding fill_method
fill_method-contains method key h = elim (Bool-cases (contains key (codes "{method}"))) [
  | inl asked ↦ rw asked (replace_all-contains key (codes "{body}") method h)
  | inr plain ↦ rw plain refl
]

module _ (query : Text → Map Text (List Text)) (digest : Text → Text) where
  fill_body-contains :
      (body : Body) (key : Text)
      → contains key (codes "{body}") ≡ false
      → fill_body query digest body key ≡ ret key
  unfolding fill_body
  fill_body-contains body key h = rw h refl

  -- Where the template has no placeholder for the body when the values of the route and of the query
  -- are filled in, the key is the template so filled, whatever the method of the request: a
  -- placeholder for the method is left as it is.
  pub parse_key-contains :
      (template : Text) (r : Request) (rv : RouteValues) (u : Url)
      → r.url ≡ some u
      → contains
          (fill_query (fill_route (to_lower template) rv) (query u.raw_query))
          (codes "{body}")
        ≡ false
      → parse_key query digest template r rv
        ≡ ret (fill_query (fill_route (to_lower template) rv) (query u.raw_query))
  unfolding parse_key
  parse_key-contains template r rv u e h =
      let key = fill_query (fill_route (to_lower template) rv) (query u.raw_query) in
      ap (key_at query digest template r rv) e
      ∙ ap (λ t. t >>= λ key. ret (fill_method r.method key)) (fill_body-contains r.body key h)
      ∙ ap ret (fill_method-contains r.method key h)
