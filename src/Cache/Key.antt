-- ===== src/Cache/Key.antt =====
-- Cache.ParseKey of internal/middleware/cache/common.go. url.URL.Query and SHA-256 in hex are
-- parameters. The maps of values that it ranges over are in the order of their lists.
pub mod Method
use iceberg.Common.{List, [], ◌∷◌, ◌++◌, Option, none, some, if◌then◌else◌}
use iceberg.Common.Go.{◌>>=◌, Go, ret, fail, panic}
use iceberg.Common.Map.{Map}
use iceberg.Common.Text.{Text, codes, to_lower, replace_all, contains, join}
use iceberg.Common.Url.{Url}
use iceberg.Netio.Message.{Request, read_all, Body}
use iceberg.Netio.Request.{RouteValues}

unfoldable pub fill_route : Text → RouteValues → Text
fill_route cache_key [] = cache_key
fill_route cache_key ((key, value) ∷ rv) =
    fill_route (replace_all cache_key (codes "{:" ++ to_lower key ++ codes "}") value) rv

unfoldable pub fill_query : Text → Map Text (List Text) → Text
fill_query cache_key [] = cache_key
fill_query cache_key ((key, value) ∷ q) =
    fill_query
      (replace_all cache_key (codes "{?" ++ to_lower key ++ codes "}") (join value (codes "-"))) q

-- The placeholder for the method is looked for, and the one for the body is replaced.
unfoldable pub fill_method : Text → Text → Text
fill_method method cache_key =
    if contains cache_key (codes "{method}")
    then replace_all cache_key (codes "{body}") method
    else cache_key

module _ (query : Text → Map Text (List Text)) (digest : Text → Text) where
  abbrev pub replace_body : Text → Go Text (Text × Body) → Go Text Text
  replace_body cache_key (ret (body, _)) =
      ret (replace_all cache_key (codes "{body}") (digest body))
  replace_body cache_key (fail e) = fail e
  replace_body cache_key panic = panic

  unfoldable pub fill_body : Body → Text → Go Text Text
  fill_body body cache_key =
      if contains cache_key (codes "{body}")
      then replace_body cache_key (read_all body)
      else ret cache_key

  abbrev pub key_at : Text → Request → RouteValues → Option Url → Go Text Text
  key_at template r rv none = panic
  key_at template r rv (some u) =
      fill_body r.body (fill_query (fill_route (to_lower template) rv) (query u.raw_query))
      >>= λ key. ret (fill_method r.method key)

  -- Cache.ParseKey
  unfoldable pub parse_key : Text → Request → RouteValues → Go Text Text
  unfolding fill_route fill_query fill_body fill_method
  parse_key template r rv = key_at template r rv r.url
