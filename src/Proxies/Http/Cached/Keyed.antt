-- ===== src/Proxies/Http/Cached/Keyed.antt =====
-- The copy of the original request and its key, and selections of which nothing is left.
use iceberg.Cache.Key.{parse_key, key_at, fill_body, fill_query, fill_route, fill_method}
use iceberg.Netio.Cascade.{copy_original}
use iceberg.Netio.Clone.{clone_url}
use iceberg.Netio.Copies.{clone_url_lem}
use iceberg.Netio.Header.{Header}
use iceberg.Netio.Message.{Request, new_request, reader, read_all}
use iceberg.Netio.Request.{
  ShadowRequest, RouteValues, set_header, clone_request, clone_shadow_request, new_shadow_request,
  copied, apply_options,
}
use iceberg.Netio.Sort.Order.{select, latest}
use iceberg.Common.{List, [], ◌∷◌, Option, none, some, Bool, false, ◌≡◌, refl, ap, ◌∙◌, All}
use iceberg.Common.Go.{Go, ret, ◌>>=◌}
use iceberg.Common.Url.{Url}
use iceberg.Common.Map.{Map}
use iceberg.Common.Text.{Text, text_eq, to_lower}
use mathlib.Core.Path.{ap₂}

module _ {ℓ} {C : Type ℓ} (test : C → Bool) where
  pub select_none : (cs : List C) → All (λ c. test c ≡ false) cs → select test cs ≡ []
  select_none [] all = refl
  select_none (c ∷ cs) (e, all) = rw e (select_none cs all)

  pub latest_none :
      (before cs : List C) → All (λ c. test c ≡ false) cs → latest test before cs ≡ before
  latest_none before [] all = refl
  latest_none before (c ∷ cs) (e, all) = rw e (latest_none before cs all)

-- The copy of the original request that Cascade makes, and its clone.
abbrev pub copy_of : ShadowRequest → ShadowRequest
unfolding copied
copy_of request = record {
  request = copied request;
  route_values = request.route_values;
  data_bytes = request.data_bytes;
}

pub copy_original_lem : (request : ShadowRequest) → copy_original request ≡ ret (copy_of request)
unfolding clone_shadow_request apply_options new_shadow_request read_all copied
copy_original_lem request = refl

abbrev pub bare : ShadowRequest → Request
bare request = record new_request { url = request.request.url; body = reader request.data_bytes }

module _ (query : Text → Map Text (List Text)) (digest : Text → Text) (template : Text) where
  -- The key of a request: it depends on the URL, the body and the route values alone.
  abbrev pub key_of : ShadowRequest → Go Text Text
  key_of request = parse_key query digest template (bare request) request.route_values

  key_at-eq :
      (r q : Request) (rv : RouteValues) (u : Option Url)
      → r.body ≡ q.body
      → r.method ≡ q.method
      → key_at query digest template r rv u ≡ key_at query digest template q rv u
  key_at-eq r q rv none e f = refl
  key_at-eq r q rv (some u) e f =
      ap₂
        (λ body method.
          fill_body query digest body
            (fill_query (fill_route (to_lower template) rv) (query u.raw_query))
          >>= λ key. ret (fill_method method key))
        e f

  -- ParseKey reads a clone of the copy as the request, under any header.
  pub copy_of-key :
      (request : ShadowRequest) (h : Header)
      → (clone_request (copy_of (set_header request h)) [] >>= λ r.
          parse_key query digest template r request.route_values)
        ≡ key_of request
  unfolding clone_request copied apply_options parse_key
  copy_of-key request h =
      key_at-eq (copied (copy_of (set_header request h))) (bare request) request.route_values
        (clone_url (clone_url request.request.url)) refl refl
      ∙ ap (key_at query digest template (bare request) request.route_values)
          (clone_url_lem (clone_url request.request.url) ∙ clone_url_lem request.request.url)
