-- ===== src/Netio/Copies.antt =====
-- What a clone of a request keeps.
use iceberg.Netio.Request.{with_url, with_context, fill_path, RouteValues}
use iceberg.Common.Url.{Url}
use iceberg.Common.Map.{Map}
use iceberg.Netio.Header.{Header}
use iceberg.Common.Text.{Text}
use iceberg.Common.{[], ◌∷◌, none, some, refl, ap, List, Option, map, ◌≡◌}
use iceberg.Common.Go.{ret, ◌>>=◌}
use iceberg.Netio.Clone.{
  clone_url, clone_header, clone_url_values, clone_transfer_encoding, clone_multipart_form,
  clone_multipart_file_header, clone_files,
}
use iceberg.Netio.Message.{
  Request, no_transport, background, read_all, reader, FileHeader, MultipartForm, Context,
}
use iceberg.Netio.Request.{new_shadow_request, clone_request, copied, apply_options}

pub clone_url_lem : (u : Option Url) → clone_url u ≡ u
unfolding clone_url
clone_url_lem none = refl
clone_url_lem (some u) = refl

pub clone_header_lem : (h : Header) → clone_header h ≡ h
unfolding clone_header
clone_header_lem none = refl
clone_header_lem (some h) = refl

clone_url_values_lem : (v : Option (Map Text (List Text))) → clone_url_values v ≡ v
unfolding clone_url_values clone_header
clone_url_values_lem none = refl
clone_url_values_lem (some v) = refl

clone_transfer_encoding_lem : (e : Option (List Text)) → clone_transfer_encoding e ≡ e
unfolding clone_transfer_encoding
clone_transfer_encoding_lem none = refl
clone_transfer_encoding_lem (some e) = refl

clone_multipart_file_header_lem : (f : Option FileHeader) → clone_multipart_file_header f ≡ f
unfolding clone_multipart_file_header
clone_multipart_file_header_lem none = refl
clone_multipart_file_header_lem (some f) =
    ap (λ h. some (record f { header = h })) (clone_header_lem f.header)

map-clone_multipart_file_header :
    (fs : List (Option FileHeader)) → map clone_multipart_file_header fs ≡ fs
map-clone_multipart_file_header [] = refl
map-clone_multipart_file_header (f ∷ fs) =
    rw (clone_multipart_file_header_lem f, map-clone_multipart_file_header fs) refl

clone_files_lem : (m : Map Text (List (Option FileHeader))) → clone_files m ≡ m
clone_files_lem [] = refl
clone_files_lem ((k, fs) ∷ m) = rw (map-clone_multipart_file_header fs, clone_files_lem m) refl

copied_files_lem :
    (m : Option (Map Text (List (Option FileHeader))))
    → ◌≡◌ {A = Option (Map Text (List (Option FileHeader)))}
        (elim m [ none ↦ none | some m' ↦ some (clone_files m') ])
        m
copied_files_lem none = refl
copied_files_lem (some m) = ap some (clone_files_lem m)

clone_multipart_form_lem : (f : Option MultipartForm) → clone_multipart_form f ≡ f
unfolding clone_multipart_form
clone_multipart_form_lem none = refl
clone_multipart_form_lem (some f) =
    λ i. some (record { value = clone_header_lem f.value i; file = copied_files_lem f.file i })

-- A request with a body that can be read, made a shadow request and cloned without options: the
-- clone has the whole body, the URL, the header, the trailer, the forms and the transfer encoding of
-- the request; its method, host, context, protocol, content length, close flag, remote address,
-- request URI and TLS state are those of a new request.
pub new_shadow_request-clone_request :
    (r : Request) (body : Text)
    → (new_shadow_request (record r { body = reader body }) >>= λ s. clone_request s [])
      ≡ ret (record r {
        method = [];
        host = [];
        context = background;
        body = reader body;
        transport = no_transport;
      })
unfolding new_shadow_request clone_request copied read_all apply_options
new_shadow_request-clone_request r body = λ i. ret (record {
  method = [];
  url = clone_url_lem r.url i;
  header = clone_header_lem r.header i;
  trailer = clone_header_lem r.trailer i;
  form = clone_url_values_lem r.form i;
  post_form = clone_url_values_lem r.post_form i;
  multipart_form = clone_multipart_form_lem r.multipart_form i;
  transfer_encoding = clone_transfer_encoding_lem r.transfer_encoding i;
  host = [];
  body = reader body;
  context = background;
  transport = no_transport;
})

-- The request that a proxy or a filter sends, a clone at the address of the back end: it has the
-- host, the scheme and the path of the address, with the route values filled in, and the query, the
-- header, the trailer, the forms, the transfer encoding and the whole body of the shadow request; it
-- has the given context, no method, and else the zero values of a new request.
pub clone_request-with_url :
    (r : Request) (u : Url) (values : RouteValues) (body : Text) (address : Url) (rv : RouteValues)
    (ctx : Context)
    → clone_request
        (record { request = record r { url = some u }; route_values = values; data_bytes = body })
        (with_url address rv ∷ with_context ctx ∷ [])
      ≡ ret (record r {
        method = [];
        url = some (record u {
          host = address.host;
          scheme = address.scheme;
          path = fill_path address.path rv;
        });
        host = address.host;
        body = reader body;
        context = ctx;
        transport = no_transport;
      })
unfolding clone_request copied apply_options with_url with_context clone_url
clone_request-with_url r u values body address rv ctx = λ i. ret (record {
  method = [];
  url =
      some (record u {
        host = address.host;
        scheme = address.scheme;
        path = fill_path address.path rv;
      });
  header = clone_header_lem r.header i;
  trailer = clone_header_lem r.trailer i;
  form = clone_url_values_lem r.form i;
  post_form = clone_url_values_lem r.post_form i;
  multipart_form = clone_multipart_form_lem r.multipart_form i;
  transfer_encoding = clone_transfer_encoding_lem r.transfer_encoding i;
  host = address.host;
  body = reader body;
  context = ctx;
  transport = no_transport;
})
