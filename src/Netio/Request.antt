-- ===== src/Netio/Request.antt =====
-- internal/common/netio/request.go. A RequestUpdater changes the shadow request and may read the
-- body of the request that it takes from; both come back.
use iceberg.Common.{List, [], ◌∷◌, ◌++◌, none, some}
use iceberg.Common.Go.{Go, ret, panic, ◌>>=◌}
use iceberg.Common.Map.{Map}
use iceberg.Common.Text.{Text, codes, replace_all}
use iceberg.Common.Url.{Url}
use iceberg.Netio.Header.{Header, header_get, header_set}
use iceberg.Netio.Message.{Body, reader, read_all, Context, Request, new_request}
use iceberg.Netio.Clone.{
  clone_url, clone_header, clone_url_values, clone_transfer_encoding, clone_multipart_form,
}

abbrev pub RouteValues : Type 0
RouteValues = Map Text Text

pub record ShadowRequest : Type 0 where
  pub request : Request
  pub route_values : RouteValues
  pub data_bytes : Text

abbrev pub RequestOption : Type 0
RequestOption = Request → Go Text Request

abbrev pub RequestUpdater : Type 0
RequestUpdater = ShadowRequest → Request → Go Text (ShadowRequest × Request)

-- The loop of WithUrl, in the order of the list.
unfoldable pub fill_path : Text → Map Text Text → Text
fill_path path [] = path
fill_path path ((key, value) ∷ rv) =
    fill_path (replace_all path (codes "{" ++ key ++ codes "}") value) rv

-- Writing through the nil URL of a request that has none panics.
unfoldable pub with_url : Url → Map Text Text → RequestOption
unfolding fill_path
with_url url rv r = elim r.url [
  | none ↦ panic
  | some u ↦ ret (record r {
    url = some (record u { host = url.host; scheme = url.scheme; path = fill_path url.path rv });
    host = url.host;
  })
]

unfoldable pub with_context : Context → RequestOption
with_context ctx r = ret (record r { context = ctx })

unfoldable pub with_method : Text → RequestOption
with_method method r = ret (record r { method = method })

abbrev pub set_header : ShadowRequest → Header → ShadowRequest
set_header s h = let r = s.request in record s { request = record r { header = h } }

abbrev pub set_trailer : ShadowRequest → Header → ShadowRequest
set_trailer s h = let r = s.request in record s { request = record r { trailer = h } }

abbrev pub set_body : ShadowRequest → Body → ShadowRequest
set_body s b = let r = s.request in record s { request = record r { body = b } }

unfoldable pub req_update_header : List Text → RequestUpdater
req_update_header [] s r = ret (s, r)
req_update_header (key ∷ keys) s r = do
  h ← header_set s.request.header key (header_get r.header key)
  req_update_header keys (set_header s h) r

-- It takes the values from the header, not from the trailer.
unfoldable pub req_update_tailer : List Text → RequestUpdater
req_update_tailer [] s r = ret (s, r)
req_update_tailer (key ∷ keys) s r = do
  h ← header_set s.request.trailer key (header_get r.header key)
  req_update_tailer keys (set_trailer s h) r

unfoldable pub req_replace_body : RequestUpdater
req_replace_body s r = do
  (body, rest) ← read_all r.body
  ret (record (set_body s (reader body)) { data_bytes = body }, record r { body = rest })

unfoldable pub req_replace_header : RequestUpdater
req_replace_header s r = ret (set_header s (clone_header r.header), r)

unfoldable pub req_replace_tailer : RequestUpdater
req_replace_tailer s r = ret (set_trailer s (clone_header r.trailer), r)

unfoldable pub req_replace_form : RequestUpdater
req_replace_form s r =
    let q = s.request in ret (record s { request = record q { form = clone_url_values r.form } }, r)

unfoldable pub req_replace_url : RequestUpdater
req_replace_url s r =
    let q = s.request in ret (record s { request = record q { url = clone_url r.url } }, r)

unfoldable pub req_replace_multipart_form : RequestUpdater
req_replace_multipart_form s r =
    let q = s.request in
    ret (
      record s { request = record q { multipart_form = clone_multipart_form r.multipart_form } },
      r,
    )

unfoldable pub new_shadow_request : Request → Go Text ShadowRequest
new_shadow_request request = do
  (body, _) ← read_all request.body
  ret (record {
    request = record request { body = reader body };
    route_values = [];
    data_bytes = body;
  })

-- UpdateRequest; a nil list of updaters and an empty one do the same.
unfoldable pub update_request :
    ShadowRequest → Request → List RequestUpdater → Go Text (ShadowRequest × Request)
update_request s r [] = ret (s, r)
update_request s r (fn ∷ fns) = do (s', r') ← fn s r; update_request s' r' fns

-- ShadowRequest.Reset
unfoldable pub reset_request : ShadowRequest → ShadowRequest
reset_request s = set_body s (reader s.data_bytes)

unfoldable pub apply_options : List RequestOption → Request → Go Text Request
apply_options [] req = ret req
apply_options (option ∷ options) req = do req' ← option req; apply_options options req'

-- The fields that the two clones copy: all but the method, the host and the context.
unfoldable pub copied : ShadowRequest → Request
copied s =
    let r = s.request in
    record new_request {
      header = clone_header r.header;
      trailer = clone_header r.trailer;
      form = clone_url_values r.form;
      post_form = clone_url_values r.post_form;
      transfer_encoding = clone_transfer_encoding r.transfer_encoding;
      body = reader s.data_bytes;
      url = clone_url r.url;
      multipart_form = clone_multipart_form r.multipart_form;
    }

unfoldable pub clone_request : ShadowRequest → List RequestOption → Go Text Request
unfolding copied
clone_request s options = apply_options options (copied s)

unfoldable pub clone_shadow_request : ShadowRequest → List RequestOption → Go Text ShadowRequest
unfolding copied
clone_shadow_request s options = do req ← apply_options options (copied s); new_shadow_request req
