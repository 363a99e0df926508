-- ===== src/Netio/Response.antt =====
-- internal/common/netio/response.go.
use iceberg.Common.{List, [], ◌∷◌, Option, none, some, Bool, true, false, ℕ, ◌++◌}
use iceberg.Common.Go.{Go, ret, panic, ◌>>=◌}
use iceberg.Common.Map.{Map, remove}
use iceberg.Common.Text.{Text, text_eq, codes}
use iceberg.Netio.Header.{Header, header_get, header_set, header_add, canonical}
use iceberg.Netio.Message.{Body, reader, read_all, Response, new_request}
use iceberg.Netio.Clone.{clone_header, clone_transfer_encoding}
use iceberg.Netio.Request.{ShadowRequest, new_shadow_request}

pub record ShadowResponse : Type 0 where
  pub response : Response
  pub data_bytes : Text

-- `in_place`: it writes into the header and trailer maps that the shadow response holds, rather than
-- put new ones in their place. Whoever holds the same maps sees the former only. `idle`: it has no keys to
-- look at, and does not read the response that it is given.
pub record ResponseUpdater : Type 0 where
  pub update : ShadowResponse → Response → Go Text (ShadowResponse × Response)
  pub in_place : Bool
  pub idle : Bool

-- `none` is the nil response, whose body cannot be read.
unfoldable pub new_shandow_response : Option Response → Go Text ShadowResponse
new_shandow_response none = panic
new_shandow_response (some r) = do
  (body, _) ← read_all r.body
  ret (record { response = record r { body = reader body }; data_bytes = body })

unfoldable pub update_response :
    ShadowResponse → Response → List ResponseUpdater → Go Text (ShadowResponse × Response)
update_response s r [] = ret (s, r)
update_response s r (fn ∷ fns) = do (s', r') ← fn.update s r; update_response s' r' fns

abbrev pub set_header : ShadowResponse → Header → ShadowResponse
set_header s h = let r = s.response in record s { response = record r { header = h } }

abbrev pub set_trailer : ShadowResponse → Header → ShadowResponse
set_trailer s h = let r = s.response in record s { response = record r { trailer = h } }

abbrev pub set_body : ShadowResponse → Body → ShadowResponse
set_body s b = let r = s.response in record s { response = record r { body = b } }

-- The two nested loops of ResUpdateHeaders and of Write: Add each value of each key.
unfoldable pub add_values : Header → Text → List Text → Go Text Header
add_values h key [] = ret h
add_values h key (v ∷ vs) = do h' ← header_add h key v; add_values h' key vs

unfoldable pub add_all : Header → Map Text (List Text) → Go Text Header
unfolding add_values
add_all h [] = ret h
add_all h ((key, values) ∷ m) = do h' ← add_values h key values; add_all h' m

-- The entries that a range over a header visits.
abbrev pub entries : Header → Map Text (List Text)
entries none = []
entries (some h) = h

unfoldable pub res_update_headers : ResponseUpdater
res_update_headers = record {
  update = λ s r. do
    h ← add_all s.response.header (entries r.header)
    ret (set_header s h, r);
  in_place = true;
  idle = false;
}

unfoldable pub res_update_tailers : ResponseUpdater
res_update_tailers = record {
  update = λ s r. do
    h ← add_all s.response.trailer (entries r.trailer)
    ret (set_trailer s h, r);
  in_place = true;
  idle = false;
}

-- The loops of ResUpdateHeader and ResUpdateTailer: Set each key to what the header `from` has.
unfoldable pub set_keys : Header → Header → List Text → Go Text Header
set_keys h from [] = ret h
set_keys h from (key ∷ keys) = do h' ← header_set h key (header_get from key); set_keys h' from keys

abbrev pub no_keys : List Text → Bool
no_keys [] = true
no_keys (key ∷ keys) = false

unfoldable pub res_update_header : List Text → ResponseUpdater
res_update_header keys = record {
  update = λ s r. do
    h ← set_keys s.response.header r.header keys
    ret (set_header s h, r);
  in_place = true;
  idle = no_keys keys;
}

unfoldable pub res_update_tailer : List Text → ResponseUpdater
res_update_tailer keys = record {
  update = λ s r. do
    h ← set_keys s.response.trailer r.header keys
    ret (set_trailer s h, r);
  in_place = true;
  idle = no_keys keys;
}

unfoldable pub res_replace_body : ResponseUpdater
res_replace_body = record {
  update = λ s r. do
    (body, rest) ← read_all r.body
    ret (record (set_body s (reader body)) { data_bytes = body }, record r { body = rest });
  in_place = false;
  idle = false;
}

unfoldable pub res_replace_header : ResponseUpdater
res_replace_header = record {
  update = λ s r. ret (set_header s (clone_header r.header), r);
  in_place = false;
  idle = false;
}

unfoldable pub res_replace_tailer : ResponseUpdater
res_replace_tailer = record {
  update = λ s r. ret (set_trailer s (clone_header r.trailer), r);
  in_place = false;
  idle = false;
}

-- ShadowResponse.Reset
unfoldable pub reset_response : ShadowResponse → ShadowResponse
reset_response s = set_body s (reader s.data_bytes)

-- ShadowResponse.CreateRequest: the request that carries a response's header, trailer and body.
unfoldable pub create_request : ShadowResponse → Go Text ShadowRequest
create_request s =
    let r = s.response in
    new_shadow_request (record new_request {
      header = clone_header r.header;
      trailer = clone_header r.trailer;
      transfer_encoding = clone_transfer_encoding r.transfer_encoding;
      body = reader s.data_bytes;
    })

-- ShadowResponse.CloneResponse
unfoldable pub clone_response : ShadowResponse → Response
clone_response s = let r = s.response in record r { body = reader s.data_bytes }

-- What a client is sent: its header, and a status that stays 200 unless it is set.
pub record Sent : Type 0 where
  pub header : Header
  pub status : ℕ
  pub body : Text

-- Header.Del
unfoldable pub header_del : Header → Text → Header
header_del none key = none
header_del (some h) key = some (remove (canonical key) h)

-- ShadowResponse.Write, onto what the writer holds.
unfoldable pub write : ShadowResponse → Sent → Go Text Sent
unfolding add_all header_del
write s w = do
  h ← add_all w.header (entries (header_del s.response.header (codes "Content-Length")))
  ret (record w { header = h; body = w.body ++ s.data_bytes })
