-- ===== src/Filters/Message.antt =====
-- MsgToRequest and MsgToResponse of internal/callers/filters/nats.go. The text of strconv.Atoi's error
-- is the parameter `atoi_error`.
pub mod Status
use iceberg.Common.Go.{◌>>=◌}
use iceberg.Common.Decimal.{ℤ, pos, negsuc, atoi_signed}
use iceberg.Nats.Broker.{Msg}
use iceberg.Netio.Header.{Header, header_get}
use iceberg.Netio.Message.{Response, new_request, reader}
use iceberg.Netio.Request.{ShadowRequest, new_shadow_request}
use iceberg.Netio.Response.{ShadowResponse, new_shandow_response, add_all}
use iceberg.Common.{ℕ, [], Option, none, some, ltb, if◌then◌else◌}
use iceberg.Common.Go.{Go, ret, fail}
use iceberg.Common.Text.{Text, codes, text_eq}

-- The header of a message, added value by value to an empty one.
abbrev pub header_of : Msg → Go Text Header
header_of m = add_all (some []) m.header

unfoldable pub msg_to_request : Msg → Go Text ShadowRequest
msg_to_request m = header_of m >>= λ header.
    new_shadow_request (record new_request { header = header; body = reader m.body })

-- A status below 100 becomes 418.
abbrev pub status_code_of : ℤ → ℕ
status_code_of (pos status) = if ltb status 100 then 418 else status
status_code_of (negsuc _) = 418

abbrev pub response_of : Header → Text → ℤ → Response
response_of header body status = record {
  status = [];
  status_code = status_code_of status;
  header = header;
  trailer = none;
  transfer_encoding = none;
  body = reader body;
}

module _ (atoi_error : Text → Text) where
  abbrev pub read_status : Text → Option ℤ → Go Text ℤ
  read_status text none = fail (atoi_error text)
  read_status text (some status) = ret status

  unfoldable pub msg_to_response : Msg → Go Text ShadowResponse
  msg_to_response m = do
    header ← header_of m
    let text = header_get header (codes "Status")
    status ← read_status text (atoi_signed text)
    new_shandow_response (some (response_of header m.body status))
