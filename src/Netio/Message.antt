-- ===== src/Netio/Message.antt =====
-- net/http requests and responses: the fields that the code reads or writes, those of a request that a
-- clone drops, and the one-shot body.
use iceberg.Common.{ℕ, List, [], Option, none, some, Bool, false}
use iceberg.Common.Go.{Go, ret, fail}
use iceberg.Common.Map.{Map}
use iceberg.Common.Text.{Text}
use iceberg.Common.Url.{Url}
use iceberg.Netio.Header.{Header}

-- A body: the bytes not yet read, or the error with which reading it ends.
pub record Body : Type 0 where
  pub unread : Text
  pub failure : Option Text

-- io.NopCloser(bytes.NewReader(content))
abbrev pub reader : Text → Body
reader content = record { unread = content; failure = none }

-- io.ReadAll: what it returns, and the body behind it.
unfoldable pub read_all : Body → Go Text (Text × Body)
read_all b = elim b.failure [ none ↦ ret (b.unread, reader []) | some e ↦ fail e ]

-- What context.Context the code makes: context.TODO(), or one that is cancelled after a time
-- (in nanoseconds).
pub data Context : Type 0 where
  background : Context
  cancelled_after : ℕ → Context

-- A file of a multipart form; what the package keeps of its content is one value.
pub record FileHeader : Type 0 where
  pub filename : Text
  pub header : Header
  pub size : ℕ
  pub content : Text

pub record MultipartForm : Type 0 where
  pub value : Option (Map Text (List Text))
  pub file : Option (Map Text (List (Option FileHeader)))

-- The rest of a request that a server reads: what the code hands on or drops with the request, and
-- never looks at. A length that is not known (-1) is `none`; of a TLS connection there is one value.
-- (Cancel, Response and GetBody are nil in a request that a server read.)
pub record Transport : Type 0 where
  pub proto : Text
  pub proto_major : ℕ
  pub proto_minor : ℕ
  pub content_length : Option ℕ
  pub close : Bool
  pub remote_addr : Text
  pub request_uri : Text
  pub tls : Option Text

-- The zero value of each field.
abbrev pub no_transport : Transport
no_transport = record {
  proto = [];
  proto_major = 0;
  proto_minor = 0;
  content_length = some 0;
  close = false;
  remote_addr = [];
  request_uri = [];
  tls = none;
}

-- http.Request. The fields that the code does not name stand in `transport`.
pub record Request : Type 0 where
  pub method : Text
  pub url : Option Url
  pub header : Header
  pub trailer : Header
  pub form : Option (Map Text (List Text))
  pub post_form : Option (Map Text (List Text))
  pub multipart_form : Option MultipartForm
  pub transfer_encoding : Option (List Text)
  pub host : Text
  pub body : Body
  pub context : Context
  pub transport : Transport

-- new(http.Request): the zero value of each field. (Its nil body is always set before it is read.)
abbrev pub new_request : Request
new_request = record {
  method = [];
  url = none;
  header = none;
  trailer = none;
  form = none;
  post_form = none;
  multipart_form = none;
  transfer_encoding = none;
  host = [];
  body = reader [];
  context = background;
  transport = no_transport;
}

pub record Response : Type 0 where
  pub status : Text
  pub status_code : ℕ
  pub header : Header
  pub trailer : Header
  pub transfer_encoding : Option (List Text)
  pub body : Body

-- netio.Error: an error text with an HTTP status.
pub record HttpError : Type 0 where
  pub message : Text
  pub status : ℕ

-- NewError
abbrev pub new_error : Text → ℕ → HttpError
new_error message status = record { message = message; status = status }
