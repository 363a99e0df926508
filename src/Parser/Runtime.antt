-- ===== src/Parser/Runtime.antt =====
-- What the configuration is read with that is not of this repository: package net/url, the table of
-- unicode.IsDigit beyond Latin-1, the environment, the HTTP client, the NATS libraries, encoding/gob,
-- SHA-256, and the OPA agent at a connection. `grow` is how an append grows an array.
use iceberg.Cache.Store.{Codec}
use iceberg.Filters.Nats.{HeadersLib}
use iceberg.Nats.Broker.{Broker}
use iceberg.Netio.Message.{Request, Response}
use iceberg.Opa.Agent.{Agent}
use iceberg.Common.Url.{Url}
use iceberg.Common.{ℕ, List, Bool}
use iceberg.Common.Go.{Go}
use iceberg.Common.Text.{Text, text_eq}
use iceberg.Common.Map.{Map}

pub record Runtime (W Conn Js Queue : Type 0) : Type 0 where
  pub parse_url : Text → Go Text Url
  pub other_digit : ℕ → Bool
  pub atoi_error : Text → Text
  pub getenv : Text → Text
  pub grow : ℕ → ℕ
  pub send : Request → W → Go Text Response × W
  pub broker : Broker W Conn Js Queue
  pub headers : HeadersLib
  pub codec : Codec
  pub query : Text → Map Text (List Text)
  pub digest : Text → Text
  pub agent : Conn → Agent W
