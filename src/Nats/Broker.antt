-- ===== src/Nats/Broker.antt =====
-- The NATS client libraries that the code calls, as one parameter: what a call returns and what it
-- does to the outside world. `Conn`, `Js` and `Queue` are its handles.
use iceberg.Netio.Caller.{Turn}
use iceberg.Nats.Kv.{Kv}
use iceberg.Netio.Exec.{Exec}
use iceberg.Netio.Message.{Context}
use iceberg.Common.{ℕ, List}
use iceberg.Common.Text.{Text, text_eq}
use iceberg.Common.Map.{Map}

-- nats.Msg
pub record Msg : Type 0 where
  pub subject : Text
  pub reply : Text
  pub header : Map Text (List Text)
  pub body : Text

-- What comes first behind a request: the message that answers it, with the identifier and the
-- schedule of the cascade that the message starts, or the end of the context.
pub data Event : Type 0 where
  message : Msg → Text → List Turn → Event
  deadline : Event

-- The errors of CreateKeyValue that the code tells apart.
pub data CreateError : Type 0 where
  bucket_exists : CreateError
  create_failed : Text → CreateError

pub record Broker (W Conn Js Queue : Type 0) : Type 0 where
  pub connect : Text → Exec W Text Conn
  pub jet_stream : Conn → Exec W Text Js
  pub create_key_value : Js → Text → ℕ → Exec W CreateError (Kv W)
  pub queue_new : Conn → List Text → Exec W Text Queue
  pub pull : Queue → Text → Exec W Text (Unit {0})
  pub push_msg : Queue → Msg → Exec W Text (Unit {0})
  pub new_resp_inbox : Conn → W → Text × W
  pub subscribe : Conn → Text → Exec W Text (Unit {0})
  pub auto_unsubscribe : Conn → Text → Exec W Text (Unit {0})
  pub publish_msg : Conn → Msg → Exec W Text (Unit {0})
  pub first_event : Conn → Text → Context → W → Event × W
