-- ===== src/Nats/Kv.antt =====
-- nats.KeyValue, as far as the code uses it.
use iceberg.Common.Go.{Go, panic}
use iceberg.Common.Text.{Text}

pub data KvError : Type 0 where
  key_not_found : KvError
  kv_failed : Text → KvError

-- nats.KeyValue
pub record Kv (W : Type 0) : Type 0 where
  pub get : Text → W → Go KvError Text × W
  pub put : Text → Text → W → Go Text (Unit {0}) × W

-- A nil store: its methods panic.
abbrev pub nil_kv : {W : Type 0} → Kv W
nil_kv = record { get = λ key w. (panic, w); put = λ key value w. (panic, w) }
