-- ===== src/Tests/Connecting.antt =====
-- A configuration with two filters behind one NATS server, and what its program connects to.
use iceberg.Parser.Conf.{FilterV1, Filters, end, filter, ResourceV1}
use iceberg.Parser.Runtime.{Runtime}
use iceberg.Parser.Resources.{Registration, parse_v1}
use iceberg.Parser.Resources.Uncached.{SameCaches, parse_v1-SameCaches}
use iceberg.Tests.Configuring.{at_path, runtime, gateway, hello_resource}
use iceberg.Common.{ℕ, ◌+◌, [], ◌∷◌, true, false, ◌≡◌, refl}
use iceberg.Common.Go.{Go, ret}
use iceberg.Common.Map.{get}
use iceberg.Common.Text.{Text, codes}

-- Every address is one of a NATS server, and the world counts the connections.
abbrev nats_runtime : Runtime ℕ Unit Unit Unit
nats_runtime = record runtime {
  parse_url = λ s. ret (record (at_path s) { scheme = codes "nats"; host = codes "broker" });
  broker = record runtime.broker { connect = λ url w. (ret tt, w + 1) };
}

abbrev count : Registration nats_runtime → ℕ → Go Text (Unit {0}) × ℕ
count r n = (ret tt, n + 1)

abbrev enrich : FilterV1
enrich = record {
  name = codes "enrich";
  addr = codes "enrich";
  level = codes "Request";
  timeout = [];
  on_error = [];
  async = false;
  await = [];
  exchange = record { headers = []; body = true };
}

abbrev two_filters : Filters
two_filters = filter enrich end (filter (record enrich { name = codes "audit" }) end end)

abbrev nats_resource : ResourceV1
nats_resource = record hello_resource { filters = two_filters }

-- Both filters name one server, and it is connected to twice.
connects_twice :
    (parse_v1 nats_runtime count ((codes "a", nats_resource) ∷ []) (gateway, 0)).1.0.world ≡ 2
unfolding parse_v1 get
connects_twice = refl

parse_v1-SameCaches_example :
    (SameCaches nats_runtime gateway)
      (parse_v1 nats_runtime count ((codes "a", nats_resource) ∷ []) (gateway, 0)).1.0
parse_v1-SameCaches_example =
    parse_v1-SameCaches nats_runtime gateway count ((codes "a", nats_resource) ∷ []) 0
