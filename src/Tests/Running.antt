-- ===== src/Tests/Running.antt =====
-- The program run on a configuration of one resource, and a request for it.
use iceberg.Command.{Table}
use iceberg.Command.Main.{Os, main}
use iceberg.Bootstrap.Options.{Visit}
use iceberg.Parser.Conf.{SpecV1}
use iceberg.Parser.Document.{YamlLib}
use iceberg.Router.{Route, parse_route}
use iceberg.Tests.Configuring.{at_path, runtime, gateway, hello_resource}
use iceberg.Netio.Message.{new_request}
use iceberg.Proxies.WebSocket.{SocketLib}
use iceberg.Common.{ℕ, [], ◌∷◌, some, if◌then◌else◌}
use iceberg.Common.Go.{ret, fail}
use iceberg.Common.Map.{Map}
use iceberg.Common.Text.{Text, codes, text_beq, text_eq}

abbrev no_socket : SocketLib ℕ Unit
no_socket = record { upgrade = λ writer r w. (fail [], w); dial = λ url w. (fail [], w) }

abbrev file : Text
file = codes "apps/v1"

abbrev os : Os
os = record {
  read_file = λ name. ret file;
  setenv = λ name value env s. if text_beq s name then value else env s;
  environment = λ name. [];
}

abbrev specs : SpecV1
specs = record { listen = codes ":8081"; resources = (codes "a", hello_resource) ∷ [] }

-- The document is its version.
abbrev yaml : YamlLib (Unit {0})
yaml = record {
  unmarshal =
      λ text. ret (record { api_version = text; metadata = record { name = [] }; spec = tt });
  decode = λ node. ret specs;
}

abbrev visit : Visit ℕ
visit = record {
  writer = record { header = some []; status = 0; body = [] };
  request = record new_request {
    method = codes "GET";
    url = some (at_path (codes "/hello"));
    header = some [];
  };
  uuid = codes "7";
  turns = [];
  world = 0;
}

abbrev hello_route : Route
hello_route = parse_route runtime.digest (at_path (codes "/hello")) (codes "GET")

abbrev table : Table runtime no_socket
table = elim (main os yaml runtime no_socket gateway) [
  | ret (_, t) ↦ t
  | _ ↦ record { configs = []; routes = [] }
]
