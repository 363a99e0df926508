-- ===== src/Command/Main.antt =====
-- main of cmd/main.go, to its call of ListenAndServe. Package os is the parameter `os`, whose
-- environment is a function; each log.Fatalln is a panic.
pub mod Served
use iceberg.Command.{Outcome, Table, register_resource}
use iceberg.Nats.Conn.{Gateway}
use iceberg.Parser.Conf.{SpecV1}
use iceberg.Parser.Document.{Metadata, YamlLib, parse}
use iceberg.Parser.Resources.{parse_v1}
use iceberg.Parser.Runtime.{Runtime}
use iceberg.Proxies.WebSocket.{SocketLib}
use iceberg.Router.Table.{empty_table}
use iceberg.Common.{ℕ, ◌++◌}
use iceberg.Common.Go.{Go, ret, fail, panic, ◌>>=◌}
use iceberg.Common.Text.{Text, codes, text_eq}

-- ReadFile, what Setenv makes of an environment, and the environment at the start.
pub record Os : Type 0 where
  pub read_file : Text → Go Text Text
  pub setenv : Text → Text → (Text → Text) → Text → Text
  pub environment : Text → Text

-- The constant `test`.
abbrev pub test_policy : Text
test_policy =
    codes "\npackage example\n\nimport rego.v1\n\ndefault allow := false\n"
    ++ codes "\n# METADATA\n# title: test\nallow if {\n\t1 == 1\n}\n"

abbrev pub config_file : Text
config_file = codes "../examples/test.yml"

abbrev pub config_variable : Text
config_variable = codes "ICERBERG_CONFIG"

-- `if err != nil { log.Fatalln(err) }`
abbrev pub fatal : {A : Type 0} → Go Text A → Go Text A
fatal (ret a) = ret a
fatal (fail e) = panic
fatal panic = panic

module _ (os : Os) {Node : Type 0} (yaml : YamlLib Node) {W Conn Js Queue Ws : Type 0}
    (rt : Runtime W Conn Js Queue) (socket : SocketLib W Ws) where
  abbrev pub environment_of : Text → Text → Text
  environment_of content =
      os.setenv config_variable content (os.setenv (codes "test-policy") test_policy os.environment)

  abbrev pub runtime_of : Text → Runtime W Conn Js Queue
  runtime_of content = record rt { getenv = environment_of content }

  -- What ParseV1 does, with the table that it leaves.
  abbrev pub register_specs :
      Text → SpecV1 → Gateway W Conn → Go Text (Unit {0}) × (Gateway W Conn × Table rt socket)
  register_specs content specs g =
      parse_v1 (runtime_of content) (register_resource (runtime_of content) socket) specs.resources
        (g, empty_table)

  -- ListenAndServe gets the address, and serves the table.
  abbrev pub served :
      Text → Gateway W Conn → ℕ × Metadata × SpecV1 → Go Text (Text × Table rt socket)
  served content g (version, metadata, specs) =
      let (done, (g', table)) = register_specs content specs g in
      fatal done >>= λ _. ret (specs.listen, table)

  -- main, with what ListenAndServe works on.
  unfoldable pub main : Gateway W Conn → Go Text (Text × Table rt socket)
  unfolding parse parse_v1 register_resource
  main g = do
    content ← fatal (os.read_file config_file)
    parsed ← fatal (parse yaml (environment_of content config_variable))
    served content g parsed
