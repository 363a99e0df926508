-- ===== src/Parser/Document.antt =====
-- Parse of internal/bootstrap/parser/parser.go, with Config and Metadata of conf.go. gopkg.in/yaml.v3 is
-- the parameter `yaml`, and its nodes a type `Node`.
use iceberg.Parser.Conf.{SpecV1}
use iceberg.Common.Go.{◌>>=◌}
use iceberg.Common.Text.{to_lower}
use iceberg.Common.{ℕ, ◌++◌, if◌then◌else◌}
use iceberg.Common.Go.{Go, ret, fail}
use iceberg.Common.Text.{Text, codes, text_beq, text_eq}

pub record Metadata : Type 0 where
  pub name : Text

pub record Config (Node : Type 0) : Type 0 where
  pub api_version : Text
  pub metadata : Metadata
  pub spec : Node

pub record YamlLib (Node : Type 0) : Type 0 where
  pub unmarshal : Text → Go Text (Config Node)
  pub decode : Node → Go Text SpecV1

module _ {Node : Type 0} (yaml : YamlLib Node) where
  abbrev parse_spec : Config Node → Go Text (ℕ × Metadata × SpecV1)
  parse_spec conf = yaml.decode conf.spec >>= λ specs. ret (1, conf.metadata, specs)

  abbrev parse_version : Config Node → Go Text (ℕ × Metadata × SpecV1)
  parse_version conf =
      if text_beq (to_lower conf.api_version) (codes "apps/v1")
      then parse_spec conf
      else fail (codes "usupported version " ++ conf.api_version)

  -- The version is 1, or there is none.
  unfoldable pub parse : Text → Go Text (ℕ × Metadata × SpecV1)
  parse bytes = yaml.unmarshal bytes >>= parse_version
