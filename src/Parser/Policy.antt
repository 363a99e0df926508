-- ===== src/Parser/Policy.antt =====
-- ParsePolicy of internal/bootstrap/parser/parser.go.
use iceberg.Opa.Connect.{PolicyType, local, remote}
use iceberg.Parser.Conf.{Value, string, other, Item, named, mapped, ignored}
use iceberg.Common.Go.{◌>>=◌}
use iceberg.Common.Map.{put}
use iceberg.Common.Text.{to_lower}
use iceberg.Common.{List, [], ◌∷◌, ◌++◌, if◌then◌else◌}
use iceberg.Common.Go.{Go, ret, fail}
use iceberg.Common.Text.{Text, codes, text_beq, text_eq}
use iceberg.Common.Map.{Map}

-- The switch on the value.
unfoldable pub policy_of : Text → Go Text PolicyType
policy_of val =
    let lower = to_lower val in
    if text_beq lower (codes "local")
    then ret local
    else if text_beq lower (codes "remote")
    then ret remote
    else fail (codes "unsupported value " ++ val)

abbrev pub policy_value : Value → Go Text PolicyType
policy_value (string val) = policy_of val
policy_value (other type) = fail (codes "expected string but found " ++ type)

-- One round of the loop: of a map, the entry that its range comes to first.
unfoldable pub add_item : Item → Map Text PolicyType → Go Text (Map Text PolicyType)
unfolding policy_of
add_item (named key) policies = ret (put key remote policies)
add_item ignored policies = ret policies
add_item (mapped []) policies = ret policies
add_item (mapped ((key, value) ∷ _)) policies =
    policy_value value >>= λ type. ret (put key type policies)

abbrev add_items : List Item → Map Text PolicyType → Go Text (Map Text PolicyType)
add_items [] policies = ret policies
add_items (item ∷ items) policies = add_item item policies >>= add_items items

unfoldable pub parse_policy : List Item → Go Text (Map Text PolicyType)
unfolding add_item
parse_policy items = add_items items []
