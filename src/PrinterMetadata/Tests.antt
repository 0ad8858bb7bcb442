-- ===== src/PrinterMetadata/Tests.antt =====
-- An announcement whose printer the user renamed.
use bambu_farm.Base.{true, some, is_some, [], ◌∷◌, ◌≡◌, refl}
use bambu_farm.Base.Text.{Text, codes, find, starts_with, text_eq}
use bambu_farm.Base.Dict.{Dict, lookup}
use bambu_farm.PrintJob.Escape.{json_escape}
use bambu_farm.PrinterMetadata.{
  value_length, needle_of, find_json_string_value_range, json_string_field, override_of,
  apply_name_override,
}
use bambu_farm.PrinterMetadata.Rename.{dev_name-apply_name_override}

abbrev announcement : Text
announcement = codes "{\"dev_name\": \"3DP\", \"dev_id\": \"01S\"}"

abbrev overrides : Dict Text
overrides = (codes "01S", codes "Left \"L\"") ∷ []

overridden :
    override_of (json_string_field announcement (codes "dev_id")) overrides
    ≡ some (codes "Left \"L\"")
unfolding override_of json_string_field find_json_string_value_range needle_of value_length find
    starts_with lookup text_eq
overridden = refl

named : is_some (find_json_string_value_range announcement (codes "dev_name")) ≡ true
unfolding find_json_string_value_range needle_of value_length find starts_with
named = refl

dev_name-apply_name_override_example :
    json_string_field (apply_name_override announcement overrides) (codes "dev_name")
    ≡ json_escape (codes "Left \"L\"")
dev_name-apply_name_override_example =
    dev_name-apply_name_override announcement (codes "Left \"L\"") overrides overridden named
