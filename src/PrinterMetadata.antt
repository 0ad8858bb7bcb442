-- ===== src/PrinterMetadata.antt =====
-- bambu-farm-client/cpp/printer_metadata.cpp: the printers' names that the user chose, and their place
-- in the announcements. `PrinterMetadataStore` is its `printer_name_overrides_`; logging is left out.
mod Tests
pub mod Rename
pub mod Abstract
use bambu_farm.Base.{
  ℕ, ◌+◌, ◌-◌, suc, Bool, true, false, not, ◌&&◌, ◌||◌, ◌==◌, if◌then◌else◌, Option, none, some, [],
  ◌∷◌, ◌++◌, length, drop,
}
use bambu_farm.Base.Text.{Text, codes, is_empty, text_eq, find, substr, replace_at}
use bambu_farm.Base.Dict.{Dict, lookup, insert, erase, IterationOrder}
use bambu_farm.PrintJob.Escape.{json_escape}
use bambu_farm.LocalState.Paths.{FileSystem, Environment}
use bambu_farm.LocalState.Names.{persist_printer_name_overrides, load_printer_name_overrides}

-- The loop that looks for the end of a string: how many bytes stand in front of the first quote that is
-- not escaped. `escaped` says whether the byte before was an active backslash.
unfoldable pub value_length : Bool → Text → Option ℕ
value_length escaped [] = none
value_length escaped (c ∷ s) =
    let rest = value_length (not escaped && (c == b'\\')) s in
    if not escaped && (c == b'"') then some 0 else elim rest [ none ↦ none | some n ↦ some (suc n) ]

unfoldable pub needle_of : Text → Text
needle_of key = b'"' ∷ (key ++ codes "\": \"")

-- `value_start` and `value_end`.
unfoldable pub find_json_string_value_range : Text → Text → Option (ℕ × ℕ)
find_json_string_value_range json key = elim (find (needle_of key) json) [
  | none ↦ none
  | some key_pos ↦
      let value_start = key_pos + length (needle_of key) in
      elim (value_length false (drop value_start json)) [
        | none ↦ none
        | some n ↦ some (value_start, value_start + n)
      ]
]

unfoldable pub json_string_field : Text → Text → Text
json_string_field json key = elim (find_json_string_value_range json key) [
  | none ↦ []
  | some (value_start, value_end) ↦ substr value_start (value_end - value_start) json
]

-- The name that replaces a printer's own, if there is one that is not empty.
unfoldable pub override_of : Text → Dict Text → Option Text
override_of dev_id overrides = if is_empty dev_id then none else elim (lookup dev_id overrides) [
  | none ↦ none
  | some name ↦ if is_empty name then none else some name
]

unfoldable pub rename : Text → Text → Text
rename json name = elim (find_json_string_value_range json (codes "dev_name")) [
  | none ↦ json
  | some (value_start, value_end) ↦
      replace_at value_start (value_end - value_start) (json_escape name) json
]

unfoldable pub apply_name_override : Text → Dict Text → Text
apply_name_override json overrides =
    elim (override_of (json_string_field json (codes "dev_id")) overrides) [
      | none ↦ json
      | some name ↦ rename json name
    ]

unfoldable pub json_matches_device : Text → Text → Bool
json_matches_device json dev_id =
    not (is_empty dev_id) && text_eq (json_string_field json (codes "dev_id")) dev_id

unfoldable pub set_name : Text → Text → Dict Text → Dict Text
set_name dev_id dev_name overrides =
    if is_empty dev_name then erase dev_id overrides else insert dev_id dev_name overrides

module _ (fs : FileSystem) (env : Environment) (order : IterationOrder Text) where
  open fs use {Disk}

  -- The state is read from the file, whatever it was before.
  unfoldable pub load : Text → Disk → Dict Text
  load config_dir disk = load_printer_name_overrides fs env order config_dir disk

  unfoldable pub set_name_override : Text → Text → Text → Dict Text × Disk → Dict Text × Disk
  set_name_override dev_id dev_name config_dir (overrides, disk) =
      let snapshot = set_name dev_id dev_name overrides in
      (snapshot, persist_printer_name_overrides fs env order config_dir snapshot disk)
