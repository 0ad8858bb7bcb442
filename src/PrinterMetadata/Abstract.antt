-- ===== src/PrinterMetadata/Abstract.antt =====
-- What bambu-farm-client/cpp/printer_metadata.cpp keeps of the printers' names, without the order of the
-- table and without the entries that have no effect.
use bambu_farm.LocalState.Paths.{FileSystem, Environment, printer_names_state_path}
use bambu_farm.LocalState.Names.{
  kept_value, IsPlain, names_text, persist_printer_name_overrides, load_printer_name_overrides,
  load-persist_names,
}
use bambu_farm.Base.{
  if_cases, ◌||◌, if◌then◌else◌, sym, ◌∙◌, arith, Option, none, some, ◌≡◌, refl, ap,
}
use bambu_farm.Base.Text.{Text, codes, is_empty, text_eq}
use bambu_farm.Base.Dict.{
  Dict, Distinct, IterationOrder, lookup, insert, erase, lookup-insert, lookup-erase,
  insert-Distinct, erase-Distinct,
}
use bambu_farm.PrinterMetadata.{
  override_of, set_name, apply_name_override, rename, json_string_field,
}

-- The names as a printer has them: none, or one that is not empty.
abbrev pub NameTable : Type 0
NameTable = Text → Option Text

abbrev pub table_of : Dict Text → NameTable
table_of m dev_id = override_of dev_id m

-- The choice of a name: only that printer's changes, and an empty name takes it back. A printer without
-- an identifier has no name.
abbrev pub assign : Text → Text → NameTable → NameTable
assign dev_id name t k =
    if text_eq dev_id k then (if is_empty k || is_empty name then none else some name) else t k

-- The rewriting of an announcement.
abbrev pub announcement : Text → NameTable → Text
announcement json t = elim (t (json_string_field json (codes "dev_id"))) [
  | none ↦ json
  | some name ↦ rename json name
]

pub apply_name_override-announcement :
    (json : Text) (m : Dict Text) → apply_name_override json m ≡ announcement json (table_of m)
unfolding apply_name_override
apply_name_override-announcement json m = refl

override_of-set_name :
    (k dev_id name : Text) (m : Dict Text)
    → override_of k (set_name dev_id name m) ≡ (
        if text_eq dev_id k
        then (if is_empty k || is_empty name then none else some name)
        else override_of k m)
unfolding override_of set_name
override_of-set_name k dev_id name m =
    ground (arith, lookup-insert dev_id k name m, lookup-erase dev_id k m)

pub set_name-assign :
    (dev_id name : Text) (m : Dict Text)
    → table_of (set_name dev_id name m) ≡ assign dev_id name (table_of m)
set_name-assign dev_id name m = λ i k. override_of-set_name k dev_id name m i

-- The name that a value of the table stands for.
abbrev effective : Text → Option Text → Option Text
effective dev_id none = none
effective dev_id (some name) = if is_empty dev_id || is_empty name then none else some name

override_of-effective :
    (dev_id : Text) (m : Dict Text) → override_of dev_id m ≡ effective dev_id (lookup dev_id m)
unfolding override_of
override_of-effective dev_id m = ground arith

effective-kept_value :
    (dev_id : Text) (o : Option Text) → effective dev_id (kept_value dev_id o) ≡ effective dev_id o
effective-kept_value dev_id none = refl
effective-kept_value dev_id (some name) = ground arith

pub set_name-Distinct :
    (dev_id name : Text) (m : Dict Text) → Distinct m → Distinct (set_name dev_id name m)
unfolding set_name
set_name-Distinct dev_id name m h =
    if_cases Distinct (is_empty name) (erase dev_id m) (insert dev_id name m)
      (erase-Distinct dev_id m h) (insert-Distinct dev_id name m h)

module _ (fs : FileSystem) (env : Environment) (order : IterationOrder Text) where
  open fs use {Disk, create_parents, write}

  -- What an attempt to store the names finds on the disk.
  abbrev pub stored : Text → Dict Text → Disk → Option Disk
  stored config_dir m disk =
      write (printer_names_state_path env config_dir) (names_text (order.visit m))
        (create_parents (printer_names_state_path env config_dir) disk)

  pub loaded-table_of :
      (config_dir : Text) (m : Dict Text) (disk d : Disk)
      → Distinct m
      → IsPlain (order.visit m)
      → stored config_dir m disk ≡ some d
      → table_of (
          load_printer_name_overrides fs env order config_dir
            (persist_printer_name_overrides fs env order config_dir m disk))
        ≡ table_of m
  loaded-table_of config_dir m disk d u p e = λ i dev_id. same dev_id i
    where
      same :
          (dev_id : Text)
          → override_of dev_id (
              load_printer_name_overrides fs env order config_dir
                (persist_printer_name_overrides fs env order config_dir m disk))
            ≡ override_of dev_id m
      same dev_id =
          override_of-effective dev_id _
          ∙ ap (effective dev_id) (load-persist_names fs env order config_dir m disk d dev_id u p e)
          ∙ effective-kept_value dev_id (lookup dev_id m)
          ∙ sym (override_of-effective dev_id m)
