-- ===== src/LocalState/Names.antt =====
-- `persist_printer_name_overrides` and `load_printer_name_overrides` of
-- bambu-farm-client/cpp/local_state.cpp.
use bambu_farm.Base.{
  ◌+◌, Bool, true, false, not, ◌&&◌, if◌then◌else◌, Option, none, some, List, [], ◌∷◌, ◌++◌, take,
  drop, length, ◌≡◌, refl, ap, arith, append_assoc, take-append, drop-append, drop-drop, ◌∙◌,
  All-append, Bool-cases, inl, inr,
}
use bambu_farm.Base.Text.{Text, codes, is_empty, find, text_eq_iff}
use bambu_farm.Base.Text.Find.{find_behind}
use bambu_farm.Base.Dict.{
  Dict, lookup, insert, insert_all, Distinct, or_else-lookup, IterationOrder, lookup-insert_all,
}
use bambu_farm.LocalState.Paths.{FileSystem, Environment, printer_names_state_path}
use bambu_farm.LocalState.Lines.{lines, lines_cons, Lacks}

abbrev pub is_kept : Text → Text → Bool
is_kept dev_id name = not (is_empty dev_id) && not (is_empty name)

-- What one round of the writing loop writes, and the whole file.
unfoldable pub name_line : Text → Text → Text
name_line dev_id name = if is_kept dev_id name then dev_id ++ b'\t' ∷ (name ++ b'\n' ∷ []) else []

unfoldable pub names_text : Dict Text → Text
names_text [] = []
names_text ((dev_id, name) ∷ m) = name_line dev_id name ++ names_text m

-- One round of the reading loop, and the loop.
unfoldable pub load_name : Text → Dict Text → Dict Text
load_name line loaded = elim (find (codes "\t") line) [
  | none ↦ loaded
  | some tab_pos ↦
      if is_kept (take tab_pos line) (drop (tab_pos + 1) line)
      then insert (take tab_pos line) (drop (tab_pos + 1) line) loaded
      else loaded
]

unfoldable pub load_names : List Text → Dict Text → Dict Text
load_names [] loaded = loaded
load_names (line ∷ ls) loaded = load_names ls (load_name line loaded)

module _ (fs : FileSystem) (env : Environment) (order : IterationOrder Text) where
  open fs use {Disk, create_parents, write, read, read-write}

  unfoldable pub persist_printer_name_overrides : Text → Dict Text → Disk → Disk
  persist_printer_name_overrides config_dir printer_name_overrides disk =
      let path = printer_names_state_path env config_dir in
      let d = create_parents path disk in
      elim (write path (names_text (order.visit printer_name_overrides)) d) [
        | none ↦ d
        | some d' ↦ d'
      ]

  unfoldable pub load_printer_name_overrides : Text → Disk → Dict Text
  load_printer_name_overrides config_dir disk =
      elim (read (printer_names_state_path env config_dir) disk) [
        | none ↦ []
        | some text ↦ load_names (lines [] text) []
      ]

-- An identifier holds no tab and no line break, a name no line break.
abbrev pub IsPlain : Dict Text → Type 0
IsPlain [] = Unit
IsPlain ((dev_id, name) ∷ m) =
    Lacks b'\t' dev_id × Lacks b'\n' dev_id × Lacks b'\n' name × IsPlain m

-- The entries that are written.
pub kept : Dict Text → Dict Text
kept [] = []
kept ((dev_id, name) ∷ m) = if is_kept dev_id name then (dev_id, name) ∷ kept m else kept m

load_name_line :
    (dev_id name : Text) (loaded : Dict Text)
    → Lacks b'\t' dev_id
    → is_kept dev_id name ≡ true
    → load_name (dev_id ++ b'\t' ∷ name) loaded ≡ insert dev_id name loaded
unfolding load_name
load_name_line dev_id name loaded h k =
    rw (find_behind b'\t' [] dev_id name h, load_name)
      (rw (take-append, drop-drop (length dev_id) 1, drop-append) (rw k))

load_names-name_line :
    (dev_id name rest : Text) (loaded : Dict Text)
    → Lacks b'\t' dev_id
    → Lacks b'\n' dev_id
    → Lacks b'\n' name
    → is_kept dev_id name ≡ true
    → load_names (lines [] (name_line dev_id name ++ rest)) loaded
      ≡ load_names (lines [] rest) (insert dev_id name loaded)
unfolding load_names name_line
load_names-name_line dev_id name rest loaded tab break name_break k = rw k (
    rw (regroup, lines_cons (dev_id ++ b'\t' ∷ name) rest line_break)
      (rw (load_name_line dev_id name loaded tab k, load_names) refl))
  where
    regroup :
        (dev_id ++ b'\t' ∷ (name ++ b'\n' ∷ [])) ++ rest ≡ (dev_id ++ b'\t' ∷ name) ++ b'\n' ∷ rest
    regroup = simp append_assoc

    line_break : Lacks b'\n' (dev_id ++ b'\t' ∷ name)
    line_break = All-append _ dev_id (b'\t' ∷ name) break (omega arith, name_break)

kept_cons :
    (dev_id name : Text) (m : Dict Text)
    → is_kept dev_id name ≡ true
    → kept ((dev_id, name) ∷ m) ≡ (dev_id, name) ∷ kept m
unfolding kept
kept_cons dev_id name m k = rw k refl

insert_all_cons :
    (dev_id name : Text) (m loaded : Dict Text)
    → insert_all ((dev_id, name) ∷ m) loaded ≡ insert_all m (insert dev_id name loaded)
unfolding insert_all
insert_all_cons dev_id name m loaded = refl

names_text_cons :
    (dev_id name : Text) (m : Dict Text)
    → names_text ((dev_id, name) ∷ m) ≡ name_line dev_id name ++ names_text m
unfolding names_text
names_text_cons dev_id name m = refl

names_text_dropped :
    (dev_id name : Text) (m : Dict Text)
    → is_kept dev_id name ≡ false
    → names_text ((dev_id, name) ∷ m) ≡ names_text m
unfolding names_text name_line
names_text_dropped dev_id name m k = rw k refl

kept_dropped :
    (dev_id name : Text) (m : Dict Text)
    → is_kept dev_id name ≡ false
    → kept ((dev_id, name) ∷ m) ≡ kept m
unfolding kept
kept_dropped dev_id name m k = rw k refl

load_names-names_text :
    (m loaded : Dict Text)
    → IsPlain m
    → load_names (lines [] (names_text m)) loaded ≡ insert_all (kept m) loaded
load_names-names_text [] loaded h = unfold names_text load_names lines insert_all kept in refl
load_names-names_text ((dev_id, name) ∷ m) loaded h = elim (Bool-cases (is_kept dev_id name)) [
  | inl k ↦
      rw
        (
          names_text_cons dev_id name m,
          load_names-name_line dev_id name (names_text m) loaded h.0 h.1 h.2 k,
        )
        (rw (kept_cons dev_id name m k, insert_all_cons dev_id name (kept m) loaded)
          (load_names-names_text m (insert dev_id name loaded) h.3))
  | inr k ↦
      rw (names_text_dropped dev_id name m k, kept_dropped dev_id name m k)
        (load_names-names_text m loaded h.3)
]

-- What the file keeps of an entry.
abbrev pub kept_value : Text → Option Text → Option Text
kept_value dev_id none = none
kept_value dev_id (some name) = if is_kept dev_id name then some name else none

lookup-kept :
    (m : Dict Text) (d : Text) → Distinct m → lookup d (kept m) ≡ kept_value d (lookup d m)
unfolding lookup kept
lookup-kept [] d h = refl
lookup-kept ((dev_id, name) ∷ m) d (fresh, rest) =
    ground (arith, text_eq_iff dev_id d, lookup-kept m d rest)

kept-Distinct : (m : Dict Text) → Distinct m → Distinct (kept m)
unfolding kept
kept-Distinct [] h = tt
kept-Distinct ((dev_id, name) ∷ m) (fresh, rest) =
    ground (arith, kept-Distinct m rest, lookup-kept m dev_id rest)

module _ (fs : FileSystem) (env : Environment) (order : IterationOrder Text) where
  open fs use {Disk, create_parents, write, read, read-write}

  -- Where the file can be written, and no identifier holds a tab or a line break and no name a line
  -- break, what is loaded after the names were persisted gives each device the name that it had, and no
  -- name to a device that had none; an empty identifier or an empty name is dropped. Neither the order in
  -- which the entries were visited nor what the disk held before makes a difference.
  pub load-persist_names :
      (config_dir : Text) (m : Dict Text) (disk d' : Disk) (dev_id : Text)
      → Distinct m
      → IsPlain (order.visit m)
      → write
          (printer_names_state_path env config_dir)
          (names_text (order.visit m))
          (create_parents (printer_names_state_path env config_dir) disk)
        ≡ some d'
      → lookup dev_id (
          load_printer_name_overrides fs env order config_dir
            (persist_printer_name_overrides fs env order config_dir m disk))
        ≡ kept_value dev_id (lookup dev_id m)
  unfolding persist_printer_name_overrides load_printer_name_overrides
  load-persist_names config_dir m disk d' dev_id distinct plain written =
      rw (written, persist_printer_name_overrides)
        (rw (read-write _ _ _ _ written, load_printer_name_overrides)
          (rw (load_names-names_text (order.visit m) [] plain) (loaded_value)))
    where
      loaded_value :
          lookup dev_id (insert_all (kept (order.visit m)) []) ≡ kept_value dev_id (lookup dev_id m)
      loaded_value =
          lookup-insert_all (kept (order.visit m)) [] dev_id
            (kept-Distinct (order.visit m) (order.visit-Distinct m distinct))
          ∙ or_else-lookup (lookup dev_id (kept (order.visit m))) dev_id
          ∙ lookup-kept (order.visit m) dev_id (order.visit-Distinct m distinct)
          ∙ ap (kept_value dev_id) (order.lookup-visit dev_id m)
