-- ===== src/PrintContext.antt =====
-- bambu-farm-client/cpp/local_print_context.cpp: the prints that the plugin started, and what it adds to
-- a printer's status messages. `LocalPrintContextStore` is its `contexts_`; logging is left out.
mod Tests
pub mod Subtask
pub mod Restored
pub mod Identity
pub mod Capability
use bambu_farm.Base.{
  ℕ, ◌+◌, ◌-◌, Bool, true, false, ◌&&◌, if◌then◌else◌, Option, none, some, is_some, [], ◌∷◌, ◌++◌,
}
use bambu_farm.Base.Text.{
  Text, codes, is_empty, text_eq, find, find_from, substr, insert_at, if_found, concat,
}
use bambu_farm.Base.Decimal.{show_int}
use bambu_farm.Base.Dict.{Dict, lookup, insert, erase, IterationOrder}
use bambu_farm.PrintJob.Escape.{json_escape}
use bambu_farm.LocalState.Paths.{FileSystem, Environment}
use bambu_farm.LocalState.Contexts.{
  LocalPrintContext, Stoi, persist_local_print_contexts, load_local_print_contexts,
}

abbrev pub Contexts : Type 0
Contexts = Dict LocalPrintContext

module _ (fs : FileSystem) (env : Environment) (order : IterationOrder LocalPrintContext) where
  open fs use {Disk}

  unfoldable pub load : Stoi → Text → Disk → Contexts
  load stoi config_dir disk = load_local_print_contexts fs env stoi config_dir disk

  unfoldable pub clear : Text → Text → Contexts × Disk → Contexts × Disk
  clear dev_id config_dir (contexts, disk) =
      let left = erase dev_id contexts in
      if is_empty dev_id
      then (contexts, disk)
      else (left, persist_local_print_contexts fs env order config_dir left disk)

  unfoldable pub update : LocalPrintContext → Text → Contexts × Disk → Contexts × Disk
  update context config_dir (contexts, disk) =
      let changed = insert context.dev_id context contexts in
      (changed, persist_local_print_contexts fs env order config_dir changed disk)

-- The first entry that the loop meets.
unfoldable pub find_subtask : Text → Contexts → Option LocalPrintContext
find_subtask subtask_id [] = none
find_subtask subtask_id ((dev_id, context) ∷ m) =
    let rest = find_subtask subtask_id m in
    if context.active && text_eq context.subtask_id subtask_id then some context else rest

unfoldable pub lookup_subtask_id :
    IterationOrder LocalPrintContext → Text → Contexts → Option LocalPrintContext
lookup_subtask_id order subtask_id contexts = find_subtask subtask_id (order.visit contexts)

-- What `build_subtask_info` answers and stores through its pointers.
pub record SubtaskInfo : Type 0 where
  pub found : Bool
  pub http_code : ℕ
  pub http_body : Text
  pub task_json : Text

unfoldable pub task_json_of : LocalPrintContext → Text
task_json_of context = concat (
    codes "{"
    ∷ codes "\"content\":\"{\\\"info\\\":{\\\"plate_idx\\\":"
    ∷ show_int context.plate_index
    ∷ codes "}}\","
    ∷ codes "\"context\":{"
    ∷ codes "\"plates\":[{"
    ∷ codes "\"index\":"
    ∷ show_int context.plate_index
    ∷ codes ","
    ∷ codes "\"thumbnail\":{\"url\":\""
    ∷ json_escape context.thumbnail_url
    ∷ codes "\"},"
    ∷ codes "\"filaments\":[]"
    ∷ codes "}]"
    ∷ codes "}"
    ∷ codes "}"
    ∷ [])

unfoldable pub build_subtask_info : IterationOrder LocalPrintContext → Text → Contexts → SubtaskInfo
build_subtask_info order subtask_id contexts = elim (lookup_subtask_id order subtask_id contexts) [
  | none ↦ record {
    found = false;
    http_code = 404;
    http_body = codes "{\"error\":\"not_found\"}";
    task_json = [];
  }
  | some context ↦ record {
    found = true;
    http_code = 200;
    http_body = codes "{}";
    task_json = task_json_of context;
  }
]

abbrev pub file_capability : Text
file_capability =
    codes "\"file\":{\"local\":\"local\",\"remote\":\"none\",\"model_download\":\"disabled\"},"

abbrev pub ipcam_capability : Text
ipcam_capability =
    codes
      "\"ipcam\":{\"file\":{\"local\":\"local\",\"remote\":\"none\",\"model_download\":\"disabled\"}},"

-- The message has an `ipcam` key.
unfoldable pub complete_ipcam : Text → ℕ → Text
complete_ipcam input ipcam_key_pos =
    if_found (find_from (codes "{") ipcam_key_pos input) input (λ object_start.
      if_found (find_from (codes "}") object_start input) input (λ object_end.
        if is_some (find (codes "\"file\"") (substr object_start (object_end - object_start) input))
        then input
        else insert_at (object_start + 1) file_capability input))

unfoldable pub inject_file_capability : Text → Text
inject_file_capability input = if_found (find (codes "\"print\"") input) input (λ print_key_pos.
    if_found (find_from (codes "{") print_key_pos input) input (λ print_object_start.
      elim (find_from (codes "\"ipcam\"") print_object_start input) [
        | none ↦ insert_at (print_object_start + 1) ipcam_capability input
        | some ipcam_key_pos ↦ complete_ipcam input ipcam_key_pos
      ]))

-- A field that is added where it is missing.
unfoldable pub missing_field : Text → Text → ℕ → Text → Text
missing_field key value print_key_pos message =
    if is_some (find_from (b'"' ∷ (key ++ codes "\"")) print_key_pos message)
    then []
    else concat ((b'"' ∷ (key ++ codes "\":\"")) ∷ json_escape value ∷ codes "\"," ∷ [])

unfoldable pub injected : LocalPrintContext → ℕ → Text → Text
injected context print_key_pos message = concat (
    missing_field (codes "project_id") context.project_id print_key_pos message
    ∷ missing_field (codes "profile_id") context.profile_id print_key_pos message
    ∷ missing_field (codes "subtask_id") context.subtask_id print_key_pos message
    ∷ missing_field (codes "task_id") context.task_id print_key_pos message
    ∷ [])

-- With all four keys there is nothing to add, and the message stays.
unfoldable pub inject_identity : LocalPrintContext → Text → Text
inject_identity context message =
    if_found (find (codes "\"print\"") message) message (λ print_key_pos.
      if_found (find_from (codes "{") print_key_pos message) message (λ object_start.
        if is_empty (injected context print_key_pos message)
        then message
        else insert_at (object_start + 1) (injected context print_key_pos message) message))

unfoldable pub rewrite_status_message : Contexts → Text → Text → Text
rewrite_status_message contexts device_id message = elim (lookup device_id contexts) [
  | none ↦ inject_file_capability message
  | some context ↦
      if context.active
      then inject_identity context (inject_file_capability message)
      else inject_file_capability message
]
