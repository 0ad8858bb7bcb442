-- ===== src/Plugin/Diag.antt =====
-- What bambu-farm-client/cpp/api.cpp writes to its log, and the two answers that the environment may
-- change.
use bambu_farm.Base.{
  ℕ, ◌+◌, ◌%◌, ◌^◌, Bool, true, ◌&&◌, ◌||◌, leb, ltb, ◌==◌, if◌then◌else◌, Option, none, some, List,
  [], ◌∷◌, ◌++◌, map, length, take, min,
}
use bambu_farm.Base.Text.{Text, codes, concat, text_eq}
use bambu_farm.Base.Int.{ℤ}
use bambu_farm.Base.Decimal.{show_nat, show_int}
use bambu_farm.LocalState.Paths.{Environment, is_set, value_of}
use bambu_farm.PrintJob.Escape.{json_escape}
use bambu_farm.PrintJob.Resolve.{PrintParams}
use bambu_farm.PrintJob.Command.{show_bool}

-- The file that `write_diag` opens.
unfoldable pub log_path : Environment → Text
log_path env =
    if is_set env.xdg_config_home
    then value_of env.xdg_config_home ++ codes "/BambuStudio/oss-plugin-debug.log"
    else if is_set env.home
    then value_of env.home ++ codes "/.config/BambuStudio/oss-plugin-debug.log"
    else codes "/tmp/bambu-oss-plugin-debug.log"

-- What `write_diag` appends to the file, where it can be opened.
unfoldable pub log_line : Text → Text
log_line message = message ++ codes "\n"

-- The counter is a `size_t`; what is written is the second component.
unfoldable pub write_periodic_diag : ℕ → ℕ → Text → ℕ × Option Text
write_periodic_diag counter period message =
    let counter' = (counter + 1) % 2 ^ 64 in
    (
      counter',
      if leb counter' 5 || (ltb 0 period && (counter' % period == 0))
          then some (message ++ (codes " count=" ++ show_nat counter'))
          else none,
    )

-- The two flags of `write_backtrace_once`.
pub record Backtraces : Type 0 where
  pub wrote_check_debug : Bool
  pub wrote_get_version : Bool

-- The lines that are written; `symbols` is what `backtrace_symbols` gives.
unfoldable pub backtrace_lines : Option (List Text) → Text → List Text
backtrace_lines none label = (codes "backtrace unavailable for " ++ label) ∷ []
backtrace_lines (some symbols) label =
    (codes "backtrace begin: " ++ label)
    ∷ (map (λ s. codes "  " ++ s) symbols ++ (codes "backtrace end: " ++ label) ∷ [])

unfoldable pub write_backtrace_once :
    Option (List Text) → Text → Backtraces → Backtraces × List Text
write_backtrace_once symbols label b =
    if text_eq label (codes "check_debug_consistent")
    then (
      record b { wrote_check_debug = true },
      if b.wrote_check_debug then [] else backtrace_lines symbols label,
    )
    else if text_eq label (codes "get_version")
    then (
      record b { wrote_get_version = true },
      if b.wrote_get_version then [] else backtrace_lines symbols label,
    )
    else (b, backtrace_lines symbols label)

unfoldable pub preview_payload : Text → ℕ → Text
preview_payload message limit =
    let preview_len = min (length message) limit in
    let preview = json_escape (take preview_len message) in
    if ltb preview_len (length message) then preview ++ codes "..." else preview

unfoldable pub print_params_line : Text → PrintParams → Text
print_params_line fn params = concat (
    fn
    ∷ codes ": dev_id="
    ∷ params.dev_id
    ∷ codes " task_name="
    ∷ params.task_name
    ∷ codes " project_name="
    ∷ params.project_name
    ∷ codes " filename="
    ∷ params.filename
    ∷ codes " ftp_file="
    ∷ params.ftp_file
    ∷ codes " dst_file="
    ∷ params.dst_file
    ∷ codes " plate_index="
    ∷ show_int params.plate_index
    ∷ codes " ams_mapping="
    ∷ params.ams_mapping
    ∷ codes " ams_mapping2="
    ∷ params.ams_mapping2
    ∷ codes " ams_mapping_info="
    ∷ params.ams_mapping_info
    ∷ codes " use_ams="
    ∷ show_bool params.task_use_ams
    ∷ codes " bed_leveling="
    ∷ show_bool params.task_bed_leveling
    ∷ codes " flow_cali="
    ∷ show_bool params.task_flow_cali
    ∷ codes " vibration_cali="
    ∷ show_bool params.task_vibration_cali
    ∷ codes " layer_inspect="
    ∷ show_bool params.task_layer_inspect
    ∷ codes " timelapse="
    ∷ show_bool params.task_record_timelapse
    ∷ [])

-- What opening a file for reading finds: the error and its text, or the size.
pub data Probe : Type 0 where
  open_failed : ℤ → Text → Probe
  open_ok : ℤ → Probe

unfoldable pub probe_line : Text → Text → Probe → Text
probe_line context path (open_failed errno error) = concat (
    context
    ∷ codes " local_file_probe=open_failed path="
    ∷ path
    ∷ codes " errno="
    ∷ show_int errno
    ∷ codes " error="
    ∷ error
    ∷ [])
probe_line context path (open_ok size) =
    concat (
      context
      ∷ codes " local_file_probe=open_ok path="
      ∷ path
      ∷ codes " size="
      ∷ show_int size
      ∷ [])

-- The value of `BAMBU_NETWORK_DEBUG_CONSISTENT_OVERRIDE`; the argument of the function only stands in
-- the log.
unfoldable pub check_debug_consistent : Option Text → Bool
check_debug_consistent override =
    if is_set override
    then text_eq (value_of override) (codes "1")
      || text_eq (value_of override) (codes "true")
      || text_eq (value_of override) (codes "TRUE")
    else true

-- `BAMBU_NETWORK_AGENT_VERSION`.
abbrev pub network_agent_version : Text
network_agent_version = codes "02.05.00.66"

-- The value of `BAMBU_NETWORK_AGENT_VERSION_OVERRIDE`.
unfoldable pub get_version : Option Text → Text
get_version override = if is_set override then value_of override else network_agent_version
