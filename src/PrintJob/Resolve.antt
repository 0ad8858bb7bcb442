-- ===== src/PrintJob/Resolve.antt =====
-- The parameters of a print job, and what bambu-farm-client/cpp/print_job.cpp derives from them.
pub mod Safe
use bambu_farm.Base.{ℕ, suc, ◌-◌, Bool, not, ◌||◌, if◌then◌else◌, [], ◌++◌}
use bambu_farm.Base.Text.{Text, codes, is_empty}
use bambu_farm.Base.Int.{ℤ, pos, is_positive}
use bambu_farm.Base.Decimal.{show_int}
use bambu_farm.PrintJob.Ascii.{ends_with_case_insensitive, trim_ascii}
use bambu_farm.PrintJob.Names.{
  basename_or_empty, sanitize_remote_filename, normalize_print_package_name, append_package_suffix,
  strip_known_package_suffixes, default_name,
}
use bambu_farm.PrintJob.Hash.{Files, short_content_suffix, short_path_suffix}

-- The fields of `BBL::PrintParams` that the plugin reads.
pub record PrintParams : Type 0 where
  pub dev_id : Text
  pub task_name : Text
  pub project_name : Text
  pub filename : Text
  pub plate_index : ℤ
  pub ftp_file : Text
  pub ams_mapping : Text
  pub ams_mapping2 : Text
  pub ams_mapping_info : Text
  pub dst_file : Text
  pub task_bed_leveling : Bool
  pub task_flow_cali : Bool
  pub task_vibration_cali : Bool
  pub task_layer_inspect : Bool
  pub task_record_timelapse : Bool
  pub task_use_ams : Bool

unfoldable pub resolve_display_subtask_name : PrintParams → Text → Text
resolve_display_subtask_name params remote_filename =
    if not (is_empty (trim_ascii params.project_name))
    then params.project_name
    else if not (is_empty (trim_ascii params.task_name))
    then params.task_name
    else if not (is_empty (trim_ascii params.dst_file))
    then strip_known_package_suffixes (basename_or_empty params.dst_file)
    else if not (is_empty (trim_ascii params.ftp_file))
    then strip_known_package_suffixes (basename_or_empty params.ftp_file)
    else if not (is_empty (trim_ascii params.filename))
    then strip_known_package_suffixes (basename_or_empty params.filename)
    else strip_known_package_suffixes remote_filename

unfoldable pub source_is_3mf : PrintParams → Bool
source_is_3mf params =
    ends_with_case_insensitive (basename_or_empty params.filename) (codes ".3mf")
    || ends_with_case_insensitive params.filename (codes ".3mf")

-- The lambda of `resolve_remote_filename`.
unfoldable pub package_suffix : Files → PrintParams → Text
package_suffix files params =
    let content_suffix = short_content_suffix files params.filename in
    if not (is_empty content_suffix) then content_suffix else short_path_suffix params.filename

-- The part behind the 3mf branch.
unfoldable pub resolve_by_path : Files → PrintParams → Text
resolve_by_path files params =
    if not (is_empty params.ftp_file)
    then sanitize_remote_filename (basename_or_empty params.ftp_file)
    else if not (is_empty params.dst_file)
    then sanitize_remote_filename (basename_or_empty params.dst_file)
    else if not (is_empty params.task_name)
    then sanitize_remote_filename params.task_name
    else if not (is_empty params.filename)
    then (if source_is_3mf params
        then append_package_suffix
            (normalize_print_package_name (basename_or_empty params.filename))
            (package_suffix files params)
        else sanitize_remote_filename (basename_or_empty params.filename))
    else default_name

unfoldable pub resolve_remote_filename : Files → PrintParams → Text
resolve_remote_filename files params =
    if source_is_3mf params
    then (if not (is_empty params.project_name)
        then append_package_suffix (normalize_print_package_name params.project_name)
            (package_suffix files params)
        else if not (is_empty params.task_name)
        then append_package_suffix (normalize_print_package_name params.task_name)
            (package_suffix files params)
        else resolve_by_path files params)
    else resolve_by_path files params

-- Plates count from one.
unfoldable pub plate_number : PrintParams → ℤ
plate_number params = if is_positive params.plate_index then params.plate_index else pos 1

unfoldable pub resolve_plate_metadata_path : PrintParams → Text
resolve_plate_metadata_path params =
    if not (is_empty params.dst_file)
    then params.dst_file
    else if not (is_empty params.ftp_file)
    then params.ftp_file
    else codes "Metadata/plate_" ++ (show_int (plate_number params) ++ codes ".gcode")
