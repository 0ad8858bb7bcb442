-- ===== src/PrintJob/Command.antt =====
-- The JSON commands that bambu-farm-client/cpp/print_job.cpp builds.
pub mod Tokens
use bambu_farm.Base.{ℕ, zero, suc, ◌-◌, Bool, true, false, not, if◌then◌else◌, List, [], ◌∷◌, ◌++◌}
use bambu_farm.Base.Text.{Text, codes, is_empty, concat}
use bambu_farm.Base.Int.{ℤ, pos, negsuc}
use bambu_farm.Base.Decimal.{show_nat}
use bambu_farm.PrintJob.Ascii.{trim_ascii, looks_like_json_value}
use bambu_farm.PrintJob.Escape.{json_escape}
use bambu_farm.PrintJob.Resolve.{PrintParams, resolve_display_subtask_name}

abbrev pub show_bool : Bool → Text
show_bool true = codes "true"
show_bool false = codes "false"

-- The printer counts plates from zero: `plate_index > 0 ? plate_index - 1 : 0`.
unfoldable pub zero_based_plate : ℤ → ℕ
zero_based_plate (pos zero) = 0
zero_based_plate (pos (suc n)) = n
zero_based_plate (negsuc n) = 0

unfoldable pub append_json_field : Text → Text → Text → Bool → Text
append_json_field json key value raw_json =
    json
    ++ concat (
        codes ",\""
        ∷ key
        ∷ codes "\":"
        ∷ (if raw_json then value else concat (codes "\"" ∷ json_escape value ∷ codes "\"" ∷ []))
        ∷ [])

-- One of the three optional fields.
unfoldable pub append_mapping : Text → Text → Text → Text
append_mapping json key value =
    if not (is_empty (trim_ascii value))
    then append_json_field json key (trim_ascii value) (looks_like_json_value value)
    else json

-- The fields that hold text.
unfoldable pub project_file_texts : PrintParams → Text → Text → Text
project_file_texts params remote_filename plate_path = concat (
    codes "{\"print\":{\"sequence_id\":0,\"command\":\"project_file\",\"param\":\""
    ∷ json_escape plate_path
    ∷ codes "\",\"subtask_name\":\""
    ∷ json_escape (resolve_display_subtask_name params remote_filename)
    ∷ codes "\",\"url\":\"ftp://"
    ∷ json_escape remote_filename
    ∷ codes "\""
    ∷ [])

-- The fields that hold a number or a flag.
unfoldable pub project_file_flags : PrintParams → Text
project_file_flags params = concat (
    codes ",\"plate_idx\":"
    ∷ show_nat (zero_based_plate params.plate_index)
    ∷ codes ",\"timelapse\":"
    ∷ show_bool params.task_record_timelapse
    ∷ codes ",\"bed_leveling\":"
    ∷ show_bool params.task_bed_leveling
    ∷ codes ",\"flow_cali\":"
    ∷ show_bool params.task_flow_cali
    ∷ codes ",\"vibration_cali\":"
    ∷ show_bool params.task_vibration_cali
    ∷ codes ",\"layer_inspect\":"
    ∷ show_bool params.task_layer_inspect
    ∷ codes ",\"use_ams\":"
    ∷ show_bool params.task_use_ams
    ∷ [])

unfoldable pub build_project_file_command : PrintParams → Text → Text → Text
build_project_file_command params remote_filename plate_path =
    let json = project_file_texts params remote_filename plate_path ++ project_file_flags params in
    let json₁ = append_mapping json (codes "ams_mapping") params.ams_mapping in
    let json₂ = append_mapping json₁ (codes "ams_mapping2") params.ams_mapping2 in
    let json₃ = append_mapping json₂ (codes "ams_mapping_info") params.ams_mapping_info in
    json₃ ++ codes "}}"

pub record LoginState : Type 0 where
  pub user_id : Text
  pub user_name : Text
  pub nickname : Text
  pub avatar : Text
  pub logged_in : Bool

unfoldable pub build_logged_in_login_cmd : LoginState → Text
build_logged_in_login_cmd state = concat (
    codes "{\"command\":\"studio_userlogin\",\"data\":{\"name\":\""
    ∷ json_escape (if not (is_empty state.nickname) then state.nickname else state.user_name)
    ∷ codes "\",\"avatar\":\""
    ∷ json_escape state.avatar
    ∷ codes "\"}}"
    ∷ [])

unfoldable pub build_logout_cmd : Text → Text
build_logout_cmd provider =
    concat
      (codes "{\"action\":\"logout\",\"provider\":\"" ∷ json_escape provider ∷ codes "\"}" ∷ [])

unfoldable pub build_login_info : LoginState → Text → Text → Text
build_login_info state backend_url auth_url = concat (
    codes "{\"user_id\":\""
    ∷ json_escape state.user_id
    ∷ codes "\",\"user_name\":\""
    ∷ json_escape state.user_name
    ∷ codes "\",\"nickname\":\""
    ∷ json_escape state.nickname
    ∷ codes "\",\"avatar\":\""
    ∷ json_escape state.avatar
    ∷ codes "\",\"logged_in\":"
    ∷ show_bool state.logged_in
    ∷ codes ",\"access_token\":\"\",\"refresh_token\":\"\",\"backend_url\":\""
    ∷ json_escape backend_url
    ∷ codes "\",\"auth_url\":\""
    ∷ json_escape auth_url
    ∷ codes "\"}"
    ∷ [])
