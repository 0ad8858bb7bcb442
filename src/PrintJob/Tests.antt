-- ===== src/PrintJob/Tests.antt =====
-- The names and the commands of one job.
use bambu_farm.Base.{true, false, some, [], ◌≡◌, refl, inl, inr}
use bambu_farm.Base.Text.{codes, text_eq}
use bambu_farm.Base.Int.{pos}
use bambu_farm.Json.{Holds, read_text, read_byte}
use bambu_farm.PrintJob.Ascii.{
  looks_like_json_value, looks_like_trimmed, trim_ascii, drop_front, drop_back, is_space,
  ends_with_case_insensitive, to_lower_ascii, lower_byte,
}
use bambu_farm.PrintJob.Escape.{json_escape, escape_byte}
use bambu_farm.PrintJob.Names.{
  sanitize_remote_filename, normalize_print_package_name, sanitize_byte, is_forbidden,
  is_hidden_start, is_blank, chop, basename_or_empty, last_component,
}
use bambu_farm.PrintJob.Names.Safe.{IsSafe, sanitize_remote_filename-IsSafe}
use bambu_farm.PrintJob.Hash.{
  Files, hash_seed, short_content_suffix, short_path_suffix, hash_bytes, hash_byte, hex8,
  hex_digits, hex_digit, zeros,
}
use bambu_farm.PrintJob.Hash.Chunks.{short_content_suffix-hash_bytes}
use bambu_farm.PrintJob.Resolve.{PrintParams, resolve_remote_filename}
use bambu_farm.PrintJob.Names.Package.{IsFileName}
use bambu_farm.PrintJob.Resolve.Safe.{resolve_remote_filename-IsFileName}
use bambu_farm.PrintJob.Command.{LoginState, build_project_file_command}
use bambu_farm.PrintJob.Command.Tokens.{IsClosed, command_tokens, project_file_Holds}

abbrev job : PrintParams
job = record {
  dev_id = codes "01S";
  task_name = codes "Part \"A\"";
  project_name = codes "../Gear\\box";
  filename = codes "/tmp/plate.3mf";
  plate_index = pos 2;
  ftp_file = [];
  ams_mapping = codes " [0,1] ";
  ams_mapping2 = [];
  ams_mapping_info = codes "none";
  dst_file = [];
  task_bed_leveling = true;
  task_flow_cali = false;
  task_vibration_cali = true;
  task_layer_inspect = false;
  task_record_timelapse = true;
  task_use_ams = true;
}

abbrev files : Files
files path = some (codes "PK")

resolve_remote_filename-IsFileName_example : IsFileName (resolve_remote_filename files job)
resolve_remote_filename-IsFileName_example = resolve_remote_filename-IsFileName files job

sanitize_remote_filename-IsSafe_example : IsSafe (sanitize_remote_filename (codes " ..a/b? "))
sanitize_remote_filename-IsSafe_example = sanitize_remote_filename-IsSafe (codes " ..a/b? ")

mapping-IsClosed : IsClosed (codes " [0,1] ")
unfolding trim_ascii drop_front drop_back is_space read_text read_byte
mapping-IsClosed = inr refl

blank-IsClosed : IsClosed []
unfolding looks_like_json_value looks_like_trimmed trim_ascii drop_front drop_back
blank-IsClosed = inl refl

word-IsClosed : IsClosed (codes "none")
unfolding looks_like_json_value looks_like_trimmed trim_ascii drop_front drop_back is_space text_eq
word-IsClosed = inl refl

project_file_Holds_example :
    Holds
      (build_project_file_command job (codes "g.3mf") (codes "Metadata/plate_2.gcode"))
      (command_tokens job (codes "g.3mf") (codes "Metadata/plate_2.gcode"))
project_file_Holds_example =
    project_file_Holds job (codes "g.3mf") (codes "Metadata/plate_2.gcode") mapping-IsClosed
      blank-IsClosed word-IsClosed

abbrev login : LoginState
login = record {
  user_id = codes "1";
  user_name = codes "u\"v";
  nickname = [];
  avatar = [];
  logged_in = true;
}

hidden_name : normalize_print_package_name (codes ".2.0.3mf") ≡ codes "2.0.gcode.3mf"
unfolding normalize_print_package_name sanitize_remote_filename sanitize_byte is_forbidden
    is_hidden_start is_blank drop_front drop_back ends_with_case_insensitive to_lower_ascii
    lower_byte text_eq chop
hidden_name = refl

probe_name :
    basename_or_empty (codes "/app/share/check_access_code.txt") ≡ codes "check_access_code.txt"
unfolding basename_or_empty last_component
probe_name = refl

escapes_all : json_escape (codes "a\"b\\c\n") ≡ codes "a\\\"b\\\\c\\n"
unfolding json_escape escape_byte
escapes_all = refl

trims_both_ends : trim_ascii (codes " \t[0, 1] \n") ≡ codes "[0, 1]"
unfolding trim_ascii drop_back drop_front is_space
trims_both_ends = refl

suffix_any_case : ends_with_case_insensitive (codes "Job.GCODE.3MF") (codes ".gcode.3mf") ≡ true
unfolding ends_with_case_insensitive to_lower_ascii lower_byte text_eq
suffix_any_case = refl

fnv_of_a : short_path_suffix (codes "a") ≡ codes "e40c292c"
unfolding short_path_suffix hash_bytes hash_byte hex8 hex_digits hex_digit zeros
fnv_of_a = refl

short_content_suffix-hash_bytes_example :
    short_content_suffix files (codes "/tmp/plate.3mf") ≡ hex8 (hash_bytes hash_seed (codes "PK"))
short_content_suffix-hash_bytes_example =
    short_content_suffix-hash_bytes files (codes "/tmp/plate.3mf") (codes "PK") refl refl
