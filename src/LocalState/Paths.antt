-- ===== src/LocalState/Paths.antt =====
-- Where bambu-farm-client/cpp/local_state.cpp keeps its files, and the file system that it uses.
use bambu_farm.Base.{Bool, false, not, if◌then◌else◌, Option, none, some, [], ◌++◌, ◌≡◌}
use bambu_farm.Base.Text.{Text, codes, is_empty}

-- What the plugin relies on of the file system. `write` opens a file for writing, cut to nothing, and
-- writes; `none` is a file that cannot be opened. `remove` is `std::filesystem::remove`, where `none` is
-- an error. A file that was written reads back, and one that was removed without an error is gone.
pub record FileSystem : Type 1 where
  pub Disk : Type 0
  pub create_parents : Text → Disk → Disk
  pub write : Text → Text → Disk → Option Disk
  pub read : Text → Disk → Option Text
  pub remove : Text → Disk → Option Disk
  pub read-write :
      (path content : Text) (d d' : Disk)
      → write path content d ≡ some d'
      → read path d' ≡ some content
  pub read-remove : (path : Text) (d d' : Disk) → remove path d ≡ some d' → read path d' ≡ none

-- `XDG_CONFIG_HOME` and `HOME`.
pub record Environment : Type 0 where
  pub xdg_config_home : Option Text
  pub home : Option Text

-- `value && *value`.
abbrev pub is_set : Option Text → Bool
is_set none = false
is_set (some s) = not (is_empty s)

abbrev pub value_of : Option Text → Text
value_of none = []
value_of (some s) = s

unfoldable pub config_or_default_path : Environment → Text → Text → Text → Text
config_or_default_path env config_dir suffix tmp_fallback =
    if not (is_empty config_dir)
    then config_dir ++ (codes "/" ++ suffix)
    else if is_set env.xdg_config_home
    then value_of env.xdg_config_home ++ (codes "/BambuStudio/" ++ suffix)
    else if is_set env.home
    then value_of env.home ++ (codes "/.config/BambuStudio/" ++ suffix)
    else tmp_fallback

unfoldable pub selected_device_state_path : Environment → Text → Text
selected_device_state_path env config_dir =
    config_or_default_path env config_dir (codes "oss-last-device.txt")
      (codes "/tmp/bambu-oss-last-device.txt")

unfoldable pub printer_names_state_path : Environment → Text → Text
printer_names_state_path env config_dir =
    config_or_default_path env config_dir (codes "oss-printer-names.tsv")
      (codes "/tmp/bambu-oss-printer-names.tsv")

unfoldable pub local_print_contexts_state_path : Environment → Text → Text
local_print_contexts_state_path env config_dir =
    config_or_default_path env config_dir (codes "oss-local-print-contexts.tsv")
      (codes "/tmp/bambu-oss-local-print-contexts.tsv")

unfoldable pub local_thumbnail_cache_dir : Environment → Text → Text
local_thumbnail_cache_dir env config_dir =
    config_or_default_path env config_dir (codes "oss-thumbnails")
      (codes "/tmp/bambu-oss-thumbnails")
