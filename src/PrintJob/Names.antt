-- ===== src/PrintJob/Names.antt =====
-- The file names of bambu-farm-client/cpp/print_job.cpp: base names, remote names and suffixes.
pub mod Safe
pub mod Package
use bambu_farm.Base.{
  ℕ, ◌-◌, Bool, ◌||◌, ◌==◌, if◌then◌else◌, [], ◌∷◌, ◌++◌, map, ◌≡◌, refl, length, take,
}
use bambu_farm.Base.Text.{Text, codes, is_empty, text_eq}
use bambu_farm.PrintJob.Ascii.{
  ends_with_case_insensitive, drop_front, drop_back, to_lower_ascii, lower_byte,
}

-- `std::filesystem::path(path).filename()`: what stands behind the last slash.
unfoldable pub last_component : Text → Text → Text
last_component cur [] = cur
last_component cur (c ∷ s) = last_component (if c == b'/' then [] else cur ++ c ∷ []) s

unfoldable pub basename_or_empty : Text → Text
basename_or_empty path = if is_empty path then [] else last_component [] path

-- The bytes that the `switch` replaces.
unfoldable pub is_forbidden : ℕ → Bool
is_forbidden c =
    c == b'/'
    || c == b'\\'
    || c == b':'
    || c == b'*'
    || c == b'?'
    || c == b'"'
    || c == b'<'
    || c == b'>'
    || c == b'|'

unfoldable pub sanitize_byte : ℕ → ℕ
sanitize_byte c = if is_forbidden c then b'_' else c

abbrev pub default_name : Text
default_name = codes "print.gcode.3mf"

unfoldable pub is_hidden_start : ℕ → Bool
is_hidden_start c = c == b'.' || c == b' '

unfoldable pub is_blank : ℕ → Bool
is_blank c = c == b' '

unfoldable pub sanitize_remote_filename : Text → Text
sanitize_remote_filename value =
    let stripped = drop_back is_blank (drop_front is_hidden_start (map sanitize_byte value)) in
    if is_empty stripped then default_name else stripped

-- `value.resize(value.size() - n)`.
unfoldable pub chop : ℕ → Text → Text
chop n value = take (length value - n) value

unfoldable pub normalize_print_package_name : Text → Text
normalize_print_package_name value =
    let name = sanitize_remote_filename value in
    if ends_with_case_insensitive name (codes ".gcode.3mf")
    then name
    else if ends_with_case_insensitive name (codes ".3mf")
    then chop 4 name ++ codes ".gcode.3mf"
    else name ++ codes ".gcode.3mf"

unfoldable pub append_package_suffix : Text → Text → Text
append_package_suffix base_name suffix =
    if is_empty suffix
    then base_name
    else if ends_with_case_insensitive base_name (codes ".gcode.3mf")
    then chop 10 base_name ++ (codes "-" ++ (suffix ++ codes ".gcode.3mf"))
    else if ends_with_case_insensitive base_name (codes ".3mf")
    then chop 4 base_name ++ (codes "-" ++ (suffix ++ codes ".3mf"))
    else base_name ++ (codes "-" ++ suffix)

unfoldable pub strip_known_package_suffixes : Text → Text
strip_known_package_suffixes value =
    if ends_with_case_insensitive value (codes ".gcode.3mf")
    then chop 10 value
    else if ends_with_case_insensitive value (codes ".3mf")
    then chop 4 value
    else if ends_with_case_insensitive value (codes ".gcode")
    then chop 6 value
    else value
