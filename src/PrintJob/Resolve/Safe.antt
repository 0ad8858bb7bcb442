-- ===== src/PrintJob/Resolve/Safe.antt =====
-- The name under which bambu-farm-client/cpp/print_job.cpp stores a job on the printer.
use bambu_farm.Base.{
  ℕ, zero, suc, ◌-◌, ◌/◌, ◌%◌, ◌<◌, false, not, ltb, Option, none, some, [], ◌∷◌, ◌≡◌, refl, arith,
  length, All-append, if_cases, ltb→lt, Bool-cases, inl, inr,
}
use bambu_farm.Base.Text.{Text, is_empty}
use bambu_farm.PrintJob.Names.{
  is_forbidden, is_hidden_start, basename_or_empty, normalize_print_package_name,
  append_package_suffix, default_name,
}
use bambu_farm.PrintJob.Names.Safe.{IsAllowed}
use bambu_farm.PrintJob.Names.Package.{
  IsFileName, sanitize_remote_filename-IsFileName, normalize_print_package_name-IsFileName,
  append_package_suffix-IsFileName,
}
use bambu_farm.PrintJob.Hash.{
  Files, hex_digit, hex_digits, zeros, hex8, short_path_suffix, content_suffix,
  short_content_suffix,
}
use bambu_farm.PrintJob.Resolve.{
  PrintParams, source_is_3mf, package_suffix, resolve_by_path, resolve_remote_filename,
}

hex_digit_allowed : (d : ℕ) → d < 16 → is_forbidden (hex_digit d) ≡ false
unfolding is_forbidden hex_digit
hex_digit_allowed d h = ground arith

hex_digits-IsAllowed : (fuel n : ℕ) (out : Text) → IsAllowed out → IsAllowed (hex_digits fuel n out)
unfolding IsAllowed hex_digits
hex_digits-IsAllowed zero n out h = h
hex_digits-IsAllowed (suc fuel) n out h = elim (Bool-cases (ltb n 16)) [
  | inl e ↦ rw (e, hex_digits) (hex_digit_allowed n (ltb→lt n 16 e), h)
  | inr e ↦
      rw (e, hex_digits)
        (hex_digits-IsAllowed fuel (n / 16) (hex_digit (n % 16) ∷ out)
          (hex_digit_allowed (n % 16) (omega arith), h))
]

zeros-IsAllowed : (n : ℕ) → IsAllowed (zeros n)
unfolding IsAllowed zeros is_forbidden
zeros-IsAllowed zero = tt
zeros-IsAllowed (suc n) = (refl, zeros-IsAllowed n)

none-IsAllowed : IsAllowed []
unfolding IsAllowed
none-IsAllowed = tt

hex8-IsAllowed : (n : ℕ) → IsAllowed (hex8 n)
unfolding IsAllowed hex8
hex8-IsAllowed n =
    All-append _ (zeros (8 - length (hex_digits 8 n []))) (hex_digits 8 n []) (zeros-IsAllowed _)
      (hex_digits-IsAllowed 8 n [] tt)

short_path_suffix-IsAllowed : (path : Text) → IsAllowed (short_path_suffix path)
unfolding short_path_suffix
short_path_suffix-IsAllowed path =
    if_cases IsAllowed (is_empty path) [] _ none-IsAllowed (hex8-IsAllowed _)

content_suffix-IsAllowed : (o : Option Text) → IsAllowed (content_suffix o)
unfolding IsAllowed content_suffix
content_suffix-IsAllowed none = tt
content_suffix-IsAllowed (some contents) = hex8-IsAllowed _

package_suffix-IsAllowed :
    (files : Files) (params : PrintParams) → IsAllowed (package_suffix files params)
unfolding package_suffix short_content_suffix
package_suffix-IsAllowed files params =
    if_cases IsAllowed _ (short_content_suffix files params.filename) _
      (if_cases IsAllowed (is_empty params.filename) [] _ none-IsAllowed
        (content_suffix-IsAllowed (files params.filename)))
      (short_path_suffix-IsAllowed params.filename)

packaged :
    (files : Files) (params : PrintParams) (value : Text)
    → IsFileName
        (append_package_suffix (normalize_print_package_name value) (package_suffix files params))
packaged files params value =
    append_package_suffix-IsFileName _ _ (normalize_print_package_name-IsFileName value)
      (package_suffix-IsAllowed files params)

default-IsFileName : IsFileName default_name
unfolding IsAllowed is_forbidden is_hidden_start
default-IsFileName = record { named = refl; allowed = ground arith; visible = refl }

resolve_by_path-IsFileName :
    (files : Files) (params : PrintParams) → IsFileName (resolve_by_path files params)
unfolding resolve_by_path
resolve_by_path-IsFileName files params =
    if_cases IsFileName _ _ _
      (sanitize_remote_filename-IsFileName (basename_or_empty params.ftp_file))
      (if_cases IsFileName _ _ _
        (sanitize_remote_filename-IsFileName (basename_or_empty params.dst_file))
        (if_cases IsFileName _ _ _ (sanitize_remote_filename-IsFileName params.task_name) (
          if_cases IsFileName _ _ _
            (if_cases IsFileName (source_is_3mf params) _ _
              (packaged files params (basename_or_empty params.filename))
              (sanitize_remote_filename-IsFileName (basename_or_empty params.filename)))
            default-IsFileName)))

-- Whatever a print job is made of and whatever its file holds, the name under which it is stored on the
-- printer is not empty, holds no slash, backslash, colon, star, question mark, quote, angle bracket or
-- bar, and begins neither with a dot nor with a blank: it is neither a path nor a directory's `.` or
-- `..`.
pub resolve_remote_filename-IsFileName :
    (files : Files) (params : PrintParams) → IsFileName (resolve_remote_filename files params)
unfolding resolve_remote_filename
resolve_remote_filename-IsFileName files params =
    if_cases IsFileName (source_is_3mf params) _ (resolve_by_path files params)
      (if_cases IsFileName (not (is_empty params.project_name)) _ _
        (packaged files params params.project_name)
        (if_cases IsFileName (not (is_empty params.task_name)) _ _
          (packaged files params params.task_name) (resolve_by_path-IsFileName files params)))
      (resolve_by_path-IsFileName files params)
