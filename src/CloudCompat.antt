-- ===== src/CloudCompat.antt =====
-- bambu-farm-client/cpp/cloud_compat.cpp: the answers to what needs the cloud, and the pages that say
-- that it is not supported.
mod Tests
pub mod Html
pub mod Notice
use bambu_farm.Base.{
  ℕ, ◌+◌, suc, zero, Bool, false, not, if◌then◌else◌, Option, none, some, [], ◌∷◌, ◌++◌, length,
}
use bambu_farm.Base.Text.{Text, codes, is_empty, find_from, replace_at, if_found, concat}
use bambu_farm.PrintJob.Escape.{json_escape}
use bambu_farm.PrintJob.Names.{sanitize_remote_filename}
use bambu_farm.LocalState.Paths.{FileSystem, Environment, config_or_default_path}

unfoldable pub cloud_notice_root_dir : Environment → Text → Text
cloud_notice_root_dir env config_dir =
    config_or_default_path env config_dir (codes "oss-cloud-notices")
      (codes "/tmp/bambu-oss-cloud-notices")

-- One of the three loops of `html_escape`: every `c` from `pos` on becomes `entity`.
unfoldable pub replace_all : ℕ → ℕ → Text → ℕ → Text → Text
replace_all zero c entity pos value = value
replace_all (suc fuel) c entity pos value =
    if_found (find_from (c ∷ []) pos value) value
      (λ i. replace_all fuel c entity (i + length entity) (replace_at i 1 entity value))

-- A loop makes at most one round for each byte of its text, and one to stop.
unfoldable pub replace_byte : ℕ → Text → Text → Text
replace_byte c entity value = replace_all (suc (length value)) c entity 0 value

unfoldable pub html_escape : Text → Text
html_escape value =
    replace_byte b'>' (codes "&gt;")
      (replace_byte b'<' (codes "&lt;") (replace_byte b'&' (codes "&amp;") value))

unfoldable pub unsupported_cloud_json : Text → Text
unsupported_cloud_json feature = concat (
    codes "{"
    ∷ codes "\"error\":\"unsupported\","
    ∷ codes "\"feature\":\""
    ∷ json_escape feature
    ∷ codes "\","
    ∷ codes
        "\"message\":\"This OSS plugin currently supports LAN printer workflows only. Cloud and MakerWorld features are disabled.\""
    ∷ codes "}"
    ∷ [])

unfoldable pub unsupported_user_tasks_json : Text
unsupported_user_tasks_json = concat (
    codes "{"
    ∷ codes "\"total\":0,"
    ∷ codes "\"hits\":[],"
    ∷ codes "\"unsupported\":true,"
    ∷ codes "\"message\":\"Cloud print history is not supported by the OSS LAN plugin.\""
    ∷ codes "}"
    ∷ [])

-- What is stored through `http_code` and `http_body`.
unfoldable pub fill_unsupported_my_profile : ℕ × Text
fill_unsupported_my_profile = (501, unsupported_cloud_json (codes "my_profile"))

unfoldable pub notice_page : Text → Text → Text
notice_page title message = concat (
    codes "<!doctype html>\n"
    ∷ codes "<html><head><meta charset=\"utf-8\">"
    ∷ codes "<title>"
    ∷ html_escape title
    ∷ codes "</title>"
    ∷ codes "<style>"
    ∷ codes
        "body{font-family:sans-serif;max-width:48rem;margin:3rem auto;padding:0 1rem;line-height:1.5;color:#111;}"
    ∷ codes
        "h1{font-size:1.5rem;}p,li{font-size:1rem;}code{background:#f3f3f3;padding:.1rem .3rem;border-radius:4px;}"
    ∷ codes "</style></head><body>"
    ∷ codes "<h1>"
    ∷ html_escape title
    ∷ codes "</h1>"
    ∷ codes "<p>"
    ∷ html_escape message
    ∷ codes "</p>"
    ∷ codes
        "<p>Supported today: LAN discovery, connect/disconnect, upload, print submission, storage browsing, timelapse download, and live camera.</p>"
    ∷ codes
        "<p>Not supported: MakerWorld browsing, cloud login, cloud print history sync, and model publishing.</p>"
    ∷ codes "</body></html>\n"
    ∷ [])
