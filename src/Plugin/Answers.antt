-- ===== src/Plugin/Answers.antt =====
-- The functions of bambu-farm-client/cpp/api.cpp that answer without the state of a printer: the
-- addresses, the notices, and what is stored through the caller's pointers. A null pointer is `false`,
-- and `none` is what is not stored.
use bambu_farm.Base.{ℕ, Bool, true, false, if◌then◌else◌, Option, none, some, List, [], ◌∷◌, ◌++◌}
use bambu_farm.Base.Text.{Text, codes}
use bambu_farm.Base.Int.{ℤ, pos, negsuc}
use bambu_farm.CloudCompat.{
  unsupported_cloud_json, unsupported_user_tasks_json, fill_unsupported_my_profile,
}
use bambu_farm.CloudCompat.Notice.{
  model_publish_notice_url, model_mall_home_notice_url, model_mall_detail_notice_url,
}
use bambu_farm.PrintFlow.Calls.{Stage, error, err_canceled}
use bambu_farm.Plugin.{World, Plugin}

-- `BAMBU_NETWORK_ERR_INVALID_RESULT`.
abbrev pub err_invalid_result : ℤ
err_invalid_result = negsuc 18

-- `if (out) *out = value;`
abbrev pub stored_at {ℓ} : {A : Type ℓ} → Bool → A → Option A
stored_at out value = if out then some value else none

unfoldable pub get_bambulab_host : Text
get_bambulab_host = codes "bambulab.com"

unfoldable pub get_studio_info_url : Text
get_studio_info_url = codes "https://studio.bambulab.com"

-- The code that is stored, and the answer.
unfoldable pub request_setting_id : Bool → Option ℕ × Text
request_setting_id http_code = (stored_at http_code 200, [])

-- The code and the body that are stored.
unfoldable pub get_printer_firmware : ℕ × Text
get_printer_firmware = (500, [])

-- The value that is stored.
unfoldable pub track_get_property : Text
track_get_property = []

unfoldable pub get_my_profile : Bool → Bool → Option ℕ × Option Text
get_my_profile http_code http_body =
    let (code, body) = fill_unsupported_my_profile in
    (stored_at http_code code, stored_at http_body body)

unfoldable pub get_user_tasks : Bool → Option Text
get_user_tasks http_body = stored_at http_body unsupported_user_tasks_json

-- A call of the function that reports the status.
abbrev pub StatusCall : Type 0
StatusCall = Stage × (ℤ × Text)

unfoldable pub start_publish : Bool → Bool → ℤ × (Option Text × List StatusCall)
start_publish update_fn out = (
  err_invalid_result,
  (
    stored_at out (unsupported_cloud_json (codes "publish")),
    if update_fn
        then (
          error,
          (err_invalid_result, codes "Model publishing is not supported by the OSS LAN plugin"),
        )
          ∷ []
        else [],
  ),
)

-- `cancel_fn` with its answer; the code, and the progress that is reported.
unfoldable pub get_setting_list2 : Option Bool → Bool → ℤ × List ℤ
get_setting_list2 (some true) pro_fn = (err_canceled, [])
get_setting_list2 (some false) pro_fn = (pos 0, if pro_fn then pos 100 ∷ [] else [])
get_setting_list2 none pro_fn = (pos 0, if pro_fn then pos 100 ∷ [] else [])

-- `detectResult`.
pub record DetectResult : Type 0 where
  pub result_msg : Text
  pub command : Text
  pub dev_id : Text
  pub model_id : Text
  pub dev_name : Text
  pub version : Text
  pub bind_state : Text
  pub connect_type : Text

-- The task with which the function is called, where there are both.
unfoldable pub get_subtask {ℓ} : {A : Type ℓ} → Bool → Option A → Option A
get_subtask getsub_fn task = if getsub_fn then task else none

module _ (w : World) where
  unfoldable pub set_cert_file : Text → Text → Plugin w → Plugin w
  set_cert_file folder filename p = record p { ca_path = folder ++ b'/' ∷ filename }

  unfoldable pub get_user_selected_machine : Plugin w → Text
  get_user_selected_machine p = p.session.selected_device

  unfoldable pub bind_detect : DetectResult → Plugin w → DetectResult
  bind_detect detect p = record detect {
    result_msg = codes "success";
    command = codes "bind_detect";
    dev_id = p.session.selected_device;
    connect_type = codes "lan";
  }

  -- `make_parents` makes the directory of a page.
  module _ (make_parents : Text → w.fs.Disk → Option w.fs.Disk) where
    -- `if (url) *url = …;`, where `page` writes the page.
    unfoldable pub notice_url :
        Bool → (w.fs.Disk → Text × w.fs.Disk) → Plugin w → Plugin w × Option Text
    notice_url false page p = (p, none)
    notice_url true page p = let (url, disk) = page p.disk in (record p { disk = disk }, some url)

    unfoldable pub get_model_publish_url : Bool → Plugin w → Plugin w × Option Text
    get_model_publish_url url p =
        notice_url url (model_publish_notice_url w.fs w.env make_parents p.config_dir_path) p

    unfoldable pub get_model_mall_home_url : Bool → Plugin w → Plugin w × Option Text
    get_model_mall_home_url url p =
        notice_url url (model_mall_home_notice_url w.fs w.env make_parents p.config_dir_path) p

    unfoldable pub get_model_mall_detail_url : Bool → Text → Plugin w → Plugin w × Option Text
    get_model_mall_detail_url url id p =
        notice_url url (model_mall_detail_notice_url w.fs w.env make_parents p.config_dir_path id) p
