-- ===== src/PrintFlow/Upload/Outcome.antt =====
-- What an upload to the card shows to the printer and the caller, with the code it returns.
use bambu_farm.Base.{if◌then◌else◌, [], ◌++◌, ◌≡◌, refl, ◌∙◌, Bool-cases, inl, inr}
use bambu_farm.Base.Text.{codes}
use bambu_farm.Base.Int.{ℤ}
use bambu_farm.PrintJob.Hash.{Files}
use bambu_farm.PrintJob.Resolve.{PrintParams, resolve_remote_filename}
use bambu_farm.PrintFlow.Calls.{
  Trace, PrintFlowDeps, Caller, create, upload, finished, error, network_success,
  err_print_sg_upload_ftp_failed, is_success,
}
use bambu_farm.PrintFlow.Calls.Visible.{visible, visible-nil, status, upload_of, sights}
use bambu_farm.PrintFlow.Upload.{start_send_gcode_to_sdcard, begin_upload, finish_upload}

module _ (deps : PrintFlowDeps) (caller : Caller) where
  finish_upload_sound :
      (code : ℤ) (t : Trace)
      → let r = finish_upload deps caller code t in
        (r.0 ≡ (if is_success code then network_success else err_print_sg_upload_ftp_failed))
        × (visible r.1
            ≡ visible t
              ++ (if is_success code
                  then status deps caller finished network_success (codes "Upload finished")
                  else status deps caller error code (codes "Upload failed")))
  unfolding finish_upload
  finish_upload_sound code t = elim (Bool-cases (is_success code)) [
    | inl h ↦ simp h (refl, simp sights)
    | inr h ↦ simp h (refl, simp sights)
  ]

  -- An upload to the card reports its start, makes exactly one upload, of the file to its resolved
  -- name, where there is a function for it, and then either reports the end and returns success, or
  -- reports the failure with the code of the upload and returns the upload error; it returns success
  -- just when the upload did.
  pub start_send_gcode_to_sdcard_lem :
      (files : Files) (params : PrintParams)
      → let code = (begin_upload deps caller params (resolve_remote_filename files params) []).0 in
        let r = start_send_gcode_to_sdcard deps caller files params [] in
        (r.0 ≡ (if is_success code then network_success else err_print_sg_upload_ftp_failed))
        × (visible r.1
            ≡ ((status deps caller create network_success (codes "Preparing upload")
                  ++ status deps caller upload network_success (codes "Uploading to printer"))
                ++ upload_of deps caller params.dev_id params.filename
                    (resolve_remote_filename files params)
                    code)
              ++ (if is_success code
                  then status deps caller finished network_success (codes "Upload finished")
                  else status deps caller error code (codes "Upload failed")))
  unfolding start_send_gcode_to_sdcard begin_upload
  start_send_gcode_to_sdcard_lem files params =
      ((finish_upload_sound _ _).0, (finish_upload_sound _ _).1 ∙ simp (sights, visible-nil))
