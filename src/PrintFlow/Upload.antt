-- ===== src/PrintFlow/Upload.antt =====
-- `start_send_gcode_to_sdcard` of bambu-farm-client/cpp/print_flow.cpp.
pub mod Outcome
use bambu_farm.Base.{if◌then◌else◌, [], ◌∷◌}
use bambu_farm.Base.Text.{Text, codes, concat}
use bambu_farm.Base.Int.{ℤ}
use bambu_farm.Base.Decimal.{show_int}
use bambu_farm.PrintJob.Hash.{Files}
use bambu_farm.PrintJob.Resolve.{PrintParams, resolve_remote_filename}
use bambu_farm.PrintFlow.Calls.{
  Trace, PrintFlowDeps, Caller, create, upload, finished, error, network_success,
  err_print_sg_upload_ftp_failed, diag, report_update_status, note_params, probe, do_upload,
  is_success,
}

abbrev pub upload_name : Text
upload_name = codes "bambu_network_start_send_gcode_to_sdcard"

-- What follows on the result of `upload_file`.
unfoldable pub finish_upload : PrintFlowDeps → Caller → ℤ → Trace → ℤ × Trace
finish_upload deps caller upload_result t =
    if is_success upload_result
    then (
      network_success,
      report_update_status deps caller finished network_success (codes "Upload finished") t,
    )
    else (
      err_print_sg_upload_ftp_failed,
      report_update_status deps caller error upload_result (codes "Upload failed") t,
    )

-- The steps up to the result of `upload_file`.
unfoldable pub begin_upload : PrintFlowDeps → Caller → PrintParams → Text → Trace → ℤ × Trace
begin_upload deps caller params remote t = do_upload deps params.dev_id params.filename remote (
    probe deps upload_name params.filename (
      report_update_status deps caller upload network_success (codes "Uploading to printer") (
        report_update_status deps caller create network_success (codes "Preparing upload")
          (note_params deps upload_name t))))

unfoldable pub start_send_gcode_to_sdcard :
    PrintFlowDeps → Caller → Files → PrintParams → Trace → ℤ × Trace
start_send_gcode_to_sdcard deps caller files params t =
    let remote = resolve_remote_filename files params in
    let (upload_result, t') = begin_upload deps caller params remote t in
    finish_upload deps caller upload_result (
      diag deps
        (concat (
          upload_name
          ∷ codes " upload_result="
          ∷ show_int upload_result
          ∷ codes " remote_filename="
          ∷ remote
          ∷ []))
        t')
