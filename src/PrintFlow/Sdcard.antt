-- ===== src/PrintFlow/Sdcard.antt =====
-- `start_sdcard_print` of bambu-farm-client/cpp/print_flow.cpp.
pub mod Outcome
use bambu_farm.Base.{not, if◌then◌else◌, [], ◌∷◌}
use bambu_farm.Base.Text.{Text, codes, concat, is_empty}
use bambu_farm.Base.Int.{ℤ}
use bambu_farm.Base.Decimal.{show_int}
use bambu_farm.PrintJob.Hash.{Files}
use bambu_farm.PrintJob.Names.{basename_or_empty}
use bambu_farm.PrintJob.Resolve.{PrintParams, resolve_remote_filename, resolve_plate_metadata_path}
use bambu_farm.PrintJob.Command.{build_project_file_command}
use bambu_farm.PrintFlow.Local.{leave, unless_canceled}
use bambu_farm.PrintFlow.Calls.{
  Trace, PrintFlowDeps, Caller, create, sending, finished, error, network_success, err_canceled,
  err_send_msg_failed, diag, report_update_status, note_params, ask_cancel, do_send, is_success,
}

abbrev sdcard_name : Text
sdcard_name = codes "bambu_network_start_sdcard_print"

unfoldable pub sdcard_plate_path : PrintParams → Text
sdcard_plate_path params =
    if not (is_empty params.dst_file) then params.dst_file else resolve_plate_metadata_path params

unfoldable pub sdcard_remote_filename : Files → PrintParams → Text
sdcard_remote_filename files params =
    let remote_filename = basename_or_empty (sdcard_plate_path params) in
    if is_empty remote_filename then resolve_remote_filename files params else remote_filename

-- What follows on the result of `send_message`.
unfoldable pub finish_card : PrintFlowDeps → Caller → ℤ → Trace → ℤ × Trace
finish_card deps caller send_result t =
    let t' =
      diag deps (concat (sdcard_name ∷ codes " send_result=" ∷ show_int send_result ∷ [])) t in
    if is_success send_result
    then leave deps caller finished network_success (codes "Print submitted") network_success t'
    else leave deps caller error send_result (codes "Send failed") err_send_msg_failed t'

-- The command, on its way to the printer.
unfoldable pub send_card : PrintFlowDeps → Caller → PrintParams → Text → Text → Trace → ℤ × Trace
send_card deps caller params remote_filename plate_path t =
    let json = build_project_file_command params remote_filename plate_path in
    let (send_result, t') = do_send deps params.dev_id json (
      diag deps (concat (sdcard_name ∷ codes " command=" ∷ json ∷ [])) (
        report_update_status deps caller sending network_success (codes "Sending print command")
          t)) in
    finish_card deps caller send_result t'

unfoldable pub start_sdcard_print : PrintFlowDeps → Caller → Files → PrintParams → Trace → ℤ × Trace
start_sdcard_print deps caller files params t =
    unless_canceled deps caller
      (send_card deps caller params (sdcard_remote_filename files params)
        (sdcard_plate_path params))
      (ask_cancel caller (
        report_update_status deps caller create network_success (codes "Preparing print")
          (note_params deps sdcard_name t)))
