-- ===== src/PrintFlow/Local.antt =====
-- `start_local_print` of bambu-farm-client/cpp/print_flow.cpp, phase by phase.
pub mod Outcome
use bambu_farm.Base.{Bool, true, false, if◌then◌else◌, Option, none, some, [], ◌∷◌, ◌++◌}
use bambu_farm.Base.Text.{Text, codes, concat}
use bambu_farm.Base.Int.{ℤ}
use bambu_farm.Base.Decimal.{show_int}
use bambu_farm.PrintJob.Hash.{Files}
use bambu_farm.PrintJob.Resolve.{PrintParams, resolve_remote_filename, resolve_plate_metadata_path}
use bambu_farm.PrintJob.Command.{build_project_file_command, show_bool}
use bambu_farm.PrintFlow.Calls.{
  Trace, PrintFlowDeps, Caller, Stage, create, upload, sending, wait_printer, finished, error,
  waited, network_success, err_send_msg_failed, err_timeout, err_canceled,
  err_print_lp_upload_ftp_failed, diag, report_update_status, note_params, probe, ask_cancel,
  do_upload, do_send, update_context, pause, is_success,
}

abbrev pub local_name : Text
local_name = codes "bambu_network_start_local_print"

module _ (deps : PrintFlowDeps) (caller : Caller) where
  -- Each exit reports its status and returns its code.
  unfoldable pub leave : Stage → ℤ → Text → ℤ → Trace → ℤ × Trace
  leave stage code message result t =
      (result, report_update_status deps caller stage code message t)

  unfoldable pub submitted : Trace → ℤ × Trace
  submitted t = leave finished network_success (codes "Print submitted") network_success t

  -- What follows on the answer of `wait_fn`.
  unfoldable pub finish_wait : Bool → Trace → ℤ × Trace
  finish_wait wait_ok t =
      if wait_ok then submitted t else leave error err_timeout (codes "Wait failed") err_timeout t

  -- From `if (wait_fn)` to the end.
  unfoldable pub wait_phase : Trace → ℤ × Trace
  wait_phase t = elim caller.wait_fn [
    | none ↦ submitted t
    | some f ↦
        let t₁ =
          report_update_status deps caller wait_printer network_success
            (codes "Waiting for printer") t in
        let wait_ok = f t₁ wait_printer (codes "{}") in
        let t₂ =
          diag deps (concat (local_name ∷ codes " wait_result=" ∷ show_bool wait_ok ∷ []))
            (t₁ ++ waited wait_printer (codes "{}") wait_ok ∷ []) in
        finish_wait wait_ok t₂
  ]

  -- What follows on the result of `send_message`.
  unfoldable pub finish_send : ℤ → Trace → ℤ × Trace
  finish_send send_result t =
      let t' =
        diag deps (concat (local_name ∷ codes " send_result=" ∷ show_int send_result ∷ [])) t in
      if is_success send_result
      then wait_phase t'
      else leave error send_result (codes "Send failed") err_send_msg_failed t'

  -- The command, on its way to the printer.
  unfoldable pub send_command : PrintParams → Text → Text → Trace → ℤ × Trace
  send_command params remote plate t =
      let t₁ = pause deps (
        report_update_status deps caller sending network_success (codes "Sending print command")
          t) in
      let json = build_project_file_command params remote plate in
      let (send_result, t₂) =
        do_send deps params.dev_id json
          (diag deps (concat (local_name ∷ codes " command=" ∷ json ∷ [])) t₁) in
      finish_send send_result t₂

  -- `if (cancel_fn && cancel_fn())`, in front of `rest`.
  unfoldable pub unless_canceled : (Trace → ℤ × Trace) → Bool × Trace → ℤ × Trace
  unless_canceled rest (true, t) = leave error err_canceled (codes "Canceled") err_canceled t
  unless_canceled rest (false, t) = rest t

  -- What follows on the result of `upload_file`, up to the second question for a cancellation.
  unfoldable pub finish_upload : PrintParams → Text → Text → ℤ → Trace → ℤ × Trace
  finish_upload params remote plate upload_result t =
      let t' =
        diag deps
          (concat (
            local_name
            ∷ codes " upload_result="
            ∷ show_int upload_result
            ∷ codes " remote_filename="
            ∷ remote
            ∷ codes " plate_path="
            ∷ plate
            ∷ []))
          t in
      if is_success upload_result
      then unless_canceled (send_command params remote plate)
          (ask_cancel caller (update_context deps remote plate t'))
      else leave error upload_result (codes "Upload failed") err_print_lp_upload_ftp_failed t'

  unfoldable pub upload_phase : PrintParams → Text → Text → Trace → ℤ × Trace
  upload_phase params remote plate t =
      let t₁ = probe deps local_name params.filename (
        report_update_status deps caller upload network_success (codes "Uploading to printer") t) in
      let (upload_result, t₂) = do_upload deps params.dev_id params.filename remote t₁ in
      finish_upload params remote plate upload_result t₂

  unfoldable pub start_local_print : Files → PrintParams → Trace → ℤ × Trace
  start_local_print files params t =
      unless_canceled
        (upload_phase params (resolve_remote_filename files params)
          (resolve_plate_metadata_path params))
        (ask_cancel caller (
          report_update_status deps caller create network_success (codes "Preparing print")
            (note_params deps local_name t)))
