-- ===== src/PrintFlow/Calls.antt =====
-- The calls that a flow makes, and the helpers of bambu-farm-client/cpp/print_flow.cpp that make
-- them.
pub mod Visible
use bambu_farm.Base.{ℕ, Bool, true, false, if◌then◌else◌, Option, none, some, List, [], ◌∷◌, ◌++◌}
use bambu_farm.Base.Text.{Text, codes, concat}
use bambu_farm.Base.Int.{ℤ, pos, negsuc, int_eq}
use bambu_farm.Base.Decimal.{show_nat, show_int}
use bambu_farm.PrintJob.Resolve.{PrintParams}
use bambu_farm.PrintJob.Command.{show_bool}

-- `BBL::SendingPrintJobStage`.
pub data Stage : Type 0 where
  create upload waiting sending record_stage wait_printer finished error limit : Stage

abbrev pub stage_number : Stage → ℕ
stage_number create = 0
stage_number upload = 1
stage_number waiting = 2
stage_number sending = 3
stage_number record_stage = 4
stage_number wait_printer = 5
stage_number finished = 6
stage_number error = 7
stage_number limit = 8

-- The `BAMBU_NETWORK_…` codes that the flows use.
abbrev pub network_success : ℤ
network_success = pos 0

abbrev pub err_send_msg_failed : ℤ
err_send_msg_failed = negsuc 3

abbrev pub err_timeout : ℤ
err_timeout = negsuc 16

abbrev pub err_canceled : ℤ
err_canceled = negsuc 17

abbrev pub err_print_lp_upload_ftp_failed : ℤ
err_print_lp_upload_ftp_failed = negsuc 4019

abbrev pub err_print_sg_upload_ftp_failed : ℤ
err_print_sg_upload_ftp_failed = negsuc 5009

-- A call that the flow made, with the answer where there is one.
pub data Event : Type 0 where
  logged : Text → Event
  params_logged : Text → Event
  probed : Text → Text → Event
  status_updated : Stage → ℤ → Text → Event
  cancel_asked : Bool → Event
  uploaded : Text → Text → Text → ℤ → Event
  context_updated : Text → Text → Event
  slept : Event
  sent : Text → Text → ℤ → Event
  waited : Stage → Text → Bool → Event

abbrev pub Trace : Type 0
Trace = List Event

-- `PrintFlowDeps`: a function that may be null is an `Option`, or a flag where it answers nothing.
-- `probe_report` is what the default probe finds out about a path.
pub record PrintFlowDeps : Type 0 where
  pub log_diag : Bool
  pub log_print_params : Bool
  pub log_local_file_probe : Bool
  pub upload_file : Option (Trace → Text → Text → Text → ℤ)
  pub send_message : Option (Trace → Text → Text → ℤ)
  pub update_local_context : Bool
  pub sleep_before_send : Bool
  pub probe_report : Trace → Text → Text

-- `OnUpdateStatusFn`, `WasCancelledFn` and `OnWaitFn`.
pub record Caller : Type 0 where
  pub update_fn : Bool
  pub cancel_fn : Option (Trace → Bool)
  pub wait_fn : Option (Trace → Stage → Text → Bool)

unfoldable pub diag : PrintFlowDeps → Text → Trace → Trace
diag deps message t = if deps.log_diag then t ++ logged message ∷ [] else t

unfoldable pub report_update_status : PrintFlowDeps → Caller → Stage → ℤ → Text → Trace → Trace
report_update_status deps caller status code message t =
    let t' =
      diag deps
        (concat (
          codes "report_update_status: status="
          ∷ show_nat (stage_number status)
          ∷ codes " code="
          ∷ show_int code
          ∷ codes " message="
          ∷ message
          ∷ codes " callback="
          ∷ (if caller.update_fn then codes "set" else codes "null")
          ∷ []))
        t in
    if caller.update_fn then t' ++ status_updated status code message ∷ [] else t'

-- `if (deps.log_print_params) deps.log_print_params(context, params);`
unfoldable pub note_params : PrintFlowDeps → Text → Trace → Trace
note_params deps context t = if deps.log_print_params then t ++ params_logged context ∷ [] else t

-- The probe that is set, or `log_local_file_probe_default`.
unfoldable pub probe : PrintFlowDeps → Text → Text → Trace → Trace
probe deps context path t =
    if deps.log_local_file_probe
    then t ++ probed context path ∷ []
    else diag deps (concat (context ∷ codes " local_file_probe=" ∷ deps.probe_report t path ∷ [])) t

-- `cancel_fn && cancel_fn()`.
unfoldable pub ask_cancel : Caller → Trace → Bool × Trace
ask_cancel caller t = elim caller.cancel_fn [
  | none ↦ (false, t)
  | some f ↦ (f t, t ++ cancel_asked (f t) ∷ [])
]

-- `deps.upload_file ? deps.upload_file(…) : -1`.
unfoldable pub do_upload : PrintFlowDeps → Text → Text → Text → Trace → ℤ × Trace
do_upload deps dev_id filename remote t = elim deps.upload_file [
  | none ↦ (negsuc 0, t)
  | some f ↦ (
    f t dev_id filename remote,
    t ++ uploaded dev_id filename remote (f t dev_id filename remote) ∷ [],
  )
]

-- `deps.send_message ? deps.send_message(…) : -1`.
unfoldable pub do_send : PrintFlowDeps → Text → Text → Trace → ℤ × Trace
do_send deps dev_id json t = elim deps.send_message [
  | none ↦ (negsuc 0, t)
  | some f ↦ (f t dev_id json, t ++ sent dev_id json (f t dev_id json) ∷ [])
]

unfoldable pub update_context : PrintFlowDeps → Text → Text → Trace → Trace
update_context deps remote plate t =
    if deps.update_local_context then t ++ context_updated remote plate ∷ [] else t

-- The sleep that is set, or the default second.
unfoldable pub pause : PrintFlowDeps → Trace → Trace
pause deps t = if deps.sleep_before_send then t ++ slept ∷ [] else t

abbrev pub is_success : ℤ → Bool
is_success code = int_eq code network_success
