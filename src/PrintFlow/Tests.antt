-- ===== src/PrintFlow/Tests.antt =====
-- One local print and one upload.
use bambu_farm.Base.{true, false, none, some, if◌then◌else◌, [], ◌++◌, ◌≡◌}
use bambu_farm.Base.Text.{Text, codes}
use bambu_farm.Base.Int.{ℤ, pos}
use bambu_farm.PrintJob.Hash.{Files}
use bambu_farm.PrintJob.Resolve.{PrintParams, resolve_remote_filename}
use bambu_farm.PrintFlow.Calls.{
  PrintFlowDeps, Caller, create, upload, finished, error, network_success,
  err_print_sg_upload_ftp_failed, is_success,
}
use bambu_farm.PrintFlow.Calls.Visible.{visible, status, upload_of}
use bambu_farm.PrintFlow.Local.{start_local_print}
use bambu_farm.PrintFlow.Local.Outcome.{Outcome, start_local_print-Outcome}
use bambu_farm.PrintFlow.Sdcard.{start_sdcard_print}
use bambu_farm.PrintFlow.Sdcard.Outcome.{CardOutcome, start_sdcard_print-CardOutcome}
use bambu_farm.PrintFlow.Upload.{start_send_gcode_to_sdcard, begin_upload}
use bambu_farm.PrintFlow.Upload.Outcome.{start_send_gcode_to_sdcard_lem}

abbrev job : PrintParams
job = record {
  dev_id = codes "01S";
  task_name = codes "Part";
  project_name = [];
  filename = codes "/tmp/plate.gcode";
  plate_index = pos 1;
  ftp_file = [];
  ams_mapping = [];
  ams_mapping2 = [];
  ams_mapping_info = [];
  dst_file = [];
  task_bed_leveling = true;
  task_flow_cali = false;
  task_vibration_cali = true;
  task_layer_inspect = false;
  task_record_timelapse = true;
  task_use_ams = false;
}

abbrev files : Files
files path = none

abbrev accepting : PrintFlowDeps
accepting = record {
  log_diag = true;
  log_print_params = true;
  log_local_file_probe = false;
  upload_file = some (λ t dev_id filename remote. pos 0);
  send_message = some (λ t dev_id json. pos 0);
  update_local_context = true;
  sleep_before_send = false;
  probe_report = λ t path. codes "exists=1";
}

abbrev patient : Caller
patient = record {
  update_fn = true;
  cancel_fn = some (λ t. false);
  wait_fn = some (λ t stage body. true);
}

start_local_print-Outcome_example :
    Outcome accepting patient files job
      (visible (start_local_print accepting patient files job []).1)
      (start_local_print accepting patient files job []).0
start_local_print-Outcome_example = start_local_print-Outcome accepting patient files job

abbrev remote : Text
remote = resolve_remote_filename files job

abbrev code : ℤ
code = (begin_upload accepting patient job remote []).0

start_send_gcode_to_sdcard_example :
    ((start_send_gcode_to_sdcard accepting patient files job []).0
      ≡ (if is_success code then network_success else err_print_sg_upload_ftp_failed))
    × (visible (start_send_gcode_to_sdcard accepting patient files job []).1
        ≡ ((status accepting patient create network_success (codes "Preparing upload")
              ++ status accepting patient upload network_success (codes "Uploading to printer"))
            ++ upload_of accepting patient job.dev_id job.filename remote code)
          ++ (if is_success code
              then status accepting patient finished network_success (codes "Upload finished")
              else status accepting patient error code (codes "Upload failed")))
start_send_gcode_to_sdcard_example = start_send_gcode_to_sdcard_lem accepting patient files job

start_sdcard_print-CardOutcome_example :
    CardOutcome accepting patient files job
      (visible (start_sdcard_print accepting patient files job []).1)
      (start_sdcard_print accepting patient files job []).0
start_sdcard_print-CardOutcome_example = start_sdcard_print-CardOutcome accepting patient files job
