-- ===== src/Plugin/Print.antt =====
-- The prints of bambu-farm-client/cpp/api.cpp: the flows with the Rust library behind them, and the
-- record of what is printed.
use bambu_farm.Base.{◌-◌, true, false, not, ◌||◌, is_some, if◌then◌else◌, none, some, [], ◌∷◌}
use bambu_farm.Base.Text.{Text, codes, concat}
use bambu_farm.Base.Int.{ℤ, pos, negsuc}
use bambu_farm.Base.Decimal.{show_nat, show_int}
use bambu_farm.LocalState.Paths.{local_thumbnail_cache_dir}
use bambu_farm.LocalState.Contexts.{LocalPrintContext}
use bambu_farm.PrintContext.{update, SubtaskInfo, build_subtask_info, lookup_subtask_id}
use bambu_farm.PrintJob.Hash.{Files}
use bambu_farm.PrintJob.Resolve.{PrintParams}
use bambu_farm.PrintFlow.Calls.{Event, context_updated, Trace, PrintFlowDeps, Caller}
use bambu_farm.PrintFlow.Local.{start_local_print as run_local_print}
use bambu_farm.PrintFlow.Sdcard.{start_sdcard_print as run_sdcard_print}
use bambu_farm.PrintFlow.Upload.{start_send_gcode_to_sdcard as run_upload}
use bambu_farm.Plugin.{World, Plugin}

-- What the Rust library answers, after the calls that were made before, and what the probe that is
-- not set here would find.
pub record Backend : Type 0 where
  pub upload_file : Trace → Text → Text → Text → ℤ
  pub send : Trace → Text → Text → ℤ
  pub probe_report : Trace → Text → Text

-- The readings of the steady clock for the three identifiers of a print.
pub record Readings : Type 0 where
  pub project : ℤ
  pub profile : ℤ
  pub subtask : ℤ

abbrev pub print_deps : Backend → PrintFlowDeps
print_deps b = record {
  log_diag = true;
  log_print_params = true;
  log_local_file_probe = true;
  upload_file = some b.upload_file;
  send_message = some b.send;
  update_local_context = true;
  sleep_before_send = true;
  probe_report = b.probe_report;
}

abbrev pub upload_deps : Backend → PrintFlowDeps
upload_deps b = record {
  log_diag = true;
  log_print_params = true;
  log_local_file_probe = true;
  upload_file = some b.upload_file;
  send_message = none;
  update_local_context = false;
  sleep_before_send = false;
  probe_report = b.probe_report;
}

abbrev pub sdcard_deps : Backend → PrintFlowDeps
sdcard_deps b = record {
  log_diag = true;
  log_print_params = true;
  log_local_file_probe = false;
  upload_file = none;
  send_message = some b.send;
  update_local_context = false;
  sleep_before_send = false;
  probe_report = b.probe_report;
}

unfoldable pub start_send_gcode_to_sdcard : Backend → Caller → Files → PrintParams → ℤ × Trace
start_send_gcode_to_sdcard b caller files params = run_upload (upload_deps b) caller files params []

-- No wait function is passed, and none is called.
unfoldable pub start_sdcard_print : Backend → Caller → Files → PrintParams → ℤ × Trace
start_sdcard_print b caller files params = run_sdcard_print (sdcard_deps b) caller files params []

-- A plate of 1 or more counts from 0 in a context.
abbrev pub plate_of : ℤ → ℤ
plate_of (pos n) = pos (n - 1)
plate_of (negsuc n) = pos 0

module _ (w : World) where
  unfoldable pub synthetic_local_id : Text → Text → Text → ℤ → Text
  synthetic_local_id prefix dev_id remote_filename now = concat (
      prefix
      ∷ codes "-"
      ∷ show_nat
          (w.hasher (concat (dev_id ∷ codes "|" ∷ remote_filename ∷ codes "|" ∷ show_int now ∷ [])))
      ∷ [])

  unfoldable pub context_of_print : Readings → PrintParams → Text → Text → Text → LocalPrintContext
  context_of_print r params remote_filename plate_path config_dir =
      let subtask_id =
        synthetic_local_id (codes "local-subtask") params.dev_id remote_filename r.subtask in
      record {
        dev_id = params.dev_id;
        project_id =
            synthetic_local_id (codes "local-project") params.dev_id remote_filename r.project;
        profile_id =
            synthetic_local_id (codes "local-profile") params.dev_id remote_filename r.profile;
        subtask_id = subtask_id;
        task_id = subtask_id;
        remote_filename = remote_filename;
        plate_path = plate_path;
        thumbnail_url =
            w.extract_3mf_thumbnail params.filename params.plate_index
              (local_thumbnail_cache_dir w.env config_dir);
        plate_index = plate_of params.plate_index;
        active = true;
      }

  unfoldable pub update_local_print_context :
      Readings → PrintParams → Text → Text → Plugin w → Plugin w
  update_local_print_context r params remote_filename plate_path p =
      let (contexts, disk) =
        update w.fs w.env w.contexts_order
          (context_of_print r params remote_filename plate_path p.config_dir_path) p.config_dir_path
          (p.print_contexts, p.disk) in
      record p { print_contexts = contexts; disk = disk }

  -- What a call of a flow changes: only those of `update_local_context` do.
  unfoldable pub record_event : Readings → PrintParams → Event → Plugin w → Plugin w
  record_event r params (context_updated remote plate) p =
      update_local_print_context r params remote plate p
  record_event r params _ p = p

  unfoldable pub record_contexts : Readings → PrintParams → Trace → Plugin w → Plugin w
  record_contexts r params [] p = p
  record_contexts r params (e ∷ t) p = record_contexts r params t (record_event r params e p)

  unfoldable pub start_print :
      Backend → Readings → Files → Caller → PrintParams → Plugin w → Plugin w × (ℤ × Trace)
  start_print b r files caller params p =
      let answer = run_local_print (print_deps b) caller files params [] in
      (record_contexts r params answer.1 p, answer)

  unfoldable pub start_local_print_with_record :
      Backend → Readings → Files → Caller → PrintParams → Plugin w → Plugin w × (ℤ × Trace)
  start_local_print_with_record b r files caller params p = start_print b r files caller params p

  -- `nullptr` for the wait function.
  unfoldable pub start_local_print :
      Backend → Readings → Files → Caller → PrintParams → Plugin w → Plugin w × (ℤ × Trace)
  start_local_print b r files caller params p =
      start_print b r files (record caller { wait_fn = none }) params p

  -- The code, and what was stored through the pointers.
  unfoldable pub get_subtask_info : Text → Plugin w → ℤ × SubtaskInfo
  get_subtask_info subtask_id p =
      let info = build_subtask_info w.contexts_order subtask_id p.print_contexts in
      let found = is_some (lookup_subtask_id w.contexts_order subtask_id p.print_contexts) in
      (if not info.found || not found then negsuc 0 else pos 0, info)
