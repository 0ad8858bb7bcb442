-- ===== src/Plugin/Tests.antt =====
-- A day with two printers, on a disk that is a table.
use bambu_farm.PrintFlow.Local.{
  start_local_print, unless_canceled, upload_phase, finish_upload, send_command, finish_send,
  wait_phase, submitted, leave,
}
use bambu_farm.Base.{
  subst, sym, arith, true, false, if◌then◌else◌, none, some, is_some, List, [], ◌∷◌, map, ◌≡◌, refl,
  All, length,
}
use bambu_farm.Base.Text.{Text, codes, text_eq, find, starts_with}
use bambu_farm.Base.Int.{pos}
use bambu_farm.Base.Dict.{Dict, insert, lookup}
use bambu_farm.LocalState.Paths.{
  local_print_contexts_state_path, printer_names_state_path, selected_device_state_path,
}
use bambu_farm.LocalState.Table.{table, env}
use bambu_farm.PrintJob.Escape.{json_escape}
use bambu_farm.PrintJob.Ascii.{
  ends_with_case_insensitive, to_lower_ascii, lower_byte, drop_front, drop_back,
}
use bambu_farm.PrintJob.Names.{
  basename_or_empty, last_component, sanitize_remote_filename, sanitize_byte, is_forbidden,
  is_hidden_start, is_blank,
}
use bambu_farm.Base.Decimal.{show_nat, show_int, digits}
use bambu_farm.LocalState.Contexts.{LocalPrintContext, contexts_text}
use bambu_farm.LocalState.Contexts.RoundTrip.{IsTabless, IsPlainContext, ArePlain}
use bambu_farm.Plugin.Survives.{start_print_survives}
use bambu_farm.Plugin.Print.{context_of_print, synthetic_local_id}
use bambu_farm.PrintJob.Hash.{Files}
use bambu_farm.PrintJob.Resolve.{
  PrintParams, resolve_remote_filename, resolve_plate_metadata_path, resolve_by_path, source_is_3mf,
  plate_number,
}
use bambu_farm.PrintContext.Subtask.{IsAnswered}
use bambu_farm.PrintFlow.Calls.{
  Caller, network_success, ask_cancel, do_upload, do_send, update_context,
}
use bambu_farm.PrinterMetadata.{
  json_string_field, find_json_string_value_range, value_length, needle_of, apply_name_override,
  override_of,
}
use bambu_farm.Callbacks.{empty, printer_json, dispatch_printer_available}
use bambu_farm.Session.{SessionState, initial}
use bambu_farm.Session.Autoconnect.{contains}
use bambu_farm.Session.Invariant.{IsConsistent}
use bambu_farm.Plugin.{World, Plugin, loaded_on, studio}
use bambu_farm.Plugin.Connect.{set_user_selected_machine, user_logout}
use bambu_farm.Plugin.Discovery.{modify_printer_name}
use bambu_farm.Plugin.Print.{Backend, Readings, start_print, get_subtask_info}
use bambu_farm.Plugin.Run.{
  Op, configures, selects_machine, printer_available, connects_to, printer_found, printer_lost,
  user_logs_out, step, run, history_calls,
}
use bambu_farm.Plugin.History.{session-run, session-IsConsistent}
use bambu_farm.Plugin.Restart.{
  hears, connects_of, announced, restarted, restart-set_user_selected_machine,
}
use bambu_farm.Plugin.Remembered.{context_for}
use bambu_farm.LocalState.Names.{names_text}
use bambu_farm.PrinterMetadata.{set_name}
use bambu_farm.PrinterMetadata.Abstract.{announcement as rewritten}
use bambu_farm.Plugin.Aim.{IsAimed, step-IsAimed}
use bambu_farm.Plugin.Logout.{farewell, user_logout-IsFinal}
use bambu_farm.Plugin.Renaming.{modify_printer_name-dev_name, modify_printer_name_empty}
use bambu_farm.Plugin.Twice.{autoconnect_twice}

abbrev world : World
world = record {
  fs = table;
  env = env;
  names_order = record { visit = λ m. m; visit-Distinct = λ m h. h; lookup-visit = λ k m. refl };
  contexts_order = record { visit = λ m. m; visit-Distinct = λ m h. h; lookup-visit = λ k m. refl };
  stoi = λ t. some (pos 0);
  hasher = length;
  extract_3mf_thumbnail = λ filename plate cache. [];
}

abbrev dev : Text
dev = codes "01S"

abbrev announcement : Text
announcement = codes "{\"dev_id\": \"01S\", \"dev_name\": \"X1\"}"

abbrev other : Text
other = codes "{\"dev_id\": \"02P\", \"dev_name\": \"P1\"}"

abbrev fresh : Plugin world
fresh = loaded_on world []

abbrev day : List Op
day =
    configures (codes "/cfg")
    ∷ selects_machine dev
    ∷ printer_available announcement
    ∷ connects_to dev (codes "pw")
    ∷ printer_found dev
    ∷ printer_lost dev (pos 2) []
    ∷ user_logs_out
    ∷ []

session-run_example :
    (run world day fresh).0.session
    ≡ bambu_farm.Session.run fresh.session (history_calls world day fresh)
session-run_example = session-run world day fresh

session-IsConsistent_example : IsConsistent (run world day (loaded_on world [])).0.session
session-IsConsistent_example =
    session-IsConsistent world day [] (tt, (tt, (tt, (tt, (refl, (tt, (tt, tt)))))))

step-IsAimed_example :
    All
      (IsAimed fresh.session (step world (connects_to dev (codes "pw")) fresh).0.session)
      (step world (connects_to dev (codes "pw")) fresh).1
step-IsAimed_example = step-IsAimed world (connects_to dev (codes "pw")) fresh

abbrev chosen_disk : Dict Text
chosen_disk = insert (selected_device_state_path env []) dev []

restart-set_user_selected_machine_example :
    let q = restarted world [] (set_user_selected_machine world dev fresh).disk in
    (q.session.selected_device ≡ dev)
    × (hears world (other ∷ announcement ∷ announcement ∷ []) q ≡ (
        if contains dev
          (map (announced q.name_overrides) (other ∷ announcement ∷ announcement ∷ []))
        then (dev, []) ∷ []
        else []))
restart-set_user_selected_machine_example =
    restart-set_user_selected_machine world dev fresh chosen_disk
      (other ∷ announcement ∷ announcement ∷ []) refl (omega arith) refl

user_logout-IsFinal_example :
    let p = set_user_selected_machine world dev fresh in
    let p' = (user_logout world p).0 in
    let q = restarted world [] p'.disk in
    (p'.session ≡ initial)
    × (p'.lan_user_logged_in ≡ false)
    × (hears world (announcement ∷ []) p' ≡ [])
    × ((q.session ≡ initial) × (hears world (announcement ∷ []) q ≡ []))
    × ((user_logout world p).1 ≡ farewell world p)
unfolding set_user_selected_machine bambu_farm.Plugin.Connect.persist_selected_device
user_logout-IsFinal_example =
    user_logout-IsFinal world (set_user_selected_machine world dev fresh) (announcement ∷ [])

abbrev known : Plugin world
known = record fresh {
  callbacks = record empty {
    on_msg_arrived = some 7;
    last_printer_json_by_id = (dev, announcement) ∷ [];
  };
}

dev_cached : printer_json dev known.callbacks ≡ announcement
unfolding printer_json lookup text_eq
dev_cached = refl

dev_announced : json_string_field announcement (codes "dev_id") ≡ dev
unfolding json_string_field find_json_string_value_range value_length needle_of find starts_with
dev_announced = refl

name_closed : is_some (find_json_string_value_range announcement (codes "dev_name")) ≡ true
unfolding find_json_string_value_range value_length needle_of find starts_with
name_closed = refl

modify_printer_name-dev_name_example :
    let q = modify_printer_name world dev (codes "Left \"A\"") known in
    let cached = printer_json dev q.0.callbacks in
    (json_string_field cached (codes "dev_name") ≡ json_escape (codes "Left \"A\""))
    × (q.1 ≡ map studio (dispatch_printer_available cached known.callbacks))
modify_printer_name-dev_name_example =
    modify_printer_name-dev_name world dev (codes "Left \"A\"") known refl refl
      (subst (λ j. json_string_field j (codes "dev_id") ≡ dev) (sym dev_cached) dev_announced)
      (subst (λ j. is_some (find_json_string_value_range j (codes "dev_name")) ≡ true)
        (sym dev_cached) name_closed)

modify_printer_name_empty_example :
    let q = modify_printer_name world dev [] known in
    (printer_json dev q.0.callbacks ≡ printer_json dev known.callbacks)
    × (q.1
        ≡ map studio
            (dispatch_printer_available (printer_json dev known.callbacks) known.callbacks))
modify_printer_name_empty_example =
    modify_printer_name_empty world dev known refl
      (subst (λ j. json_string_field j (codes "dev_id") ≡ dev) (sym dev_cached) dev_announced)

abbrev waiting : Plugin world
waiting = record fresh {
  session = record initial { selected_device = dev; auto_connect_pending = true };
}

waiting_announced : announced waiting.name_overrides announcement ≡ dev
unfolding announced apply_name_override override_of lookup json_string_field
    find_json_string_value_range value_length needle_of find starts_with
waiting_announced = refl

autoconnect_twice_example :
    connects_of
      (run world (printer_available announcement ∷ connects_to dev (codes "pw") ∷ []) waiting).1
    ≡ (dev, []) ∷ (dev, codes "pw") ∷ []
autoconnect_twice_example =
    autoconnect_twice world dev announcement (codes "pw") waiting
      (record { pending = refl; selected = refl; named = refl })
      (record { unconnected = refl; calm = refl }) waiting_announced

abbrev backend : Backend
backend = record {
  upload_file = λ t dev_id filename remote. pos 0;
  send = λ t dev_id json. pos 0;
  probe_report = λ t path. [];
}

abbrev readings : Readings
readings = record { project = pos 1; profile = pos 2; subtask = pos 3 }

abbrev files : Files
files path = none

abbrev caller : Caller
caller = record { update_fn = true; cancel_fn = none; wait_fn = none }

abbrev job : PrintParams
job = record {
  dev_id = dev;
  task_name = codes "Part";
  project_name = [];
  filename = codes "/tmp/plate.gcode";
  plate_index = pos 1;
  ftp_file = [];
  ams_mapping = [];
  ams_mapping2 = [];
  ams_mapping_info = [];
  dst_file = [];
  task_bed_leveling = true;
  task_flow_cali = false;
  task_vibration_cali = true;
  task_layer_inspect = false;
  task_record_timelapse = true;
  task_use_ams = false;
}

printed_well : (start_print world backend readings files caller job fresh).1.0 ≡ network_success
unfolding start_print start_local_print unless_canceled ask_cancel upload_phase do_upload
    finish_upload update_context send_command do_send finish_send wait_phase submitted leave
printed_well = refl

abbrev kept : LocalPrintContext
kept = record {
  dev_id = dev;
  project_id = codes "local-project-10";
  profile_id = codes "local-profile-10";
  subtask_id = codes "local-subtask-10";
  task_id = codes "local-subtask-10";
  remote_filename = codes "Part";
  plate_path = codes "Metadata/plate_1.gcode";
  thumbnail_url = [];
  plate_index = pos 0;
  active = true;
}

context_kept : context_for world readings files job fresh ≡ kept
unfolding context_of_print synthetic_local_id resolve_remote_filename resolve_by_path source_is_3mf
    ends_with_case_insensitive to_lower_ascii lower_byte basename_or_empty last_component
    sanitize_remote_filename sanitize_byte is_forbidden is_hidden_start is_blank drop_front
    drop_back text_eq show_nat show_int digits resolve_plate_metadata_path plate_number
context_kept = refl

plate_text : show_int (pos 0) ≡ codes "0"
unfolding show_int show_nat digits
plate_text = refl

kept-IsTabless : IsTabless kept
kept-IsTabless = record {
  t0 = omega arith;
  t1 = omega arith;
  t2 = omega arith;
  t3 = omega arith;
  t4 = omega arith;
  t5 = omega arith;
  t6 = omega arith;
  t7 = tt;
  t8 = rw plate_text (omega arith);
}

kept-IsPlainContext : IsPlainContext world.stoi kept
kept-IsPlainContext = record {
  tabless = kept-IsTabless;
  on_line = rw plate_text (omega arith);
  named = refl;
  running = refl;
  counted = refl;
}

kept-ArePlain : ArePlain world.stoi (world.contexts_order.visit (insert dev kept []))
unfolding insert
kept-ArePlain = (refl, kept-IsPlainContext, tt)

abbrev printed_disk : Dict Text
printed_disk =
    insert (local_print_contexts_state_path env [])
      (contexts_text (
        insert (context_for world readings files job fresh).dev_id
          (context_for world readings files job fresh) []))
      []

start_print_survives_example :
    let c = context_for world readings files job fresh in
    let q = restarted world [] (start_print world backend readings files caller job fresh).0.disk in
    (lookup dev q.print_contexts ≡ some c)
    × ((get_subtask_info world c.subtask_id q).0 ≡ pos 0)
    × IsAnswered world.contexts_order c.subtask_id q.print_contexts
start_print_survives_example =
    start_print_survives world backend readings files caller job fresh printed_disk printed_well tt
      (subst (λ c. ArePlain world.stoi (world.contexts_order.visit (insert c.dev_id c [])))
        (sym context_kept) kept-ArePlain)
      refl

abbrev names_disk : Dict Text
names_disk =
    insert (printer_names_state_path env []) (names_text (set_name dev (codes "Left") [])) []
