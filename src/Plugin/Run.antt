-- ===== src/Plugin/Run.antt =====
-- Histories of the plugin: the calls of bambu-farm-client/cpp/api.cpp that change it, one after the
-- other. A function of Bambu Studio that a call leads to may call the plugin back before it returns;
-- such a call stands behind the one that led to it.
use bambu_farm.Base.{ℕ, Option, if◌then◌else◌, List, [], ◌∷◌, ◌++◌, map}
use bambu_farm.Base.Text.{Text, codes, is_empty}
use bambu_farm.Base.Int.{ℤ, int_eq}
use bambu_farm.Base.Dict.{Dict}
use bambu_farm.LocalState.Selected.{load_selected_device as stored_selected_device}
use bambu_farm.PrintJob.Hash.{Files}
use bambu_farm.PrintJob.Resolve.{PrintParams}
use bambu_farm.PrintFlow.Calls.{Caller}
use bambu_farm.PrinterMetadata.{json_string_field, json_matches_device, apply_name_override}
use bambu_farm.Session.{loads, selects, begins, connects, claims, disconnects, logs_out}
use bambu_farm.Plugin.{World, Plugin, printed, Handler}
use bambu_farm.Plugin.Connect.{
  set_config_dir, change_user, connect_printer, disconnect_printer, user_logout,
  set_user_selected_machine, cb_printer_available, cb_connected, cb_disconnected, status_failed,
}
use bambu_farm.Plugin.Discovery.{cb_message_recv, send_message_to_printer, modify_printer_name}
use bambu_farm.Plugin.Register.{
  set_on_ssdp_msg_fn, set_on_user_login_fn, set_on_printer_connected_fn, set_on_server_connected_fn,
  set_on_message_fn, set_on_local_connect_fn, set_on_local_message_fn, set_on_subscribe_failure_fn,
  set_on_user_message_fn, set_server_callback,
}
use bambu_farm.Plugin.Print.{Backend, Readings, start_print}
use bambu_farm.Plugin.Answers.{set_cert_file}

-- Which callback is registered.
pub data Slot : Type 0 where
  ssdp : (Dict Text → Dict Text) → Slot
  user_login printer_connected server_connected general_message : Slot
  local_connect local_message subscribe_failure user_message server_error : Slot

pub data Op : Type 0 where
  configures : Text → Op
  certifies : Text → Text → Op
  registers : Slot → Option ℕ → Op
  changes_user user_logs_out drops : Op
  connects_to : Text → Text → Op
  selects_machine : Text → Op
  renames : Text → Text → Op
  sends : Text → Text → Op
  prints : Backend → Readings → Files → Caller → PrintParams → Op
  printer_available : Text → Op
  message_received : Text → Text → Op
  printer_found : Text → Op
  printer_lost : Text → ℤ → Text → Op

module _ (w : World) where
  unfoldable pub register : Slot → Option ℕ → Handler w
  register (ssdp visit) fn = set_on_ssdp_msg_fn w visit fn
  register user_login fn = set_on_user_login_fn w fn
  register printer_connected fn = set_on_printer_connected_fn w fn
  register server_connected fn = set_on_server_connected_fn w fn
  register general_message fn = set_on_message_fn w fn
  register local_connect fn = set_on_local_connect_fn w fn
  register local_message fn = set_on_local_message_fn w fn
  register subscribe_failure fn = set_on_subscribe_failure_fn w fn
  register user_message fn = set_on_user_message_fn w fn
  register server_error fn = set_server_callback w fn

  unfoldable pub step : Op → Handler w
  step (configures config_dir) p = (set_config_dir w config_dir p, [])
  step (certifies folder filename) p = (set_cert_file w folder filename p, [])
  step (registers slot fn) p = register slot fn p
  step changes_user p = change_user w p
  step user_logs_out p = user_logout w p
  step drops p = disconnect_printer w p
  step (connects_to dev_id password) p = connect_printer w dev_id password p
  step (selects_machine dev_id) p = (set_user_selected_machine w dev_id p, [])
  step (renames dev_id dev_name) p = modify_printer_name w dev_id dev_name p
  step (sends dev_id json) p = send_message_to_printer w dev_id json p
  step (prints b r files caller params) p =
      let (p', answer) = start_print w b r files caller params p in (p', map printed answer.1)
  step (printer_available json) p = cb_printer_available w json p
  step (message_received dev_id message) p = cb_message_recv w dev_id message p
  step (printer_found dev_id) p = cb_connected w dev_id p
  step (printer_lost dev_id status message) p = cb_disconnected w dev_id status message p

  unfoldable pub run : List Op → Handler w
  run [] p = (p, [])
  run (op ∷ ops) p = let (p₁, now) = step op p in let (p₂, later) = run ops p₁ in (p₂, now ++ later)

  -- The calls of the session state that one call of the plugin makes and that may change it.
  unfoldable pub session_calls : Op → Plugin w → List bambu_farm.Session.Call
  session_calls (configures config_dir) p =
      let loaded = stored_selected_device w.fs w.env config_dir p.disk in
      if is_empty loaded then [] else loads loaded ∷ []
  session_calls user_logs_out p = logs_out ∷ []
  session_calls (connects_to dev_id password) p = begins dev_id ∷ []
  session_calls (selects_machine dev_id) p = selects dev_id ∷ []
  session_calls (printer_available json) p =
      let effective_json = apply_name_override json p.name_overrides in
      if json_matches_device effective_json p.session.selected_device
      then claims (json_string_field effective_json (codes "dev_id")) ∷ []
      else []
  session_calls (printer_found dev_id) p = connects dev_id ∷ []
  session_calls (printer_lost dev_id status message) p =
      disconnects (int_eq status status_failed) ∷ []
  session_calls _ p = []

  -- Those of a whole history.
  unfoldable pub history_calls : List Op → Plugin w → List bambu_farm.Session.Call
  history_calls [] p = []
  history_calls (op ∷ ops) p = session_calls op p ++ history_calls ops (step op p).0
