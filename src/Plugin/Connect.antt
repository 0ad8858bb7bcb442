-- ===== src/Plugin/Connect.antt =====
-- The functions of bambu-farm-client/cpp/api.cpp that select, connect and disconnect a printer.
use bambu_farm.Base.{Bool, true, false, if◌then◌else◌, [], ◌∷◌, ◌++◌, map}
use bambu_farm.Base.Text.{Text, codes, is_empty}
use bambu_farm.Base.Int.{ℤ, pos, int_eq}
use bambu_farm.LocalState.Selected.{
  persist_selected_device as store_selected_device, load_selected_device as stored_selected_device,
}
use bambu_farm.Session.{
  SessionState, ConnectBeginResult, start, already_connected, already_in_progress,
  load_selected_device, set_user_selected_device, begin_connect, should_ignore_disconnect,
  disconnect_target, mark_connected, mark_disconnected, claim_autoconnect_target,
  clear_after_logout,
}
use bambu_farm.Callbacks.{
  notify_user_login, remember_printer_json, dispatch_printer_available, dispatch_connected,
  dispatch_disconnected,
}
use bambu_farm.PrinterMetadata.{
  json_string_field, apply_name_override, json_matches_device, load as load_names,
}
use bambu_farm.PrintContext.{clear, load as load_contexts}
use bambu_farm.Plugin.{World, Plugin, studio, rs_connect, rs_disconnect, Handler}

-- `ConnectStatusFailed`.
abbrev pub status_failed : ℤ
status_failed = pos 1

module _ (w : World) where
  unfoldable pub persist_selected_device : Plugin w → Plugin w
  persist_selected_device p = record p {
    disk = store_selected_device w.fs w.env p.config_dir_path p.session.selected_device p.disk;
  }

  unfoldable pub load_selected_device_file : Plugin w → Plugin w
  load_selected_device_file p =
      let loaded = stored_selected_device w.fs w.env p.config_dir_path p.disk in
      if is_empty loaded then p else record p { session = load_selected_device loaded p.session }

  unfoldable pub set_config_dir : Text → Plugin w → Plugin w
  set_config_dir config_dir p =
      let p' = load_selected_device_file (record p { config_dir_path = config_dir }) in
      record p' {
        name_overrides = load_names w.fs w.env w.names_order config_dir p'.disk;
        print_contexts = load_contexts w.fs w.env w.contexts_order w.stoi config_dir p'.disk;
      }

  unfoldable pub set_lan_login_state : Bool → Bool → Handler w
  set_lan_login_state logged_in notify p = (
    record p { lan_user_logged_in = logged_in },
    if notify then map studio (notify_user_login logged_in p.callbacks) else [],
  )

  unfoldable pub change_user : Handler w
  change_user p = set_lan_login_state true true p

  -- What follows on the answer of `begin_connect`.
  unfoldable pub begun : Text → Text → SessionState × ConnectBeginResult → Handler w
  begun dev_id password (s, already_connected) p = (record p { session = s }, [])
  begun dev_id password (s, already_in_progress) p = (record p { session = s }, [])
  begun dev_id password (s, start) p =
      (persist_selected_device (record p { session = s }), rs_connect dev_id password ∷ [])

  unfoldable pub connect_printer : Text → Text → Handler w
  connect_printer dev_id password p = begun dev_id password (begin_connect dev_id p.session) p

  unfoldable pub disconnect_printer : Handler w
  disconnect_printer p =
      if should_ignore_disconnect p.session
      then (p, [])
      else if is_empty (disconnect_target p.session)
      then (p, [])
      else (p, rs_disconnect (disconnect_target p.session) ∷ [])

  -- The first half of a logout.
  unfoldable pub forget_target : Text → Handler w
  forget_target target p =
      let (contexts, disk) =
        clear w.fs w.env w.contexts_order target p.config_dir_path (p.print_contexts, p.disk) in
      if is_empty target
      then (p, [])
      else (record p { print_contexts = contexts; disk = disk }, rs_disconnect target ∷ [])

  unfoldable pub user_logout : Handler w
  user_logout p =
      let (p₁, before) = forget_target (disconnect_target p.session) p in
      let p₂ = persist_selected_device (record p₁ { session = clear_after_logout p₁.session }) in
      let (p₃, after) = set_lan_login_state false true p₂ in (p₃, before ++ after)

  unfoldable pub set_user_selected_machine : Text → Plugin w → Plugin w
  set_user_selected_machine dev_id p =
      persist_selected_device (record p { session = set_user_selected_device dev_id p.session })

  -- The end of `connect_selected_device_if_pending`.
  unfoldable pub autoconnect : SessionState × Text → Handler w
  autoconnect (s, target) p = (
    record p { session = s },
    if is_empty target
        then []
        else map studio (dispatch_connected target true p.callbacks) ++ rs_connect target [] ∷ [],
  )

  unfoldable pub connect_selected_device_if_pending : Text → Handler w
  connect_selected_device_if_pending json p =
      if json_matches_device json p.session.selected_device
      then autoconnect
          (claim_autoconnect_target (json_string_field json (codes "dev_id")) p.session) p
      else (p, [])

  unfoldable pub cb_printer_available : Text → Handler w
  cb_printer_available json p =
      let effective_json = apply_name_override json p.name_overrides in
      let dev_id = json_string_field effective_json (codes "dev_id") in
      let p₁ = record p { callbacks = remember_printer_json dev_id effective_json p.callbacks } in
      let (p₂, after) = connect_selected_device_if_pending effective_json p₁ in
      (p₂, map studio (dispatch_printer_available effective_json p₁.callbacks) ++ after)

  unfoldable pub cb_connected : Text → Handler w
  cb_connected device_id p =
      let p' = record p { session = mark_connected device_id p.session } in
      (p', map studio (dispatch_connected device_id true p'.callbacks))

  unfoldable pub cb_disconnected : Text → ℤ → Text → Handler w
  cb_disconnected device_id status message p =
      let (s, should_emit) = mark_disconnected (int_eq status status_failed) p.session in
      (
        record p { session = s },
        map studio (dispatch_disconnected status device_id message true should_emit p.callbacks),
      )
