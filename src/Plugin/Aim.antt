-- ===== src/Plugin/Aim.antt =====
-- Which printers the plugin asks the Rust library to connect and to disconnect.
use bambu_farm.Base.{
  ℕ, Bool, true, false, if◌then◌else◌, Option, List, [], ◌∷◌, ◌++◌, map, ◌≡◌, refl, arith, All,
  All-append, if_cases,
}
use bambu_farm.Base.Text.{Text, is_empty}
use bambu_farm.Session.{
  SessionState, ConnectBeginResult, start, already_connected, already_in_progress, begin_connect,
  claim_autoconnect_target, disconnect_target,
}
use bambu_farm.Callbacks.{
  Call, dispatch_connected, dispatch_printer_available, remember_printer_json,
}
use bambu_farm.PrintFlow.Calls.{Trace}
use bambu_farm.PrinterMetadata.{apply_name_override}
use bambu_farm.Plugin.{World, Plugin, Effect, studio, rs_connect, rs_disconnect, rs_send, printed}
use bambu_farm.Plugin.Connect.{
  begun, connect_printer, disconnect_printer, user_logout, forget_target, persist_selected_device,
  set_lan_login_state, change_user, autoconnect, connect_selected_device_if_pending,
  cb_printer_available, cb_connected, cb_disconnected,
}
use bambu_farm.Plugin.Discovery.{
  cb_message_recv, send_message_to_printer, modify_printer_name, renew_announcement, announce_again,
}
use bambu_farm.Plugin.Register.{
  registered, set_on_ssdp_msg_fn, set_on_user_login_fn, set_on_printer_connected_fn,
  set_on_server_connected_fn, set_on_message_fn, set_on_local_connect_fn, set_on_local_message_fn,
  set_on_subscribe_failure_fn, set_on_user_message_fn, set_server_callback,
}
use bambu_farm.Plugin.Run.{
  Op, configures, certifies, registers, changes_user, user_logs_out, drops, connects_to,
  selects_machine, renames, sends, prints, printer_available, message_received, printer_found,
  printer_lost, Slot, ssdp, user_login, printer_connected, server_connected, general_message,
  local_connect, local_message, subscribe_failure, user_message, server_error, register, step,
}

-- A connection is for the device that is selected after the call, and a disconnection for one with a
-- name that was selected before it.
unfoldable pub IsAimed : SessionState → SessionState → Effect → Type 0
IsAimed before after (rs_connect dev_id password) = dev_id ≡ after.selected_device
IsAimed before after (rs_disconnect dev_id) =
    (dev_id ≡ before.selected_device) × (is_empty dev_id ≡ false)
IsAimed before after (rs_send dev_id json) = Unit
IsAimed before after (studio c) = Unit
IsAimed before after (printed e) = Unit

module _ (before after : SessionState) where
  studio-IsAimed : (cs : List Call) → All (IsAimed before after) (map studio cs)
  unfolding IsAimed
  studio-IsAimed [] = tt
  studio-IsAimed (c ∷ cs) = (tt, studio-IsAimed cs)

  sent-IsAimed : (dev_id json : Text) → All (IsAimed before after) (rs_send dev_id json ∷ [])
  unfolding IsAimed
  sent-IsAimed dev_id json = (tt, tt)

  printed-IsAimed : (t : Trace) → All (IsAimed before after) (map printed t)
  unfolding IsAimed
  printed-IsAimed [] = tt
  printed-IsAimed (e ∷ t) = (tt, printed-IsAimed t)

claim_target :
    (d : Text) (s : SessionState)
    → is_empty (claim_autoconnect_target d s).1 ≡ false
    → (claim_autoconnect_target d s).1 ≡ (claim_autoconnect_target d s).0.selected_device
unfolding claim_autoconnect_target
claim_target d s h = ground (arith, h)

begin_target :
    (d : Text) (s : SessionState)
    → (begin_connect d s).1 ≡ start
    → d ≡ (begin_connect d s).0.selected_device
unfolding begin_connect
begin_target d s h = ground (arith, h)

module _ (w : World) where
  register-IsAimed :
      (slot : Slot) (fn : Option ℕ) (p : Plugin w)
      → All (IsAimed p.session (register w slot fn p).0.session) (register w slot fn p).1
  unfolding register registered set_on_ssdp_msg_fn set_on_user_login_fn set_on_printer_connected_fn
      set_on_server_connected_fn set_on_message_fn set_on_local_connect_fn set_on_local_message_fn
      set_on_subscribe_failure_fn set_on_user_message_fn set_server_callback
  register-IsAimed (ssdp visit) fn p = studio-IsAimed _ _ _
  register-IsAimed user_login fn p = studio-IsAimed _ _ _
  register-IsAimed printer_connected fn p = studio-IsAimed _ _ _
  register-IsAimed server_connected fn p = studio-IsAimed _ _ _
  register-IsAimed general_message fn p = tt
  register-IsAimed local_connect fn p = studio-IsAimed _ _ _
  register-IsAimed local_message fn p = tt
  register-IsAimed subscribe_failure fn p = tt
  register-IsAimed user_message fn p = tt
  register-IsAimed server_error fn p = tt

  begun-IsAimed :
      (before : SessionState) (dev_id password : Text) (a : SessionState × ConnectBeginResult)
      (p : Plugin w)
      → (a.1 ≡ start → dev_id ≡ a.0.selected_device)
      → All (IsAimed before (begun w dev_id password a p).0.session) (begun w dev_id password a p).1
  unfolding begun persist_selected_device IsAimed
  begun-IsAimed before dev_id password (s, already_connected) p h = tt
  begun-IsAimed before dev_id password (s, already_in_progress) p h = tt
  begun-IsAimed before dev_id password (s, start) p h = (h refl, tt)

  autoconnect-IsAimed :
      (before : SessionState) (a : SessionState × Text) (p : Plugin w)
      → (is_empty a.1 ≡ false → a.1 ≡ a.0.selected_device)
      → All (IsAimed before (autoconnect w a p).0.session) (autoconnect w a p).1
  unfolding autoconnect IsAimed
  autoconnect-IsAimed before (s, []) p h = tt
  autoconnect-IsAimed before (s, c ∷ t) p h =
      All-append (IsAimed before s) (map studio (dispatch_connected (c ∷ t) true p.callbacks))
        (rs_connect (c ∷ t) [] ∷ [])
        (studio-IsAimed before s (dispatch_connected (c ∷ t) true p.callbacks)) (h refl, tt)

  available-IsAimed :
      (before : SessionState) (matches : Bool) (d : Text) (p : Plugin w) (calls : List Call)
      → let a =
          if◌then◌else◌ {A = Plugin w × List Effect} matches
            (autoconnect w (claim_autoconnect_target d p.session) p)
            (p, []) in
        All (IsAimed before a.0.session) (map studio calls ++ a.1)
  available-IsAimed before true d p calls =
      All-append _ _ _ (studio-IsAimed _ _ calls)
        (autoconnect-IsAimed before _ p (claim_target d p.session))
  available-IsAimed before false d p calls = All-append _ _ _ (studio-IsAimed _ _ calls) tt

  disconnect-IsAimed :
      (ignored : Bool) (target : Text) (p : Plugin w)
      → target ≡ p.session.selected_device
      → let a =
          if◌then◌else◌ {A = Plugin w × List Effect} ignored
            (p, [])
            (if is_empty target then (p, []) else (p, rs_disconnect target ∷ [])) in
        All (IsAimed p.session a.0.session) a.1
  unfolding IsAimed
  disconnect-IsAimed true target p e = tt
  disconnect-IsAimed false [] p e = tt
  disconnect-IsAimed false (c ∷ t) p e = ((e, refl), tt)

  forget-IsAimed :
      (after : SessionState) (target : Text) (p : Plugin w)
      → target ≡ p.session.selected_device
      → All (IsAimed p.session after) (forget_target w target p).1
  unfolding IsAimed forget_target
  forget-IsAimed after [] p e = tt
  forget-IsAimed after (c ∷ t) p e = ((e, refl), tt)

  renew-IsAimed :
      (before : SessionState) (dev_id last_json : Text) (p : Plugin w)
      → All
          (IsAimed before (renew_announcement w dev_id last_json p).0.session)
          (renew_announcement w dev_id last_json p).1
  unfolding renew_announcement announce_again
  renew-IsAimed before dev_id [] p = tt
  renew-IsAimed before dev_id (c ∷ s) p =
      let renamed = apply_name_override (c ∷ s) p.name_overrides in
      let told =
        dispatch_printer_available renamed (remember_printer_json dev_id renamed p.callbacks) in
      if_cases (All (IsAimed before p.session)) (is_empty renamed) [] (map studio told) tt
        (studio-IsAimed before p.session told)

  -- Whatever state the plugin is in, a call of it asks the Rust library only to connect the device that
  -- is selected after the call and only to disconnect a device with a name that was selected before it.
  pub step-IsAimed :
      (op : Op) (p : Plugin w) → All (IsAimed p.session (step w op p).0.session) (step w op p).1
  unfolding step change_user set_lan_login_state user_logout persist_selected_device
      disconnect_printer connect_printer modify_printer_name send_message_to_printer
      cb_printer_available connect_selected_device_if_pending cb_message_recv cb_connected
      cb_disconnected disconnect_target
  step-IsAimed (configures config_dir) p = tt
  step-IsAimed (certifies folder filename) p = tt
  step-IsAimed (registers slot fn) p = register-IsAimed slot fn p
  step-IsAimed changes_user p = studio-IsAimed _ _ _
  step-IsAimed user_logs_out p =
      All-append _ _ _ (forget-IsAimed _ p.session.selected_device p refl) (studio-IsAimed _ _ _)
  step-IsAimed drops p = disconnect-IsAimed _ p.session.selected_device p refl
  step-IsAimed (connects_to dev_id password) p =
      begun-IsAimed p.session dev_id password _ p (begin_target dev_id p.session)
  step-IsAimed (selects_machine dev_id) p = tt
  step-IsAimed (renames dev_id dev_name) p = renew-IsAimed p.session dev_id _ _
  step-IsAimed (sends dev_id json) p = sent-IsAimed _ _ dev_id json
  step-IsAimed (prints b r files caller params) p = printed-IsAimed _ _ _
  step-IsAimed (printer_available json) p = available-IsAimed p.session _ _ _ _
  step-IsAimed (message_received dev_id message) p = studio-IsAimed _ _ _
  step-IsAimed (printer_found dev_id) p = studio-IsAimed _ _ _
  step-IsAimed (printer_lost dev_id status message) p = studio-IsAimed _ _ _
