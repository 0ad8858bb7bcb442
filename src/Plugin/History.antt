-- ===== src/Plugin/History.antt =====
-- The session of the plugin, through every history of calls.
use bambu_farm.Base.{
  ℕ, Bool, true, false, if◌then◌else◌, List, [], ◌∷◌, ◌++◌, ◌≡◌, refl, sym, ap, subst, ◌∙◌, All,
  if_cases, All-append, Option,
}
use bambu_farm.Base.Text.{Text, codes, is_empty}
use bambu_farm.PrintJob.Resolve.{PrintParams}
use bambu_farm.PrintFlow.Calls.{
  Event, Trace, logged, params_logged, probed, status_updated, cancel_asked, uploaded,
  context_updated, slept, sent, waited,
}
use bambu_farm.PrinterMetadata.{json_string_field, json_matches_device}
use bambu_farm.Session.{
  SessionState, Call, ConnectBeginResult, begin_connect, initial, connects, loads, claims,
  claim_autoconnect_target, start, already_connected, already_in_progress,
}
use bambu_farm.Session.Invariant.{IsConsistent, IsNamed, run-initial-IsConsistent}
use bambu_farm.Plugin.{World, Plugin, loaded_on, Effect}
use bambu_farm.Plugin.Connect.{
  set_config_dir, load_selected_device_file, change_user, set_lan_login_state, connect_printer,
  begun, disconnect_printer, user_logout, forget_target, set_user_selected_machine,
  persist_selected_device, cb_printer_available, connect_selected_device_if_pending, autoconnect,
  cb_connected, cb_disconnected,
}
use bambu_farm.Plugin.Discovery.{
  cb_message_recv, send_message_to_printer, modify_printer_name, renew_announcement, announce_again,
  store_name,
}
use bambu_farm.Plugin.Register.{
  registered, set_on_ssdp_msg_fn, set_on_user_login_fn, set_on_printer_connected_fn,
  set_on_server_connected_fn, set_on_message_fn, set_on_local_connect_fn, set_on_local_message_fn,
  set_on_subscribe_failure_fn, set_on_user_message_fn, set_server_callback,
}
use bambu_farm.Plugin.Print.{
  Readings, record_event, record_contexts, update_local_print_context, start_print,
}
use bambu_farm.Plugin.Answers.{set_cert_file}
use bambu_farm.Plugin.Run.{
  Op, configures, certifies, registers, changes_user, user_logs_out, drops, connects_to,
  selects_machine, renames, sends, prints, printer_available, message_received, printer_found,
  printer_lost, Slot, ssdp, user_login, printer_connected, server_connected, general_message,
  local_connect, local_message, subscribe_failure, user_message, server_error, register, step, run,
  session_calls, history_calls,
}

-- The Rust library reports connections of named devices only.
abbrev pub ReportsNamed : Op → Type 0
ReportsNamed (printer_found dev_id) = is_empty dev_id ≡ false
ReportsNamed _ = Unit

module _ (w : World) where
  session-register :
      (slot : Slot) (fn : Option ℕ) (p : Plugin w) → (register w slot fn p).0.session ≡ p.session
  unfolding register registered set_on_ssdp_msg_fn set_on_user_login_fn set_on_printer_connected_fn
      set_on_server_connected_fn set_on_message_fn set_on_local_connect_fn set_on_local_message_fn
      set_on_subscribe_failure_fn set_on_user_message_fn set_server_callback
  session-register (ssdp visit) fn p = refl
  session-register user_login fn p = refl
  session-register printer_connected fn p = refl
  session-register server_connected fn p = refl
  session-register general_message fn p = refl
  session-register local_connect fn p = refl
  session-register local_message fn p = refl
  session-register subscribe_failure fn p = refl
  session-register user_message fn p = refl
  session-register server_error fn p = refl

  session-load :
      (loaded : Text) (p : Plugin w)
      → (if is_empty loaded then p else record p {
        session = bambu_farm.Session.load_selected_device loaded p.session;
      }).session
        ≡ bambu_farm.Session.run p.session
            (if is_empty loaded then [] else bambu_farm.Session.loads loaded ∷ [])
  unfolding bambu_farm.Session.run bambu_farm.Session.step
  session-load [] p = refl
  session-load (c ∷ s) p = refl

  session-begun :
      (dev_id password : Text) (a : SessionState × ConnectBeginResult) (p : Plugin w)
      → (begun w dev_id password a p).0.session ≡ a.0
  unfolding begun persist_selected_device
  session-begun dev_id password (s, already_connected) p = refl
  session-begun dev_id password (s, already_in_progress) p = refl
  session-begun dev_id password (s, start) p = refl

  session-record_event :
      (r : Readings) (params : PrintParams) (e : Event) (p : Plugin w)
      → (record_event w r params e p).session ≡ p.session
  unfolding record_event update_local_print_context
  session-record_event r params (context_updated remote plate) p = refl
  session-record_event r params (logged a) p = refl
  session-record_event r params (params_logged a) p = refl
  session-record_event r params (probed a b) p = refl
  session-record_event r params (status_updated a b c) p = refl
  session-record_event r params (cancel_asked a) p = refl
  session-record_event r params (uploaded a b c d) p = refl
  session-record_event r params slept p = refl
  session-record_event r params (sent a b c) p = refl
  session-record_event r params (waited a b c) p = refl

  session-record_contexts :
      (r : Readings) (params : PrintParams) (t : Trace) (p : Plugin w)
      → (record_contexts w r params t p).session ≡ p.session
  unfolding record_contexts
  session-record_contexts r params [] p = refl
  session-record_contexts r params (e ∷ t) p =
      session-record_contexts r params t (record_event w r params e p)
      ∙ session-record_event r params e p

  session-forget_target :
      (target : Text) (p : Plugin w) → (forget_target w target p).0.session ≡ p.session
  unfolding forget_target
  session-forget_target [] p = refl
  session-forget_target (c ∷ s) p = refl

  session-renew :
      (dev_id last_json : Text) (p : Plugin w)
      → (renew_announcement w dev_id last_json p).0.session ≡ p.session
  unfolding renew_announcement announce_again
  session-renew dev_id [] p = refl
  session-renew dev_id (c ∷ s) p = refl

  session-if_autoconnect :
      (matches : Bool) (d : Text) (p : Plugin w)
      → (if matches
          then autoconnect w (claim_autoconnect_target d p.session) p
          else (p, [])).0.session
        ≡ bambu_farm.Session.run p.session (if matches then claims d ∷ [] else [])
  unfolding autoconnect bambu_farm.Session.run bambu_farm.Session.step
  session-if_autoconnect true d p = refl
  session-if_autoconnect false d p = refl

  session-disconnect :
      (ignored no_target : Bool) (p : Plugin w) (calls : List Effect)
      → (if◌then◌else◌ {A = Plugin w × List Effect} ignored
          (p, [])
          (if no_target then (p, []) else (p, calls))).0.session
        ≡ p.session
  session-disconnect true no_target p calls = refl
  session-disconnect false true p calls = refl
  session-disconnect false false p calls = refl

  session-connect_if_pending :
      (json : Text) (p : Plugin w)
      → (connect_selected_device_if_pending w json p).0.session
        ≡ bambu_farm.Session.run p.session (
            if json_matches_device json p.session.selected_device
            then claims (json_string_field json (codes "dev_id")) ∷ []
            else [])
  unfolding connect_selected_device_if_pending
  session-connect_if_pending json p = session-if_autoconnect _ _ p

  -- What one call makes of the session is what its calls of the session state make of it.
  session-step :
      (op : Op) (p : Plugin w)
      → (step w op p).0.session ≡ bambu_farm.Session.run p.session (session_calls w op p)
  unfolding step session_calls set_config_dir load_selected_device_file set_cert_file change_user
      set_lan_login_state user_logout persist_selected_device disconnect_printer connect_printer
      set_user_selected_machine modify_printer_name send_message_to_printer start_print
      cb_printer_available cb_message_recv cb_connected cb_disconnected bambu_farm.Session.run
      bambu_farm.Session.step store_name
  session-step (configures config_dir) p =
      session-load _ (record p { config_dir_path = config_dir })
  session-step (certifies folder filename) p = refl
  session-step (registers slot fn) p = session-register slot fn p
  session-step changes_user p = refl
  session-step user_logs_out p =
      ap bambu_farm.Session.clear_after_logout
        (session-forget_target (bambu_farm.Session.disconnect_target p.session) p)
  session-step drops p = session-disconnect _ _ p _
  session-step (connects_to dev_id password) p = session-begun dev_id password _ p
  session-step (selects_machine dev_id) p = refl
  session-step (renames dev_id dev_name) p = session-renew dev_id _ _
  session-step (sends dev_id json) p = refl
  session-step (prints b r files caller params) p = session-record_contexts r params _ p
  session-step (printer_available json) p = session-connect_if_pending _ _
  session-step (message_received dev_id message) p = refl
  session-step (printer_found dev_id) p = refl
  session-step (printer_lost dev_id status message) p = refl

  session_run-append :
      (s : SessionState) (cs ds : List Call)
      → bambu_farm.Session.run s (cs ++ ds)
        ≡ bambu_farm.Session.run (bambu_farm.Session.run s cs) ds
  unfolding bambu_farm.Session.run
  session_run-append s [] ds = refl
  session_run-append s (c ∷ cs) ds = session_run-append (bambu_farm.Session.step s c) cs ds

  -- Through every history of calls, the session that the plugin holds is the one that the session state
  -- reaches by the calls that the history makes of it: no other function of the plugin changes it.
  pub session-run :
      (ops : List Op) (p : Plugin w)
      → (run w ops p).0.session ≡ bambu_farm.Session.run p.session (history_calls w ops p)
  unfolding run history_calls
  session-run [] p = unfold bambu_farm.Session.run in refl
  session-run (op ∷ ops) p =
      session-run ops (step w op p).0
      ∙ ap (λ s. bambu_farm.Session.run s (history_calls w ops (step w op p).0)) (session-step op p)
      ∙ sym (session_run-append p.session (session_calls w op p) _)

  calls-IsNamed : (op : Op) (p : Plugin w) → ReportsNamed op → All IsNamed (session_calls w op p)
  unfolding session_calls
  calls-IsNamed (printer_found dev_id) p n = (n, tt)
  calls-IsNamed (configures config_dir) p n = if_cases (All IsNamed) _ [] (loads _ ∷ []) tt (tt, tt)
  calls-IsNamed (certifies folder filename) p n = tt
  calls-IsNamed (registers slot fn) p n = tt
  calls-IsNamed changes_user p n = tt
  calls-IsNamed user_logs_out p n = (tt, tt)
  calls-IsNamed drops p n = tt
  calls-IsNamed (connects_to dev_id password) p n = (tt, tt)
  calls-IsNamed (selects_machine dev_id) p n = (tt, tt)
  calls-IsNamed (renames dev_id dev_name) p n = tt
  calls-IsNamed (sends dev_id json) p n = tt
  calls-IsNamed (prints b r files caller params) p n = tt
  calls-IsNamed (printer_available json) p n =
      if_cases (All IsNamed) _ (claims _ ∷ []) [] (tt, tt) tt
  calls-IsNamed (message_received dev_id message) p n = tt
  calls-IsNamed (printer_lost dev_id status message) p n = (tt, tt)

  history-IsNamed :
      (ops : List Op) (p : Plugin w) → All ReportsNamed ops → All IsNamed (history_calls w ops p)
  unfolding history_calls
  history-IsNamed [] p n = tt
  history-IsNamed (op ∷ ops) p (n, ns) =
      All-append IsNamed _ _ (calls-IsNamed op p n) (history-IsNamed ops (step w op p).0 ns)

  -- After every history of a plugin that was loaded on any disk, if only named devices were reported as
  -- connected, the session is not connected and connecting at once, and an automatic connection is
  -- pending only for a device with a name.
  pub session-IsConsistent :
      (ops : List Op) (disk : w.fs.Disk)
      → All ReportsNamed ops
      → IsConsistent (run w ops (loaded_on w disk)).0.session
  session-IsConsistent ops disk n = subst IsConsistent (sym (session-run ops (loaded_on w disk))) (
      run-initial-IsConsistent (history_calls w ops (loaded_on w disk))
        (history-IsNamed ops (loaded_on w disk) n))
