-- ===== src/Plugin/Register.antt =====
-- The functions of bambu-farm-client/cpp/api.cpp with which Bambu Studio registers its callbacks.
use bambu_farm.Base.{ℕ, true, Option, List, [], map}
use bambu_farm.Base.Text.{Text}
use bambu_farm.Base.Dict.{Dict}
use bambu_farm.Session.{connected_selected_device}
use bambu_farm.Callbacks.{
  CallbackRegistry, Call, set_ssdp_callback, set_user_login_callback,
  set_printer_connected_callback, set_server_connected_callback, set_message_callback,
  set_local_connect_callback, set_local_message_callback, set_subscribe_failure_callback,
  set_user_message_callback, set_server_error_callback,
}
use bambu_farm.Plugin.{World, Plugin, Effect, studio, Handler}

module _ (w : World) where
  -- The new registry, and the calls that its method made.
  unfoldable pub registered : Plugin w → CallbackRegistry × List Call → Plugin w × List Effect
  registered p (r, calls) = (record p { callbacks = r }, map studio calls)

  -- `visit` is the order of the replay.
  unfoldable pub set_on_ssdp_msg_fn : (Dict Text → Dict Text) → Option ℕ → Handler w
  set_on_ssdp_msg_fn visit fn p = registered p (set_ssdp_callback visit fn true true p.callbacks)

  unfoldable pub set_on_user_login_fn : Option ℕ → Handler w
  set_on_user_login_fn fn p =
      registered p (set_user_login_callback fn p.lan_user_logged_in true p.callbacks)

  unfoldable pub set_on_printer_connected_fn : Option ℕ → Handler w
  set_on_printer_connected_fn fn p =
      registered p
        (set_printer_connected_callback fn (connected_selected_device p.session) true p.callbacks)

  unfoldable pub set_on_server_connected_fn : Option ℕ → Handler w
  set_on_server_connected_fn fn p = registered p (set_server_connected_callback fn true p.callbacks)

  unfoldable pub set_on_message_fn : Option ℕ → Handler w
  set_on_message_fn fn p = registered p (set_message_callback fn p.callbacks, [])

  unfoldable pub set_on_local_connect_fn : Option ℕ → Handler w
  set_on_local_connect_fn fn p =
      registered p
        (set_local_connect_callback fn (connected_selected_device p.session) true p.callbacks)

  unfoldable pub set_on_local_message_fn : Option ℕ → Handler w
  set_on_local_message_fn fn p = registered p (set_local_message_callback fn p.callbacks, [])

  unfoldable pub set_on_subscribe_failure_fn : Option ℕ → Handler w
  set_on_subscribe_failure_fn fn p =
      registered p (set_subscribe_failure_callback fn p.callbacks, [])

  unfoldable pub set_on_user_message_fn : Option ℕ → Handler w
  set_on_user_message_fn fn p = registered p (set_user_message_callback fn p.callbacks, [])

  unfoldable pub set_server_callback : Option ℕ → Handler w
  set_server_callback fn p = registered p (set_server_error_callback fn p.callbacks, [])
