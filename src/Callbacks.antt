-- ===== src/Callbacks.antt =====
-- bambu-farm-client/cpp/callback_registry.cpp: the callbacks that Bambu Studio registers, and the
-- last announcement of each printer. A registered function is a number, a null function is `none`;
-- what a method does is its new state and the calls that it makes, in order. The state is read and
-- written under the mutex, the calls are made outside it, so the calls of one method go to the
-- functions that were registered when it took the lock.
mod Tests
pub mod Replay
pub mod Late
pub mod Delivery
use mathlib.Core.List.{flat_map}
use bambu_farm.Base.{
  ℕ, Bool, true, false, not, ◌&&◌, ◌||◌, if◌then◌else◌, Option, none, some, is_some, List, [], ◌∷◌,
  ◌++◌,
}
use bambu_farm.Base.Text.{Text, codes, is_empty}
use bambu_farm.Base.Int.{ℤ, pos}
use bambu_farm.Base.Dict.{Dict, lookup, insert}

pub record CallbackRegistry : Type 0 where
  pub on_msg_arrived : Option ℕ
  pub on_local_connect : Option ℕ
  pub on_message : Option ℕ
  pub on_mqtt_message : Option ℕ
  pub on_user_message : Option ℕ
  pub on_printer_connected : Option ℕ
  pub on_server_connected : Option ℕ
  pub on_server_error : Option ℕ
  pub on_user_login : Option ℕ
  pub on_subscribe_failure : Option ℕ
  pub last_printer_json_by_id : Dict Text

abbrev pub empty : CallbackRegistry
empty = record {
  on_msg_arrived = none;
  on_local_connect = none;
  on_message = none;
  on_mqtt_message = none;
  on_user_message = none;
  on_printer_connected = none;
  on_server_connected = none;
  on_server_error = none;
  on_user_login = none;
  on_subscribe_failure = none;
  last_printer_json_by_id = [];
}

-- A call of a registered function, of the log or of the discovery refresh.
pub data Call : Type 0 where
  msg_arrived : ℕ → Text → Call
  user_login : ℕ → ℕ → Bool → Call
  printer_connected : ℕ → Text → Call
  server_connected : ℕ → ℤ → ℤ → Call
  local_connected : ℕ → ℤ → Text → Text → Call
  message_arrived : ℕ → Text → Text → Call
  logged : Text → Call
  refreshed : Call

abbrev pub log_if : Bool → Text → List Call
log_if log_fn message = if log_fn then logged message ∷ [] else []

-- What follows where a function is set.
abbrev pub if_set : Option ℕ → (ℕ → List Call) → List Call
if_set none calls = []
if_set (some f) calls = calls f

-- One device of the replay.
unfoldable pub replay_one : Bool → ℕ → Text × Text → List Call
replay_one log_fn f (dev_id, json) =
    log_if log_fn (codes "bambu_network_set_on_ssdp_msg_fn: replay dev_id=" ++ dev_id)
    ++ msg_arrived f json ∷ []

-- `visit` is the order in which a loop over an `unordered_map` meets its entries.
unfoldable pub set_ssdp_callback :
    (Dict Text → Dict Text)
    → Option ℕ
    → Bool
    → Bool
    → CallbackRegistry
    → CallbackRegistry × List Call
set_ssdp_callback visit fn log_fn refresh_fn r = (
  record r { on_msg_arrived = fn },
  log_if log_fn (
        codes "bambu_network_set_on_ssdp_msg_fn: callback="
        ++ (if is_some fn then codes "set" else codes "null"))
      ++ if_set fn (λ f.
        flat_map (replay_one log_fn f) (visit r.last_printer_json_by_id)
        ++ (log_if log_fn
              (codes "bambu_network_set_on_ssdp_msg_fn: requesting Rust discovery refresh")
            ++ (if refresh_fn then refreshed ∷ [] else []))),
)

unfoldable pub set_user_login_callback :
    Option ℕ → Bool → Bool → CallbackRegistry → CallbackRegistry × List Call
set_user_login_callback fn logged_in log_fn r = (
  record r { on_user_login = fn },
  if_set fn (λ f.
      log_if log_fn (codes "bambu_network_set_on_user_login_fn: signaling current LAN login state")
      ++ user_login f 0 logged_in ∷ []),
)

unfoldable pub notify_user_login : Bool → CallbackRegistry → List Call
notify_user_login logged_in r = if_set r.on_user_login (λ f. user_login f 0 logged_in ∷ [])

unfoldable pub set_printer_connected_callback :
    Option ℕ → Text → Bool → CallbackRegistry → CallbackRegistry × List Call
set_printer_connected_callback fn connected_device log_fn r = (
  record r { on_printer_connected = fn },
  if_set fn (λ f.
      if is_empty connected_device
      then []
      else log_if log_fn (
          codes "bambu_network_set_on_printer_connected_fn: signaling existing printer "
          ++ connected_device)
        ++ printer_connected f connected_device ∷ []),
)

-- `ConnectStatusOk` is 0.
unfoldable pub set_server_connected_callback :
    Option ℕ → Bool → CallbackRegistry → CallbackRegistry × List Call
set_server_connected_callback fn log_fn r = (
  record r { on_server_connected = fn },
  if_set fn (λ f.
      log_if log_fn
        (codes "bambu_network_set_on_server_connected_fn: signaling LAN server connected")
      ++ server_connected f (pos 0) (pos 0) ∷ []),
)

unfoldable pub set_local_connect_callback :
    Option ℕ → Text → Bool → CallbackRegistry → CallbackRegistry × List Call
set_local_connect_callback fn connected_device log_fn r = (
  record r { on_local_connect = fn },
  if_set fn (λ f.
      if is_empty connected_device
      then []
      else log_if log_fn (
          codes "bambu_network_set_on_local_connect_fn: signaling existing printer "
          ++ connected_device)
        ++ local_connected f (pos 0) connected_device (codes "Connected") ∷ []),
)

unfoldable pub set_message_callback : Option ℕ → CallbackRegistry → CallbackRegistry
set_message_callback fn r = record r { on_message = fn }

unfoldable pub set_local_message_callback : Option ℕ → CallbackRegistry → CallbackRegistry
set_local_message_callback fn r = record r { on_mqtt_message = fn }

unfoldable pub set_subscribe_failure_callback : Option ℕ → CallbackRegistry → CallbackRegistry
set_subscribe_failure_callback fn r = record r { on_subscribe_failure = fn }

unfoldable pub set_user_message_callback : Option ℕ → CallbackRegistry → CallbackRegistry
set_user_message_callback fn r = record r { on_user_message = fn }

unfoldable pub set_server_error_callback : Option ℕ → CallbackRegistry → CallbackRegistry
set_server_error_callback fn r = record r { on_server_error = fn }

unfoldable pub remember_printer_json : Text → Text → CallbackRegistry → CallbackRegistry
remember_printer_json dev_id json r =
    if is_empty dev_id
    then r
    else record r { last_printer_json_by_id = insert dev_id json r.last_printer_json_by_id }

unfoldable pub printer_json : Text → CallbackRegistry → Text
printer_json dev_id r = elim (lookup dev_id r.last_printer_json_by_id) [ none ↦ [] | some j ↦ j ]

unfoldable pub dispatch_printer_available : Text → CallbackRegistry → List Call
dispatch_printer_available json r = if_set r.on_msg_arrived (λ f. msg_arrived f json ∷ [])

unfoldable pub has_message_callbacks : CallbackRegistry → Bool
has_message_callbacks r = is_some r.on_message || is_some r.on_mqtt_message

-- A call between two lines of the log.
abbrev pub bracketed : Bool → Text → Call → Text → List Call
bracketed log_fn before call after = log_if log_fn before ++ (call ∷ log_if log_fn after)

unfoldable pub dispatch_message : Text → Text → Bool → CallbackRegistry → List Call
dispatch_message device_id message log_fn r =
    if_set r.on_mqtt_message (λ f.
      bracketed log_fn (codes "bambu_network_cb_message_recv: entering local callback")
        (message_arrived f device_id message)
        (codes "bambu_network_cb_message_recv: local callback returned"))
    ++ if_set r.on_message (λ f.
      bracketed log_fn (codes "bambu_network_cb_message_recv: entering message callback")
        (message_arrived f device_id message)
        (codes "bambu_network_cb_message_recv: message callback returned"))

unfoldable pub dispatch_connected : Text → Bool → CallbackRegistry → List Call
dispatch_connected device_id log_fn r =
    if_set r.on_printer_connected (λ f.
      log_if log_fn (codes "bambu_network_cb_connected: signaling printer connected " ++ device_id)
      ++ printer_connected f device_id ∷ [])
    ++ if_set r.on_local_connect (λ f.
      bracketed log_fn (codes "bambu_network_cb_connected: calling on_local_connect")
        (local_connected f (pos 0) device_id (codes "Connected"))
        (codes "bambu_network_cb_connected: on_local_connect returned"))

unfoldable pub dispatch_disconnected : ℤ → Text → Text → Bool → Bool → CallbackRegistry → List Call
dispatch_disconnected status device_id message log_fn should_emit r =
    if_set r.on_local_connect (λ f.
      if should_emit
      then bracketed log_fn (codes "bambu_network_cb_disconnected: calling on_local_connect")
          (local_connected f status device_id message)
          (codes "bambu_network_cb_disconnected: on_local_connect returned")
      else [])
