-- ===== src/Session.antt =====
-- bambu-farm-client/cpp/session_state.cpp: the device that the user selected, and whether a
-- connection to it is pending, in progress or made. Every method holds the mutex from its first
-- line to its last, so a run of the class is a sequence of whole calls.
mod Tests
pub mod Invariant
pub mod Link
pub mod Autoconnect
pub mod Reselect
use bambu_farm.Base.{Bool, true, false, not, ◌&&◌, ◌||◌, if◌then◌else◌, List, [], ◌∷◌}
use bambu_farm.Base.Text.{Text, is_empty, text_eq}

pub record SessionState : Type 0 where
  pub selected_device : Text
  pub auto_connect_pending : Bool
  pub printer_connected : Bool
  pub connect_in_progress : Bool

pub data ConnectBeginResult : Type 0 where
  start already_connected already_in_progress : ConnectBeginResult

abbrev pub initial : SessionState
initial = record {
  selected_device = [];
  auto_connect_pending = false;
  printer_connected = false;
  connect_in_progress = false;
}

unfoldable pub load_selected_device : Text → SessionState → SessionState
load_selected_device dev_id s = record s {
  selected_device = dev_id;
  auto_connect_pending = not (is_empty dev_id);
}

unfoldable pub set_user_selected_device : Text → SessionState → SessionState
set_user_selected_device dev_id s = record s {
  selected_device = dev_id;
  auto_connect_pending = not (is_empty dev_id);
}

unfoldable pub has_connected_selected_device : SessionState → Bool
has_connected_selected_device s = not (is_empty s.selected_device) && s.printer_connected

unfoldable pub connected_selected_device : SessionState → Text
connected_selected_device s =
    if is_empty s.selected_device || not s.printer_connected then [] else s.selected_device

unfoldable pub begin_connect : Text → SessionState → SessionState × ConnectBeginResult
begin_connect dev_id s =
    if text_eq s.selected_device dev_id && s.printer_connected
    then (s, already_connected)
    else if text_eq s.selected_device dev_id && s.connect_in_progress
    then (s, already_in_progress)
    else (
      record {
        selected_device = dev_id;
        auto_connect_pending = false;
        printer_connected = false;
        connect_in_progress = true;
      },
      start,
    )

unfoldable pub should_ignore_disconnect : SessionState → Bool
should_ignore_disconnect s = s.connect_in_progress && not s.printer_connected

unfoldable pub disconnect_target : SessionState → Text
disconnect_target s = s.selected_device

unfoldable pub mark_connected : Text → SessionState → SessionState
mark_connected dev_id s = record s {
  selected_device = dev_id;
  connect_in_progress = false;
  printer_connected = true;
}

-- The result says whether the disconnection is worth a signal.
unfoldable pub mark_disconnected : Bool → SessionState → SessionState × Bool
mark_disconnected failed s = (
  record s { connect_in_progress = false; printer_connected = false },
  s.printer_connected || failed,
)

unfoldable pub claim_autoconnect_target : Text → SessionState → SessionState × Text
claim_autoconnect_target discovered_device_id s =
    if not s.auto_connect_pending || not (text_eq s.selected_device discovered_device_id)
    then (s, [])
    else (record s { auto_connect_pending = false }, s.selected_device)

unfoldable pub clear_after_logout : SessionState → SessionState
clear_after_logout s = record {
  selected_device = [];
  auto_connect_pending = false;
  printer_connected = false;
  connect_in_progress = false;
}

-- One call of the class that may change it.
pub data Call : Type 0 where
  loads selects begins connects claims : Text → Call
  disconnects : Bool → Call
  logs_out : Call

unfoldable pub step : SessionState → Call → SessionState
step s (loads dev_id) = load_selected_device dev_id s
step s (selects dev_id) = set_user_selected_device dev_id s
step s (begins dev_id) = (begin_connect dev_id s).0
step s (connects dev_id) = mark_connected dev_id s
step s (claims dev_id) = (claim_autoconnect_target dev_id s).0
step s (disconnects failed) = (mark_disconnected failed s).0
step s logs_out = clear_after_logout s

unfoldable pub run : SessionState → List Call → SessionState
run s [] = s
run s (c ∷ cs) = run (step s c) cs
