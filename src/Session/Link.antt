-- ===== src/Session/Link.antt =====
-- Whether the device that the session reports as connected is the one that the backend is
-- connected to.
use bambu_farm.Base.{true, false, ◌≡◌, ◌⊎◌, arith, Option, some, none}
use bambu_farm.Base.Text.{Text, is_empty}
use bambu_farm.Session.{
  SessionState, Call, loads, selects, begins, connects, claims, disconnects, logs_out, initial,
  step, load_selected_device, set_user_selected_device, begin_connect, mark_connected,
  claim_autoconnect_target, mark_disconnected, clear_after_logout, connected_selected_device,
}

-- The device that the backend last reported as connected, if nothing has ended that since.
unfoldable pub track : Option Text → Call → Option Text
track link (connects dev_id) = some dev_id
track link (disconnects failed) = none
track link logs_out = none
track link _ = link

-- Another device is selected only while no printer is connected.
abbrev pub IsOrderly : SessionState → Call → Type 0
IsOrderly s (loads dev_id) = (s.printer_connected ≡ false) ⊎ (dev_id ≡ s.selected_device)
IsOrderly s (selects dev_id) = (s.printer_connected ≡ false) ⊎ (dev_id ≡ s.selected_device)
IsOrderly s _ = Unit

-- The sessions that orderly calls lead to, with the device that the backend is connected to.
pub data History : SessionState → Option Text → Type 0 where
  fresh : History initial none
  next :
      {s : SessionState} {link : Option Text}
      → History s link
      → (c : Call) → IsOrderly s c
      → History (step s c) (track link c)

abbrev Agrees : SessionState → Option Text → Type 0
Agrees s link = s.printer_connected ≡ true → link ≡ some s.selected_device

step-Agrees :
    (s : SessionState) (link : Option Text) (c : Call)
    → IsOrderly s c
    → Agrees s link
    → Agrees (step s c) (track link c)
unfolding step track load_selected_device set_user_selected_device begin_connect mark_connected
    claim_autoconnect_target mark_disconnected clear_after_logout
step-Agrees s link (loads dev_id) o a = ground (arith, a)
step-Agrees s link (selects dev_id) o a = ground (arith, a)
step-Agrees s link (begins dev_id) o a = ground (arith, a)
step-Agrees s link (connects dev_id) o a = ground arith
step-Agrees s link (claims dev_id) o a = ground (arith, a)
step-Agrees s link (disconnects failed) o a = ground arith
step-Agrees s link logs_out o a = ground arith

History-Agrees : {s : SessionState} {link : Option Text} → History s link → Agrees s link
History-Agrees fresh = λ h. cc
History-Agrees (next h c o) = step-Agrees _ _ c o (History-Agrees h)

-- In every history in which another device is selected only while no printer is connected, the
-- device that the session reports as connected, if any, is the one that the backend last reported.
pub connected-link :
    {s : SessionState} {link : Option Text}
    → History s link
    → is_empty (connected_selected_device s) ≡ false
    → link ≡ some (connected_selected_device s)
unfolding connected_selected_device
connected-link h n = ground (arith, History-Agrees h)
