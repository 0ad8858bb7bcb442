-- ===== src/Session/Invariant.antt =====
-- The connection flags of the session never contradict one another.
use bambu_farm.Base.{false, ◌&&◌, List, [], ◌∷◌, ◌≡◌, refl, arith, All}
use bambu_farm.Base.Text.{is_empty}
use bambu_farm.Session.{
  SessionState, Call, loads, selects, begins, connects, claims, disconnects, logs_out, initial,
  step, run, load_selected_device, set_user_selected_device, begin_connect, mark_connected,
  claim_autoconnect_target, mark_disconnected, clear_after_logout,
}

-- A session is not both connected and connecting, and it waits to connect only to a named device.
pub record IsConsistent (s : SessionState) : Type 0 where
  pub exclusive : (s.printer_connected && s.connect_in_progress) ≡ false
  pub named : (s.auto_connect_pending && is_empty s.selected_device) ≡ false

-- The backend reports connections of named devices only.
abbrev pub IsNamed : Call → Type 0
IsNamed (connects dev_id) = is_empty dev_id ≡ false
IsNamed _ = Unit

step-IsConsistent :
    (s : SessionState) (c : Call) → IsNamed c → IsConsistent s → IsConsistent (step s c)
unfolding step load_selected_device set_user_selected_device begin_connect mark_connected
    claim_autoconnect_target mark_disconnected clear_after_logout
step-IsConsistent s (loads dev_id) n v = record { exclusive = v.exclusive; named = ground arith }
step-IsConsistent s (selects dev_id) n v = record { exclusive = v.exclusive; named = ground arith }
step-IsConsistent s (begins dev_id) n v = record {
  exclusive = ground (arith, v.exclusive);
  named = ground (arith, v.named);
}
step-IsConsistent s (connects dev_id) n v = record {
  exclusive = ground arith;
  named = ground arith;
}
step-IsConsistent s (claims dev_id) n v = record {
  exclusive = ground (arith, v.exclusive);
  named = ground (arith, v.named);
}
step-IsConsistent s (disconnects failed) n v = record { exclusive = ground arith; named = v.named }
step-IsConsistent s logs_out n v = record { exclusive = ground arith; named = ground arith }

run-IsConsistent :
    (s : SessionState) (cs : List Call) → All IsNamed cs → IsConsistent s → IsConsistent (run s cs)
unfolding run
run-IsConsistent s [] n v = v
run-IsConsistent s (c ∷ cs) (nc, ncs) v =
    run-IsConsistent (step s c) cs ncs (step-IsConsistent s c nc v)

-- After every sequence of calls, if only named devices are reported as connected, the session is
-- not connected and connecting at once, and an automatic connection is pending only for a device
-- with a name.
pub run-initial-IsConsistent : (cs : List Call) → All IsNamed cs → IsConsistent (run initial cs)
run-initial-IsConsistent cs n =
    run-IsConsistent initial cs n (record { exclusive = refl; named = refl })
