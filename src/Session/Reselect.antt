-- ===== src/Session/Reselect.antt =====
-- What selecting another device does to a session that is connected.
use bambu_farm.Base.{false, ◌≡◌, arith}
use bambu_farm.Base.Text.{Text, is_empty, text_eq_refl}
use bambu_farm.Session.{
  SessionState, already_connected, set_user_selected_device, begin_connect, mark_connected,
  connected_selected_device,
}

-- After the backend reported a device as connected, selecting any device with a name makes the session
-- report that device as the connected one, and a request to connect to it is answered with
-- "already connected" and changes nothing, whichever device the backend reported.
pub reselect_claims_connected :
    (s : SessionState) (linked chosen : Text)
    → is_empty chosen ≡ false
    → let t = set_user_selected_device chosen (mark_connected linked s) in
      (connected_selected_device t ≡ chosen) × (begin_connect chosen t ≡ (t, already_connected))
unfolding set_user_selected_device mark_connected begin_connect connected_selected_device
reselect_claims_connected s linked chosen n = ground (arith, text_eq_refl chosen)
