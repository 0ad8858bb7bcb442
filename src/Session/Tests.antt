-- ===== src/Session/Tests.antt =====
-- Runs of the session with two printers.
use bambu_farm.Base.{true, false, some, List, [], ◌∷◌, ◌≡◌, refl, inl, if◌then◌else◌}
use bambu_farm.Base.Text.{Text, codes, is_empty, text_eq}
use bambu_farm.Session.{
  SessionState, Call, loads, selects, begins, connects, claims, disconnects, initial, run, step,
  load_selected_device, set_user_selected_device, mark_connected, begin_connect, start,
  already_connected, already_in_progress, connected_selected_device,
}
use bambu_farm.Session.Invariant.{IsConsistent, run-initial-IsConsistent}
use bambu_farm.Session.Link.{History, fresh, next, track, connected-link}
use bambu_farm.Session.Autoconnect.{granted, contains, autoconnect_once, begin_connect_once}
use bambu_farm.Session.Reselect.{reselect_claims_connected}

abbrev first_printer : Text
first_printer = codes "01S"

abbrev second_printer : Text
second_printer = codes "02P"

abbrev day : List Call
day =
    loads first_printer
    ∷ claims first_printer
    ∷ begins first_printer
    ∷ connects first_printer
    ∷ disconnects true
    ∷ []

run-initial-IsConsistent_example : IsConsistent (run initial day)
run-initial-IsConsistent_example = run-initial-IsConsistent day (tt, (tt, (tt, (refl, (tt, tt)))))

abbrev linked : SessionState
linked =
    step (step (step initial (selects first_printer)) (begins first_printer))
      (connects first_printer)

linked-History : History linked (some first_printer)
unfolding track
linked-History =
    next (next (next fresh (selects first_printer) (inl refl)) (begins first_printer) tt)
      (connects first_printer) tt

linked_named : is_empty (connected_selected_device linked) ≡ false
unfolding step set_user_selected_device begin_connect mark_connected connected_selected_device
    text_eq
linked_named = refl

connected-link_example : some first_printer ≡ some (connected_selected_device linked)
connected-link_example = connected-link linked-History linked_named

begun : (begin_connect first_printer initial).1 ≡ start
unfolding begin_connect text_eq
begun = refl

begin_connect_once_example :
    begin_connect first_printer (
      run
        (begin_connect first_printer initial).0
        (claims second_printer ∷ begins first_printer ∷ []))
    ≡ (
      run
          (begin_connect first_printer initial).0
          (claims second_printer ∷ begins first_printer ∷ []),
      already_in_progress,
    )
begin_connect_once_example =
    begin_connect_once initial first_printer (claims second_printer ∷ begins first_printer ∷ [])
      begun (tt, (refl, tt))

autoconnect_once_example :
    let ds = second_printer ∷ first_printer ∷ first_printer ∷ [] in
    let once = if contains first_printer ds then first_printer ∷ [] else [] in
    (granted (load_selected_device first_printer initial) ds ≡ once)
    × (granted (set_user_selected_device first_printer initial) ds ≡ once)
autoconnect_once_example =
    autoconnect_once initial first_printer (second_printer ∷ first_printer ∷ first_printer ∷ [])
      refl

reselect_claims_connected_example :
    (connected_selected_device
        (set_user_selected_device second_printer (mark_connected first_printer initial))
      ≡ second_printer)
    × (begin_connect second_printer
          (set_user_selected_device second_printer (mark_connected first_printer initial))
        ≡ (
          set_user_selected_device second_printer (mark_connected first_printer initial),
          already_connected,
        ))
reselect_claims_connected_example =
    reselect_claims_connected initial first_printer second_printer refl
