-- ===== src/Callbacks/Tests.antt =====
-- Functions that are registered early and late.
use bambu_farm.Base.{ℕ, true, none, some, is_some, [], ◌∷◌, ◌++◌, ◌≡◌, ◌||◌, refl, List}
use bambu_farm.Base.Text.{Text, codes}
use bambu_farm.Base.Int.{pos}
use bambu_farm.Base.Dict.{IterationOrder}
use bambu_farm.Callbacks.{
  CallbackRegistry, empty, printer_connected, local_connected, set_ssdp_callback,
  set_printer_connected_callback, set_local_connect_callback, dispatch_connected, dispatch_message,
  has_message_callbacks, set_message_callback, set_local_message_callback, printer_json,
}
use bambu_farm.Callbacks.Replay.{
  unlogged, remember_all, latest, value_or_empty, IsReplay, set_ssdp_callback-IsReplay,
  printer_json-latest,
}
use bambu_farm.Callbacks.Late.{late_registration}
use bambu_farm.Callbacks.Delivery.{receiver, dispatch-set_callbacks}

abbrev in_order : IterationOrder Text
in_order = record { visit = λ m. m; visit-Distinct = λ m h. h; lookup-visit = λ k m. refl }

abbrev announcements : List (Text × Text)
announcements =
    (codes "01S", codes "{1}") ∷ (codes "02P", codes "{2}") ∷ (codes "01S", codes "{3}") ∷ []

set_ssdp_callback-IsReplay_example : IsReplay 5 announcements true (
    unlogged
      (set_ssdp_callback in_order.visit (some 5) true true (remember_all announcements empty)).1)
set_ssdp_callback-IsReplay_example =
    set_ssdp_callback-IsReplay in_order 5 true true announcements empty refl

printer_json-latest_example :
    printer_json (codes "01S") (remember_all announcements empty)
    ≡ value_or_empty (latest (codes "01S") announcements)
printer_json-latest_example = printer_json-latest announcements empty (codes "01S") refl refl

abbrev early : CallbackRegistry
early = record empty { on_printer_connected = some 1; on_local_connect = some 2 }

late_registration_example :
    let calls =
      printer_connected 1 (codes "01S")
      ∷ local_connected 2 (pos 0) (codes "01S") (codes "Connected")
      ∷ [] in
    (unlogged (
        (set_printer_connected_callback (some 1) (codes "01S") true empty).1
        ++ (set_local_connect_callback (some 2) (codes "01S") true empty).1)
      ≡ calls)
    × (unlogged (dispatch_connected (codes "01S") true early) ≡ calls)
late_registration_example = late_registration 1 2 (codes "01S") true empty early refl refl refl

dispatch-set_callbacks_example :
    (unlogged (
        dispatch_message
          (codes "01S")
          (codes "{}")
          true
          (set_message_callback none (set_local_message_callback (some 3) empty)))
      ≡ receiver (some 3) (codes "01S") (codes "{}") ++ receiver none (codes "01S") (codes "{}"))
    × (has_message_callbacks (set_message_callback none (set_local_message_callback (some 3) empty))
        ≡ (is_some {A = ℕ} none || is_some {A = ℕ} (some 3)))
dispatch-set_callbacks_example =
    dispatch-set_callbacks (some 3) none (codes "01S") (codes "{}") true empty
