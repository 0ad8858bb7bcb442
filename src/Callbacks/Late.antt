-- ===== src/Callbacks/Late.antt =====
-- What bambu-farm-client/cpp/callback_registry.cpp tells the functions that are registered after a
-- printer connected.
use bambu_farm.Base.{ℕ, Bool, true, false, Option, none, some, List, [], ◌∷◌, ◌++◌, ◌≡◌, refl}
use bambu_farm.Base.Text.{Text, codes, is_empty}
use bambu_farm.Base.Int.{pos}
use bambu_farm.Callbacks.{
  CallbackRegistry, Call, printer_connected, local_connected, if_set,
  set_printer_connected_callback, set_local_connect_callback, dispatch_connected,
}
use bambu_farm.Callbacks.Replay.{unlogged, unlogged-append}

registered_printer :
    (f : ℕ) (device_id : Text) (log_fn : Bool) (r : CallbackRegistry)
    → is_empty device_id ≡ false
    → unlogged (set_printer_connected_callback (some f) device_id log_fn r).1
      ≡ printer_connected f device_id ∷ []
unfolding set_printer_connected_callback unlogged
registered_printer f (c ∷ d) true r n = refl
registered_printer f (c ∷ d) false r n = refl
registered_printer f [] log_fn r n = cc

registered_local :
    (g : ℕ) (device_id : Text) (log_fn : Bool) (r : CallbackRegistry)
    → is_empty device_id ≡ false
    → unlogged (set_local_connect_callback (some g) device_id log_fn r).1
      ≡ local_connected g (pos 0) device_id (codes "Connected") ∷ []
unfolding set_local_connect_callback unlogged
registered_local g (c ∷ d) true r n = refl
registered_local g (c ∷ d) false r n = refl
registered_local g [] log_fn r n = cc

-- What a printer's connection tells the functions that are there.
abbrev told : Text → Option ℕ → Option ℕ → List Call
told device_id on_printer_connected on_local_connect =
    if_set on_printer_connected (λ f. printer_connected f device_id ∷ [])
    ++ if_set on_local_connect (λ g. local_connected g (pos 0) device_id (codes "Connected") ∷ [])

told-dispatch_connected :
    (device_id : Text) (log_fn : Bool) (s : CallbackRegistry) (f g : Option ℕ)
    → s.on_printer_connected ≡ f
    → s.on_local_connect ≡ g
    → unlogged (dispatch_connected device_id log_fn s) ≡ told device_id f g
unfolding dispatch_connected unlogged
told-dispatch_connected device_id true s none none e e' = simp (e, e')
told-dispatch_connected device_id true s none (some g) e e' = simp (e, e')
told-dispatch_connected device_id true s (some f) none e e' = simp (e, e')
told-dispatch_connected device_id true s (some f) (some g) e e' = simp (e, e')
told-dispatch_connected device_id false s none none e e' = simp (e, e')
told-dispatch_connected device_id false s none (some g) e e' = simp (e, e')
told-dispatch_connected device_id false s (some f) none e e' = simp (e, e')
told-dispatch_connected device_id false s (some f) (some g) e e' = simp (e, e')

-- Functions that are registered while a printer is connected are called as those that were there when
-- it connected were, but for the log: the first with the device, and then the second with status 0, the
-- device and "Connected", and nothing else is called.
pub late_registration :
    (f g : ℕ) (device_id : Text) (log_fn : Bool) (r s : CallbackRegistry)
    → is_empty device_id ≡ false
    → s.on_printer_connected ≡ some f
    → s.on_local_connect ≡ some g
    → let calls =
        printer_connected f device_id
        ∷ local_connected g (pos 0) device_id (codes "Connected")
        ∷ [] in
      (unlogged (
          (set_printer_connected_callback (some f) device_id log_fn r).1
          ++ (set_local_connect_callback (some g) device_id log_fn r).1)
        ≡ calls)
      × (unlogged (dispatch_connected device_id log_fn s) ≡ calls)
late_registration f g device_id log_fn r s n e e' = (
  rw
      (
        unlogged-append,
        registered_printer f device_id log_fn r n,
        registered_local g device_id log_fn r n,
      )
      refl,
  told-dispatch_connected device_id log_fn s (some f) (some g) e e',
)
