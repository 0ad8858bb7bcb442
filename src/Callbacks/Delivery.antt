-- ===== src/Callbacks/Delivery.antt =====
-- Which messages of a printer reach a function that Bambu Studio registered.
use bambu_farm.Base.{
  ℕ, Bool, true, false, ◌||◌, Option, none, some, is_some, List, [], ◌∷◌, ◌++◌, ◌≡◌, refl, ◌∙◌,
}
use bambu_farm.Base.Text.{Text}
use bambu_farm.Callbacks.{
  CallbackRegistry, Call, message_arrived, if_set, bracketed, set_message_callback,
  set_local_message_callback, has_message_callbacks, dispatch_message,
}
use bambu_farm.Callbacks.Replay.{unlogged, unlogged-append}

-- The one that gets the message, if it is there.
unfoldable pub receiver : Option ℕ → Text → Text → List Call
receiver none device_id message = []
receiver (some f) device_id message = message_arrived f device_id message ∷ []

unlogged-bracketed :
    (log_fn : Bool) (before after device_id message : Text) (f : ℕ)
    → unlogged (bracketed log_fn before (message_arrived f device_id message) after)
      ≡ message_arrived f device_id message ∷ []
unfolding unlogged
unlogged-bracketed true before after device_id message f = refl
unlogged-bracketed false before after device_id message f = refl

unlogged-if_set :
    (log_fn : Bool) (before after device_id message : Text) (o : Option ℕ)
    → unlogged (if_set o (λ f. bracketed log_fn before (message_arrived f device_id message) after))
      ≡ receiver o device_id message
unfolding receiver
unlogged-if_set log_fn before after device_id message none = unfold unlogged in refl
unlogged-if_set log_fn before after device_id message (some f) =
    unlogged-bracketed log_fn before after device_id message f

both : {a b c d : List Call} → a ≡ c → b ≡ d → a ++ b ≡ c ++ d
both p q = cc

receivers :
    (device_id message : Text) (log_fn : Bool) (r : CallbackRegistry)
    → unlogged (dispatch_message device_id message log_fn r)
      ≡ receiver r.on_mqtt_message device_id message ++ receiver r.on_message device_id message
unfolding dispatch_message
receivers device_id message log_fn r =
    unlogged-append _ _
    ∙ both (unlogged-if_set log_fn _ _ device_id message r.on_mqtt_message)
        (unlogged-if_set log_fn _ _ device_id message r.on_message)

-- After functions for local and for general messages were set, a message is given to exactly those that are not null, once each and to the local one first,
-- and `has_message_callbacks` says whether there is any. Nothing else is called but the log.
pub dispatch-set_callbacks :
    (local_fn fn : Option ℕ) (device_id message : Text) (log_fn : Bool) (r : CallbackRegistry)
    → let s = set_message_callback fn (set_local_message_callback local_fn r) in
      (unlogged (dispatch_message device_id message log_fn s)
        ≡ receiver local_fn device_id message ++ receiver fn device_id message)
      × (has_message_callbacks s ≡ (is_some fn || is_some local_fn))
unfolding set_message_callback set_local_message_callback has_message_callbacks
dispatch-set_callbacks local_fn fn device_id message log_fn r =
    (receivers device_id message log_fn _, refl)
