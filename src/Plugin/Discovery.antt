-- ===== src/Plugin/Discovery.antt =====
-- The functions of bambu-farm-client/cpp/api.cpp that pass on messages, and the renaming of a printer.
use bambu_farm.Base.{true, if◌then◌else◌, [], ◌∷◌, map}
use bambu_farm.Base.Text.{Text, is_empty}
use bambu_farm.Callbacks.{
  dispatch_message, dispatch_printer_available, remember_printer_json, printer_json,
}
use bambu_farm.PrinterMetadata.{apply_name_override, set_name_override}
use bambu_farm.PrintContext.{rewrite_status_message}
use bambu_farm.Plugin.{World, Plugin, studio, rs_send, Handler}

module _ (w : World) where
  unfoldable pub cb_message_recv : Text → Text → Handler w
  cb_message_recv device_id message p =
      let effective_message = rewrite_status_message p.print_contexts device_id message in
      (p, map studio (dispatch_message device_id effective_message true p.callbacks))

  unfoldable pub send_message_to_printer : Text → Text → Handler w
  send_message_to_printer dev_id json_str p = (p, rs_send dev_id json_str ∷ [])

  -- `printer_metadata_store.set_name_override`.
  unfoldable pub store_name : Text → Text → Plugin w → Plugin w
  store_name dev_id dev_name p =
      let (overrides, disk) =
        set_name_override w.fs w.env w.names_order dev_id dev_name p.config_dir_path
          (p.name_overrides, p.disk) in
      record p { name_overrides = overrides; disk = disk }

  -- What follows on `updated_json`.
  unfoldable pub announce_again : Text → Handler w
  announce_again updated_json p = (
    p,
    if is_empty updated_json
        then []
        else map studio (dispatch_printer_available updated_json p.callbacks),
  )

  -- What follows on `last_json`.
  unfoldable pub renew_announcement : Text → Text → Handler w
  renew_announcement dev_id last_json p =
      let updated_json = apply_name_override last_json p.name_overrides in
      if is_empty last_json
      then announce_again [] p
      else announce_again updated_json
          (record p { callbacks = remember_printer_json dev_id updated_json p.callbacks })

  unfoldable pub modify_printer_name : Text → Text → Handler w
  modify_printer_name dev_id dev_name p =
      let p' = store_name dev_id dev_name p in
      renew_announcement dev_id (printer_json dev_id p'.callbacks) p'
