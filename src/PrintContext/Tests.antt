-- ===== src/PrintContext/Tests.antt =====
-- The rewriting of a status message.
use bambu_farm.Base.{true, [], ◌∷◌, ◌≡◌, refl}
use bambu_farm.Base.Text.{Text, codes, text_eq, find, find_from, starts_with}
use bambu_farm.Base.Int.{pos}
use bambu_farm.Base.Dict.{lookup}
use bambu_farm.LocalState.Contexts.{LocalPrintContext}
use bambu_farm.PrintContext.{
  rewrite_status_message, inject_identity, inject_file_capability, complete_ipcam, injected,
  missing_field,
}
use bambu_farm.PrintContext.Capability.{HasPlaces}
use bambu_farm.PrintContext.Identity.{HasIdentity, rewrite_status_message-HasIdentity}
use bambu_farm.PrintJob.Escape.{json_escape, escape_byte}

abbrev gear : LocalPrintContext
gear = record {
  dev_id = codes "01S";
  project_id = codes "7";
  profile_id = codes "8";
  subtask_id = codes "lan-9";
  task_id = codes "9";
  remote_filename = codes "g.3mf";
  plate_path = codes "Metadata/plate_1.gcode";
  thumbnail_url = codes "file:///t.png";
  plate_index = pos 1;
  active = true;
}

-- A status message gets the printer's storage and the identity of the print.
rewritten :
    rewrite_status_message ((codes "01S", gear) ∷ []) (codes "01S") (codes "{\"print\":{\"a\":1}}")
    ≡ codes
        "{\"print\":{\"project_id\":\"7\",\"profile_id\":\"8\",\"subtask_id\":\"lan-9\",\"task_id\":\"9\",\"ipcam\":{\"file\":{\"local\":\"local\",\"remote\":\"none\",\"model_download\":\"disabled\"}},\"a\":1}}"
unfolding rewrite_status_message inject_identity inject_file_capability complete_ipcam injected
    missing_field lookup text_eq find find_from starts_with json_escape escape_byte
rewritten = refl

abbrev running : Text
running = codes "{\"print\":{\"a\":1}}"

rewrite_status_message-HasIdentity_example :
    HasPlaces 1 9 (rewrite_status_message ((codes "01S", gear) ∷ []) (codes "01S") running)
    × HasIdentity 1 (rewrite_status_message ((codes "01S", gear) ∷ []) (codes "01S") running)
unfolding lookup text_eq find find_from starts_with
rewrite_status_message-HasIdentity_example =
    rewrite_status_message-HasIdentity ((codes "01S", gear) ∷ []) (codes "01S")
      (codes "{\"print\":{\"a\":1}}") gear 1 9 refl refl (refl, refl)
