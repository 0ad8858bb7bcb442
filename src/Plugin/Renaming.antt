-- ===== src/Plugin/Renaming.antt =====
-- What Bambu Studio is told of a printer that the user renames.
use mathlib.Core.List.{flat_map}
use bambu_farm.Base.{
  ℕ, ◌++◌, true, false, none, some, is_some, [], ◌∷◌, map, ◌≡◌, refl, ◌∙◌, ap, arith, sym,
}
use bambu_farm.Base.Text.{Text, codes, is_empty, find, starts_with}
use bambu_farm.Base.Dict.{Dict, lookup-insert_self, lookup-erase_self}
use bambu_farm.PrintJob.Escape.{escape_byte, json_escape, json_escape-flat_map}
use bambu_farm.Callbacks.{
  if_set, msg_arrived, printer_json, remember_printer_json, dispatch_printer_available,
}
use bambu_farm.PrinterMetadata.{
  json_string_field, find_json_string_value_range, override_of, needle_of, apply_name_override,
  set_name, set_name_override,
}
use bambu_farm.PrinterMetadata.Rename.{dev_name-apply_name_override}
use bambu_farm.Plugin.{World, Plugin, studio}
use bambu_farm.Plugin.Discovery.{
  modify_printer_name, store_name, renew_announcement, announce_again,
}

override_set :
    (dev_id name : Text) (o : Dict Text)
    → is_empty dev_id ≡ false
    → is_empty name ≡ false
    → override_of dev_id (set_name dev_id name o) ≡ some name
unfolding override_of set_name
override_set dev_id name o d n = rw (n, d, lookup-insert_self dev_id name o) (rw n refl)

override_erased : (dev_id : Text) (o : Dict Text) → override_of dev_id (set_name dev_id [] o) ≡ none
unfolding override_of set_name
override_erased [] o = refl
override_erased (c ∷ s) o = rw (lookup-erase_self (c ∷ s) o) refl

escape_byte_named : (c : ℕ) (s : Text) → is_empty (escape_byte c ++ s) ≡ false
unfolding escape_byte
escape_byte_named c s = ground arith

json_escape_named : (name : Text) → is_empty name ≡ false → is_empty (json_escape name) ≡ false
unfolding flat_map
json_escape_named [] n = absurd (cc)
json_escape_named (c ∷ s) n = rw (json_escape-flat_map (c ∷ s)) (escape_byte_named c _)

field_nil : json_string_field [] (codes "dev_name") ≡ []
unfolding json_string_field find_json_string_value_range find needle_of starts_with
field_nil = refl

id_nil : json_string_field [] (codes "dev_id") ≡ []
unfolding json_string_field find_json_string_value_range find needle_of starts_with
id_nil = refl

truth_differs : true ≡ false → ⊥
truth_differs h = cc

-- A text whose `dev_name` is not empty is not empty.
named_json :
    (json name : Text)
    → json_string_field json (codes "dev_name") ≡ json_escape name
    → is_empty name ≡ false
    → is_empty json ≡ false
named_json [] name e n =
    absurd (truth_differs (ap is_empty (sym field_nil ∙ e) ∙ json_escape_named name n))
named_json (c ∷ s) name e n = refl

identified_json :
    (json dev_id : Text)
    → json_string_field json (codes "dev_id") ≡ dev_id
    → is_empty dev_id ≡ false
    → is_empty json ≡ false
identified_json [] dev_id e n = absurd (truth_differs (ap is_empty (sym id_nil ∙ e) ∙ n))
identified_json (c ∷ s) dev_id e n = refl

module _ (w : World) where
  again :
      (updated : Text) (p : Plugin w)
      → is_empty updated ≡ false
      → announce_again w updated p
        ≡ (p, map studio (dispatch_printer_available updated p.callbacks))
  unfolding announce_again
  again [] p h = absurd (cc)
  again (c ∷ s) p h = refl

  remembered_as : Text → Text → Plugin w → Plugin w
  remembered_as dev_id updated p = record p {
    callbacks = remember_printer_json dev_id updated p.callbacks;
  }

  renewed :
      (dev_id last_json : Text) (p : Plugin w)
      → is_empty last_json ≡ false
      → is_empty (apply_name_override last_json p.name_overrides) ≡ false
      → renew_announcement w dev_id last_json p
        ≡ announce_again w
            (apply_name_override last_json p.name_overrides)
            (remembered_as dev_id (apply_name_override last_json p.name_overrides) p)
  unfolding renew_announcement remembered_as
  renewed dev_id [] p h k = absurd (cc)
  renewed dev_id (c ∷ s) p h k = refl

  printer_json_remembered :
      (dev_id updated : Text) (p : Plugin w)
      → is_empty dev_id ≡ false
      → printer_json dev_id (remembered_as dev_id updated p).callbacks ≡ updated
  unfolding remembered_as printer_json remember_printer_json
  printer_json_remembered [] updated p h = absurd (cc)
  printer_json_remembered (c ∷ s) updated p h =
      rw (lookup-insert_self (c ∷ s) updated p.callbacks.last_printer_json_by_id, printer_json) refl

  told_same :
      (dev_id updated : Text) (p : Plugin w)
      → (remembered_as dev_id updated p).callbacks.on_msg_arrived ≡ p.callbacks.on_msg_arrived
  unfolding remembered_as remember_printer_json
  told_same [] updated p = refl
  told_same (c ∷ s) updated p = refl

  dispatch_same :
      (dev_id updated : Text) (p : Plugin w)
      → map studio (dispatch_printer_available updated (remembered_as dev_id updated p).callbacks)
        ≡ map studio (dispatch_printer_available updated p.callbacks)
  unfolding dispatch_printer_available
  dispatch_same dev_id updated p =
      ap (λ f. map studio (if_set f (λ g. msg_arrived g updated ∷ []))) (told_same dev_id updated p)

  -- How a renaming that finds the cached announcement `json` ends.
  renaming_ends :
      (dev_id dev_name : Text) (p : Plugin w)
      → let p' = store_name w dev_id dev_name p in
        let updated = apply_name_override (printer_json dev_id p.callbacks) p'.name_overrides in
        is_empty (printer_json dev_id p.callbacks) ≡ false
        → is_empty updated ≡ false
        → modify_printer_name w dev_id dev_name p ≡ (
          remembered_as dev_id updated p',
          map studio (dispatch_printer_available updated p.callbacks),
        )
  unfolding modify_printer_name store_name
  renaming_ends dev_id dev_name p h k =
      renewed dev_id (printer_json dev_id p.callbacks) (store_name w dev_id dev_name p) h k
      ∙ again _ _ k
      ∙ ap
          (λ es. (
            remembered_as dev_id
                (apply_name_override (printer_json dev_id p.callbacks)
                  (store_name w dev_id dev_name p).name_overrides)
                (store_name w dev_id dev_name p),
            es,
          ))
          (dispatch_same dev_id _ (store_name w dev_id dev_name p))

  stored_override :
      (dev_id dev_name : Text) (p : Plugin w)
      → is_empty dev_id ≡ false
      → is_empty dev_name ≡ false
      → override_of dev_id (store_name w dev_id dev_name p).name_overrides ≡ some dev_name
  unfolding store_name set_name_override
  stored_override dev_id dev_name p d n = override_set dev_id dev_name p.name_overrides d n

  -- A printer that is named in its cached announcement, where the announcement's `dev_name` is closed,
  -- and that the user gives a name that is not empty, is announced again to the function that is set,
  -- if there is one, with exactly that name, escaped; that announcement takes the place of the cached
  -- one, so that a function that is set later is told the same.
  pub modify_printer_name-dev_name :
      (dev_id dev_name : Text) (p : Plugin w)
      → is_empty dev_id ≡ false
      → is_empty dev_name ≡ false
      → json_string_field (printer_json dev_id p.callbacks) (codes "dev_id") ≡ dev_id
      → is_some (find_json_string_value_range (printer_json dev_id p.callbacks) (codes "dev_name"))
        ≡ true
      → let q = modify_printer_name w dev_id dev_name p in
        let cached = printer_json dev_id q.0.callbacks in
        (json_string_field cached (codes "dev_name") ≡ json_escape dev_name)
        × (q.1 ≡ map studio (dispatch_printer_available cached p.callbacks))
  modify_printer_name-dev_name dev_id dev_name p d n i closed =
      (ap (λ j. json_string_field j (codes "dev_name")) cached ∙ renamed, told)
    where
      p' : Plugin w
      p' = store_name w dev_id dev_name p

      updated : Text
      updated = apply_name_override (printer_json dev_id p.callbacks) p'.name_overrides

      named :
          override_of
            (json_string_field (printer_json dev_id p.callbacks) (codes "dev_id"))
            p'.name_overrides
          ≡ some dev_name
      named = ap (λ x. override_of x p'.name_overrides) i ∙ stored_override dev_id dev_name p d n

      renamed : json_string_field updated (codes "dev_name") ≡ json_escape dev_name
      renamed = dev_name-apply_name_override _ dev_name p'.name_overrides named closed

      ends : modify_printer_name w dev_id dev_name p ≡ (
        remembered_as dev_id updated p',
        map studio (dispatch_printer_available updated p.callbacks),
      )
      ends =
          renaming_ends dev_id dev_name p (identified_json _ dev_id i d)
            (named_json updated dev_name renamed n)

      cached : printer_json dev_id (modify_printer_name w dev_id dev_name p).0.callbacks ≡ updated
      cached =
          ap (λ a. printer_json dev_id a.0.callbacks) ends
          ∙ printer_json_remembered dev_id updated p' d

      told :
          (modify_printer_name w dev_id dev_name p).1
          ≡ map studio (
              dispatch_printer_available
                (printer_json dev_id (modify_printer_name w dev_id dev_name p).0.callbacks)
                p.callbacks)
      told =
          ap (λ a. a.1) ends
          ∙ ap (λ j. map studio (dispatch_printer_available j p.callbacks)) (sym cached)

  apply_none :
      (json : Text) (o : Dict Text)
      → override_of (json_string_field json (codes "dev_id")) o ≡ none
      → apply_name_override json o ≡ json
  unfolding apply_name_override
  apply_none json o e = rw (e, apply_name_override) refl

  erased_override :
      (dev_id : Text) (p : Plugin w)
      → override_of dev_id (store_name w dev_id [] p).name_overrides ≡ none
  unfolding store_name set_name_override
  erased_override dev_id p = override_erased dev_id p.name_overrides

  -- A printer that is named in its cached announcement and whose name the user takes back is announced
  -- again as it was cached, with the name that it had before, and the cache keeps that announcement.
  pub modify_printer_name_empty :
      (dev_id : Text) (p : Plugin w)
      → is_empty dev_id ≡ false
      → json_string_field (printer_json dev_id p.callbacks) (codes "dev_id") ≡ dev_id
      → let q = modify_printer_name w dev_id [] p in
        (printer_json dev_id q.0.callbacks ≡ printer_json dev_id p.callbacks)
        × (q.1
            ≡ map studio (dispatch_printer_available (printer_json dev_id p.callbacks) p.callbacks))
  modify_printer_name_empty dev_id p d i = (
    ap (λ a. printer_json dev_id a.0.callbacks) ends ∙ printer_json_remembered dev_id _ p' d ∙ kept,
    ap (λ a. a.1) ends ∙ ap (λ j. map studio (dispatch_printer_available j p.callbacks)) kept,
  )
    where
      p' : Plugin w
      p' = store_name w dev_id [] p

      kept :
          apply_name_override (printer_json dev_id p.callbacks) p'.name_overrides
          ≡ printer_json dev_id p.callbacks
      kept =
          apply_none _ p'.name_overrides
            (ap (λ x. override_of x p'.name_overrides) i ∙ erased_override dev_id p)

      ends : modify_printer_name w dev_id [] p ≡ (
        remembered_as dev_id
            (apply_name_override (printer_json dev_id p.callbacks) p'.name_overrides)
            p',
        map studio (
            dispatch_printer_available
              (apply_name_override (printer_json dev_id p.callbacks) p'.name_overrides)
              p.callbacks),
      )
      ends =
          renaming_ends dev_id [] p (identified_json _ dev_id i d)
            (ap is_empty kept ∙ identified_json _ dev_id i d)
