-- ===== src/Plugin/Restart.antt =====
-- What a plugin does that is loaded where another one was.
use bambu_farm.Base.{
  Bool, true, false, not, ◌&&◌, ◌||◌, if◌then◌else◌, some, List, [], ◌∷◌, ◌++◌, map, ◌≡◌, refl, ap,
  ◌∙◌, arith, Bool-cases, inl, inr,
}
use bambu_farm.Base.Text.{Text, codes, is_empty, text_eq, text_eq_iff}
use bambu_farm.Base.Dict.{Dict}
use bambu_farm.LocalState.Lines.{Lacks}
use bambu_farm.LocalState.Selected.{
  load_selected_device as stored_selected_device, written, kept-written,
  load-persist_selected_device,
}
use bambu_farm.PrinterMetadata.{json_string_field, json_matches_device, apply_name_override}
use bambu_farm.Session.{
  SessionState, initial, claim_autoconnect_target, load_selected_device, set_user_selected_device,
}
use bambu_farm.Session.Autoconnect.{contains}
use bambu_farm.Callbacks.{Call, remember_printer_json}
use bambu_farm.Plugin.{
  World, Plugin, loaded_on, Effect, studio, rs_connect, rs_disconnect, rs_send, printed,
}
use bambu_farm.Plugin.Connect.{
  set_config_dir, load_selected_device_file, set_user_selected_machine, persist_selected_device,
  cb_printer_available, connect_selected_device_if_pending, autoconnect,
}
use bambu_farm.Plugin.Run.{printer_available, step, run}

-- The connections that are asked for, with their passwords.
unfoldable pub connects_of : List Effect → List (Text × Text)
connects_of [] = []
connects_of (rs_connect dev_id password ∷ es) = (dev_id, password) ∷ connects_of es
connects_of (studio c ∷ es) = connects_of es
connects_of (rs_disconnect dev_id ∷ es) = connects_of es
connects_of (rs_send dev_id json ∷ es) = connects_of es
connects_of (printed e ∷ es) = connects_of es

pub connects_of-append :
    (es fs : List Effect) → connects_of (es ++ fs) ≡ connects_of es ++ connects_of fs
unfolding connects_of
connects_of-append [] fs = refl
connects_of-append (rs_connect dev_id password ∷ es) fs =
    ap (λ l. (dev_id, password) ∷ l) (connects_of-append es fs)
connects_of-append (studio c ∷ es) fs = connects_of-append es fs
connects_of-append (rs_disconnect dev_id ∷ es) fs = connects_of-append es fs
connects_of-append (rs_send dev_id json ∷ es) fs = connects_of-append es fs
connects_of-append (printed e ∷ es) fs = connects_of-append es fs

pub connects_of-studio :
    (cs : List Call) (es : List Effect) → connects_of (map studio cs ++ es) ≡ connects_of es
unfolding connects_of
connects_of-studio [] es = refl
connects_of-studio (c ∷ cs) es = connects_of-studio cs es

connects_of_one : (target : Text) → connects_of (rs_connect target [] ∷ []) ≡ (target, []) ∷ []
unfolding connects_of
connects_of_one target = refl

-- The device that an announcement is about, once the user's name is in it.
unfoldable pub announced : Dict Text → Text → Text
announced overrides json = json_string_field (apply_name_override json overrides) (codes "dev_id")

module _ (w : World) where
  -- The connection that follows on a claim.
  abbrev claimed : Bool → Text → List (Text × Text)
  claimed matches target = if matches && not (is_empty target) then (target, []) ∷ [] else []

  connects-autoconnect :
      (a : SessionState × Text) (p : Plugin w)
      → connects_of (autoconnect w a p).1 ≡ claimed true a.1
  unfolding autoconnect
  connects-autoconnect (s, []) p = unfold connects_of in refl
  connects-autoconnect (s, c ∷ t) p = connects_of-studio _ _ ∙ connects_of_one (c ∷ t)

  connects-if :
      (matches : Bool) (d : Text) (p : Plugin w)
      → connects_of
          (if◌then◌else◌ {A = Plugin w × List Effect} matches
            (autoconnect w (claim_autoconnect_target d p.session) p)
            (p, [])).1
        ≡ claimed matches (claim_autoconnect_target d p.session).1
  connects-if true d p = connects-autoconnect _ p
  connects-if false d p = unfold connects_of in refl

  connects-available :
      (json : Text) (p : Plugin w)
      → connects_of (cb_printer_available w json p).1
        ≡ claimed
            (json_matches_device
              (apply_name_override json p.name_overrides)
              p.session.selected_device)
            (claim_autoconnect_target (announced p.name_overrides json) p.session).1
  unfolding cb_printer_available connect_selected_device_if_pending announced
  connects-available json p = connects_of-studio _ _ ∙ connects-if _ _ _

  session-if :
      (matches : Bool) (d : Text) (p : Plugin w)
      → (if◌then◌else◌ {A = Plugin w × List Effect} matches
          (autoconnect w (claim_autoconnect_target d p.session) p)
          (p, [])).0.session
        ≡ (if matches then (claim_autoconnect_target d p.session).0 else p.session)
  unfolding autoconnect
  session-if true d p = refl
  session-if false d p = refl

  overrides-if :
      (matches : Bool) (d : Text) (p : Plugin w)
      → (if◌then◌else◌ {A = Plugin w × List Effect} matches
          (autoconnect w (claim_autoconnect_target d p.session) p)
          (p, [])).0.name_overrides
        ≡ p.name_overrides
  unfolding autoconnect
  overrides-if true d p = refl
  overrides-if false d p = refl

  -- `remember_printer_json` of an announcement.
  abbrev remembered : Text → Plugin w → Plugin w
  remembered json p = record p {
    callbacks =
        remember_printer_json
          (json_string_field (apply_name_override json p.name_overrides) (codes "dev_id"))
          (apply_name_override json p.name_overrides) p.callbacks;
  }

  pub session-available :
      (json : Text) (p : Plugin w)
      → (cb_printer_available w json p).0.session ≡ (
          if json_matches_device
            (apply_name_override json p.name_overrides)
            p.session.selected_device
          then (claim_autoconnect_target (announced p.name_overrides json) p.session).0
          else p.session)
  unfolding cb_printer_available connect_selected_device_if_pending announced
  session-available json p =
      session-if
        (json_matches_device (apply_name_override json p.name_overrides) p.session.selected_device)
        (json_string_field (apply_name_override json p.name_overrides) (codes "dev_id"))
        (remembered json p)

  overrides-available :
      (json : Text) (p : Plugin w)
      → (cb_printer_available w json p).0.name_overrides ≡ p.name_overrides
  unfolding cb_printer_available connect_selected_device_if_pending
  overrides-available json p =
      overrides-if
        (json_matches_device (apply_name_override json p.name_overrides) p.session.selected_device)
        (json_string_field (apply_name_override json p.name_overrides) (codes "dev_id"))
        (remembered json p)

  -- The plugin waits for a device with a name, which the announcements after `p` may be about.
  pub record Awaits (dev_id : Text) (p : Plugin w) : Type 0 where
    pub pending : p.session.auto_connect_pending ≡ true
    pub selected : p.session.selected_device ≡ dev_id
    pub named : is_empty dev_id ≡ false

  pub claimed-Awaits :
      (dev_id json : Text) (p : Plugin w)
      → Awaits dev_id p
      → connects_of (cb_printer_available w json p).1
        ≡ (if text_eq dev_id (announced p.name_overrides json) then (dev_id, []) ∷ [] else [])
  unfolding json_matches_device claim_autoconnect_target announced
  claimed-Awaits dev_id json p a =
      connects-available json p
      ∙ ground (
        arith,
        a.pending,
        a.selected,
        a.named,
        text_eq_iff (announced p.name_overrides json) dev_id,
        text_eq_iff dev_id (announced p.name_overrides json),
      )

  pub connects_calm :
      (json : Text) (p : Plugin w)
      → p.session.auto_connect_pending ≡ false
      → connects_of (cb_printer_available w json p).1 ≡ []
  unfolding json_matches_device claim_autoconnect_target announced
  connects_calm json p h = connects-available json p ∙ ground (arith, h)

  calm_still :
      (json : Text) (p : Plugin w)
      → p.session.auto_connect_pending ≡ false
      → (cb_printer_available w json p).0.session.auto_connect_pending ≡ false
  unfolding json_matches_device claim_autoconnect_target announced
  calm_still json p h =
      ap (λ s. s.auto_connect_pending) (session-available json p) ∙ ground (arith, h)

  claimed_calm :
      (dev_id json : Text) (p : Plugin w)
      → Awaits dev_id p
      → text_eq dev_id (announced p.name_overrides json) ≡ true
      → (cb_printer_available w json p).0.session.auto_connect_pending ≡ false
  unfolding json_matches_device claim_autoconnect_target announced
  claimed_calm dev_id json p a e =
      ap (λ s. s.auto_connect_pending) (session-available json p)
      ∙ ground (
        arith,
        a.pending,
        a.selected,
        a.named,
        e,
        text_eq_iff (announced p.name_overrides json) dev_id,
        text_eq_iff dev_id (announced p.name_overrides json),
      )

  unclaimed_session :
      (dev_id json : Text) (p : Plugin w)
      → Awaits dev_id p
      → text_eq dev_id (announced p.name_overrides json) ≡ false
      → (cb_printer_available w json p).0.session ≡ p.session
  unfolding json_matches_device claim_autoconnect_target announced
  unclaimed_session dev_id json p a e =
      session-available json p
      ∙ ground (
        arith,
        a.pending,
        a.selected,
        a.named,
        e,
        text_eq_iff (announced p.name_overrides json) dev_id,
        text_eq_iff dev_id (announced p.name_overrides json),
      )

  unclaimed-Awaits :
      (dev_id json : Text) (p : Plugin w)
      → Awaits dev_id p
      → text_eq dev_id (announced p.name_overrides json) ≡ false
      → Awaits dev_id (cb_printer_available w json p).0
  unclaimed-Awaits dev_id json p a e = record {
    pending = ap (λ s. s.auto_connect_pending) (unclaimed_session dev_id json p a e) ∙ a.pending;
    selected = ap (λ s. s.selected_device) (unclaimed_session dev_id json p a e) ∙ a.selected;
    named = a.named;
  }

  -- One announcement after the other.
  abbrev pub hears : List Text → Plugin w → List (Text × Text)
  hears jsons p = connects_of (run w (map printer_available jsons) p).1

  hears_first :
      (json : Text) (jsons : List Text) (p : Plugin w)
      → hears (json ∷ jsons) p
        ≡ connects_of (cb_printer_available w json p).1
          ++ hears jsons (cb_printer_available w json p).0
  unfolding run step
  hears_first json jsons p = connects_of-append _ _

  pub hears_calm :
      (jsons : List Text) (p : Plugin w)
      → p.session.auto_connect_pending ≡ false
      → hears jsons p ≡ []
  hears_calm [] p h = unfold connects_of run in refl
  hears_calm (json ∷ jsons) p h =
      hears_first json jsons p
      ∙ ap (λ l. l ++ hears jsons (cb_printer_available w json p).0) (connects_calm json p h)
      ∙ hears_calm jsons (cb_printer_available w json p).0 (calm_still json p h)

  contains_first :
      (dev_id d : Text) (ds : List Text) (b : Bool)
      → text_eq dev_id d ≡ b
      → contains dev_id (d ∷ ds) ≡ (b || contains dev_id ds)
  unfolding contains
  contains_first dev_id d ds b e = ap (λ x. x || contains dev_id ds) e

  -- A plugin that waits for a device connects to it once, if it is announced.
  pub hears-Awaits :
      (dev_id : Text) (jsons : List Text) (p : Plugin w)
      → Awaits dev_id p
      → hears jsons p ≡ (
          if contains dev_id (map (announced p.name_overrides) jsons)
          then (dev_id, []) ∷ []
          else [])
  hears-Awaits dev_id [] p a = unfold connects_of run contains in refl
  hears-Awaits dev_id (json ∷ jsons) p a =
      hears_first json jsons p
      ∙ elim (Bool-cases (text_eq dev_id (announced p.name_overrides json))) [
        | inl e ↦
            rw
              (
                claimed-Awaits dev_id json p a,
                e,
                contains_first dev_id _ _ true e,
                hears_calm jsons (cb_printer_available w json p).0 (claimed_calm dev_id json p a e),
              )
              refl
        | inr e ↦
            rw
              (
                claimed-Awaits dev_id json p a,
                e,
                contains_first dev_id _ _ false e,
                hears-Awaits dev_id jsons (cb_printer_available w json p).0
                    (unclaimed-Awaits dev_id json p a e),
                overrides-available json p,
              )
              refl
      ]

  load_if :
      (config_dir loaded : Text) (disk : w.fs.Disk)
      → (if is_empty loaded
          then record (loaded_on w disk) { config_dir_path = config_dir }
          else record (loaded_on w disk) {
            config_dir_path = config_dir;
            session = load_selected_device loaded initial;
          }).session
        ≡ load_selected_device loaded initial
  unfolding load_selected_device
  load_if config_dir [] disk = refl
  load_if config_dir (c ∷ s) disk = refl

  -- The plugin that is loaded on a disk and reads its files.
  abbrev pub restarted : Text → w.fs.Disk → Plugin w
  restarted config_dir disk = set_config_dir w config_dir (loaded_on w disk)

  pub restarted_session :
      (config_dir loaded : Text) (disk : w.fs.Disk)
      → stored_selected_device w.fs w.env config_dir disk ≡ loaded
      → (restarted config_dir disk).session ≡ load_selected_device loaded initial
  unfolding set_config_dir load_selected_device_file
  restarted_session config_dir loaded disk e =
      load_if config_dir (stored_selected_device w.fs w.env config_dir disk) disk
      ∙ ap (λ l. load_selected_device l initial) e

  loaded-Awaits :
      (dev_id : Text) (p : Plugin w)
      → is_empty dev_id ≡ false
      → p.session ≡ load_selected_device dev_id initial
      → Awaits dev_id p
  unfolding load_selected_device
  loaded-Awaits dev_id p n e = record {
    pending = ap (λ s. s.auto_connect_pending) e ∙ ap not n;
    selected = ap (λ s. s.selected_device) e;
    named = n;
  }

  stored_selection :
      (dev_id : Text) (p : Plugin w) (d : w.fs.Disk)
      → is_empty dev_id ≡ false
      → Lacks b'\n' dev_id
      → written w.fs w.env p.config_dir_path dev_id p.disk ≡ some d
      → stored_selected_device w.fs w.env p.config_dir_path
          (set_user_selected_machine w dev_id p).disk
        ≡ dev_id
  unfolding set_user_selected_machine persist_selected_device set_user_selected_device
  stored_selection dev_id p d n l e =
      load-persist_selected_device w.fs w.env p.config_dir_path dev_id p.disk d l
        (kept-written w.fs w.env p.config_dir_path dev_id p.disk n ∙ e)

  -- Where the user selects a machine with a name without a line break and its file can be written, a
  -- plugin that is loaded later on that disk and configured with the same directory has that machine
  -- selected; and whatever printers are then announced, it asks for exactly one connection, without a
  -- password, to that machine, if it is among them, and for none otherwise.
  pub restart-set_user_selected_machine :
      (dev_id : Text) (p : Plugin w) (d : w.fs.Disk) (jsons : List Text)
      → is_empty dev_id ≡ false
      → Lacks b'\n' dev_id
      → written w.fs w.env p.config_dir_path dev_id p.disk ≡ some d
      → let q = restarted p.config_dir_path (set_user_selected_machine w dev_id p).disk in
        (q.session.selected_device ≡ dev_id)
        × (hears jsons q ≡ (
            if contains dev_id (map (announced q.name_overrides) jsons)
            then (dev_id, []) ∷ []
            else []))
  restart-set_user_selected_machine dev_id p d jsons n l e =
      (awaits.selected, hears-Awaits dev_id jsons q awaits)
    where
      q : Plugin w
      q = restarted p.config_dir_path (set_user_selected_machine w dev_id p).disk

      awaits : Awaits dev_id q
      awaits =
          loaded-Awaits dev_id q n
            (restarted_session p.config_dir_path dev_id _ (stored_selection dev_id p d n l e))
