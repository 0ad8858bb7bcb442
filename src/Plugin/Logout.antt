-- ===== src/Plugin/Logout.antt =====
-- What a logout leaves behind.
use bambu_farm.Base.{
  false, Option, none, some, sym, subst, if◌then◌else◌, List, [], ◌∷◌, ◌++◌, map, ◌≡◌, refl, ◌∙◌,
  ap,
}
use bambu_farm.Base.Text.{Text, is_empty}
use bambu_farm.LocalState.Selected.{
  load_selected_device as stored_selected_device, persist_selected_device as store_selected_device,
  removed, load-persist_nothing, load-persist_failed,
}
use bambu_farm.LocalState.Paths.{selected_device_state_path}
use bambu_farm.Session.{initial, clear_after_logout, disconnect_target, load_selected_device}
use bambu_farm.Callbacks.{user_login, if_set, notify_user_login}
use bambu_farm.Plugin.{World, Plugin, Effect, studio, rs_disconnect}
use bambu_farm.Plugin.Connect.{
  user_logout, forget_target, persist_selected_device, set_lan_login_state,
}
use bambu_farm.Plugin.Restart.{hears, hears_calm, restarted, restarted_session}

module _ (w : World) where
  -- The calls of a logout.
  abbrev pub farewell : Plugin w → List Effect
  farewell p =
      (if is_empty p.session.selected_device
        then []
        else rs_disconnect p.session.selected_device ∷ [])
      ++ map studio (if_set p.callbacks.on_user_login (λ f. user_login f 0 false ∷ []))

  forget_effects :
      (target : Text) (p : Plugin w)
      → (forget_target w target p).1 ≡ (if is_empty target then [] else rs_disconnect target ∷ [])
  unfolding forget_target
  forget_effects [] p = refl
  forget_effects (c ∷ s) p = refl

  forget_callbacks :
      (target : Text) (p : Plugin w) → (forget_target w target p).0.callbacks ≡ p.callbacks
  unfolding forget_target
  forget_callbacks [] p = refl
  forget_callbacks (c ∷ s) p = refl

  forget_config_dir :
      (target : Text) (p : Plugin w)
      → (forget_target w target p).0.config_dir_path ≡ p.config_dir_path
  unfolding forget_target
  forget_config_dir [] p = refl
  forget_config_dir (c ∷ s) p = refl

  logout_effects : (p : Plugin w) → (user_logout w p).1 ≡ farewell p
  unfolding user_logout set_lan_login_state persist_selected_device notify_user_login
      disconnect_target
  logout_effects p =
      rw (forget_effects p.session.selected_device p, forget_callbacks p.session.selected_device p)
        refl

  -- The disk on which the logout forgets the selection, once it has cleared the device's print.
  abbrev pub forgotten_disk : Plugin w → w.fs.Disk
  forgotten_disk p = (forget_target w p.session.selected_device p).0.disk

  logout_disk :
      (p : Plugin w)
      → (user_logout w p).0.disk
        ≡ store_selected_device w.fs w.env p.config_dir_path [] (forgotten_disk p)
  unfolding user_logout set_lan_login_state persist_selected_device clear_after_logout
      disconnect_target
  logout_disk p =
      ap (λ dir. store_selected_device w.fs w.env dir [] (forgotten_disk p))
        (forget_config_dir p.session.selected_device p)

  -- A plugin that is loaded after a logout, by what removing the file left: nothing is selected and no
  -- announcement makes it connect, or, where the file could not be removed, the device in it is selected.
  abbrev pub HasForgotten : Text → List Text → w.fs.Disk → Option w.fs.Disk → Plugin w → Type 0
  HasForgotten config_dir jsons disk (some d) q = (q.session ≡ initial) × (hears w jsons q ≡ [])
  HasForgotten config_dir jsons disk none q =
      q.session
      ≡ load_selected_device
          (stored_selected_device w.fs w.env config_dir
            (w.fs.create_parents (selected_device_state_path w.env config_dir) disk))
          initial

  initial_calm : load_selected_device [] initial ≡ initial
  unfolding load_selected_device
  initial_calm = refl

  restarted-HasForgotten :
      (config_dir : Text) (jsons : List Text) (disk : w.fs.Disk) (o : Option w.fs.Disk)
      → removed w.fs w.env config_dir disk ≡ o
      → HasForgotten config_dir jsons disk o
          (restarted w config_dir (store_selected_device w.fs w.env config_dir [] disk))
  restarted-HasForgotten config_dir jsons disk none r =
      restarted_session w config_dir _ _ (load-persist_failed w.fs w.env config_dir disk r)
  restarted-HasForgotten config_dir jsons disk (some d) r =
      let again =
        restarted_session w config_dir [] _ (load-persist_nothing w.fs w.env config_dir disk d r)
        ∙ initial_calm in
      (again, hears_calm w jsons _ (ap (λ s. s.auto_connect_pending) again))

  -- After every logout nothing is selected, connected or awaited, and no announcement makes the plugin
  -- connect. A plugin that is loaded later on that disk with the same directory has nothing selected,
  -- connected or awaited either and does not connect, where the file of the selection could be removed;
  -- where it could not, that plugin has selected what the file still holds. The logout itself asks for
  -- the disconnection of the selected device, if there is one, and then tells the function for logins,
  -- if it is set, that nobody is logged in; and it makes no other call.
  pub user_logout-IsFinal :
      (p : Plugin w) (jsons : List Text)
      → let p' = (user_logout w p).0 in
        let disk = forgotten_disk p in
        (p'.session ≡ initial)
        × (p'.lan_user_logged_in ≡ false)
        × (hears w jsons p' ≡ [])
        × HasForgotten p.config_dir_path jsons disk
            (removed w.fs w.env p.config_dir_path disk)
            (restarted w p.config_dir_path p'.disk)
        × ((user_logout w p).1 ≡ farewell p)
  unfolding user_logout set_lan_login_state persist_selected_device clear_after_logout
  user_logout-IsFinal p jsons = (
    refl,
    refl,
    hears_calm w jsons _ refl,
    subst
        (λ d.
          HasForgotten p.config_dir_path jsons (forgotten_disk p)
            (removed w.fs w.env p.config_dir_path (forgotten_disk p))
            (restarted w p.config_dir_path d))
        (sym (logout_disk p))
        (restarted-HasForgotten p.config_dir_path jsons (forgotten_disk p)
          (removed w.fs w.env p.config_dir_path (forgotten_disk p)) refl),
    logout_effects p,
  )
