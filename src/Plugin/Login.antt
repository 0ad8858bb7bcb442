-- ===== src/Plugin/Login.antt =====
-- The user of bambu-farm-client/cpp/api.cpp: there is one, of the local network.
use bambu_farm.Base.{if◌then◌else◌, Bool, Option, [], ◌∷◌, ◌++◌}
use bambu_farm.Base.Text.{Text, codes, concat}
use bambu_farm.PrintJob.Command.{
  LoginState, show_bool, build_logged_in_login_cmd, build_logout_cmd, build_login_info,
}
use bambu_farm.Plugin.{World, Plugin}
use bambu_farm.Plugin.Diag.{write_periodic_diag}

abbrev pub lan_backend_url : Text
lan_backend_url = codes "http://127.0.0.1:47403"

-- `provider` is the only one that the plugin names.
unfoldable pub user_logout_cmd : Text
user_logout_cmd = build_logout_cmd (codes "lan")

module _ (w : World) where
  -- The texts of a fresh `LoginState` are empty.
  unfoldable pub lan_login_state : Plugin w → LoginState
  lan_login_state p =
      if p.lan_user_logged_in
      then record {
        user_id = codes "00000000000000001";
        user_name = codes "LAN User";
        nickname = codes "LAN User";
        avatar = [];
        logged_in = p.lan_user_logged_in;
      }
      else record {
        user_id = [];
        user_name = [];
        nickname = [];
        avatar = [];
        logged_in = p.lan_user_logged_in;
      }

  -- The answer, and the line of the log that is due at some of the calls; likewise for the command.
  unfoldable pub is_user_login : Plugin w → Plugin w × (Bool × Option Text)
  is_user_login p =
      let (counter, line) = write_periodic_diag p.user_login_log_counter 50 (
        concat (
          codes "bambu_network_is_user_login: returning "
          ∷ show_bool p.lan_user_logged_in
          ∷ codes " (LAN mode)"
          ∷ [])) in
      (record p { user_login_log_counter = counter }, (p.lan_user_logged_in, line))

  unfoldable pub get_user_id : Plugin w → Text
  get_user_id p = (lan_login_state p).user_id

  unfoldable pub get_user_name : Plugin w → Text
  get_user_name p = (lan_login_state p).user_name

  unfoldable pub get_user_avatar : Plugin w → Text
  get_user_avatar p = (lan_login_state p).avatar

  unfoldable pub get_user_nickanme : Plugin w → Text
  get_user_nickanme p = (lan_login_state p).nickname

  unfoldable pub build_login_cmd : Plugin w → Plugin w × (Text × Option Text)
  build_login_cmd p =
      let json = build_logged_in_login_cmd (lan_login_state p) in
      let (counter, line) =
        write_periodic_diag p.build_login_cmd_log_counter 20
          (codes "bambu_network_build_login_cmd: returning " ++ json) in
      (record p { build_login_cmd_log_counter = counter }, (json, line))

  unfoldable pub user_login_info : Plugin w → Text
  user_login_info p = build_login_info (lan_login_state p) lan_backend_url lan_backend_url
