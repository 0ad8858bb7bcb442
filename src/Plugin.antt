-- ===== src/Plugin.antt =====
-- bambu-farm-client/cpp/api.cpp: the functions that Bambu Studio calls and those that the Rust library
-- calls back, over the state of the plugin's parts. The log file and the arguments that no function
-- reads are left out.
pub mod Connect
pub mod Discovery
pub mod Register
pub mod Print
pub mod Login
pub mod Diag
pub mod Answers
pub mod Run
pub mod History
pub mod Restart
pub mod Remembered
pub mod Renaming
pub mod Twice
pub mod Survives
pub mod Names
pub mod Logout
mod Tests
pub mod Aim
use bambu_farm.Base.{ℕ, Bool, true, List, [], ◌∷◌, map}
use bambu_farm.Base.Text.{Text}
use bambu_farm.Base.Int.{ℤ}
use bambu_farm.Base.Dict.{Dict, IterationOrder}
use bambu_farm.LocalState.Paths.{FileSystem, Environment}
use bambu_farm.LocalState.Contexts.{LocalPrintContext, Stoi}
use bambu_farm.Session.{SessionState, initial}
use bambu_farm.Callbacks.{CallbackRegistry, empty, Call}
use bambu_farm.PrintFlow.Calls.{Event}

-- What the plugin does not implement: the file system, the environment, the order of its tables, the
-- C++ library's `std::stoi` and `std::hash`, and the thumbnail that the Rust library takes from a file.
pub record World : Type 1 where
  pub fs : FileSystem
  pub env : Environment
  pub names_order : IterationOrder Text
  pub contexts_order : IterationOrder LocalPrintContext
  pub stoi : Stoi
  pub hasher : Text → ℕ
  pub extract_3mf_thumbnail : Text → ℤ → Text → Text

-- The static variables of the file, and the disk.
pub record Plugin (w : World) : Type 0 where
  pub config_dir_path : Text
  pub ca_path : Text
  pub user_login_log_counter : ℕ
  pub build_login_cmd_log_counter : ℕ
  pub lan_user_logged_in : Bool
  pub session : SessionState
  pub callbacks : CallbackRegistry
  pub name_overrides : Dict Text
  pub print_contexts : Dict LocalPrintContext
  pub disk : w.fs.Disk

-- The plugin as it is loaded, on a disk.
abbrev pub loaded_on : (w : World) → w.fs.Disk → Plugin w
loaded_on w disk = record {
  config_dir_path = [];
  ca_path = [];
  user_login_log_counter = 0;
  build_login_cmd_log_counter = 0;
  lan_user_logged_in = true;
  session = initial;
  callbacks = empty;
  name_overrides = [];
  print_contexts = [];
  disk = disk;
}

-- A call that leaves the plugin: to a function of Bambu Studio, or to the Rust library; those of a
-- print are the events of its flow.
pub data Effect : Type 0 where
  studio : Call → Effect
  rs_connect : Text → Text → Effect
  rs_disconnect : Text → Effect
  rs_send : Text → Text → Effect
  printed : Event → Effect

-- A function of the plugin that answers nothing: its new state, and the calls that it makes, in order.
abbrev pub Handler : World → Type 0
Handler w = Plugin w → Plugin w × List Effect
