-- ===== src/Source.antt =====
-- bambu-farm-client/cpp/bambu_source.c: the library libBambuSource, whose functions forward to those of
-- libbambu_networking.so, which it loads when it is first needed. The dynamic linker is a parameter, and
-- may answer differently at every call. Log lines are left out.
mod Tests
pub mod Calls
pub mod Missing
use bambu_farm.Base.{
  ℕ, Bool, true, false, ◌||◌, ◌==◌, if◌then◌else◌, Option, none, some, List, [], ◌∷◌, ◌++◌, take,
}
use bambu_farm.Base.Text.{Text, codes, concat, text_eq}
use bambu_farm.LocalState.Paths.{Environment, is_set as value_set, value_of}
use bambu_farm.Base.Int.{ℤ, pos, negsuc, int_eq}

-- The functions that are forwarded, in the order of the `LOAD_SYM` lines.
pub data Export : Type 0 where
  create set_logger open_tunnel start_stream start_stream_ex get_stream_count get_stream_info :
      Export
  get_duration seek read_sample send_message recv_message close destroy init deinit : Export
  get_last_error_msg free_log_msg : Export

abbrev pub symbol : Export → Text
symbol create = codes "Bambu_Create"
symbol set_logger = codes "Bambu_SetLogger"
symbol open_tunnel = codes "Bambu_Open"
symbol start_stream = codes "Bambu_StartStream"
symbol start_stream_ex = codes "Bambu_StartStreamEx"
symbol get_stream_count = codes "Bambu_GetStreamCount"
symbol get_stream_info = codes "Bambu_GetStreamInfo"
symbol get_duration = codes "Bambu_GetDuration"
symbol seek = codes "Bambu_Seek"
symbol read_sample = codes "Bambu_ReadSample"
symbol send_message = codes "Bambu_SendMessage"
symbol recv_message = codes "Bambu_RecvMessage"
symbol close = codes "Bambu_Close"
symbol destroy = codes "Bambu_Destroy"
symbol init = codes "Bambu_Init"
symbol deinit = codes "Bambu_Deinit"
symbol get_last_error_msg = codes "Bambu_GetLastErrorMsg"
symbol free_log_msg = codes "Bambu_FreeLogMsg"

abbrev pub exports : List Export
exports =
    create ∷ set_logger ∷ open_tunnel ∷ start_stream ∷ start_stream_ex ∷ get_stream_count
    ∷ get_stream_info ∷ get_duration ∷ seek ∷ read_sample ∷ send_message ∷ recv_message ∷ close
    ∷ destroy ∷ init ∷ deinit ∷ get_last_error_msg ∷ free_log_msg ∷ []

-- The file of the log, whose name is cut to the buffer.
unfoldable pub diag_path : Environment → Text
diag_path env =
    if value_set env.xdg_config_home
    then take 1023 (value_of env.xdg_config_home ++ codes "/BambuStudio/oss-plugin-debug.log")
    else if value_set env.home
    then take 1023 (value_of env.home ++ codes "/.config/BambuStudio/oss-plugin-debug.log")
    else codes "/tmp/bambu-oss-plugin-debug.log"

-- The answers of the dynamic linker: the file of this library, whether a file can be loaded, whether
-- it has a symbol, and the text of `dlerror`.
pub record Linker : Type 0 where
  pub dladdr : Option Text
  pub dlopen : Text → Bool
  pub dlsym : Text → Bool
  pub dlerror : Text

-- The static variables; `pointers` are the `fn_…` that are not null.
pub record Loader : Type 0 where
  pub network_module : Bool
  pub pointers : List Export
  pub last_error : Text

abbrev pub unloaded : Loader
unloaded = record { network_module = false; pointers = []; last_error = [] }

unfoldable pub is_set : Export → List Export → Bool
is_set e [] = false
is_set e (f ∷ fs) = text_eq (symbol f) (symbol e) || is_set e fs

-- `snprintf(last_error, sizeof(last_error), …)`.
abbrev pub fail : Text → Loader → Loader × ℤ
fail message s = (record s { last_error = take 511 message }, negsuc 0)

-- What stands in front of the last slash.
unfoldable pub directory_of : Text → Option Text
directory_of [] = none
directory_of (c ∷ s) = elim (directory_of s) [
  | none ↦ if c == b'/' then some [] else none
  | some d ↦ some (c ∷ d)
]

-- The `LOAD_SYM` lines: the first symbol that is missing ends them.
unfoldable pub load_symbols : Linker → List Export → Loader → Loader × ℤ
load_symbols k [] s = (s, pos 0)
load_symbols k (e ∷ es) s = elim (k.dlsym (symbol e)) [
  | true ↦ load_symbols k es (record s { pointers = e ∷ s.pointers })
  | false ↦ fail (concat (codes "missing symbol " ∷ symbol e ∷ codes ": " ∷ k.dlerror ∷ [])) s
]

-- `PATH_MAX` is 4096.
unfoldable pub network_path : Text → Text
network_path directory = take 4095 (directory ++ codes "/libbambu_networking.so")

-- What follows on the result of `dlopen`.
unfoldable pub opened : Linker → Loader → Bool → Loader × ℤ
opened k s true = load_symbols k exports (record s { network_module = true })
opened k s false = fail (concat (codes "dlopen failed: " ∷ k.dlerror ∷ [])) s

-- What follows on the search for the slash.
unfoldable pub in_directory : Linker → Loader → Option Text → Loader × ℤ
in_directory k s none = fail (codes "invalid module path") s
in_directory k s (some directory) = opened k s (k.dlopen (network_path directory))

-- What follows on the result of `dladdr`.
unfoldable pub in_file : Linker → Loader → Option Text → Loader × ℤ
in_file k s none = fail (codes "dladdr failed") s
in_file k s (some file) = in_directory k s (directory_of (take 4095 file))

unfoldable pub load_network_module : Linker → Loader → Loader × ℤ
load_network_module k s = if s.network_module then (s, pos 0) else in_file k s k.dladdr

-- What a call of an exported function comes to: a call of the forwarded function, a call of a null
-- pointer, or an answer of its own.
pub data Answer : Type 0 where
  forwarded : Export → Answer
  null_called : Export → Answer
  returned : ℤ → Answer
  returned_error : Text → Answer
  returned_nothing : Answer
  freed : Answer

-- The answer where the module could not be loaded.
abbrev pub refusal : Export → Loader → Answer
refusal set_logger s = returned_nothing
refusal get_duration s = returned (pos 0)
refusal close s = returned_nothing
refusal destroy s = returned_nothing
refusal deinit s = returned_nothing
refusal get_last_error_msg s = returned_error s.last_error
refusal free_log_msg s = freed
refusal _ s = returned (negsuc 0)

unfoldable pub forward : Export → Loader → Answer
forward e s = if is_set e s.pointers then forwarded e else null_called e

unfoldable pub exported : Linker → Export → Loader → Loader × Answer
exported k e s =
    let (s', loaded) = load_network_module k s in
    (s', if int_eq loaded (pos 0) then forward e s' else refusal e s')

-- `bambu_source_init`, which runs when the library is loaded.
unfoldable pub bambu_source_init : Linker → Loader → Loader
bambu_source_init k s = (load_network_module k s).0

-- Calls one after the other, each with what the linker answers then.
unfoldable pub exported_all : List (Linker × Export) → Loader → List Answer
exported_all [] s = []
exported_all ((k, e) ∷ cs) s = let (s', a) = exported k e s in a ∷ exported_all cs s'
