-- ===== src/LocalState/Contexts.antt =====
-- `persist_local_print_contexts` and `load_local_print_contexts` of
-- bambu-farm-client/cpp/local_state.cpp, and `LocalPrintContext` of
-- bambu-farm-client/cpp/local_state.hpp.
pub mod RoundTrip
use bambu_farm.Base.{Bool, true, not, ◌&&◌, if◌then◌else◌, Option, none, some, List, [], ◌∷◌, ◌++◌}
use bambu_farm.Base.Text.{Text, is_empty}
use bambu_farm.Base.Int.{ℤ, pos}
use bambu_farm.Base.Decimal.{show_int}
use bambu_farm.Base.Dict.{Dict, insert, IterationOrder}
use bambu_farm.LocalState.Paths.{FileSystem, Environment, local_print_contexts_state_path}
use bambu_farm.LocalState.Lines.{lines, split_tabs}

pub record LocalPrintContext : Type 0 where
  pub dev_id : Text
  pub project_id : Text
  pub profile_id : Text
  pub subtask_id : Text
  pub task_id : Text
  pub remote_filename : Text
  pub plate_path : Text
  pub thumbnail_url : Text
  pub plate_index : ℤ
  pub active : Bool

-- The line of one context.
unfoldable pub context_line : LocalPrintContext → Text
context_line c =
    c.dev_id
    ++ b'\t'
      ∷ (c.project_id
          ++ b'\t'
            ∷ (c.profile_id
                ++ b'\t'
                  ∷ (c.subtask_id
                      ++ b'\t'
                        ∷ (c.task_id
                            ++ b'\t'
                              ∷ (c.remote_filename
                                  ++ b'\t'
                                    ∷ (c.plate_path
                                        ++ b'\t'
                                          ∷ (c.thumbnail_url
                                              ++ b'\t'
                                                ∷ (show_int c.plate_index ++ b'\n' ∷ []))))))))

abbrev pub is_stored : Text → LocalPrintContext → Bool
is_stored dev_id context = context.active && not (is_empty dev_id)

-- The writing loop; the key decides whether an entry is written, its `dev_id` is what is written.
unfoldable pub contexts_text : Dict LocalPrintContext → Text
contexts_text [] = []
contexts_text ((dev_id, context) ∷ m) =
    (if is_stored dev_id context then context_line context else []) ++ contexts_text m

-- `std::stoi` is the C++ library's: `none` is an exception, after which the plate is 0.
abbrev pub Stoi : Type 0
Stoi = Text → Option ℤ

abbrev pub or_zero : Option ℤ → ℤ
or_zero none = pos 0
or_zero (some i) = i

-- A line of nine fields, the first not empty, is a context; any other line is passed over.
unfoldable pub context_of : Stoi → List Text → Option LocalPrintContext
context_of stoi (f0 ∷ f1 ∷ f2 ∷ f3 ∷ f4 ∷ f5 ∷ f6 ∷ f7 ∷ f8 ∷ []) =
    if is_empty f0
    then none
    else some (record {
      dev_id = f0;
      project_id = f1;
      profile_id = f2;
      subtask_id = f3;
      task_id = f4;
      remote_filename = f5;
      plate_path = f6;
      thumbnail_url = f7;
      plate_index = or_zero (stoi f8);
      active = true;
    })
context_of stoi _ = none

-- `loaded[context.dev_id] = context`.
abbrev pub add_context : Option LocalPrintContext → Dict LocalPrintContext → Dict LocalPrintContext
add_context none loaded = loaded
add_context (some c) loaded = insert c.dev_id c loaded

unfoldable pub load_context : Stoi → Text → Dict LocalPrintContext → Dict LocalPrintContext
load_context stoi line loaded = add_context (context_of stoi (split_tabs [] line)) loaded

unfoldable pub load_contexts : Stoi → List Text → Dict LocalPrintContext → Dict LocalPrintContext
load_contexts stoi [] loaded = loaded
load_contexts stoi (line ∷ ls) loaded = load_contexts stoi ls (load_context stoi line loaded)

module _ (fs : FileSystem) (env : Environment) where
  open fs use {Disk, create_parents, write, read}

  unfoldable pub persist_local_print_contexts :
      IterationOrder LocalPrintContext → Text → Dict LocalPrintContext → Disk → Disk
  persist_local_print_contexts order config_dir contexts disk =
      let path = local_print_contexts_state_path env config_dir in
      let d = create_parents path disk in
      elim (write path (contexts_text (order.visit contexts)) d) [ none ↦ d | some d' ↦ d' ]

  unfoldable pub load_local_print_contexts : Stoi → Text → Disk → Dict LocalPrintContext
  load_local_print_contexts stoi config_dir disk =
      elim (read (local_print_contexts_state_path env config_dir) disk) [
        | none ↦ []
        | some text ↦ load_contexts stoi (lines [] text) []
      ]
