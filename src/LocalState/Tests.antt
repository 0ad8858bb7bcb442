-- ===== src/LocalState/Tests.antt =====
-- Round trips through a file system that holds its files in a table.
use bambu_farm.Base.{true, if◌then◌else◌, none, some, [], ◌∷◌, ◌≡◌, refl, arith}
use bambu_farm.Base.Text.{Text, codes, text_eq}
use bambu_farm.Base.Dict.{insert_all, Dict, lookup, insert, IterationOrder}
use bambu_farm.LocalState.Table.{table, env}
use bambu_farm.LocalState.Paths.{printer_names_state_path}
use bambu_farm.Base.Int.{pos}
use bambu_farm.Base.Decimal.{show_int, show_nat, digits}
use bambu_farm.LocalState.Lines.{lines}
use bambu_farm.LocalState.Contexts.{LocalPrintContext, Stoi, contexts_text, load_contexts}
use bambu_farm.LocalState.Contexts.RoundTrip.{
  IsTabless, IsPlainContext, load_contexts-contexts_text,
}
use bambu_farm.LocalState.Names.{
  persist_printer_name_overrides, load_printer_name_overrides, names_text, kept_value,
  load-persist_names,
}

abbrev as_listed : IterationOrder Text
as_listed = record { visit = λ m. m; visit-Distinct = λ m h. h; lookup-visit = λ k m. refl }

abbrev names : Dict Text
names = (codes "01S", codes "Left") ∷ (codes "02P", codes "Right") ∷ []

apart : lookup (codes "01S") ((codes "02P", codes "Right") ∷ []) ≡ none
unfolding lookup text_eq
apart = refl

nothing_behind : lookup {V = Text} (codes "02P") [] ≡ none
unfolding lookup
nothing_behind = refl

abbrev names_disk : Dict Text
names_disk = insert (printer_names_state_path env []) (names_text names) []

load-persist_names_example :
    lookup (codes "02P") (
      load_printer_name_overrides table env as_listed []
        (persist_printer_name_overrides table env as_listed [] names []))
    ≡ kept_value (codes "02P") (lookup (codes "02P") names)
load-persist_names_example =
    load-persist_names table env as_listed [] names [] names_disk (codes "02P")
      (apart, (nothing_behind, tt)) (omega arith) refl

abbrev gear : LocalPrintContext
gear = record {
  dev_id = codes "01S";
  project_id = codes "7";
  profile_id = [];
  subtask_id = codes "lan-9";
  task_id = codes "9";
  remote_filename = codes "g.3mf";
  plate_path = [];
  thumbnail_url = [];
  plate_index = pos 1;
  active = true;
}

abbrev reads_one : Stoi
reads_one text = if text_eq text (codes "1") then some (pos 1) else none

plate_text : show_int (pos 1) ≡ codes "1"
unfolding show_int show_nat digits
plate_text = refl

plate_read : reads_one (show_int (pos 1)) ≡ some (pos 1)
unfolding text_eq
plate_read = rw plate_text refl

gear-IsTabless : IsTabless gear
gear-IsTabless = record {
  t0 = omega arith;
  t1 = omega arith;
  t2 = tt;
  t3 = omega arith;
  t4 = omega arith;
  t5 = omega arith;
  t6 = tt;
  t7 = tt;
  t8 = rw plate_text (omega arith);
}

gear-IsPlainContext : IsPlainContext reads_one gear
gear-IsPlainContext = record {
  tabless = gear-IsTabless;
  on_line = rw plate_text (omega arith);
  named = refl;
  running = refl;
  counted = plate_read;
}

load_contexts-contexts_text_example :
    load_contexts reads_one (lines [] (contexts_text ((codes "01S", gear) ∷ []))) []
    ≡ insert_all ((codes "01S", gear) ∷ []) []
load_contexts-contexts_text_example =
    load_contexts-contexts_text reads_one ((codes "01S", gear) ∷ []) []
      (refl, gear-IsPlainContext, tt)
