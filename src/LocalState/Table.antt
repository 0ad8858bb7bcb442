-- ===== src/LocalState/Table.antt =====
-- A file system that holds its files in a table, and an environment, for the tests.
use bambu_farm.Base.{none, some, ◌≡◌}
use bambu_farm.Base.Text.{Text, codes}
use bambu_farm.Base.Dict.{Dict, insert, erase, lookup, lookup-insert_self, lookup-erase_self}
use bambu_farm.LocalState.Paths.{FileSystem, Environment}

pub stored :
    (path content : Text) (d d' : Dict Text)
    → some (insert path content d) ≡ some d'
    → lookup path d' ≡ some content
stored path content d d' e = rw (← some_inj e) (lookup-insert_self path content d)
  where
    some_inj : some (insert path content d) ≡ some d' → insert path content d ≡ d'
    some_inj h = cc

pub erased :
    (path : Text) (d d' : Dict Text) → some (erase path d) ≡ some d' → lookup path d' ≡ none
erased path d d' e = rw (← some_inj e) (lookup-erase_self path d)
  where
    some_inj : some (erase path d) ≡ some d' → erase path d ≡ d'
    some_inj h = cc

abbrev pub table : FileSystem
table = record {
  Disk = Dict Text;
  create_parents = λ path d. d;
  write = λ path content d. some (insert path content d);
  read = lookup;
  remove = λ path d. some (erase path d);
  read-write = stored;
  read-remove = erased;
}

abbrev pub env : Environment
env = record { xdg_config_home = none; home = some (codes "/home/u") }
