-- ===== src/LocalState/Selected.antt =====
-- `persist_selected_device` and `load_selected_device` of bambu-farm-client/cpp/local_state.cpp.
use bambu_farm.Base.{
  true, false, ◌==◌, if◌then◌else◌, Option, none, some, [], ◌∷◌, ◌≡◌, refl, arith, ◌∙◌, ℕ,
}
use bambu_farm.Base.Text.{Text, is_empty}
use bambu_farm.LocalState.Paths.{FileSystem, Environment, selected_device_state_path}
use bambu_farm.LocalState.Lines.{Lacks}

-- `std::getline` on the whole file: what stands in front of the first line break.
unfoldable pub first_line : Text → Text
first_line [] = []
first_line (c ∷ s) = elim (c == b'\n') [ true ↦ [] | false ↦ c ∷ first_line s ]

module _ (fs : FileSystem) (env : Environment) where
  open fs use {Disk, create_parents, write, read, remove}

  unfoldable pub persist_selected_device : Text → Text → Disk → Disk
  persist_selected_device config_dir selected_device disk =
      let path = selected_device_state_path env config_dir in
      let d = create_parents path disk in
      if is_empty selected_device
      then elim (remove path d) [ none ↦ d | some d' ↦ d' ]
      else elim (write path selected_device d) [ none ↦ d | some d' ↦ d' ]

  unfoldable pub load_selected_device : Text → Disk → Text
  load_selected_device config_dir disk =
      elim (read (selected_device_state_path env config_dir) disk) [
        | none ↦ []
        | some text ↦ first_line text
      ]

first_line_whole : (s : Text) → Lacks b'\n' s → first_line s ≡ s
unfolding first_line
first_line_whole [] h = refl
first_line_whole (c ∷ s) (hc, hs) = ground (arith, first_line_whole s hs)

module _ (fs : FileSystem) (env : Environment) where
  open fs use {Disk, create_parents, write, read, remove, read-write, read-remove}

  -- What an attempt to store the device finds on the disk.
  abbrev pub written : Text → Text → Disk → Option Disk
  written config_dir selected_device disk =
      write (selected_device_state_path env config_dir) selected_device
        (create_parents (selected_device_state_path env config_dir) disk)

  loaded_none :
      (config_dir : Text) (d : Disk)
      → read (selected_device_state_path env config_dir) d ≡ none
      → load_selected_device fs env config_dir d ≡ []
  unfolding load_selected_device
  loaded_none config_dir d r = rw (r, load_selected_device) refl

  loaded_some :
      (config_dir text : Text) (d : Disk)
      → read (selected_device_state_path env config_dir) d ≡ some text
      → load_selected_device fs env config_dir d ≡ first_line text
  unfolding load_selected_device
  loaded_some config_dir text d r = rw (r, load_selected_device) refl

  -- What an attempt to remove the file leaves on the disk.
  abbrev pub removed : Text → Disk → Option Disk
  removed config_dir disk =
      remove (selected_device_state_path env config_dir)
        (create_parents (selected_device_state_path env config_dir) disk)

  -- What an attempt to keep a device leaves on the disk, if it succeeds.
  abbrev pub kept : Text → Text → Disk → Option Disk
  kept config_dir [] disk = removed config_dir disk
  kept config_dir (c ∷ s) disk = written config_dir (c ∷ s) disk

  pub kept-written :
      (config_dir selected_device : Text) (disk : Disk)
      → is_empty selected_device ≡ false
      → kept config_dir selected_device disk ≡ written config_dir selected_device disk
  kept-written config_dir [] disk n = cc
  kept-written config_dir (c ∷ s) disk n = refl

  cleared :
      (config_dir : Text) (disk d' : Disk)
      → removed config_dir disk ≡ some d'
      → persist_selected_device fs env config_dir [] disk ≡ d'
  unfolding persist_selected_device
  cleared config_dir disk d' r = rw r refl

  stored :
      (config_dir : Text) (c : ℕ) (s : Text) (disk d' : Disk)
      → written config_dir (c ∷ s) disk ≡ some d'
      → persist_selected_device fs env config_dir (c ∷ s) disk ≡ d'
  unfolding persist_selected_device
  stored config_dir c s disk d' w = rw w refl

  pub load-persist_nothing :
      (config_dir : Text) (disk d' : Disk)
      → removed config_dir disk ≡ some d'
      → load_selected_device fs env config_dir (persist_selected_device fs env config_dir [] disk)
        ≡ []
  load-persist_nothing config_dir disk d' r =
      rw (cleared config_dir disk d' r) (loaded_none config_dir d' (read-remove _ _ _ r))

  -- Where the file cannot be removed, what it holds is loaded again.
  pub load-persist_failed :
      (config_dir : Text) (disk : Disk)
      → removed config_dir disk ≡ none
      → load_selected_device fs env config_dir (persist_selected_device fs env config_dir [] disk)
        ≡ load_selected_device fs env config_dir
            (create_parents (selected_device_state_path env config_dir) disk)
  unfolding persist_selected_device
  load-persist_failed config_dir disk r = rw r refl

  -- Where the file can be written, a device identifier without a line break that was persisted is the one
  -- that is loaded, and an empty one is loaded as empty where the file can be removed.
  pub load-persist_selected_device :
      (config_dir selected_device : Text) (disk d' : Disk)
      → Lacks b'\n' selected_device
      → kept config_dir selected_device disk ≡ some d'
      → load_selected_device fs env config_dir
          (persist_selected_device fs env config_dir selected_device disk)
        ≡ selected_device
  load-persist_selected_device config_dir [] disk d' h w = load-persist_nothing config_dir disk d' w
  load-persist_selected_device config_dir (c ∷ s) disk d' h w =
      rw (stored config_dir c s disk d' w)
        (loaded_some config_dir (c ∷ s) d' (read-write _ _ _ _ w) ∙ first_line_whole (c ∷ s) h)
