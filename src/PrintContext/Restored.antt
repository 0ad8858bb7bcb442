-- ===== src/PrintContext/Restored.antt =====
-- The contexts of bambu-farm-client/cpp/local_print_context.cpp that a later run of the plugin finds.
use bambu_farm.Base.{Option, some, [], ◌≡◌, refl, ap, ◌∙◌}
use bambu_farm.Base.Text.{Text}
use bambu_farm.Base.Dict.{
  lookup, insert, Distinct, IterationOrder, lookup-insert_all, insert-Distinct, or_else-lookup,
}
use bambu_farm.LocalState.Paths.{FileSystem, Environment, local_print_contexts_state_path}
use bambu_farm.LocalState.Lines.{lines}
use bambu_farm.LocalState.Contexts.{
  LocalPrintContext, Stoi, contexts_text, load_contexts, persist_local_print_contexts,
  load_local_print_contexts,
}
use bambu_farm.LocalState.Contexts.RoundTrip.{ArePlain, load_contexts-contexts_text}
use bambu_farm.PrintContext.{Contexts, update, load}

module _ (fs : FileSystem) (env : Environment) (order : IterationOrder LocalPrintContext) where
  open fs use {Disk, create_parents, write, read, read-write}

  -- What an attempt to store the contexts finds on the disk.
  abbrev pub stored : Text → Contexts → Disk → Option Disk
  stored config_dir m disk =
      write (local_print_contexts_state_path env config_dir) (contexts_text (order.visit m))
        (create_parents (local_print_contexts_state_path env config_dir) disk)

  persisted :
      (config_dir : Text) (m : Contexts) (disk d : Disk)
      → stored config_dir m disk ≡ some d
      → persist_local_print_contexts fs env order config_dir m disk ≡ d
  unfolding persist_local_print_contexts
  persisted config_dir m disk d e = rw (e, persist_local_print_contexts) refl

  loaded :
      (stoi : Stoi) (config_dir text : Text) (d : Disk)
      → read (local_print_contexts_state_path env config_dir) d ≡ some text
      → load fs env order stoi config_dir d ≡ load_contexts stoi (lines [] text) []
  unfolding load load_local_print_contexts
  loaded stoi config_dir text d e = rw (e, load_local_print_contexts) refl

  -- Where the file can be written, and all contexts are active, stand under their own devices, hold
  -- neither a tab nor a line break, and have plates that are read back: after a context was stored, a
  -- later run that loads the file finds for every device the context that this run has.
  pub load-update :
      (stoi : Stoi) (context : LocalPrintContext) (config_dir device : Text) (contexts : Contexts)
      (disk d : Disk)
      → Distinct contexts
      → ArePlain stoi (order.visit (insert context.dev_id context contexts))
      → stored config_dir (insert context.dev_id context contexts) disk ≡ some d
      → let after = update fs env order context config_dir (contexts, disk) in
        lookup device (load fs env order stoi config_dir after.1) ≡ lookup device after.0
  unfolding update
  load-update stoi context config_dir device contexts disk d u p e =
      ap (λ x. lookup device (load fs env order stoi config_dir x))
        (persisted config_dir m disk d e)
      ∙ ap (lookup device) (loaded stoi config_dir _ d (read-write _ _ _ _ e))
      ∙ ap (lookup device) (load_contexts-contexts_text stoi (order.visit m) [] p)
      ∙ lookup-insert_all (order.visit m) [] device
          (order.visit-Distinct m (insert-Distinct context.dev_id context contexts u))
      ∙ or_else-lookup (lookup device (order.visit m)) device
      ∙ order.lookup-visit device m
    where
      m : Contexts
      m = insert context.dev_id context contexts
