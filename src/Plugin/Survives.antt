-- ===== src/Plugin/Survives.antt =====
-- What a plugin that is loaded later knows of a print.
use bambu_farm.Base.{if◌then◌else◌, Bool, true, false, some, [], ◌≡◌, refl, ap, ◌∙◌}
use bambu_farm.Base.Int.{pos}
use bambu_farm.Base.Text.{Text, is_empty}
use bambu_farm.Base.Dict.{lookup, insert, Distinct, lookup-insert_self}
use bambu_farm.LocalState.Contexts.{LocalPrintContext}
use bambu_farm.LocalState.Contexts.RoundTrip.{ArePlain}
use bambu_farm.LocalState.Selected.{load_selected_device as stored_selected_device}
use bambu_farm.PrintContext.{load, update}
use bambu_farm.PrintContext.Restored.{stored, load-update}
use bambu_farm.PrintContext.Subtask.{IsAnswered, known-IsAnswered}
use bambu_farm.PrintJob.Hash.{Files}
use bambu_farm.PrintJob.Resolve.{PrintParams, resolve_remote_filename, resolve_plate_metadata_path}
use bambu_farm.PrintFlow.Calls.{Caller, network_success}
use bambu_farm.PrintFlow.Local.{start_local_print}
use bambu_farm.Session.{load_selected_device, initial}
use bambu_farm.Plugin.{World, Plugin, loaded_on}
use bambu_farm.Plugin.Connect.{set_config_dir, load_selected_device_file}
use bambu_farm.Plugin.Print.{
  Backend, Readings, print_deps, context_of_print, update_local_print_context, start_print,
  get_subtask_info,
}
use bambu_farm.Plugin.Remembered.{context_for, start_print_same, answered_code}
use bambu_farm.Plugin.Restart.{restarted}

module _ (w : World) where
  pub disk_if :
      (none_stored : Bool) (p q : Plugin w)
      → p.disk ≡ q.disk
      → (if none_stored then p else q).disk ≡ q.disk
  disk_if true p q e = e
  disk_if false p q e = refl

  restarted_contexts :
      (config_dir : Text) (disk : w.fs.Disk)
      → (restarted w config_dir disk).print_contexts
        ≡ load w.fs w.env w.contexts_order w.stoi config_dir disk
  unfolding set_config_dir load_selected_device_file
  restarted_contexts config_dir disk =
      let p = record (loaded_on w disk) { config_dir_path = config_dir } in
      let found = stored_selected_device w.fs w.env config_dir disk in
      ap (load w.fs w.env w.contexts_order w.stoi config_dir) (
        disk_if (is_empty found) p (record p { session = load_selected_device found initial }) refl)

  recorded_disk :
      (r : Readings) (params : PrintParams) (remote plate : Text) (p : Plugin w)
      → let c = context_of_print w r params remote plate p.config_dir_path in
        (update_local_print_context w r params remote plate p).disk
        ≡ (update w.fs w.env w.contexts_order c p.config_dir_path (p.print_contexts, p.disk)).1
  unfolding update_local_print_context
  recorded_disk r params remote plate p = refl

  recorded_lookup :
      (r : Readings) (files : Files) (params : PrintParams) (p : Plugin w)
      → let c = context_for w r files params p in
        lookup params.dev_id
          (update w.fs w.env w.contexts_order c p.config_dir_path (p.print_contexts, p.disk)).0
        ≡ some c
  unfolding update context_of_print
  recorded_lookup r files params p =
      lookup-insert_self params.dev_id (context_for w r files params p) p.print_contexts

  is_active :
      (r : Readings) (files : Files) (params : PrintParams) (p : Plugin w)
      → (context_for w r files params p).active ≡ true
  unfolding context_of_print
  is_active r files params p = refl

  -- Where the file of the prints can be written, no device stands twice in the table, and all contexts,
  -- that of the print included, are active, stand under their own devices, hold neither a tab nor a line
  -- break and have plates that are read back: after a print that is reported as successful, a plugin
  -- that is loaded later on that disk and configured with the same directory has the context of the
  -- print under its device, and answers a question for its subtask with success and the plate of an
  -- active print of that subtask.
  pub start_print_survives :
      (b : Backend) (r : Readings) (files : Files) (caller : Caller) (params : PrintParams)
      (p : Plugin w) (d : w.fs.Disk)
      → (start_print w b r files caller params p).1.0 ≡ network_success
      → Distinct p.print_contexts
      → let c = context_for w r files params p in
        ArePlain w.stoi (w.contexts_order.visit (insert c.dev_id c p.print_contexts))
        → stored w.fs w.env w.contexts_order p.config_dir_path
            (insert c.dev_id c p.print_contexts)
            p.disk
          ≡ some d
        → let q = restarted w p.config_dir_path (start_print w b r files caller params p).0.disk in
          (lookup params.dev_id q.print_contexts ≡ some c)
          × ((get_subtask_info w c.subtask_id q).0 ≡ pos 0)
          × IsAnswered w.contexts_order c.subtask_id q.print_contexts
  start_print_survives b r files caller params p d s u a e =
      (known, answered_code w c.subtask_id q answer, answer)
    where
      c : LocalPrintContext
      c = context_for w r files params p

      q : Plugin w
      q = restarted w p.config_dir_path (start_print w b r files caller params p).0.disk

      done : (start_local_print (print_deps b) caller files params []).0 ≡ network_success
      done = unfold start_print in s

      disk :
          (start_print w b r files caller params p).0.disk
          ≡ (update w.fs w.env w.contexts_order c p.config_dir_path (p.print_contexts, p.disk)).1
      disk =
          ap (λ (x : Plugin w). x.disk) (start_print_same w b r files caller params p done)
          ∙ recorded_disk r params (resolve_remote_filename files params)
              (resolve_plate_metadata_path params) p

      known : lookup params.dev_id q.print_contexts ≡ some c
      known =
          ap (lookup params.dev_id)
            (restarted_contexts p.config_dir_path (start_print w b r files caller params p).0.disk)
          ∙ ap
              (λ x.
                lookup params.dev_id (load w.fs w.env w.contexts_order w.stoi p.config_dir_path x))
              disk
          ∙ load-update w.fs w.env w.contexts_order w.stoi c p.config_dir_path params.dev_id
              p.print_contexts p.disk d u a e
          ∙ recorded_lookup r files params p

      answer : IsAnswered w.contexts_order c.subtask_id q.print_contexts
      answer =
          known-IsAnswered w.contexts_order params.dev_id q.print_contexts c known
            (is_active r files params p)
