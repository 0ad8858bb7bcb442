-- ===== src/Plugin/Remembered.antt =====
-- What the plugin remembers of a print that it started.
use bambu_farm.Base.{
  Bool, true, false, not, ◌||◌, if◌then◌else◌, Option, none, some, is_some, arith, List, [], ◌∷◌,
  ◌++◌, ◌≡◌, refl, sym, ap, ◌∙◌, append-nil,
}
use bambu_farm.Base.Text.{Text, codes}
use bambu_farm.Base.Int.{ℤ, pos, negsuc}
use bambu_farm.LocalState.Contexts.{LocalPrintContext}
use bambu_farm.PrintContext.{SubtaskInfo, build_subtask_info, lookup_subtask_id, task_json_of}
use bambu_farm.PrintContext.Subtask.{IsAnswered}
use bambu_farm.PrintJob.Hash.{Files}
use bambu_farm.PrintJob.Resolve.{PrintParams, resolve_remote_filename, resolve_plate_metadata_path}
use bambu_farm.PrintFlow.Calls.{
  Event, logged, params_logged, probed, status_updated, cancel_asked, uploaded, context_updated,
  slept, sent, waited, Trace, Caller, Stage, wait_printer, network_success,
}
use bambu_farm.PrintFlow.Calls.Visible.{visible, status, upload_of, send_of, context_of}
use bambu_farm.PrintFlow.Local.{start_local_print}
use bambu_farm.PrintFlow.Local.Outcome.{
  WaitOutcome, not_waiting, wait_ended, SendOutcome, send_failed, send_done, UploadOutcome,
  upload_failed, canceled_late, upload_done, Outcome, canceled_early, went_on,
  start_local_print-Outcome,
}
use bambu_farm.Plugin.{World, Plugin}
use bambu_farm.Plugin.Print.{
  Backend, Readings, print_deps, context_of_print, update_local_print_context, record_event,
  record_contexts, start_print, get_subtask_info,
}

-- The contexts that a flow has recorded.
recorded : List Event → List (Text × Text)
recorded [] = []
recorded (context_updated remote plate ∷ t) = (remote, plate) ∷ recorded t
recorded (logged a ∷ t) = recorded t
recorded (params_logged a ∷ t) = recorded t
recorded (probed a b ∷ t) = recorded t
recorded (status_updated a b c ∷ t) = recorded t
recorded (cancel_asked a ∷ t) = recorded t
recorded (uploaded a b c d ∷ t) = recorded t
recorded (slept ∷ t) = recorded t
recorded (sent a b c ∷ t) = recorded t
recorded (waited a b c ∷ t) = recorded t

recorded-append : (s t : List Event) → recorded (s ++ t) ≡ recorded s ++ recorded t
unfolding recorded
recorded-append [] t = refl
recorded-append (context_updated remote plate ∷ s) t =
    ap (λ l. (remote, plate) ∷ l) (recorded-append s t)
recorded-append (logged a ∷ s) t = recorded-append s t
recorded-append (params_logged a ∷ s) t = recorded-append s t
recorded-append (probed a b ∷ s) t = recorded-append s t
recorded-append (status_updated a b c ∷ s) t = recorded-append s t
recorded-append (cancel_asked a ∷ s) t = recorded-append s t
recorded-append (uploaded a b c d ∷ s) t = recorded-append s t
recorded-append (slept ∷ s) t = recorded-append s t
recorded-append (sent a b c ∷ s) t = recorded-append s t
recorded-append (waited a b c ∷ s) t = recorded-append s t

recorded-visible : (t : Trace) → recorded (visible t) ≡ recorded t
unfolding recorded visible
recorded-visible [] = refl
recorded-visible (context_updated remote plate ∷ t) =
    ap (λ l. (remote, plate) ∷ l) (recorded-visible t)
recorded-visible (logged a ∷ t) = recorded-visible t
recorded-visible (params_logged a ∷ t) = recorded-visible t
recorded-visible (probed a b ∷ t) = recorded-visible t
recorded-visible (status_updated a b c ∷ t) = recorded-visible t
recorded-visible (cancel_asked a ∷ t) = recorded-visible t
recorded-visible (uploaded a b c d ∷ t) = recorded-visible t
recorded-visible (slept ∷ t) = recorded-visible t
recorded-visible (sent a b c ∷ t) = recorded-visible t
recorded-visible (waited a b c ∷ t) = recorded-visible t

recorded_if :
    (b : Bool) (s t : List Event)
    → recorded s ≡ []
    → recorded t ≡ []
    → recorded (if b then s else t) ≡ []
recorded_if true s t hs ht = hs
recorded_if false s t hs ht = ht

-- What stands behind the recording adds nothing to it.
quiet :
    (pre vis rest : List Event)
    → recorded rest ≡ []
    → vis ≡ pre ++ rest
    → recorded vis ≡ recorded pre
quiet pre vis rest h e =
    ap recorded e
    ∙ recorded-append pre rest
    ∙ ap (λ l. recorded pre ++ l) h
    ∙ append-nil (recorded pre)

module _ (b : Backend) (caller : Caller) where
  recorded-status :
      (s : Stage) (c : ℤ) (m : Text) → recorded (status (print_deps b) caller s c m) ≡ []
  unfolding recorded
  recorded-status s c m = recorded_if caller.update_fn _ _ refl refl

  recorded-waited : (ok : Bool) → recorded (waited wait_printer (codes "{}") ok ∷ []) ≡ []
  unfolding recorded
  recorded-waited ok = refl

  recorded-WaitOutcome :
      (pre vis : List Event) (result : ℤ)
      → WaitOutcome (print_deps b) caller pre vis result
      → recorded vis ≡ recorded pre
  recorded-WaitOutcome pre vis result (not_waiting e h) = quiet pre vis _ (recorded-status _ _ _) e
  recorded-WaitOutcome pre vis result (wait_ended ok e h) =
      quiet _ vis _ (recorded_if ok _ _ (recorded-status _ _ _) (recorded-status _ _ _)) e
      ∙ quiet _ _ _ (recorded-waited ok) refl
      ∙ quiet pre _ _ (recorded-status _ _ _) refl

  recorded-send_of :
      (dev_id json : Text) (code : ℤ)
      → recorded (send_of (print_deps b) caller dev_id json code) ≡ []
  unfolding recorded
  recorded-send_of dev_id json code = refl

  recorded-SendOutcome :
      (dev_id json : Text) (pre vis : List Event) (result : ℤ)
      → SendOutcome (print_deps b) caller dev_id json pre vis result
      → recorded vis ≡ recorded pre
  recorded-SendOutcome dev_id json pre vis result (send_failed code f e h) =
      quiet _ vis _ (recorded-status _ _ _) e
      ∙ quiet pre _ _ (recorded-send_of dev_id json code) refl
  recorded-SendOutcome dev_id json pre vis result (send_done o) =
      recorded-WaitOutcome _ vis result o
      ∙ quiet pre _ _ (recorded-send_of dev_id json network_success) refl

  recorded-upload_of :
      (dev_id filename remote : Text) (code : ℤ)
      → recorded (upload_of (print_deps b) caller dev_id filename remote code) ≡ []
  unfolding recorded
  recorded-upload_of dev_id filename remote code = refl

  recorded-context_of :
      (remote plate : Text)
      → recorded (context_of (print_deps b) caller remote plate) ≡ (remote, plate) ∷ []
  unfolding recorded
  recorded-context_of remote plate = refl

  recorded-UploadOutcome :
      (params : PrintParams) (remote plate : Text) (pre vis : List Event) (result : ℤ)
      → result ≡ network_success
      → recorded pre ≡ []
      → UploadOutcome (print_deps b) caller params remote plate pre vis result
      → recorded vis ≡ (remote, plate) ∷ []
  recorded-UploadOutcome params remote plate pre vis result s h (upload_failed code f e r) =
      absurd (cc)
  recorded-UploadOutcome params remote plate pre vis result s h (canceled_late e r) = absurd (cc)
  recorded-UploadOutcome params remote plate pre vis result s h (upload_done o) =
      recorded-SendOutcome params.dev_id _ _ vis result o
      ∙ quiet _ _ _ (recorded-status _ _ _) refl
      ∙ recorded-append _ (context_of (print_deps b) caller remote plate)
      ∙ ap (λ l. l ++ recorded (context_of (print_deps b) caller remote plate))
          (quiet pre _ _ (recorded-upload_of params.dev_id params.filename remote network_success)
              refl
            ∙ h)
      ∙ recorded-context_of remote plate

  recorded-Outcome :
      (files : Files) (params : PrintParams) (vis : List Event) (result : ℤ)
      → result ≡ network_success
      → Outcome (print_deps b) caller files params vis result
      → recorded vis
        ≡ (resolve_remote_filename files params, resolve_plate_metadata_path params) ∷ []
  recorded-Outcome files params vis result s (canceled_early e r) = absurd (cc)
  recorded-Outcome files params vis result s (went_on o) =
      recorded-UploadOutcome params _ _ _ vis result s
        (quiet _ _ _ (recorded-status _ _ _) refl ∙ recorded-status _ _ _) o

module _ (w : World) where
  record_all : Readings → PrintParams → List (Text × Text) → Plugin w → Plugin w
  record_all r params [] p = p
  record_all r params ((remote, plate) ∷ l) p =
      record_all r params l (update_local_print_context w r params remote plate p)

  record_contexts-recorded :
      (r : Readings) (params : PrintParams) (t : Trace) (p : Plugin w)
      → record_contexts w r params t p ≡ record_all r params (recorded t) p
  unfolding record_contexts record_event record_all recorded
  record_contexts-recorded r params [] p = refl
  record_contexts-recorded r params (context_updated remote plate ∷ t) p =
      record_contexts-recorded r params t _
  record_contexts-recorded r params (logged a ∷ t) p = record_contexts-recorded r params t p
  record_contexts-recorded r params (params_logged a ∷ t) p = record_contexts-recorded r params t p
  record_contexts-recorded r params (probed a b ∷ t) p = record_contexts-recorded r params t p
  record_contexts-recorded r params (status_updated a b c ∷ t) p =
      record_contexts-recorded r params t p
  record_contexts-recorded r params (cancel_asked a ∷ t) p = record_contexts-recorded r params t p
  record_contexts-recorded r params (uploaded a b c d ∷ t) p = record_contexts-recorded r params t p
  record_contexts-recorded r params (slept ∷ t) p = record_contexts-recorded r params t p
  record_contexts-recorded r params (sent a b c ∷ t) p = record_contexts-recorded r params t p
  record_contexts-recorded r params (waited a b c ∷ t) p = record_contexts-recorded r params t p

  record_one :
      (r : Readings) (params : PrintParams) (remote plate : Text) (p : Plugin w)
      → record_all r params ((remote, plate) ∷ []) p
        ≡ update_local_print_context w r params remote plate p
  unfolding record_all
  record_one r params remote plate p = refl

  -- The context of a print that is accepted.
  abbrev pub context_for : Readings → Files → PrintParams → Plugin w → LocalPrintContext
  context_for r files params p =
      context_of_print w r params (resolve_remote_filename files params)
        (resolve_plate_metadata_path params) p.config_dir_path

  found_of : Option LocalPrintContext → SubtaskInfo
  found_of none = record {
    found = false;
    http_code = 404;
    http_body = codes "{\"error\":\"not_found\"}";
    task_json = [];
  }
  found_of (some c) = record {
    found = true;
    http_code = 200;
    http_body = codes "{}";
    task_json = task_json_of c;
  }

  found_is_some : (o : Option LocalPrintContext) → (found_of o).found ≡ is_some o
  unfolding found_of
  found_is_some none = refl
  found_is_some (some c) = refl

  found-build :
      (subtask_id : Text) (p : Plugin w)
      → (build_subtask_info w.contexts_order subtask_id p.print_contexts).found
        ≡ is_some (lookup_subtask_id w.contexts_order subtask_id p.print_contexts)
  unfolding build_subtask_info found_of
  found-build subtask_id p =
      found_is_some (lookup_subtask_id w.contexts_order subtask_id p.print_contexts)

  code_of : (a b : Bool) → a ≡ b → a ≡ true → (if not a || not b then negsuc 0 else pos 0) ≡ pos 0
  code_of a b e h = ground arith

  pub answered_code :
      (subtask_id : Text) (p : Plugin w)
      → IsAnswered w.contexts_order subtask_id p.print_contexts
      → (get_subtask_info w subtask_id p).0 ≡ pos 0
  unfolding get_subtask_info
  answered_code subtask_id p (c, f, e) =
      code_of _ _ (found-build subtask_id p) (ap (λ i. i.found) e)

  pub start_print_same :
      (b : Backend) (r : Readings) (files : Files) (caller : Caller) (params : PrintParams)
      (p : Plugin w)
      → (start_local_print (print_deps b) caller files params []).0 ≡ network_success
      → (start_print w b r files caller params p).0
        ≡ update_local_print_context w r params
            (resolve_remote_filename files params)
            (resolve_plate_metadata_path params)
            p
  unfolding start_print
  start_print_same b r files caller params p s =
      record_contexts-recorded r params t p
      ∙ ap (λ l. record_all r params l p)
          (sym (recorded-visible t)
            ∙ recorded-Outcome b caller files params (visible t) _ s
                (start_local_print-Outcome (print_deps b) caller files params))
      ∙ record_one r params _ _ p
    where
      t : Trace
      t = (start_local_print (print_deps b) caller files params []).1
