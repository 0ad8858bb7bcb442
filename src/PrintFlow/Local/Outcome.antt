-- ===== src/PrintFlow/Local/Outcome.antt =====
-- What a local print shows to the printer and the caller, on every path, with the code it returns.
use bambu_farm.Base.{
  Bool, true, false, if◌then◌else◌, List, [], ◌∷◌, ◌++◌, ◌≡◌, refl, sym, ◌∙◌, ap, subst, Bool-cases,
  Option-cases, inl, inr,
}
use bambu_farm.Base.Text.{Text, codes}
use bambu_farm.Base.Int.{ℤ, int_eq_iff}
use bambu_farm.PrintJob.Hash.{Files}
use bambu_farm.PrintJob.Resolve.{PrintParams, resolve_remote_filename, resolve_plate_metadata_path}
use bambu_farm.PrintJob.Command.{build_project_file_command}
use bambu_farm.PrintFlow.Calls.{
  Event, Trace, PrintFlowDeps, Caller, create, upload, sending, wait_printer, finished, error,
  waited, network_success, err_send_msg_failed, err_timeout, err_canceled,
  err_print_lp_upload_ftp_failed, is_success,
}
use bambu_farm.PrintFlow.Calls.Visible.{
  visible, visible-nil, visible_last, status, upload_of, send_of, context_of, sights, visible-diag,
  visible-report_update_status,
}
use bambu_farm.PrintFlow.Local.{
  leave, submitted, finish_wait, wait_phase, finish_send, send_command, unless_canceled,
  finish_upload, upload_phase, start_local_print,
}

module _ (deps : PrintFlowDeps) (caller : Caller) where
  -- The end of the flow after the events `pre`: the wait for the printer, if the caller waits.
  pub data WaitOutcome (pre vis : List Event) (result : ℤ) : Type 0 where
    not_waiting :
        vis ≡ pre ++ status deps caller finished network_success (codes "Print submitted")
        → result ≡ network_success
        → WaitOutcome pre vis result
    wait_ended :
        (ok : Bool)
        → vis
          ≡ ((pre ++ status deps caller wait_printer network_success (codes "Waiting for printer"))
              ++ waited wait_printer (codes "{}") ok ∷ [])
            ++ (if ok
                then status deps caller finished network_success (codes "Print submitted")
                else status deps caller error err_timeout (codes "Wait failed"))
        → result ≡ (if ok then network_success else err_timeout)
        → WaitOutcome pre vis result

  visible-finish_wait :
      (ok : Bool) (t : Trace)
      → visible (finish_wait deps caller ok t).1
        ≡ visible t
          ++ (if ok
              then status deps caller finished network_success (codes "Print submitted")
              else status deps caller error err_timeout (codes "Wait failed"))
  unfolding finish_wait leave submitted
  visible-finish_wait true t = simp sights
  visible-finish_wait false t = simp sights

  finish_wait_result :
      (ok : Bool) (t : Trace)
      → (finish_wait deps caller ok t).0 ≡ (if ok then network_success else err_timeout)
  unfolding finish_wait leave submitted
  finish_wait_result true t = refl
  finish_wait_result false t = refl

  wait_phase-WaitOutcome :
      (t : Trace)
      → WaitOutcome (visible t) (visible (wait_phase deps caller t).1) (wait_phase deps caller t).0
  unfolding wait_phase leave submitted
  wait_phase-WaitOutcome t = elim (Option-cases caller.wait_fn) [
    | inl h ↦ simp (h, wait_phase) (not_waiting (simp sights) refl)
    | inr (f, h) ↦
        simp (h, wait_phase)
          (wait_ended _ (simp (visible-finish_wait, sights, visible_last)) (finish_wait_result _ _))
  ]

  wait_from :
      (pre : List Event) (t : Trace)
      → visible t ≡ pre
      → WaitOutcome pre (visible (wait_phase deps caller t).1) (wait_phase deps caller t).0
  wait_from pre t e =
      subst (λ v. WaitOutcome v (visible (wait_phase deps caller t).1) (wait_phase deps caller t).0)
        e (wait_phase-WaitOutcome t)

  -- From the sending of the command on, after the events `pre`.
  pub data SendOutcome (dev_id json : Text) (pre vis : List Event) (result : ℤ) : Type 0 where
    send_failed :
        (code : ℤ)
        → is_success code ≡ false
        → vis
          ≡ (pre ++ send_of deps caller dev_id json code)
            ++ status deps caller error code (codes "Send failed")
        → result ≡ err_send_msg_failed
        → SendOutcome dev_id json pre vis result
    send_done :
        WaitOutcome (pre ++ send_of deps caller dev_id json network_success) vis result
        → SendOutcome dev_id json pre vis result

  finish_send-SendOutcome :
      (dev_id json : Text) (pre : List Event) (code : ℤ) (t : Trace)
      → visible t ≡ pre ++ send_of deps caller dev_id json code
      → SendOutcome dev_id json pre
          (visible (finish_send deps caller code t).1)
          (finish_send deps caller code t).0
  unfolding finish_send leave
  finish_send-SendOutcome dev_id json pre code t e = elim (Bool-cases (is_success code)) [
    | inl h ↦ simp h (
        send_done (
          wait_from _ _ (
            visible-diag deps caller _ t
            ∙ e
            ∙ ap (λ c. pre ++ send_of deps caller dev_id json c) ((int_eq_iff code _).0 h))))
    | inr h ↦ simp h (send_failed code h (simp (sights, e)) refl)
  ]

  send_command-SendOutcome :
      (params : PrintParams) (remote plate : Text) (pre : List Event) (t : Trace)
      → visible t ≡ pre
      → SendOutcome params.dev_id
          (build_project_file_command params remote plate)
          (pre ++ status deps caller sending network_success (codes "Sending print command"))
          (visible (send_command deps caller params remote plate t).1)
          (send_command deps caller params remote plate t).0
  unfolding send_command
  send_command-SendOutcome params remote plate pre t e =
      finish_send-SendOutcome _ _ _ _ _ (simp (sights, e))

  pub unless_canceled_cases :
      (P : List Event → ℤ → Type 0) (rest : Trace → ℤ × Trace) (q : Bool × Trace)
      → P (visible q.1 ++ status deps caller error err_canceled (codes "Canceled")) err_canceled
      → P (visible (rest q.1).1) (rest q.1).0
      → P (visible (unless_canceled deps caller rest q).1) (unless_canceled deps caller rest q).0
  unfolding unless_canceled leave
  unless_canceled_cases P rest (true, t) hc hr =
      subst (λ v. P v err_canceled)
        (sym (visible-report_update_status deps caller error err_canceled (codes "Canceled") t)) hc
  unless_canceled_cases P rest (false, t) hc hr = hr

  -- From the upload on, after the events `pre`.
  pub data UploadOutcome (params : PrintParams) (remote plate : Text) (pre vis : List Event)
      (result : ℤ) : Type 0 where
    upload_failed :
        (code : ℤ)
        → is_success code ≡ false
        → vis
          ≡ (pre ++ upload_of deps caller params.dev_id params.filename remote code)
            ++ status deps caller error code (codes "Upload failed")
        → result ≡ err_print_lp_upload_ftp_failed
        → UploadOutcome params remote plate pre vis result
    canceled_late :
        vis
          ≡ ((pre ++ upload_of deps caller params.dev_id params.filename remote network_success)
              ++ context_of deps caller remote plate)
            ++ status deps caller error err_canceled (codes "Canceled")
        → result ≡ err_canceled
        → UploadOutcome params remote plate pre vis result
    upload_done :
        SendOutcome params.dev_id
          (build_project_file_command params remote plate)
          (((pre ++ upload_of deps caller params.dev_id params.filename remote network_success)
              ++ context_of deps caller remote plate)
            ++ status deps caller sending network_success (codes "Sending print command"))
          vis
          result
        → UploadOutcome params remote plate pre vis result

  finish_upload-UploadOutcome :
      (params : PrintParams) (remote plate : Text) (pre : List Event) (code : ℤ) (t : Trace)
      → visible t ≡ pre ++ upload_of deps caller params.dev_id params.filename remote code
      → UploadOutcome params remote plate pre
          (visible (finish_upload deps caller params remote plate code t).1)
          (finish_upload deps caller params remote plate code t).0
  unfolding finish_upload leave
  finish_upload-UploadOutcome params remote plate pre code t e =
      elim (Bool-cases (is_success code)) [
        | inl h ↦ simp h (
            unless_canceled_cases (UploadOutcome params remote plate pre) _ _
              (canceled_late (simp (sights, e, (int_eq_iff code _).0 h)) refl)
              (upload_done (
                send_command-SendOutcome params remote plate _ _
                  (simp (sights, e, (int_eq_iff code _).0 h)))))
        | inr h ↦ simp h (upload_failed code h (simp (sights, e)) refl)
      ]

  upload_phase-UploadOutcome :
      (params : PrintParams) (remote plate : Text) (pre : List Event) (t : Trace)
      → visible t ≡ pre
      → UploadOutcome params remote plate
          (pre ++ status deps caller upload network_success (codes "Uploading to printer"))
          (visible (upload_phase deps caller params remote plate t).1)
          (upload_phase deps caller params remote plate t).0
  unfolding upload_phase
  upload_phase-UploadOutcome params remote plate pre t e =
      finish_upload-UploadOutcome params remote plate _ _ _ (simp (sights, e))

  -- The whole flow.
  pub data Outcome (files : Files) (params : PrintParams) (vis : List Event) (result : ℤ)
      : Type 0 where
    canceled_early :
        vis
          ≡ status deps caller create network_success (codes "Preparing print")
            ++ status deps caller error err_canceled (codes "Canceled")
        → result ≡ err_canceled
        → Outcome files params vis result
    went_on :
        UploadOutcome params
          (resolve_remote_filename files params)
          (resolve_plate_metadata_path params)
          (status deps caller create network_success (codes "Preparing print")
            ++ status deps caller upload network_success (codes "Uploading to printer"))
          vis
          result
        → Outcome files params vis result

  -- Whatever the callbacks answer, a local print takes one of these courses, in this order and with
  -- these arguments and codes: canceled at once; the upload fails; the upload succeeds, the job is
  -- recorded and the print is canceled; or the command is sent and fails; or it is accepted and the
  -- caller does not wait, or waits with success or without. Each status, upload, recording, command
  -- and wait that is seen is one of the course.
  pub start_local_print-Outcome :
      (files : Files) (params : PrintParams)
      → Outcome files params
          (visible (start_local_print deps caller files params []).1)
          (start_local_print deps caller files params []).0
  unfolding start_local_print
  start_local_print-Outcome files params =
      unless_canceled_cases (Outcome files params) _ _
        (canceled_early (simp (sights, visible-nil)) refl)
        (went_on (upload_phase-UploadOutcome params _ _ _ _ (simp (sights, visible-nil))))
