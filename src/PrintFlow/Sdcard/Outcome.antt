-- ===== src/PrintFlow/Sdcard/Outcome.antt =====
-- What printing a file from the card shows to the printer and the caller, with the code it returns.
use bambu_farm.Base.{if◌then◌else◌, List, [], ◌++◌, ◌≡◌, refl, Bool-cases, inl, inr, ◌∙◌, ap}
use bambu_farm.Base.Text.{codes}
use bambu_farm.Base.Int.{ℤ}
use bambu_farm.PrintJob.Hash.{Files}
use bambu_farm.PrintJob.Resolve.{PrintParams}
use bambu_farm.PrintJob.Command.{build_project_file_command}
use bambu_farm.PrintFlow.Calls.{
  Event, Trace, PrintFlowDeps, Caller, create, sending, finished, error, network_success,
  err_canceled, err_send_msg_failed, is_success,
}
use bambu_farm.PrintFlow.Calls.Visible.{visible, visible-nil, status, send_of, sights}
use bambu_farm.PrintFlow.Local.{leave}
use bambu_farm.PrintFlow.Local.Outcome.{unless_canceled_cases}
use bambu_farm.PrintFlow.Sdcard.{
  start_sdcard_print, send_card, finish_card, sdcard_plate_path, sdcard_remote_filename,
}

module _ (deps : PrintFlowDeps) (caller : Caller) where
  -- The courses of the flow after its first status.
  pub data CardOutcome (files : Files) (params : PrintParams) (vis : List Event) (result : ℤ)
      : Type 0 where
    card_canceled :
        vis
          ≡ status deps caller create network_success (codes "Preparing print")
            ++ status deps caller error err_canceled (codes "Canceled")
        → result ≡ err_canceled
        → CardOutcome files params vis result
    card_sent :
        (code : ℤ)
        → vis
          ≡ ((status deps caller create network_success (codes "Preparing print")
                ++ status deps caller sending network_success (codes "Sending print command"))
              ++ send_of deps caller params.dev_id
                  (build_project_file_command params
                    (sdcard_remote_filename files params)
                    (sdcard_plate_path params))
                  code)
            ++ (if is_success code
                then status deps caller finished network_success (codes "Print submitted")
                else status deps caller error code (codes "Send failed"))
        → result ≡ (if is_success code then network_success else err_send_msg_failed)
        → CardOutcome files params vis result

  finish_card_sound :
      (code : ℤ) (t : Trace)
      → let r = finish_card deps caller code t in
        (visible r.1
          ≡ visible t
            ++ (if is_success code
                then status deps caller finished network_success (codes "Print submitted")
                else status deps caller error code (codes "Send failed")))
        × (r.0 ≡ (if is_success code then network_success else err_send_msg_failed))
  unfolding finish_card leave
  finish_card_sound code t = elim (Bool-cases (is_success code)) [
    | inl h ↦ simp h (simp sights, refl)
    | inr h ↦ simp h (simp sights, refl)
  ]

  finish_card-CardOutcome :
      (files : Files) (params : PrintParams) (code : ℤ) (t : Trace)
      → visible t
        ≡ (status deps caller create network_success (codes "Preparing print")
            ++ status deps caller sending network_success (codes "Sending print command"))
          ++ send_of deps caller params.dev_id
              (build_project_file_command params
                (sdcard_remote_filename files params)
                (sdcard_plate_path params))
              code
      → CardOutcome files params
          (visible (finish_card deps caller code t).1)
          (finish_card deps caller code t).0
  finish_card-CardOutcome files params code t e =
      card_sent code
        ((finish_card_sound code t).0
          ∙ ap
              (λ v.
                v
                ++ (if is_success code
                    then status deps caller finished network_success (codes "Print submitted")
                    else status deps caller error code (codes "Send failed")))
              e)
        (finish_card_sound code t).1

  send_card-CardOutcome :
      (files : Files) (params : PrintParams) (t : Trace)
      → visible t ≡ status deps caller create network_success (codes "Preparing print")
      → let remote = sdcard_remote_filename files params in
        let plate = sdcard_plate_path params in
        CardOutcome files params
          (visible (send_card deps caller params remote plate t).1)
          (send_card deps caller params remote plate t).0
  unfolding send_card
  send_card-CardOutcome files params t e =
      finish_card-CardOutcome files params _ _ (simp (sights, e))

  -- Whatever the callbacks answer, printing a file from the card either is canceled at once, or sends
  -- exactly one command, where there is a function for it, for the plate and the remote name that the
  -- job gives; it then reports the end and returns success if the command was accepted, and else
  -- reports the failure with the code of the sending and returns the sending error.
  pub start_sdcard_print-CardOutcome :
      (files : Files) (params : PrintParams)
      → CardOutcome files params
          (visible (start_sdcard_print deps caller files params []).1)
          (start_sdcard_print deps caller files params []).0
  unfolding start_sdcard_print
  start_sdcard_print-CardOutcome files params =
      unless_canceled_cases deps caller (CardOutcome files params) _ _
        (card_canceled (simp (sights, visible-nil)) refl)
        (send_card-CardOutcome files params _ (simp (sights, visible-nil)))
