-- ===== src/PrintFlow/Calls/Visible.antt =====
-- What the printer and the caller see of a flow: the statuses, the upload, the recording of the
-- job, the command and the wait. Logs, probes, questions and pauses are left out.
use bambu_farm.Base.{
  Bool, true, false, if◌then◌else◌, is_some, List, [], ◌∷◌, ◌++◌, ◌≡◌, refl, sym, arith, Bool-cases,
  Option-cases, inl, inr, append_assoc, append-nil,
}
use bambu_farm.Base.Text.{Text}
use bambu_farm.Base.Int.{ℤ}
use bambu_farm.PrintFlow.Calls.{
  Event, logged, params_logged, probed, status_updated, cancel_asked, uploaded, context_updated,
  slept, sent, waited, Trace, PrintFlowDeps, Caller, Stage, diag, report_update_status, note_params,
  probe, ask_cancel, do_upload, do_send, update_context, pause,
}

-- One event, if it is visible.
abbrev pub visible_event : Event → List Event
visible_event (logged m) = []
visible_event (params_logged c) = []
visible_event (probed c p) = []
visible_event (status_updated s c m) = status_updated s c m ∷ []
visible_event (cancel_asked b) = []
visible_event (uploaded d f r c) = uploaded d f r c ∷ []
visible_event (context_updated r p) = context_updated r p ∷ []
visible_event slept = []
visible_event (sent d j c) = sent d j c ∷ []
visible_event (waited s i b) = waited s i b ∷ []

unfoldable pub visible : Trace → List Event
visible [] = []
visible (e ∷ t) = visible_event e ++ visible t

pub visible-nil : visible [] ≡ []
unfolding visible
visible-nil = refl

pub visible-append : (s t : Trace) → visible (s ++ t) ≡ visible s ++ visible t
unfolding visible
visible-append [] t = refl
visible-append (e ∷ s) t = rw (visible-append s t) (simp append_assoc)

pub visible_last : (t : Trace) (e : Event) → visible (t ++ e ∷ []) ≡ visible t ++ visible_event e
visible_last t e = rw visible-append (unfold visible in rw (append-nil (visible_event e)))

visible_if :
    (b : Bool) (t : Trace) (e : Event)
    → visible (if b then t ++ e ∷ [] else t) ≡ visible t ++ (if b then visible_event e else [])
visible_if true t e = visible_last t e
visible_if false t e = sym (append-nil (visible t))

module _ (deps : PrintFlowDeps) (caller : Caller) where
  -- A status, where the caller gave a function for it.
  abbrev pub status : Stage → ℤ → Text → List Event
  status stage code message =
      if caller.update_fn then status_updated stage code message ∷ [] else []

  -- An upload, where there is a function for it; likewise the next two.
  abbrev pub upload_of : Text → Text → Text → ℤ → List Event
  upload_of dev_id filename remote code =
      if is_some deps.upload_file then uploaded dev_id filename remote code ∷ [] else []

  abbrev pub send_of : Text → Text → ℤ → List Event
  send_of dev_id json code = if is_some deps.send_message then sent dev_id json code ∷ [] else []

  abbrev pub context_of : Text → Text → List Event
  context_of remote plate =
      if deps.update_local_context then context_updated remote plate ∷ [] else []

  pub visible-diag : (m : Text) (t : Trace) → visible (diag deps m t) ≡ visible t
  unfolding diag
  visible-diag m t = ground (arith, visible_last t (logged m), append-nil (visible t))

  pub visible-report_update_status :
      (s : Stage) (c : ℤ) (m : Text) (t : Trace)
      → visible (report_update_status deps caller s c m t) ≡ visible t ++ status s c m
  unfolding report_update_status
  visible-report_update_status s c m t = rw visible_if (rw visible-diag)

  pub visible-note_params : (c : Text) (t : Trace) → visible (note_params deps c t) ≡ visible t
  unfolding note_params
  visible-note_params c t = ground (arith, visible_last t (params_logged c), append-nil (visible t))

  pub visible-probe : (c p : Text) (t : Trace) → visible (probe deps c p t) ≡ visible t
  unfolding probe
  visible-probe c p t = elim (Bool-cases deps.log_local_file_probe) [
    | inl h ↦ ground (arith, visible_last t (probed c p), append-nil (visible t))
    | inr h ↦ simp h (visible-diag _ t)
  ]

  pub visible-ask_cancel : (t : Trace) → visible (ask_cancel caller t).1 ≡ visible t
  unfolding ask_cancel
  visible-ask_cancel t = elim (Option-cases caller.cancel_fn) [
    | inl h ↦ rw h
    | inr (f, h) ↦ rw h (rw visible_last (append-nil (visible t)))
  ]

  pub visible-do_upload :
      (d f r : Text) (t : Trace)
      → visible (do_upload deps d f r t).1 ≡ visible t ++ upload_of d f r (do_upload deps d f r t).0
  unfolding do_upload
  visible-do_upload d f r t = elim (Option-cases deps.upload_file) [
    | inl h ↦ rw h (sym (append-nil (visible t)))
    | inr (g, h) ↦ rw h (visible_last t _)
  ]

  pub visible-do_send :
      (d j : Text) (t : Trace)
      → visible (do_send deps d j t).1 ≡ visible t ++ send_of d j (do_send deps d j t).0
  unfolding do_send
  visible-do_send d j t = elim (Option-cases deps.send_message) [
    | inl h ↦ rw h (sym (append-nil (visible t)))
    | inr (g, h) ↦ rw h (visible_last t _)
  ]

  pub visible-update_context :
      (r p : Text) (t : Trace) → visible (update_context deps r p t) ≡ visible t ++ context_of r p
  unfolding update_context
  visible-update_context r p t = visible_if deps.update_local_context t (context_updated r p)

  pub visible-pause : (t : Trace) → visible (pause deps t) ≡ visible t
  unfolding pause
  visible-pause t = ground (arith, visible_last t slept, append-nil (visible t))

pub ruleset sights = (
  visible-diag, visible-report_update_status, visible-note_params, visible-probe,
  visible-ask_cancel, visible-do_upload, visible-do_send, visible-update_context, visible-pause,
)
