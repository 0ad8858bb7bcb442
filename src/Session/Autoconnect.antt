-- ===== src/Session/Autoconnect.antt =====
-- A selected device is connected to by itself at most once, and a connection is attempted once.
use bambu_farm.Base.{
  Bool, true, false, not, ◌||◌, if◌then◌else◌, List, [], ◌∷◌, ◌≡◌, refl, arith, All,
}
use bambu_farm.Base.Text.{Text, is_empty, text_eq, text_eq_iff}
use bambu_farm.Session.{
  SessionState, start, already_in_progress, Call, loads, selects, begins, connects, claims,
  disconnects, logs_out, step, run, load_selected_device, set_user_selected_device, begin_connect,
  claim_autoconnect_target,
}

-- The targets that a row of discovered devices is granted, as the discovery handler claims them.
pub granted : SessionState → List Text → List Text
granted s [] = []
granted s (d ∷ ds) =
    let (s', target) = claim_autoconnect_target d s in
    let rest = granted s' ds in if is_empty target then rest else target ∷ rest

unfoldable pub contains : Text → List Text → Bool
contains d [] = false
contains d (x ∷ xs) = text_eq d x || contains d xs

granted_not_pending :
    (s : SessionState) (ds : List Text) → s.auto_connect_pending ≡ false → granted s ds ≡ []
unfolding granted claim_autoconnect_target
granted_not_pending s [] h = refl
granted_not_pending s (d ∷ ds) h = ground (arith, granted_not_pending s ds h)

granted_pending :
    (s : SessionState) (ds : List Text)
    → s.auto_connect_pending ≡ true
    → is_empty s.selected_device ≡ false
    → granted s ds ≡ (if contains s.selected_device ds then s.selected_device ∷ [] else [])
unfolding granted contains claim_autoconnect_target
granted_pending s [] h n = refl
granted_pending s (d ∷ ds) h n = ground (
  arith,
  granted_pending s ds h n,
  granted_not_pending (record s { auto_connect_pending = false }) ds refl,
)

-- After a device with a name was loaded or selected, the devices discovered from then on are granted
-- one automatic connection in all, to that device, if it is among them, and none otherwise.
pub autoconnect_once :
    (s : SessionState) (dev_id : Text) (ds : List Text)
    → is_empty dev_id ≡ false
    → let once = if contains dev_id ds then dev_id ∷ [] else [] in
      (granted (load_selected_device dev_id s) ds ≡ once)
      × (granted (set_user_selected_device dev_id s) ds ≡ once)
unfolding load_selected_device set_user_selected_device
autoconnect_once s dev_id ds n = (
  granted_pending
      (record s { selected_device = dev_id; auto_connect_pending = not (is_empty dev_id) }) ds
      (rw n) n,
  granted_pending
      (record s { selected_device = dev_id; auto_connect_pending = not (is_empty dev_id) }) ds
      (rw n) n,
)

-- The calls that neither end an attempt to connect to the device nor turn to another device.
abbrev pub IsQuiet : Text → Call → Type 0
IsQuiet dev_id (loads d) = d ≡ dev_id
IsQuiet dev_id (selects d) = d ≡ dev_id
IsQuiet dev_id (begins d) = d ≡ dev_id
IsQuiet dev_id (connects d) = ⊥
IsQuiet dev_id (claims d) = Unit
IsQuiet dev_id (disconnects failed) = ⊥
IsQuiet dev_id logs_out = ⊥

record IsAttempting (dev_id : Text) (s : SessionState) : Type 0 where
  selected : s.selected_device ≡ dev_id
  waiting : s.connect_in_progress ≡ true
  apart : s.printer_connected ≡ false

step-IsAttempting :
    (dev_id : Text) (s : SessionState) (c : Call)
    → IsQuiet dev_id c
    → IsAttempting dev_id s
    → IsAttempting dev_id (step s c)
unfolding step load_selected_device set_user_selected_device begin_connect claim_autoconnect_target
step-IsAttempting dev_id s (loads d) q v = ground arith
step-IsAttempting dev_id s (selects d) q v = ground arith
step-IsAttempting dev_id s (begins d) q v = ground arith
step-IsAttempting dev_id s (connects d) q v = absurd q
step-IsAttempting dev_id s (claims d) q v = ground arith
step-IsAttempting dev_id s (disconnects failed) q v = absurd q
step-IsAttempting dev_id s logs_out q v = absurd q

run-IsAttempting :
    (dev_id : Text) (s : SessionState) (cs : List Call)
    → All (IsQuiet dev_id) cs
    → IsAttempting dev_id s
    → IsAttempting dev_id (run s cs)
unfolding run
run-IsAttempting dev_id s [] q v = v
run-IsAttempting dev_id s (c ∷ cs) (qc, qs) v =
    run-IsAttempting dev_id (step s c) cs qs (step-IsAttempting dev_id s c qc v)

begin_connect-IsAttempting :
    (dev_id : Text) (s : SessionState)
    → (begin_connect dev_id s).1 ≡ start
    → IsAttempting dev_id (begin_connect dev_id s).0
unfolding begin_connect
begin_connect-IsAttempting dev_id s h = ground arith

attempting_refused :
    (dev_id : Text) (t : SessionState)
    → IsAttempting dev_id t
    → begin_connect dev_id t ≡ (t, already_in_progress)
unfolding begin_connect
attempting_refused dev_id t v = ground (arith, text_eq_iff t.selected_device dev_id)

-- Once a connection to a device was begun, and until the backend reports a result, the session logs
-- out or another device is turned to, a further request for that device is told that the attempt is
-- in progress and changes nothing.
pub begin_connect_once :
    (s : SessionState) (dev_id : Text) (cs : List Call)
    → (begin_connect dev_id s).1 ≡ start
    → All (IsQuiet dev_id) cs
    → let t = run (begin_connect dev_id s).0 cs in begin_connect dev_id t ≡ (t, already_in_progress)
begin_connect_once s dev_id cs h q =
    attempting_refused dev_id _
      (run-IsAttempting dev_id _ cs q (begin_connect-IsAttempting dev_id s h))
