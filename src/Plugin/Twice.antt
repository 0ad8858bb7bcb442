-- ===== src/Plugin/Twice.antt =====
-- An automatic connection that Bambu Studio follows with its own.
use bambu_farm.Base.{false, if◌then◌else◌, [], ◌∷◌, ◌++◌, ◌≡◌, refl, ap, ◌∙◌, arith, append-nil}
use bambu_farm.Base.Text.{Text, text_eq, text_eq_refl}
use bambu_farm.Session.{
  SessionState, ConnectBeginResult, start, already_connected, already_in_progress, begin_connect,
  claim_autoconnect_target,
}
use bambu_farm.Plugin.{World, Plugin}
use bambu_farm.Plugin.Connect.{begun, connect_printer, cb_printer_available}
use bambu_farm.Plugin.Run.{printer_available, connects_to, step, run}
use bambu_farm.Plugin.Restart.{
  connects_of, connects_of-append, announced, Awaits, claimed-Awaits, session-available,
}

-- No attempt is running, and there is no connection.
pub record IsIdle (s : SessionState) : Type 0 where
  pub unconnected : s.printer_connected ≡ false
  pub calm : s.connect_in_progress ≡ false

module _ (w : World) where
  still_unconnected :
      (json : Text) (p : Plugin w)
      → (cb_printer_available w json p).0.session.printer_connected ≡ p.session.printer_connected
  unfolding claim_autoconnect_target
  still_unconnected json p =
      ap (λ s. s.printer_connected) (session-available w json p) ∙ ground arith

  still_calm :
      (json : Text) (p : Plugin w)
      → (cb_printer_available w json p).0.session.connect_in_progress
        ≡ p.session.connect_in_progress
  unfolding claim_autoconnect_target
  still_calm json p = ap (λ s. s.connect_in_progress) (session-available w json p) ∙ ground arith

  begins_idle : (dev_id : Text) (s : SessionState) → IsIdle s → (begin_connect dev_id s).1 ≡ start
  unfolding begin_connect
  begins_idle dev_id s i = ground (arith, i.unconnected, i.calm)

  connects-begun :
      (dev_id password : Text) (a : SessionState × ConnectBeginResult) (p : Plugin w)
      → a.1 ≡ start
      → connects_of (begun w dev_id password a p).1 ≡ (dev_id, password) ∷ []
  unfolding begun connects_of
  connects-begun dev_id password (s, start) p e = refl
  connects-begun dev_id password (s, already_connected) p e = absurd (cc)
  connects-begun dev_id password (s, already_in_progress) p e = absurd (cc)

  -- Where a plugin without a connection waits for a device and is told of it, it asks for a connection
  -- without a password; and where Bambu Studio then asks to connect that device, a second connection is
  -- asked for, since the first was not entered as an attempt.
  pub autoconnect_twice :
      (dev_id json password : Text) (p : Plugin w)
      → Awaits w dev_id p
      → IsIdle p.session
      → announced p.name_overrides json ≡ dev_id
      → connects_of (run w (printer_available json ∷ connects_to dev_id password ∷ []) p).1
        ≡ (dev_id, []) ∷ (dev_id, password) ∷ []
  unfolding run step connect_printer
  autoconnect_twice dev_id json password p a i e =
      connects_of-append _ _
      ∙ ap (λ l. l ++ connects_of ((connect_printer w dev_id password q).1 ++ [])) first
      ∙ ap (λ l. (dev_id, []) ∷ l) (ap connects_of (append-nil _) ∙ second)
    where
      q : Plugin w
      q = (cb_printer_available w json p).0

      first : connects_of (cb_printer_available w json p).1 ≡ (dev_id, []) ∷ []
      first =
          claimed-Awaits w dev_id json p a
          ∙ ap (λ b. if b then (dev_id, []) ∷ [] else [])
              (ap (λ d. text_eq dev_id d) e ∙ text_eq_refl dev_id)

      second : connects_of (connect_printer w dev_id password q).1 ≡ (dev_id, password) ∷ []
      second =
          unfold connect_printer in
          connects-begun dev_id password (begin_connect dev_id q.session) q (
            begins_idle dev_id q.session (record {
              unconnected = still_unconnected json p ∙ i.unconnected;
              calm = still_calm json p ∙ i.calm;
            }))
