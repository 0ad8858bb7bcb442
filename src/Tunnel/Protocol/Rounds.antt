-- ===== src/Tunnel/Protocol/Rounds.antt =====
-- The loop of bambu-farm-client/cpp/tunnel_protocol.cpp that cuts a response into frames, without fuel.
use bambu_farm.Base.{
  ℕ, zero, suc, ◌+◌, ◌-◌, ◌≤◌, ◌<◌, true, false, ltb, List, [], ◌∷◌, length, ◌≡◌, refl, sym, subst,
  arith, Bool-cases, inl, inr,
}
use bambu_farm.Base.Text.{Text}
use bambu_farm.Tunnel.Protocol.{FileInfo, frame_at, frame_loop}

module _ (info : FileInfo) (chunk : ℕ) (payload : Text) where
  -- `while (offset < payload.size())`: from an offset, the loop ends and has written the frames.
  pub data Rounds : ℕ → List Text → Type 0 where
    over : (offset : ℕ) → ltb offset (length payload) ≡ false → Rounds offset []
    round :
        (offset : ℕ) (frames : List Text)
        → ltb offset (length payload) ≡ true
        → Rounds (offset + chunk) frames
        → Rounds offset (frame_at info chunk payload offset ∷ frames)

  loop_done :
      (fuel offset : ℕ)
      → ltb offset (length payload) ≡ false
      → frame_loop info chunk payload (suc fuel) offset ≡ []
  unfolding frame_loop
  loop_done fuel offset h = rw (h, frame_loop) refl

  loop_more :
      (fuel offset : ℕ)
      → ltb offset (length payload) ≡ true
      → frame_loop info chunk payload (suc fuel) offset
        ≡ frame_at info chunk payload offset ∷ frame_loop info chunk payload fuel (offset + chunk)
  unfolding frame_loop
  loop_more fuel offset h = rw (h, frame_loop) refl

  -- The frames end the loop, and are no more than the bytes that were left.
  abbrev Ended : ℕ → List Text → Type 0
  Ended offset frames = Rounds offset frames × (length frames ≤ length payload - offset)

  loop-Ended :
      (fuel offset : ℕ)
      → 0 < chunk
      → length payload - offset < fuel
      → Ended offset (frame_loop info chunk payload fuel offset)
  loop-Ended zero offset c h = absurd (omega arith)
  loop-Ended (suc fuel) offset c h = elim (Bool-cases (ltb offset (length payload))) [
    | inl e ↦ subst (Ended offset) (sym (loop_more fuel offset e)) (
        let rest = loop-Ended fuel (offset + chunk) c (left e) in
        (round offset _ e rest.0, counted e rest.1))
    | inr e ↦ subst (Ended offset) (sym (loop_done fuel offset e)) (over offset e, omega arith)
  ]
    where
      left : ltb offset (length payload) ≡ true → length payload - (offset + chunk) < fuel
      left e = ground (arith, h, c)

      counted :
          {n : ℕ}
          → ltb offset (length payload) ≡ true
          → n ≤ length payload - (offset + chunk)
          → suc n ≤ length payload - offset
      counted e k = ground (arith, c)

  -- For chunks of at least one byte, the loop over a payload ends: the fuel that is given is enough for
  -- it to be left because the offset has reached the end, after no more rounds than the payload has bytes.
  pub frame_loop-Rounds :
      0 < chunk
      → let frames = frame_loop info chunk payload (suc (length payload)) 0 in
        Rounds 0 frames × (length frames ≤ length payload)
  frame_loop-Rounds c =
      let ended = loop-Ended (suc (length payload)) 0 c (omega arith) in (ended.0, omega arith)
