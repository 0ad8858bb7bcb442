-- ===== src/Tunnel/Protocol/Reassembly.antt =====
-- What the receiver of the frames reads: the payload comes back whole, in chunks of bounded size.
use mathlib.Core.List.{flat_map}
use bambu_farm.Base.{
  ℕ, zero, suc, ◌+◌, ◌≤◌, ◌<◌, min, true, false, ltb, leb, none, some, List, [], ◌∷◌, ◌++◌, length,
  take, drop, ◌≡◌, ◌≢◌, ◌⊎◌, refl, sym, ap, ◌∙◌, arith, All, All-append, Bool-cases, Option-cases,
  inl, inr, append-nil, map, take-append-drop, drop-append, drop_all, length-drop, drop-drop,
  take-min, ltb→lt, length-take,
}
use bambu_farm.Base.Text.{Text, codes, concat, find}
use bambu_farm.Base.Text.Find.{find_behind}
use bambu_farm.Base.Decimal.{show_nat}
use bambu_farm.Base.Decimal.Digits.{show_nat-All}
use bambu_farm.PrintJob.Escape.{escape_byte, json_escape, json_escape-flat_map}
use bambu_farm.Tunnel.Protocol.{
  FileInfo, header_pieces, frame_header, frame_at, frame_loop, split_payload, split_frames,
  extract_json_integer,
}

-- What stands behind the first empty line: how a receiver takes a frame apart.
pub frame_payload : Text → Text
frame_payload frame = elim (find (codes "\n\n") frame) [ none ↦ [] | some i ↦ drop (i + 2) frame ]

frame_payload_found :
    (frame : Text) (i : ℕ)
    → find (codes "\n\n") frame ≡ some i
    → frame_payload frame ≡ drop (i + 2) frame
unfolding frame_payload
frame_payload_found frame i h = rw (h, frame_payload)

abbrev IsPlain : ℕ → Type 0
IsPlain c = c ≢ b'\n'

show_nat-IsPlain : (n : ℕ) → All IsPlain (show_nat n)
show_nat-IsPlain n = show_nat-All IsPlain (λ d h. omega arith) n

escape_byte-IsPlain : (c : ℕ) → All IsPlain (escape_byte c)
unfolding escape_byte
escape_byte-IsPlain c = ground arith

flat_map-IsPlain : (s : Text) → All IsPlain (flat_map escape_byte s)
unfolding flat_map
flat_map-IsPlain [] = tt
flat_map-IsPlain (c ∷ s) = All-append IsPlain _ _ (escape_byte-IsPlain c) (flat_map-IsPlain s)

json_escape-IsPlain : (s : Text) → All IsPlain (json_escape s)
json_escape-IsPlain s = rw json_escape-flat_map (flat_map-IsPlain s)

concat-IsPlain : (ss : List Text) → All (All IsPlain) ss → All IsPlain (concat ss)
concat-IsPlain [] h = tt
concat-IsPlain (s ∷ ss) (hs, hss) = All-append IsPlain s (concat ss) hs (concat-IsPlain ss hss)

header_pieces-IsPlain :
    (info : FileInfo) (result size offset : ℕ)
    → All (All IsPlain) (header_pieces info result size offset)
unfolding header_pieces
header_pieces-IsPlain info result size offset = (
  omega arith,
  (
    show_nat-IsPlain result,
    (
      omega arith,
      (
        show_nat-IsPlain info.sequence,
        (
          omega arith,
          (
            show_nat-IsPlain size,
            (
              omega arith,
              (
                show_nat-IsPlain offset,
                (
                  omega arith,
                  (
                    show_nat-IsPlain info.total,
                    (
                      omega arith,
                      (
                        json_escape-IsPlain info.file_md5,
                        (
                          omega arith,
                          (
                            json_escape-IsPlain info.ftp_file_md5,
                            (omega arith, (json_escape-IsPlain info.path, (omega arith, tt))),
                          ),
                        ),
                      ),
                    ),
                  ),
                ),
              ),
            ),
          ),
        ),
      ),
    ),
  ),
)

-- A text behind a header and an empty line is read back.
frame_payload_lem :
    (header rest : Text)
    → All IsPlain header
    → frame_payload (header ++ (codes "\n\n" ++ rest)) ≡ rest
unfolding frame_payload
frame_payload_lem header rest h =
    rw (find_behind b'\n' (b'\n' ∷ []) header rest h, frame_payload)
      (rw (drop-drop (length header) 2) (rw drop-append))

-- A frame is read back as the part of the payload that went into it.
pub frame_payload-frame_at :
    (info : FileInfo) (chunk : ℕ) (payload : Text) (offset : ℕ)
    → frame_payload (frame_at info chunk payload offset) ≡ take chunk (drop offset payload)
unfolding frame_at frame_header
frame_payload-frame_at info chunk payload offset =
    frame_payload_lem _ _ (concat-IsPlain _ (header_pieces-IsPlain info _ _ offset))
    ∙ ap (λ n. take (min chunk n) (drop offset payload)) (sym (length-drop offset payload))
    ∙ take-min chunk (drop offset payload)

-- The two ways of the loop.
module _ (info : FileInfo) (chunk : ℕ) (payload : Text) (fuel offset : ℕ) where
  frame_loop_more :
      ltb offset (length payload) ≡ true
      → frame_loop info chunk payload (suc fuel) offset
        ≡ frame_at info chunk payload offset ∷ frame_loop info chunk payload fuel (offset + chunk)
  unfolding frame_loop
  frame_loop_more h = rw (h, frame_loop)

  frame_loop_done :
      ltb offset (length payload) ≡ false → frame_loop info chunk payload (suc fuel) offset ≡ []
  unfolding frame_loop
  frame_loop_done h = rw (h, frame_loop)

abbrev pub Fits : ℕ → Text → Type 0
Fits chunk frame = (0 < length (frame_payload frame)) × (length (frame_payload frame) ≤ chunk)

module _ (info : FileInfo) (chunk : ℕ) (payload : Text) (some_bytes : 0 < chunk) where
  frame_loop_payloads :
      (fuel offset : ℕ)
      → length payload < fuel + offset
      → concat (map frame_payload (frame_loop info chunk payload fuel offset)) ≡ drop offset payload
  frame_loop_payloads zero offset h =
      unfold frame_loop in sym (drop_all offset payload (omega arith))
  frame_loop_payloads (suc fuel) offset h = elim (Bool-cases (ltb offset (length payload))) [
    | inl more ↦
        rw (frame_loop_more info chunk payload fuel offset more, frame_payload-frame_at)
          (rw (frame_loop_payloads fuel (offset + chunk) (omega arith), drop-drop offset chunk)
            (take-append-drop chunk (drop offset payload)))
    | inr done ↦
        rw (frame_loop_done info chunk payload fuel offset done)
          (sym (drop_all offset payload (ground arith)))
  ]

  frame_at-Fits :
      (offset : ℕ) → offset < length payload → Fits chunk (frame_at info chunk payload offset)
  frame_at-Fits offset h =
      rw (frame_payload-frame_at info chunk payload offset)
        (omega (arith, length-take chunk (drop offset payload), length-drop offset payload))

  frame_loop-Fits : (fuel offset : ℕ) → All (Fits chunk) (frame_loop info chunk payload fuel offset)
  frame_loop-Fits zero offset = unfold frame_loop in tt
  frame_loop-Fits (suc fuel) offset = elim (Bool-cases (ltb offset (length payload))) [
    | inl more ↦
        rw (frame_loop_more info chunk payload fuel offset more)
          (frame_at-Fits offset (ltb→lt _ _ more), frame_loop-Fits fuel (offset + chunk))
    | inr done ↦ rw (frame_loop_done info chunk payload fuel offset done) tt
  ]

-- The payload that a receiver puts together from frames.
pub reassembled : List Text → Text
reassembled frames = concat (map frame_payload frames)

split_payload_whole :
    (chunk : ℕ) (response header payload : Text)
    → 0 < chunk
    → frame_payload response ≡ payload
    → reassembled (split_payload chunk response header payload) ≡ payload
unfolding split_payload reassembled
split_payload_whole chunk response header payload h e =
    elim (Bool-cases (leb (length payload) chunk)) [
      | inl short ↦ rw short (append-nil (frame_payload response) ∙ e)
      | inr long ↦ elim (Option-cases (extract_json_integer header (codes "sequence"))) [
        | inl missing ↦ rw (long, missing, split_payload) (append-nil (frame_payload response) ∙ e)
        | inr (sequence, found) ↦
            rw (long, found, split_payload)
              (frame_loop_payloads _ chunk payload h (suc (length payload)) 0 (omega arith))
      ]
    ]

split_payload-Fits :
    (chunk : ℕ) (response header payload : Text)
    → 0 < chunk
    → (split_payload chunk response header payload ≡ response ∷ [])
      ⊎ All (Fits chunk) (split_payload chunk response header payload)
unfolding split_payload
split_payload-Fits chunk response header payload h =
    elim (Bool-cases (leb (length payload) chunk)) [
      | inl short ↦ rw short (inl refl)
      | inr long ↦ elim (Option-cases (extract_json_integer header (codes "sequence"))) [
        | inl missing ↦ rw (long, missing, split_payload) (inl refl)
        | inr (sequence, found) ↦
            rw (long, found, split_payload)
              (inr (frame_loop-Fits _ chunk payload h (suc (length payload)) 0))
      ]
    ]

split_frames_found :
    (chunk : ℕ) (response : Text) (i : ℕ)
    → find (codes "\n\n") response ≡ some i
    → split_frames chunk response
      ≡ split_payload chunk response (take i response) (drop (i + 2) response)
unfolding split_frames
split_frames_found chunk response i h = rw (h, split_frames)

split_frames_missing :
    (chunk : ℕ) (response : Text)
    → find (codes "\n\n") response ≡ none
    → split_frames chunk response ≡ response ∷ []
unfolding split_frames
split_frames_missing chunk response h = rw (h, split_frames)

-- However large the response and whatever its header says, the frames carry what stands behind the
-- first empty line of the response and nothing else: read off behind the first empty line of each
-- frame and put one after the other, they give it back.
pub reassembled-split_frames :
    (chunk : ℕ) (response : Text)
    → 0 < chunk
    → reassembled (split_frames chunk response) ≡ frame_payload response
reassembled-split_frames chunk response h = elim (Option-cases (find (codes "\n\n") response)) [
  | inl missing ↦
      rw (split_frames_missing chunk response missing)
        (unfold reassembled in append-nil (frame_payload response))
  | inr (i, found) ↦ rw (split_frames_found chunk response i found) (
      split_payload_whole chunk response _ _ h (frame_payload_found response i found)
      ∙ sym (frame_payload_found response i found))
]

-- Where a response is split at all, each frame carries at least one byte and no more than a chunk.
pub split_frames-Fits :
    (chunk : ℕ) (response : Text)
    → 0 < chunk
    → (split_frames chunk response ≡ response ∷ []) ⊎ All (Fits chunk) (split_frames chunk response)
split_frames-Fits chunk response h = elim (Option-cases (find (codes "\n\n") response)) [
  | inl missing ↦ inl (split_frames_missing chunk response missing)
  | inr (i, found) ↦
      rw (split_frames_found chunk response i found) (split_payload-Fits chunk response _ _ h)
]
