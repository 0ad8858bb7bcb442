-- ===== src/Tunnel/Protocol.antt =====
-- bambu-farm-client/cpp/tunnel_protocol.cpp: a file response that is longer than a chunk is sent
-- as several frames, each with a header of its own.
pub mod Reassembly
pub mod Rounds
use bambu_farm.Base.{
  ℕ, zero, suc, ◌+◌, ◌-◌, ◌*◌, ◌^◌, min, Bool, true, false, ◌&&◌, not, ltb, leb, ◌==◌,
  if◌then◌else◌, Option, none, some, List, [], ◌∷◌, ◌++◌, length, take, drop, ◌≡◌, refl,
}
use bambu_farm.Base.Text.{Text, codes, concat, is_empty, starts_with, find, substr}
use bambu_farm.Base.Decimal.{show_nat}
use bambu_farm.PrintJob.Escape.{json_escape}

unfoldable pub k_tunnel_download_chunk_size : ℕ
k_tunnel_download_chunk_size = 4 * 1024 * 1024

unfoldable pub is_digit : ℕ → Bool
is_digit c = leb b'0' c && leb c b'9'

-- `[0-9]+`, greedy; empty if there is no digit.
unfoldable pub leading_digits : Text → Text
leading_digits [] = []
leading_digits (c ∷ s) = if is_digit c then c ∷ leading_digits s else []

-- `std::strtoull` of a row of digits: the largest value where the number does not fit.
unfoldable pub decimal_value : ℕ → Text → ℕ
decimal_value n [] = n
decimal_value n (c ∷ s) = decimal_value (n * 10 + (c - b'0')) s

unfoldable pub strtoull : Text → ℕ
strtoull s = min (decimal_value 0 s) (2 ^ 64 - 1)

-- The digits behind the first `needle` that has one behind it.
unfoldable pub search_integer : Text → Text → Text
search_integer needle [] = []
search_integer needle (c ∷ s) =
    let here = leading_digits (drop (length needle) (c ∷ s)) in
    if starts_with needle (c ∷ s) && not (is_empty here) then here else search_integer needle s

-- `none` is the result `false`.
unfoldable pub extract_json_integer : Text → Text → Option ℕ
extract_json_integer json key =
    let digits = search_integer (concat (codes "\"" ∷ key ∷ codes "\":" ∷ [])) json in
    if is_empty digits then none else some (strtoull digits)

-- `[^"]*"`: what stands before the next quote, if there is one.
unfoldable pub up_to_quote : Text → Option Text
up_to_quote [] = none
up_to_quote (c ∷ s) =
    if c == b'"' then some [] else elim (up_to_quote s) [ none ↦ none | some r ↦ some (c ∷ r) ]

unfoldable pub search_string : Text → Text → Text
search_string needle [] = []
search_string needle (c ∷ s) =
    let rest = search_string needle s in
    if starts_with needle (c ∷ s)
    then elim (up_to_quote (drop (length needle) (c ∷ s))) [ none ↦ rest | some r ↦ r ]
    else rest

unfoldable pub extract_json_string : Text → Text → Text
extract_json_string json key = search_string (concat (codes "\"" ∷ key ∷ codes "\":\"" ∷ [])) json

-- What every frame of one response repeats.
pub record FileInfo : Type 0 where
  pub sequence : ℕ
  pub total : ℕ
  pub file_md5 : Text
  pub ftp_file_md5 : Text
  pub path : Text

-- The texts that the header is put together from.
unfoldable pub header_pieces : FileInfo → ℕ → ℕ → ℕ → List Text
header_pieces info result chunk_size offset =
    codes "{\"result\":"
    ∷ show_nat result
    ∷ codes ",\"sequence\":"
    ∷ show_nat info.sequence
    ∷ codes ",\"reply\":{\"size\":"
    ∷ show_nat chunk_size
    ∷ codes ",\"offset\":"
    ∷ show_nat offset
    ∷ codes ",\"total\":"
    ∷ show_nat info.total
    ∷ codes ",\"file_md5\":\""
    ∷ json_escape info.file_md5
    ∷ codes "\",\"ftp_file_md5\":\""
    ∷ json_escape info.ftp_file_md5
    ∷ codes "\",\"path\":\""
    ∷ json_escape info.path
    ∷ codes "\"}}"
    ∷ []

unfoldable pub frame_header : FileInfo → ℕ → ℕ → ℕ → Text
frame_header info result chunk_size offset = concat (header_pieces info result chunk_size offset)

-- One round of the loop, and the loop: `fuel` bounds the rounds, and one more than the length of the
-- payload is enough, since the offset grows by a chunk each time.
unfoldable pub frame_at : FileInfo → ℕ → Text → ℕ → Text
frame_at info chunk payload offset =
    let chunk_size = min chunk (length payload - offset) in
    let result = if ltb (offset + chunk_size) (length payload) then 1 else 0 in
    frame_header info result chunk_size offset ++ (codes "\n\n" ++ substr offset chunk_size payload)

unfoldable pub frame_loop : FileInfo → ℕ → Text → ℕ → ℕ → List Text
frame_loop info chunk payload zero offset = []
frame_loop info chunk payload (suc fuel) offset = elim (ltb offset (length payload)) [
  | true ↦ frame_at info chunk payload offset ∷ frame_loop info chunk payload fuel (offset + chunk)
  | false ↦ []
]

unfoldable pub file_info : Text → Text → ℕ → FileInfo
file_info header payload sequence = record {
  sequence = sequence;
  total = elim (extract_json_integer header (codes "total")) [ none ↦ length payload | some n ↦ n ];
  file_md5 = extract_json_string header (codes "file_md5");
  ftp_file_md5 = extract_json_string header (codes "ftp_file_md5");
  path = extract_json_string header (codes "path");
}

-- The part behind the search for the separator.
unfoldable pub split_payload : ℕ → Text → Text → Text → List Text
split_payload chunk response_bytes header payload =
    if leb (length payload) chunk
    then response_bytes ∷ []
    else elim (extract_json_integer header (codes "sequence")) [
      | none ↦ response_bytes ∷ []
      | some sequence ↦
          frame_loop (file_info header payload sequence) chunk payload (suc (length payload)) 0
    ]

unfoldable pub split_frames : ℕ → Text → List Text
split_frames chunk response_bytes = elim (find (codes "\n\n") response_bytes) [
  | none ↦ response_bytes ∷ []
  | some separator ↦
      split_payload chunk response_bytes (take separator response_bytes)
        (drop (separator + 2) response_bytes)
]

unfoldable pub split_file_download_response_frames : Text → List Text
split_file_download_response_frames response_bytes =
    split_frames k_tunnel_download_chunk_size response_bytes
