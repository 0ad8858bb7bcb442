-- ===== src/PrintJob/Escape.antt =====
-- `json_escape` of bambu-farm-client/cpp/print_job.cpp.
use mathlib.Core.List.{flat_map}
use bambu_farm.Base.{ℕ, ◌==◌, if◌then◌else◌, [], ◌∷◌, ◌++◌, ◌≡◌, sym, append_assoc, append-nil}
use bambu_farm.Base.Text.{Text, codes}

-- What one round of the loop appends.
unfoldable pub escape_byte : ℕ → Text
escape_byte c =
    if c == b'\\'
    then codes "\\\\"
    else if c == b'"'
    then codes "\\\""
    else if c == b'\n'
    then codes "\\n"
    else if c == b'\r'
    then codes "\\r"
    else if c == b'\t'
    then codes "\\t"
    else c ∷ []

escape_loop : Text → Text → Text
escape_loop [] out = out
escape_loop (c ∷ s) out = escape_loop s (out ++ escape_byte c)

unfoldable pub json_escape : Text → Text
unfolding escape_loop
json_escape value = escape_loop value []

escape_loop-flat_map : (s out : Text) → escape_loop s out ≡ out ++ flat_map escape_byte s
unfolding escape_loop flat_map
escape_loop-flat_map [] out = sym (append-nil out)
escape_loop-flat_map (c ∷ s) out = simp (escape_loop-flat_map s, append_assoc)

-- The loop appends one piece for each byte.
pub json_escape-flat_map : (s : Text) → json_escape s ≡ flat_map escape_byte s
unfolding json_escape
json_escape-flat_map s = escape_loop-flat_map s []
