-- ===== src/Json.antt =====
-- An independent reader of the string tokens of a JSON text: what the receiver of a command sees
-- in quotes. The commands of print_job.cpp, cloud_compat.cpp and local_print_context.cpp are
-- measured against it.
pub mod Escaped
use bambu_farm.Base.{ℕ, ◌==◌, if◌then◌else◌, List, [], ◌∷◌, ◌++◌, ◌≡◌, refl, append_assoc}
use bambu_farm.Base.Text.{Text, codes}

pub data Mode : Type 0 where
  outside inside escaped : Mode

-- `current` is the token being read, `tokens` those that are complete.
pub record Reader : Type 0 where
  pub mode : Mode
  pub current : Text
  pub tokens : List Text

-- The byte that a two-byte escape stands for.
unfoldable pub reveal : ℕ → ℕ
reveal c = if c == b'n' then b'\n' else if c == b'r' then b'\r' else if c == b't' then b'\t' else c

unfoldable pub read_byte : Mode → Text → List Text → ℕ → Reader
read_byte outside cur done c =
    if c == b'"'
    then record { mode = inside; current = []; tokens = done }
    else record { mode = outside; current = cur; tokens = done }
read_byte inside cur done c =
    if c == b'"'
    then record { mode = outside; current = []; tokens = done ++ cur ∷ [] }
    else if c == b'\\'
    then record { mode = escaped; current = cur; tokens = done }
    else record { mode = inside; current = cur ++ c ∷ []; tokens = done }
read_byte escaped cur done c = record {
  mode = inside;
  current = cur ++ reveal c ∷ [];
  tokens = done;
}

unfoldable pub read_text : Reader → Text → Reader
read_text r [] = r
read_text r (c ∷ s) = read_text (read_byte r.mode r.current r.tokens c) s

abbrev pub start : Reader
start = record { mode = outside; current = []; tokens = [] }

abbrev pub between : List Text → Reader
between done = record { mode = outside; current = []; tokens = done }

abbrev pub within : Text → List Text → Reader
within cur done = record { mode = inside; current = cur; tokens = done }

-- The text closes every quote that it opens, and holds the tokens `done`.
abbrev pub Holds : Text → List Text → Type 0
Holds s done = read_text start s ≡ between done

pub read_text-append :
    (r : Reader) (s t : Text) → read_text r (s ++ t) ≡ read_text (read_text r s) t
unfolding read_text
read_text-append r [] t = refl
read_text-append r (c ∷ s) t = read_text-append (read_byte r.mode r.current r.tokens c) s t

two_tokens : Holds (codes "{\"a\":\"x\\\"y\"}") (codes "a" ∷ codes "x\"y" ∷ [])
unfolding read_text read_byte reveal
two_tokens = refl
