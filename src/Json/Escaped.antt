-- ===== src/Json/Escaped.antt =====
-- What the reader makes of text that went through `json_escape`, and of text without quotes.
use mathlib.Core.List.{flat_map}
use bambu_farm.Base.{
  ℕ, List, [], ◌∷◌, ◌++◌, ◌≡◌, ◌≢◌, refl, ap, sym, ◌∙◌, arith, append_assoc, append-nil, All,
}
use bambu_farm.Base.Text.{Text}
use bambu_farm.PrintJob.Escape.{escape_byte, json_escape, json_escape-flat_map}
use bambu_farm.Json.{
  Mode, outside, inside, escaped, Reader, read_text, read_byte, reveal, start, between, within,
  read_text-append,
}

read_text-escape_byte :
    (c : ℕ) (cur : Text) (done : List Text)
    → read_text (within cur done) (escape_byte c) ≡ within (cur ++ c ∷ []) done
unfolding read_text read_byte reveal escape_byte
read_text-escape_byte c cur done = ground arith

read_text-flat_map :
    (s cur : Text) (done : List Text)
    → read_text (within cur done) (flat_map escape_byte s) ≡ within (cur ++ s) done
unfolding flat_map
read_text-flat_map [] cur done = rw append-nil (unfold read_text in refl)
read_text-flat_map (c ∷ s) cur done =
    rw (read_text-append, read_text-escape_byte, read_text-flat_map s, append_assoc)

-- Inside quotes, escaped text is read back as the text it came from, and the quotes stay open.
pub read_text-json_escape :
    (s cur : Text) (done : List Text)
    → read_text (within cur done) (json_escape s) ≡ within (cur ++ s) done
read_text-json_escape s cur done = rw json_escape-flat_map (read_text-flat_map s cur done)

-- Outside quotes, text without a quote adds no token.
pub read_text_unquoted :
    (s : Text) (done : List Text)
    → All (λ c. c ≢ b'"') s
    → read_text (between done) s ≡ between done
unfolding read_text read_byte
read_text_unquoted [] done h = refl
read_text_unquoted (c ∷ s) done (hc, hs) = ground (arith, read_text_unquoted s done hs)

abbrev pub behind : List Text → Reader → Reader
behind done r = record { mode = r.mode; current = r.current; tokens = done ++ r.tokens }

read_byte-behind :
    (m : Mode) (cur : Text) (done ts : List Text) (c : ℕ)
    → read_byte m cur (done ++ ts) c ≡ behind done (read_byte m cur ts c)
unfolding read_byte
read_byte-behind outside cur done ts c = ground arith
read_byte-behind inside cur done ts c = ground (arith, append_assoc done ts (cur ∷ []))
read_byte-behind escaped cur done ts c = refl

read_text-behind :
    (r : Reader) (done : List Text) (s : Text)
    → read_text (behind done r) s ≡ behind done (read_text r s)
unfolding read_text
read_text-behind r done [] = refl
read_text-behind r done (c ∷ s) =
    rw (read_byte-behind r.mode r.current done r.tokens c)
      (read_text-behind (read_byte r.mode r.current r.tokens c) done s)

-- Text that closes its own quotes adds its own tokens.
pub read_text_closed :
    (s : Text) (ts done : List Text)
    → read_text start s ≡ between ts
    → read_text (between done) s ≡ between (done ++ ts)
read_text_closed s ts done h =
    ap (λ d. read_text (between d) s) (sym (append-nil done))
    ∙ read_text-behind start done s
    ∙ ap (behind done) h
