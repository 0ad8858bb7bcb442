-- ===== src/LocalState/Lines.antt =====
-- `std::getline`, and the cutting of a line at its tabs.
use bambu_farm.Base.{
  ℕ, true, false, ◌==◌, if◌then◌else◌, List, [], ◌∷◌, ◌++◌, ◌≡◌, ◌≢◌, refl, arith, All,
  append_assoc, append-nil,
}
use bambu_farm.Base.Text.{Text, is_empty}

-- The lines of a file: the last one counts only if it holds something.
unfoldable pub lines : Text → Text → List Text
lines cur [] = if is_empty cur then [] else cur ∷ []
lines cur (c ∷ s) = elim (c == b'\n') [ true ↦ cur ∷ lines [] s | false ↦ lines (cur ++ c ∷ []) s ]

-- The parts between the tabs; there is always one.
unfoldable pub split_tabs : Text → Text → List Text
split_tabs cur [] = cur ∷ []
split_tabs cur (c ∷ s) = elim (c == b'\t') [
  | true ↦ cur ∷ split_tabs [] s
  | false ↦ split_tabs (cur ++ c ∷ []) s
]

-- A text without the byte.
abbrev pub Lacks : ℕ → Text → Type 0
Lacks b = All (λ c. c ≢ b)

lines_step :
    (cur : Text) (c : ℕ) (s : Text) → c ≢ b'\n' → lines cur (c ∷ s) ≡ lines (cur ++ c ∷ []) s
unfolding lines
lines_step cur c s h = ground arith

lines_end : (cur s : Text) → lines cur (b'\n' ∷ s) ≡ cur ∷ lines [] s
unfolding lines
lines_end cur s = refl

lines_from :
    (line cur rest : Text)
    → Lacks b'\n' line
    → lines cur (line ++ b'\n' ∷ rest) ≡ (cur ++ line) ∷ lines [] rest
lines_from [] cur rest h = rw append-nil (lines_end cur rest)
lines_from (c ∷ line) cur rest (hc, hs) =
    rw (lines_step cur c _ hc, lines_from line (cur ++ c ∷ []) rest hs, append_assoc)

-- A line that was written is read back in front of the lines behind it.
pub lines_cons :
    (line rest : Text) → Lacks b'\n' line → lines [] (line ++ b'\n' ∷ rest) ≡ line ∷ lines [] rest
lines_cons line rest h = lines_from line [] rest h

split_step :
    (cur : Text) (c : ℕ) (s : Text)
    → c ≢ b'\t'
    → split_tabs cur (c ∷ s) ≡ split_tabs (cur ++ c ∷ []) s
unfolding split_tabs
split_step cur c s h = ground arith

split_from :
    (field cur rest : Text)
    → Lacks b'\t' field
    → split_tabs cur (field ++ b'\t' ∷ rest) ≡ (cur ++ field) ∷ split_tabs [] rest
split_from [] cur rest h = rw append-nil (unfold split_tabs in refl)
split_from (c ∷ field) cur rest (hc, hs) =
    rw (split_step cur c _ hc, split_from field (cur ++ c ∷ []) rest hs, append_assoc)

pub split_tabs_cons :
    (field rest : Text)
    → Lacks b'\t' field
    → split_tabs [] (field ++ b'\t' ∷ rest) ≡ field ∷ split_tabs [] rest
split_tabs_cons field rest h = split_from field [] rest h

split_whole : (field cur : Text) → Lacks b'\t' field → split_tabs cur field ≡ (cur ++ field) ∷ []
split_whole [] cur h = rw append-nil (unfold split_tabs in refl)
split_whole (c ∷ field) cur (hc, hs) =
    rw (split_step cur c _ hc, split_whole field (cur ++ c ∷ []) hs, append_assoc)

pub split_tabs_last : (field : Text) → Lacks b'\t' field → split_tabs [] field ≡ field ∷ []
split_tabs_last field h = split_whole field [] h
