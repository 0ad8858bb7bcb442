-- ===== src/CloudCompat/Html.antt =====
-- What the three loops of `html_escape` come to.
use mathlib.Core.List.{flat_map}
use bambu_farm.Base.{
  ℕ, ◌+◌, ◌<◌, suc, zero, true, ◌==◌, if◌then◌else◌, Option, none, some, [], ◌∷◌, ◌++◌, ◌≡◌, ◌≢◌,
  refl, arith, length, leb, length-append, drop-append, drop-drop, take-append, append_assoc,
  append-nil, All, All-append, ◌∙◌, ap, sym, inl, inr, ◌⊎◌,
}
use bambu_farm.Base.Text.{Text, codes, find, find_from, starts_with, replace_at, if_found}
use bambu_farm.CloudCompat.{replace_all, replace_byte, html_escape}

abbrev shift : ℕ → Option ℕ → Option ℕ
shift k none = none
shift k (some i) = some (k + i)

reached : (p s : Text) → leb (length p) (length (p ++ s)) ≡ true
reached p s = ground (arith, length-append p s)

find_from-append :
    (needle p s : Text) → find_from needle (length p) (p ++ s) ≡ shift (length p) (find needle s)
unfolding find_from find
find_from-append needle p s = rw (reached p s, drop-append p s, find_from) (ground arith)

-- What a byte becomes in one of the loops.
unfoldable pub one : ℕ → Text → ℕ → Text
one c entity b = if b == c then entity else b ∷ []

find_byte_here : (c : ℕ) (s : Text) → find (c ∷ []) (c ∷ s) ≡ some 0
unfolding find starts_with
find_byte_here c s = ground arith

find_byte_later : (c d : ℕ) (s : Text) → d ≢ c → find (c ∷ []) (d ∷ s) ≡ shift 1 (find (c ∷ []) s)
unfolding find starts_with
find_byte_later c d s h = ground arith

shift-shift : (m : ℕ) (o : Option ℕ) → shift m (shift 1 o) ≡ shift (m + 1) o
shift-shift m none = refl
shift-shift m (some i) = ground arith

regroup : (p : Text) (d : ℕ) (s : Text) → p ++ d ∷ s ≡ (p ++ d ∷ []) ++ s
regroup p d s = simp append_assoc

-- A byte that the loop does not look for may count as already behind it.
skip :
    (c d : ℕ) (p s : Text)
    → d ≢ c
    → find_from (c ∷ []) (length p) (p ++ d ∷ s)
      ≡ find_from (c ∷ []) (length (p ++ d ∷ [])) ((p ++ d ∷ []) ++ s)
skip c d p s h =
    rw (find_from-append (c ∷ []) p (d ∷ s), find_from-append (c ∷ []) (p ++ d ∷ []) s)
      (rw (find_byte_later c d s h, shift-shift, length-append) refl)

-- A round, by what the search found.
abbrev round : ℕ → ℕ → Text → Text → Option ℕ → Text
round fuel c entity value o =
    if_found o value
      (λ i. replace_all fuel c entity (i + length entity) (replace_at i 1 entity value))

replace_all_step :
    (fuel c : ℕ) (entity : Text) (pos : ℕ) (value : Text)
    → replace_all (suc fuel) c entity pos value
      ≡ round fuel c entity value (find_from (c ∷ []) pos value)
unfolding replace_all
replace_all_step fuel c entity pos value = refl

replace_skip :
    (fuel c d : ℕ) (entity p s : Text)
    → d ≢ c
    → replace_all (suc fuel) c entity (length p) (p ++ d ∷ s)
      ≡ replace_all (suc fuel) c entity (length (p ++ d ∷ [])) ((p ++ d ∷ []) ++ s)
replace_skip fuel c d entity p s h =
    replace_all_step fuel c entity (length p) (p ++ d ∷ s)
    ∙ ap (round fuel c entity (p ++ d ∷ s)) (skip c d p s h)
    ∙ ap
        (λ v.
          round fuel c entity v (find_from (c ∷ []) (length (p ++ d ∷ [])) ((p ++ d ∷ []) ++ s)))
        (regroup p d s)
    ∙ sym (replace_all_step fuel c entity (length (p ++ d ∷ [])) ((p ++ d ∷ []) ++ s))

replace_first :
    (c : ℕ) (entity p s : Text) → replace_at (length p) 1 entity (p ++ c ∷ s) ≡ (p ++ entity) ++ s
replace_first c entity p s =
    rw (take-append p (c ∷ s), drop-drop (length p) 1 (p ++ c ∷ s), drop-append p (c ∷ s))
      (simp append_assoc)

found_here : (c : ℕ) (p s : Text) → find_from (c ∷ []) (length p) (p ++ c ∷ s) ≡ some (length p)
found_here c p s = rw (find_from-append (c ∷ []) p (c ∷ s), find_byte_here c s) (ground arith)

replace_here :
    (fuel c : ℕ) (entity p s : Text)
    → replace_all (suc fuel) c entity (length p) (p ++ c ∷ s)
      ≡ replace_all fuel c entity (length (p ++ entity)) ((p ++ entity) ++ s)
replace_here fuel c entity p s =
    rw (replace_all_step fuel c entity (length p) (p ++ c ∷ s), found_here c p s)
      (rw (replace_first c entity p s, length-append p entity) refl)

replace_end :
    (fuel c : ℕ) (entity p : Text) → replace_all (suc fuel) c entity (length p) (p ++ []) ≡ p
replace_end fuel c entity p =
    rw (replace_all_step fuel c entity (length p) (p ++ []), find_from-append (c ∷ []) p [])
      (unfold find in append-nil p)

one_here :
    (c : ℕ) (entity s : Text)
    → flat_map (one c entity) (c ∷ s) ≡ entity ++ flat_map (one c entity) s
unfolding flat_map one
one_here c entity s = ground arith

one_later :
    (c d : ℕ) (entity s : Text)
    → d ≢ c
    → flat_map (one c entity) (d ∷ s) ≡ d ∷ flat_map (one c entity) s
unfolding flat_map one
one_later c d entity s h = ground arith

decide : (d c : ℕ) → (d ≡ c) ⊎ (d ≢ c)
decide d c = ground arith

none_left : (c : ℕ) (entity : Text) → flat_map (one c entity) [] ≡ []
unfolding flat_map
none_left c entity = refl

replace_all-flat_map :
    (s : Text) (fuel c : ℕ) (entity p : Text)
    → length s < suc fuel
    → replace_all (suc fuel) c entity (length p) (p ++ s) ≡ p ++ flat_map (one c entity) s
replace_all-flat_map [] fuel c entity p h =
    replace_end fuel c entity p ∙ sym (append-nil p) ∙ ap (λ t. p ++ t) (sym (none_left c entity))
replace_all-flat_map (d ∷ s) zero c entity p h = ground arith
replace_all-flat_map (d ∷ s) (suc fuel) c entity p h = elim (decide d c) [
  | inl e ↦
      rw
        (
          e,
          replace_here (suc fuel) c entity p s,
          replace_all-flat_map s fuel c entity (p ++ entity) (omega arith),
          one_here c entity s,
        )
        (simp append_assoc)
  | inr ne ↦
      rw
        (
          replace_skip (suc fuel) c d entity p s ne,
          replace_all-flat_map s (suc fuel) c entity (p ++ d ∷ []) (omega arith),
          one_later c d entity s ne,
        )
        (simp append_assoc)
]

replace_byte-flat_map :
    (c : ℕ) (entity value : Text) → replace_byte c entity value ≡ flat_map (one c entity) value
unfolding replace_byte
replace_byte-flat_map c entity value =
    replace_all-flat_map value (length value) c entity [] (omega arith)

-- What one byte becomes in a page.
unfoldable pub html_byte : ℕ → Text
html_byte b =
    if b == b'&'
    then codes "&amp;"
    else if b == b'<'
    then codes "&lt;"
    else if b == b'>'
    then codes "&gt;"
    else b ∷ []

-- The three loops, as functions of the text.
abbrev loops : Text → Text
loops s =
    flat_map (one b'>' (codes "&gt;"))
      (flat_map (one b'<' (codes "&lt;")) (flat_map (one b'&' (codes "&amp;")) s))

loops_cons : (b : ℕ) (s : Text) → loops (b ∷ s) ≡ html_byte b ++ loops s
unfolding flat_map one html_byte
loops_cons b s = ground arith

loops-flat_map : (s : Text) → loops s ≡ flat_map html_byte s
unfolding flat_map
loops-flat_map [] = refl
loops-flat_map (b ∷ s) = loops_cons b s ∙ ap (λ t. html_byte b ++ t) (loops-flat_map s)

-- The three loops over the whole text come to one pass that replaces each byte by itself: an ampersand
-- that a loop wrote is not escaped again. The loops end, as no more rounds are made than the fuel.
pub html_escape-flat_map : (value : Text) → html_escape value ≡ flat_map html_byte value
unfolding html_escape
html_escape-flat_map value =
    rw (replace_byte-flat_map b'&' (codes "&amp;") value)
      (rw (replace_byte-flat_map b'<') (rw (replace_byte-flat_map b'>') (loops-flat_map value)))

html_byte-Safe : (b : ℕ) → All (λ c. (c ≢ b'<') × (c ≢ b'>')) (html_byte b)
unfolding html_byte
html_byte-Safe b = ground arith

flat_map-Safe : (s : Text) → All (λ c. (c ≢ b'<') × (c ≢ b'>')) (flat_map html_byte s)
unfolding flat_map
flat_map-Safe [] = tt
flat_map-Safe (b ∷ s) =
    All-append _ (html_byte b) (flat_map html_byte s) (html_byte-Safe b) (flat_map-Safe s)

-- Escaped text holds neither of the two bytes that begin and end a tag.
pub html_escape-All : (value : Text) → All (λ c. (c ≢ b'<') × (c ≢ b'>')) (html_escape value)
html_escape-All value = rw html_escape-flat_map (flat_map-Safe value)
