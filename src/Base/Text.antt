-- ===== src/Base/Text.antt =====
-- `std::string` as a list of bytes, with the members of it that the program calls.
pub mod Find
pub mod Occurs
pub mod Places
use Prim.Native.Nat.{ℕ, suc, ◌+◌}
use Prim.Native.Char.{code}
use Prim.Native.String.{String}
use mathlib.Core.Path.{◌≡◌, refl}
use mathlib.Core.Logic.{◌↔◌}
use mathlib.Core.Bool.{Bool, true, false, ◌&&◌}
use mathlib.Core.Option.{Option, none, some}
use mathlib.Core.List.{List, [], ◌∷◌, ◌++◌}
use native.Mathlib.Omega.{arith}
use bambu_farm.Base.Tests.{◌==◌, leb, if◌then◌else◌}
use bambu_farm.Base.Lists.{length, take, drop}

abbrev pub Text : Type 0
Text = List ℕ

-- The bytes of a literal, all of them ASCII in this program.
abbrev pub codes : String → Text
codes String.[] = []
codes (String.◌∷◌ c s) = code c ∷ codes s

abbrev pub is_empty : Text → Bool
is_empty [] = true
is_empty (c ∷ s) = false

-- `operator==`.
unfoldable pub text_eq : Text → Text → Bool
text_eq [] [] = true
text_eq [] (d ∷ t) = false
text_eq (c ∷ s) [] = false
text_eq (c ∷ s) (d ∷ t) = c == d && text_eq s t

pub text_eq_iff : (s t : Text) → (text_eq s t ≡ true) ↔ (s ≡ t)
unfolding text_eq
text_eq_iff [] [] = (λ h. refl, λ h. refl)
text_eq_iff [] (d ∷ t) = (λ h. cc, λ h. cc)
text_eq_iff (c ∷ s) [] = (λ h. cc, λ h. cc)
text_eq_iff (c ∷ s) (d ∷ t) =
    (λ h. ground (arith, (text_eq_iff s t).0), λ h. ground (arith, (text_eq_iff s t).1))

pub text_eq_refl : (s : Text) → text_eq s s ≡ true
text_eq_refl s = (text_eq_iff s s).1 refl

-- Whether `s` begins with `p`.
unfoldable pub starts_with : Text → Text → Bool
starts_with [] s = true
starts_with (d ∷ p) [] = false
starts_with (d ∷ p) (c ∷ s) = d == c && starts_with p s

-- `s.find(needle)`; `none` is `npos`.
unfoldable pub find : Text → Text → Option ℕ
find needle [] = if is_empty needle then some 0 else none
find needle (c ∷ s) =
    if starts_with needle (c ∷ s)
    then some 0
    else elim (find needle s) [ none ↦ none | some i ↦ some (suc i) ]

-- `s.find(needle, pos)`.
unfoldable pub find_from : Text → ℕ → Text → Option ℕ
find_from needle pos s =
    if leb pos (length s)
    then elim (find needle (drop pos s)) [ none ↦ none | some i ↦ some (pos + i) ]
    else none

-- `s.substr(pos, n)` for a `pos` within the text.
abbrev pub substr : ℕ → ℕ → Text → Text
substr pos n s = take n (drop pos s)

-- `s.insert(pos, t)`.
abbrev pub insert_at : ℕ → Text → Text → Text
insert_at pos t s = take pos s ++ (t ++ drop pos s)

-- `s.replace(pos, n, t)`.
abbrev pub replace_at : ℕ → ℕ → Text → Text → Text
replace_at pos n t s = take pos s ++ (t ++ drop (pos + n) s)

-- What follows where a search found something, after the early return where it did not.
abbrev pub if_found : Option ℕ → Text → (ℕ → Text) → Text
if_found none otherwise k = otherwise
if_found (some i) otherwise k = k i

-- `a + b + c + …`.
abbrev pub concat : List Text → Text
concat [] = []
concat (s ∷ ss) = s ++ concat ss
