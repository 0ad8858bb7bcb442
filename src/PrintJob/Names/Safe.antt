-- ===== src/PrintJob/Names/Safe.antt =====
-- What the names made by bambu-farm-client/cpp/print_job.cpp never hold.
use mathlib.Core.List.{reverse, reverse-append, reverse-reverse}
use bambu_farm.Base.{
  ℕ, Bool, false, if◌then◌else◌, [], ◌∷◌, ◌++◌, map, ◌≡◌, refl, sym, ap, arith, ◌∙◌, All, if_cases,
  subst, Bool-cases, inl, inr, All-reverse,
}
use bambu_farm.Base.Text.{Text, is_empty}
use bambu_farm.PrintJob.Ascii.{drop_front, drop_back}
use bambu_farm.PrintJob.Names.{
  is_forbidden, sanitize_byte, default_name, is_hidden_start, is_blank, sanitize_remote_filename,
}

-- No byte that a path or a shell pattern could be made of.
unfoldable pub IsAllowed : Text → Type 0
IsAllowed = All (λ c. is_forbidden c ≡ false)

drop_front-IsAllowed : (test : ℕ → Bool) (s : Text) → IsAllowed s → IsAllowed (drop_front test s)
unfolding IsAllowed drop_front
drop_front-IsAllowed test [] h = h
drop_front-IsAllowed test (c ∷ s) h =
    if_cases IsAllowed (test c) (drop_front test s) (c ∷ s) (drop_front-IsAllowed test s h.1) h

drop_back-IsAllowed : (test : ℕ → Bool) (s : Text) → IsAllowed s → IsAllowed (drop_back test s)
unfolding IsAllowed drop_back
drop_back-IsAllowed test s h =
    All-reverse _ (drop_front test (reverse s))
      (drop_front-IsAllowed test (reverse s) (All-reverse _ s h))

sanitize_byte-IsAllowed : (c : ℕ) → is_forbidden (sanitize_byte c) ≡ false
unfolding sanitize_byte is_forbidden
sanitize_byte-IsAllowed c = ground arith

map-IsAllowed : (s : Text) → IsAllowed (map sanitize_byte s)
unfolding IsAllowed
map-IsAllowed [] = tt
map-IsAllowed (c ∷ s) = (sanitize_byte-IsAllowed c, map-IsAllowed s)

-- A text without its first byte's test, or nothing.
abbrev pub Begins : (ℕ → Bool) → Text → Type 0
Begins test [] = Unit
Begins test (c ∷ s) = test c ≡ false

drop_front-Begins : (test : ℕ → Bool) (s : Text) → Begins test (drop_front test s)
unfolding drop_front
drop_front-Begins test [] = tt
drop_front-Begins test (c ∷ s) = elim (Bool-cases (test c)) [
  | inl e ↦
      subst (λ b. Begins test (if b then drop_front test s else c ∷ s)) (sym e)
        (drop_front-Begins test s)
  | inr e ↦ subst (λ b. Begins test (if b then drop_front test s else c ∷ s)) (sym e) e
]

drop_back-Begins : (test : ℕ → Bool) (s : Text) → Begins test (reverse (drop_back test s))
unfolding drop_back
drop_back-Begins test s = rw reverse-reverse (drop_front-Begins test (reverse s))

-- What is dropped in front.
drop_front_split : (test : ℕ → Bool) (s : Text) → (p : Text) × (s ≡ p ++ drop_front test s)
unfolding drop_front
drop_front_split test [] = ([], refl)
drop_front_split test (c ∷ s) =
    let (p, e) = drop_front_split test s in
    if_cases (λ d. (q : Text) × (c ∷ s ≡ q ++ d)) (test c) (drop_front test s) (c ∷ s)
      (c ∷ p, ap (λ t. c ∷ t) e) ([], refl)

drop_back_split : (test : ℕ → Bool) (s : Text) → (q : Text) × (s ≡ drop_back test s ++ q)
unfolding drop_back
drop_back_split test s =
    let (p, e) = drop_front_split test (reverse s) in
    (
      reverse p,
      sym (reverse-reverse s) ∙ ap reverse e ∙ reverse-append p (drop_front test (reverse s)),
    )

Begins-prefix : (test : ℕ → Bool) (s t : Text) → Begins test (s ++ t) → Begins test s
Begins-prefix test [] t h = tt
Begins-prefix test (c ∷ s) t h = h

drop_back_front :
    (test front : ℕ → Bool) (s : Text) → Begins front s → Begins front (drop_back test s)
drop_back_front test front s h =
    let (q, e) = drop_back_split test s in
    Begins-prefix front (drop_back test s) q (subst (Begins front) e h)

-- A name that is not empty, that no byte of which could make a path or a pattern, that is not hidden,
-- and that has no blanks around it.
pub record IsSafe (s : Text) : Type 0 where
  pub named : is_empty s ≡ false
  pub allowed : IsAllowed s
  pub visible : Begins is_hidden_start s
  pub trimmed : Begins is_blank (reverse s)

default_name-IsSafe : IsSafe default_name
unfolding IsAllowed is_forbidden is_hidden_start is_blank
default_name-IsSafe = record {
  named = refl;
  allowed = ground arith;
  visible = refl;
  trimmed = refl;
}

or_default :
    (s : Text)
    → IsAllowed s
    → Begins is_hidden_start s
    → Begins is_blank (reverse s)
    → IsSafe (if is_empty s then default_name else s)
or_default [] a v t = default_name-IsSafe
or_default (c ∷ s) a v t = record { named = refl; allowed = a; visible = v; trimmed = t }

-- Whatever text a remote name is made of, the name is not empty, holds no slash, backslash, colon, star,
-- question mark, quote, angle bracket or bar, begins neither with a dot nor with a blank, and does not
-- end in a blank.
pub sanitize_remote_filename-IsSafe : (value : Text) → IsSafe (sanitize_remote_filename value)
unfolding sanitize_remote_filename
sanitize_remote_filename-IsSafe value =
    or_default (drop_back is_blank stripped)
      (drop_back-IsAllowed is_blank stripped
        (drop_front-IsAllowed is_hidden_start _ (map-IsAllowed value)))
      (drop_back_front is_blank is_hidden_start stripped (drop_front-Begins is_hidden_start _))
      (drop_back-Begins is_blank stripped)
  where
    stripped : Text
    stripped = drop_front is_hidden_start (map sanitize_byte value)
