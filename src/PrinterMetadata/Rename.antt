-- ===== src/PrinterMetadata/Rename.antt =====
-- What an announcement says of the printer's name after the user's name was put in.
use mathlib.Core.List.{flat_map}
use bambu_farm.Base.{
  ℕ, ◌+◌, ◌≤◌, suc, Bool, true, false, not, ◌&&◌, zero, ◌==◌, Option, none, some, is_some, [], ◌∷◌,
  ◌++◌, ◌≡◌, refl, sym, ap, ◌∙◌, arith, length, take, drop, take-append, drop-append, drop-drop,
  length-append, length-take, append_assoc, Option-cases, inl, inr, ◌⊎◌,
}
use bambu_farm.Base.Text.{Text, codes, find}
use bambu_farm.Base.Text.Find.{find-le-length, find-cut}
use bambu_farm.Base.Dict.{Dict}
use bambu_farm.PrintJob.Escape.{escape_byte, json_escape, json_escape-flat_map}
use bambu_farm.PrinterMetadata.{
  value_length, needle_of, find_json_string_value_range, json_string_field, override_of, rename,
  apply_name_override,
}

abbrev shift : ℕ → Option ℕ → Option ℕ
shift k none = none
shift k (some i) = some (k + i)

shift-shift : (m n : ℕ) (o : Option ℕ) → shift m (shift n o) ≡ shift (m + n) o
shift-shift m n none = refl
shift-shift m n (some i) = ground arith

-- The scan passes over an escaped byte.
value_length-escape_byte :
    (c : ℕ) (s : Text)
    → value_length false (escape_byte c ++ s)
      ≡ shift (length (escape_byte c)) (value_length false s)
unfolding value_length escape_byte
value_length-escape_byte c s = ground arith

value_length-flat_map :
    (v s : Text)
    → value_length false (flat_map escape_byte v ++ s)
      ≡ shift (length (flat_map escape_byte v)) (value_length false s)
unfolding flat_map
value_length-flat_map [] s = ground arith
value_length-flat_map (c ∷ v) s =
    rw (append_assoc, value_length-escape_byte c, value_length-flat_map v s)
      (rw (shift-shift, length-append) refl)

value_length_quote : (s : Text) → value_length false (b'"' ∷ s) ≡ some 0
unfolding value_length
value_length_quote s = refl

-- The scan of escaped text stops at the quote behind it.
value_length-json_escape :
    (v s : Text) → value_length false (json_escape v ++ b'"' ∷ s) ≡ some (length (json_escape v))
value_length-json_escape v s =
    rw (json_escape-flat_map, value_length-flat_map v (b'"' ∷ s), value_length_quote s)
      (ground arith)

scan-zero_inv : (e : Bool) (c : ℕ) (s : Text) → value_length e (c ∷ s) ≡ some 0 → c ≡ b'"'
unfolding value_length
scan-zero_inv e c s h = ground arith

scan-suc_inv :
    (e : Bool) (c : ℕ) (s : Text) (n : ℕ)
    → value_length e (c ∷ s) ≡ some (suc n)
    → value_length (not e && (c == b'\\')) s ≡ some n
unfolding value_length
scan-suc_inv e c s n h = ground arith

scan-nil_inv : (e : Bool) (n : ℕ) → value_length e [] ≡ some n → ⊥
unfolding value_length
scan-nil_inv e n h = cc

-- Where the scan stops there is a quote.
value_length_sound :
    (e : Bool) (s : Text) (n : ℕ) → value_length e s ≡ some n → drop n s ≡ b'"' ∷ drop (suc n) s
value_length_sound e [] n h = absurd (scan-nil_inv e n h)
value_length_sound e (c ∷ s) zero h = ap (λ d. d ∷ s) (scan-zero_inv e c s h)
value_length_sound e (c ∷ s) (suc n) h =
    value_length_sound (not e && (c == b'\\')) s n (scan-suc_inv e c s n h)

-- What the search for a field found: `k` is where its key stands, `n` how long its value is.
abbrev Found : Text → Text → ℕ → ℕ → Type 0
Found json needle k n =
    (find needle json ≡ some k) × (value_length false (drop (k + length needle) json) ≡ some n)

range_none :
    (json key : Text)
    → find (needle_of key) json ≡ none
    → find_json_string_value_range json key ≡ none
unfolding find_json_string_value_range
range_none json key e = rw (e, find_json_string_value_range) refl

range_open :
    (json key : Text) (k : ℕ)
    → find (needle_of key) json ≡ some k
    → value_length false (drop (k + length (needle_of key)) json) ≡ none
    → find_json_string_value_range json key ≡ none
unfolding find_json_string_value_range
range_open json key k e v = rw (e, find_json_string_value_range) (rw v refl)

range-Found :
    (json key : Text) (k n : ℕ)
    → Found json (needle_of key) k n
    → find_json_string_value_range json key
      ≡ some (k + length (needle_of key), k + length (needle_of key) + n)
unfolding find_json_string_value_range
range-Found json key k n (e, v) = rw (e, find_json_string_value_range) (rw v refl)

field-Found :
    (json key : Text) (k n : ℕ)
    → Found json (needle_of key) k n
    → json_string_field json key ≡ take n (drop (k + length (needle_of key)) json)
unfolding json_string_field
field-Found json key k n f =
    rw (range-Found json key k n f, json_string_field)
      (ap (λ m. take m (drop (k + length (needle_of key)) json)) (omega arith))

-- The field is found, or there is no range.
range_cases :
    (json key : Text)
    → (find_json_string_value_range json key ≡ none) ⊎ ((k n : ℕ) × Found json (needle_of key) k n)
range_cases json key = elim (Option-cases (find (needle_of key) json)) [
  | inl e ↦ inl (range_none json key e)
  | inr (k, e) ↦ elim (Option-cases (value_length false (drop (k + length (needle_of key)) json))) [
    | inl v ↦ inl (range_open json key k e v)
    | inr (n, v) ↦ inr (k, n, (e, v))
  ]
]

abbrev name_needle : Text
name_needle = needle_of (codes "dev_name")

rename-Found :
    (json name : Text) (k n : ℕ)
    → Found json name_needle k n
    → rename json name
      ≡ take (k + length name_needle) json
        ++ (json_escape name ++ drop (k + length name_needle + n) json)
unfolding rename
rename-Found json name k n f =
    rw (range-Found json (codes "dev_name") k n f, rename)
      (ap (λ m. take (k + length name_needle) json ++ (json_escape name ++ drop m json))
        (omega arith))

length-prefix : (m : ℕ) (s : Text) → m ≤ length s → length (take m s) ≡ m
length-prefix m s h = rw (length-take m s) (omega arith)

drop-cut : (m : ℕ) (s t : Text) → m ≤ length s → drop m (take m s ++ t) ≡ t
drop-cut m s t h =
    ap (λ k. drop k (take m s ++ t)) (sym (length-prefix m s h)) ∙ drop-append (take m s) t

-- A found value that is exchanged for escaped text is found where it was.
Found-again :
    (json needle name : Text) (k n : ℕ)
    → Found json needle k n
    → Found
        (take (k + length needle) json ++ (json_escape name ++ drop (k + length needle + n) json))
        needle
        k
        (length (json_escape name))
Found-again json needle name k n (e, v) =
    (find-cut needle json _ k (k + length needle) e (omega arith) fits, again)
  where
    fits : k + length needle ≤ length json
    fits = find-le-length needle json k e

    again :
        value_length false (
          drop (k + length needle) (
            take (k + length needle) json
            ++ (json_escape name ++ drop (k + length needle + n) json)))
        ≡ some (length (json_escape name))
    again =
        rw
          (drop-cut (k + length needle) json (json_escape name ++ drop (k + length needle + n) json)
            fits)
          (rw (drop-drop (k + length needle) n json, value_length_sound false _ n v)
            (value_length-json_escape name _))

field-rename :
    (json name : Text) (k n : ℕ)
    → Found json name_needle k n
    → json_string_field (rename json name) (codes "dev_name") ≡ json_escape name
field-rename json name k n (e, v) = rw (rename-Found json name k n (e, v)) (
    field-Found _ (codes "dev_name") k (length (json_escape name))
      (Found-again json name_needle name k n (e, v))
    ∙ ap (λ t. take (length (json_escape name)) t)
        (drop-cut (k + length name_needle) json _ (find-le-length name_needle json k e))
    ∙ take-append (json_escape name) _)

apply_found :
    (json name : Text) (overrides : Dict Text)
    → override_of (json_string_field json (codes "dev_id")) overrides ≡ some name
    → apply_name_override json overrides ≡ rename json name
unfolding apply_name_override
apply_found json name overrides o = rw (o, apply_name_override) refl

-- An announcement whose device has a name of the user's that is not empty, and that has a `dev_name`
-- whose string is closed, is rewritten so that reading `dev_name` from it again gives exactly that
-- name, escaped.
pub dev_name-apply_name_override :
    (json name : Text) (overrides : Dict Text)
    → override_of (json_string_field json (codes "dev_id")) overrides ≡ some name
    → is_some (find_json_string_value_range json (codes "dev_name")) ≡ true
    → json_string_field (apply_name_override json overrides) (codes "dev_name") ≡ json_escape name
dev_name-apply_name_override json name overrides o closed =
    rw (apply_found json name overrides o) (elim (range_cases json (codes "dev_name")) [
      | inl e ↦ absurd (none_found e)
      | inr (k, n, f) ↦ field-rename json name k n f
    ])
  where
    none_found : find_json_string_value_range json (codes "dev_name") ≡ none → ⊥
    none_found e = cc
