-- ===== src/PrintJob/Names/Package.antt =====
-- What the package names made by bambu-farm-client/cpp/print_job.cpp are.
use bambu_farm.Base.{
  ℕ, suc, ◌-◌, ◌<◌, ◌≤◌, Bool, true, false, ltb, leb, if◌then◌else◌, [], ◌∷◌, ◌++◌, ◌≡◌, refl,
  arith, length, take, drop, All-append, All-take, Bool-cases, inl, inr, subst,
}
use bambu_farm.Base.Text.{Text, codes, is_empty, text_eq}
use bambu_farm.PrintJob.Ascii.{ends_with_case_insensitive, to_lower_ascii, lower_byte}
use bambu_farm.PrintJob.Names.{
  is_forbidden, is_hidden_start, sanitize_remote_filename, chop, normalize_print_package_name,
  append_package_suffix,
}
use bambu_farm.PrintJob.Names.Safe.{IsAllowed, Begins, sanitize_remote_filename-IsSafe}

-- A name that is not empty, holds no byte that a path or a pattern could be made of, and begins neither
-- with a dot nor with a blank.
pub record IsFileName (s : Text) : Type 0 where
  pub named : is_empty s ≡ false
  pub allowed : IsAllowed s
  pub visible : Begins is_hidden_start s

pub sanitize_remote_filename-IsFileName :
    (value : Text) → IsFileName (sanitize_remote_filename value)
sanitize_remote_filename-IsFileName value =
    let s = sanitize_remote_filename-IsSafe value in
    record { named = s.named; allowed = s.allowed; visible = s.visible }

join : (s t : Text) → IsAllowed s → IsAllowed t → IsAllowed (s ++ t)
unfolding IsAllowed
join = All-append (λ c. is_forbidden c ≡ false)

pub append-IsFileName : (s t : Text) → IsFileName s → IsAllowed t → IsFileName (s ++ t)
append-IsFileName [] t h k = absurd (true_ne_false h.named)
  where
    true_ne_false : true ≡ false → ⊥
    true_ne_false e = cc
append-IsFileName (c ∷ s) t h k = record {
  named = refl;
  allowed = join (c ∷ s) t h.allowed k;
  visible = h.visible;
}

taken : (n : ℕ) (c : ℕ) (s : Text) → IsFileName (c ∷ s) → IsFileName (take (suc n) (c ∷ s))
unfolding IsAllowed
taken n c s h = record {
  named = refl;
  allowed = All-take _ (suc n) (c ∷ s) h.allowed;
  visible = h.visible;
}

rest_positive : (m n : ℕ) → n < m → (k : ℕ) × (m - n ≡ suc k)
rest_positive m n h = (m - n - 1, omega arith)

chop-IsFileName : (n : ℕ) (s : Text) → n < length s → IsFileName s → IsFileName (chop n s)
unfolding chop
chop-IsFileName n [] l h = absurd (omega arith)
chop-IsFileName n (c ∷ s) l h =
    let (k, e) = rest_positive (length (c ∷ s)) n l in rw e (taken k c s h)

-- A name that begins with no dot is longer than a suffix of it that does.
same_length :
    (c : ℕ) (s suffix : Text)
    → is_hidden_start c ≡ false
    → text_eq (to_lower_ascii (c ∷ s)) (to_lower_ascii (b'.' ∷ suffix)) ≡ false
unfolding is_hidden_start to_lower_ascii lower_byte text_eq
same_length c s suffix h = ground arith

if_true : (b x : Bool) → (if b then false else x) ≡ true → (b ≡ false) × (x ≡ true)
if_true true x h = cc
if_true false x h = (refl, h)

compared :
    (v suffix : Text)
    → ends_with_case_insensitive v suffix ≡ true
    → length v ≤ length suffix
    → text_eq (to_lower_ascii v) (to_lower_ascii suffix) ≡ true
unfolding ends_with_case_insensitive
compared v suffix e l =
    let (k, same) = if_true (ltb (length v) (length suffix)) _ e in
    subst (λ n. text_eq (to_lower_ascii (drop n v)) (to_lower_ascii suffix) ≡ true)
      (no_rest (length v) (length suffix) l) same
  where
    no_rest : (m n : ℕ) → m ≤ n → m - n ≡ 0
    no_rest m n h = omega arith

longer :
    (s suffix : Text)
    → IsFileName s
    → ends_with_case_insensitive s (b'.' ∷ suffix) ≡ true
    → suc (length suffix) < length s
longer [] suffix h e = absurd (empty_named h.named)
  where
    empty_named : true ≡ false → ⊥
    empty_named n = cc
longer (c ∷ s) suffix h e = elim (Bool-cases (leb (length s) (length suffix))) [
  | inr l ↦ ground arith
  | inl l ↦ absurd (apart (compared (c ∷ s) (b'.' ∷ suffix) e (ground arith)))
]
  where
    apart : text_eq (to_lower_ascii (c ∷ s)) (to_lower_ascii (b'.' ∷ suffix)) ≡ true → ⊥
    apart t = let d = same_length c s suffix h.visible in cc

-- A property of the branches that holds where they are taken.
if_taken :
    (b : Bool) (x y : Text)
    → (b ≡ true → IsFileName x)
    → IsFileName y
    → IsFileName (if b then x else y)
if_taken true x y hx hy = hx refl
if_taken false x y hx hy = hy

gcode_3mf-IsAllowed : IsAllowed (codes ".gcode.3mf")
unfolding IsAllowed is_forbidden
gcode_3mf-IsAllowed = ground arith

three_mf-IsAllowed : IsAllowed (codes ".3mf")
unfolding IsAllowed is_forbidden
three_mf-IsAllowed = ground arith

dash-IsAllowed : IsAllowed (codes "-")
unfolding IsAllowed is_forbidden
dash-IsAllowed = ground arith

-- A name that ends in a known suffix, with that suffix replaced.
replaced :
    (name suffix new : Text)
    → IsFileName name
    → IsAllowed new
    → ends_with_case_insensitive name (b'.' ∷ suffix) ≡ true
    → IsFileName (chop (suc (length suffix)) name ++ new)
replaced name suffix new h k e =
    append-IsFileName (chop (suc (length suffix)) name) new
      (chop-IsFileName (suc (length suffix)) name (longer name suffix h e) h) k

pub normalize_print_package_name-IsFileName :
    (value : Text) → IsFileName (normalize_print_package_name value)
unfolding normalize_print_package_name
normalize_print_package_name-IsFileName value =
    if_taken _ name _ (λ e. h)
      (if_taken _ (chop 4 name ++ codes ".gcode.3mf") (name ++ codes ".gcode.3mf")
        (replaced name (codes "3mf") (codes ".gcode.3mf") h gcode_3mf-IsAllowed)
        (append-IsFileName name (codes ".gcode.3mf") h gcode_3mf-IsAllowed))
  where
    name : Text
    name = sanitize_remote_filename value

    h : IsFileName (sanitize_remote_filename value)
    h = sanitize_remote_filename-IsFileName value

dashed-IsAllowed : (suffix : Text) → IsAllowed suffix → IsAllowed (codes "-" ++ suffix)
dashed-IsAllowed suffix k = join (codes "-") suffix dash-IsAllowed k

pub append_package_suffix-IsFileName :
    (base_name suffix : Text)
    → IsFileName base_name
    → IsAllowed suffix
    → IsFileName (append_package_suffix base_name suffix)
unfolding append_package_suffix
append_package_suffix-IsFileName base_name suffix h k =
    if_taken (is_empty suffix) base_name _ (λ e. h)
      (if_taken _ (chop 10 base_name ++ (codes "-" ++ (suffix ++ codes ".gcode.3mf"))) _
        (replaced base_name (codes "gcode.3mf") _ h
          (dashed-IsAllowed _ (join suffix (codes ".gcode.3mf") k gcode_3mf-IsAllowed)))
        (if_taken _ (chop 4 base_name ++ (codes "-" ++ (suffix ++ codes ".3mf")))
          (base_name ++ (codes "-" ++ suffix))
          (replaced base_name (codes "3mf") _ h
            (dashed-IsAllowed _ (join suffix (codes ".3mf") k three_mf-IsAllowed)))
          (append-IsFileName base_name (codes "-" ++ suffix) h (dashed-IsAllowed suffix k))))
