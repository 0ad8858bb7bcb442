-- ===== src/Base/Text/Occurs.antt =====
-- Where a text still occurs after another text is inserted.
use bambu_farm.Base.{
  ℕ, zero, suc, ◌+◌, Bool, true, false, Option, none, some, is_some, [], ◌∷◌, ◌++◌, ◌≡◌, ◌≢◌, refl,
  arith, All, drop, ap, ◌∙◌, inl, inr, Bool-cases, subst, sym, append_assoc, take,
}
use bambu_farm.Base.Text.{Text, starts_with, find, find_from, insert_at}
use bambu_farm.Base.Text.Find.{
  starts_with-append, find_here, find-zero_inv, find-suc_inv, find-nil_inv,
}

-- `n` occurs in `s` at `pos` or later.
abbrev pub occurs : Text → ℕ → Text → Bool
occurs n pos s = is_some (find_from n pos s)

has_first : (n s : Text) → starts_with n s ≡ true → is_some (find n s) ≡ true
has_first n s h = ap is_some (find_here n s h)

has_later :
    (n : Text) (c : ℕ) (s : Text) → is_some (find n s) ≡ true → is_some (find n (c ∷ s)) ≡ true
unfolding find
has_later n c s h = ground arith

has_inv :
    (n : Text) (c : ℕ) (s : Text)
    → starts_with n (c ∷ s) ≡ false
    → is_some (find n (c ∷ s)) ≡ true
    → is_some (find n s) ≡ true
unfolding find
has_inv n c s h k = ground arith

has-append : (n t s : Text) → is_some (find n s) ≡ true → is_some (find n (t ++ s)) ≡ true
has-append n [] s h = h
has-append n (c ∷ t) s h = has_later n c (t ++ s) (has-append n t s h)

starts_insert :
    (c : ℕ) (t n s : Text) (i : ℕ)
    → All (λ a. a ≢ c) n
    → find (c ∷ []) s ≡ some i
    → starts_with n s ≡ true
    → starts_with n (insert_at (suc i) t s) ≡ true
unfolding starts_with
starts_insert c t [] s i hn f h = refl
starts_insert c t (a ∷ n) [] i hn f h = cc
starts_insert c t (a ∷ n) (e ∷ s) zero (ha, hn) f h =
    let k = find-zero_inv (c ∷ []) (e ∷ s) f in ground arith
starts_insert c t (a ∷ n) (e ∷ s) (suc i) (ha, hn) f h =
    let k = starts_insert c t n s i hn (find-suc_inv (c ∷ []) e s i f) in ground arith

-- A text that lacks `c` still occurs when another is inserted behind a `c`.
has_insert :
    (c : ℕ) (t n s : Text) (i : ℕ)
    → All (λ a. a ≢ c) n
    → find (c ∷ []) s ≡ some i
    → is_some (find n s) ≡ true
    → is_some (find n (insert_at (suc i) t s)) ≡ true
has_insert c t n [] i hn f h = let (e, z) = find-nil_inv (c ∷ []) i f in cc
has_insert c t n (e ∷ s) zero hn f h = elim (Bool-cases (starts_with n (e ∷ s))) [
  | inl k ↦ has_first n (insert_at 1 t (e ∷ s)) (starts_insert c t n (e ∷ s) 0 hn f k)
  | inr k ↦ has_later n e (t ++ s) (has-append n t s (has_inv n e s k h))
]
has_insert c t n (e ∷ s) (suc i) hn f h =
    let g = has_insert c t n s i hn (find-suc_inv (c ∷ []) e s i f) in
    elim (Bool-cases (starts_with n (e ∷ s))) [
      | inl k ↦
          has_first n (insert_at (suc (suc i)) t (e ∷ s))
            (starts_insert c t n (e ∷ s) (suc i) hn f k)
      | inr k ↦ has_later n e (insert_at (suc i) t s) (g (has_inv n e s k h))
    ]

occurs-zero : (n s : Text) → occurs n 0 s ≡ is_some (find n s)
unfolding find_from
occurs-zero n s = ground arith

occurs-suc : (n : Text) (pos e : ℕ) (s : Text) → occurs n (suc pos) (e ∷ s) ≡ occurs n pos s
unfolding find_from
occurs-suc n pos e s = ground arith

pub from_zero : (n s : Text) (i : ℕ) → find_from n 0 s ≡ some i → find n s ≡ some i
unfolding find_from
from_zero n s i h = ground arith

pub from_nil : (n : Text) (pos : ℕ) → find_from n (suc pos) [] ≡ none
unfolding find_from
from_nil n pos = ground arith

abbrev pub next : Option ℕ → Option ℕ
next none = none
next (some i) = some (suc i)

pub from_suc :
    (n : Text) (pos e : ℕ) (s : Text) → find_from n (suc pos) (e ∷ s) ≡ next (find_from n pos s)
unfolding find_from
from_suc n pos e s = ground arith

pub next_inv : (o : Option ℕ) (i : ℕ) → next o ≡ some i → (j : ℕ) × (i ≡ suc j) × (o ≡ some j)
next_inv none i h = cc
next_inv (some j) i h = (j, ground arith, refl)

behind_insert :
    (c : ℕ) (t n : Text) (pos : ℕ) (s : Text) (i : ℕ)
    → All (λ a. a ≢ c) n
    → find_from (c ∷ []) pos s ≡ some i
    → occurs n pos s ≡ true
    → occurs n pos (insert_at (suc i) t s) ≡ true
behind_insert c t n zero s i hn f h =
    occurs-zero n (insert_at (suc i) t s)
    ∙ has_insert c t n s i hn (from_zero (c ∷ []) s i f) (sym (occurs-zero n s) ∙ h)
behind_insert c t n (suc pos) [] i hn f h = let z = from_nil (c ∷ []) pos in cc
behind_insert c t n (suc pos) (e ∷ s) i hn f h =
    let (j, e', g) = next_inv (find_from (c ∷ []) pos s) i (sym (from_suc (c ∷ []) pos e s) ∙ f) in
    subst (λ k. occurs n (suc pos) (insert_at (suc k) t (e ∷ s)) ≡ true) (sym e')
      (occurs-suc n pos e (insert_at (suc j) t s)
        ∙ behind_insert c t n pos s j hn g (sym (occurs-suc n pos e s) ∙ h))

has_needle : (a l n r d : Text) → is_some (find n (a ++ ((l ++ (n ++ r)) ++ d))) ≡ true
has_needle a l n r d = has-append n a ((l ++ (n ++ r)) ++ d) (
    subst (λ u. is_some (find n u) ≡ true)
      (sym (append_assoc l (n ++ r) d ∙ ap (λ u. l ++ u) (append_assoc n r d)))
      (has-append n l (n ++ (r ++ d))
        (has_first n (n ++ (r ++ d)) (starts_with-append n (r ++ d)))))

behind_inserted :
    (c : ℕ) (l n r : Text) (pos : ℕ) (s : Text) (i : ℕ)
    → find_from (c ∷ []) pos s ≡ some i
    → occurs n pos (insert_at (suc i) (l ++ (n ++ r)) s) ≡ true
behind_inserted c l n r zero s i f =
    occurs-zero n (insert_at (suc i) (l ++ (n ++ r)) s)
    ∙ has_needle (take (suc i) s) l n r (drop (suc i) s)
behind_inserted c l n r (suc pos) [] i f = let z = from_nil (c ∷ []) pos in cc
behind_inserted c l n r (suc pos) (e ∷ s) i f =
    let (j, e', g) = next_inv (find_from (c ∷ []) pos s) i (sym (from_suc (c ∷ []) pos e s) ∙ f) in
    subst (λ k. occurs n (suc pos) (insert_at (suc k) (l ++ (n ++ r)) (e ∷ s)) ≡ true) (sym e')
      (occurs-suc n pos e (insert_at (suc j) (l ++ (n ++ r)) s) ∙ behind_inserted c l n r pos s j g)

one_more : (i : ℕ) → suc i ≡ i + 1
one_more i = omega arith

-- Behind the `c` that a search from `pos` finds, an insertion loses no text that lacks `c`.
pub occurs_insert :
    (c : ℕ) (t n : Text) (pos : ℕ) (s : Text) (i : ℕ)
    → All (λ a. a ≢ c) n
    → find_from (c ∷ []) pos s ≡ some i
    → occurs n pos s ≡ true
    → occurs n pos (insert_at (i + 1) t s) ≡ true
occurs_insert c t n pos s i hn f h =
    subst (λ k. occurs n pos (insert_at k t s) ≡ true) (one_more i)
      (behind_insert c t n pos s i hn f h)

-- What is inserted there occurs there.
pub occurs_inserted :
    (c : ℕ) (l n r : Text) (pos : ℕ) (s : Text) (i : ℕ)
    → find_from (c ∷ []) pos s ≡ some i
    → occurs n pos (insert_at (i + 1) (l ++ (n ++ r)) s) ≡ true
occurs_inserted c l n r pos s i f =
    subst (λ k. occurs n pos (insert_at k (l ++ (n ++ r)) s) ≡ true) (one_more i)
      (behind_inserted c l n r pos s i f)
