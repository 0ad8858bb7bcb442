-- ===== src/Base/Text/Places.antt =====
-- Where the places of two searches stand, and that an insertion behind them moves neither.
use bambu_farm.Base.{
  ℕ, zero, suc, ◌+◌, ◌≤◌, true, some, [], ◌∷◌, ◌++◌, ◌≡◌, ◌≢◌, arith, All, length, take, ap, ◌∙◌,
  sym,
}
use bambu_farm.Base.Text.{Text, starts_with, find, find_from}
use bambu_farm.Base.Text.Find.{find-zero_inv, find-suc_inv, find-le-length, find-cut}
use bambu_farm.Base.Text.Occurs.{next, next_inv, from_zero, from_nil, from_suc}

starts_before :
    (c : ℕ) (n s : Text) (i : ℕ)
    → All (λ a. a ≢ c) n
    → find (c ∷ []) s ≡ some i
    → starts_with n s ≡ true
    → length n ≤ i
unfolding starts_with
starts_before c [] s i hn f h = omega arith
starts_before c (a ∷ n) [] i hn f h = cc
starts_before c (a ∷ n) (e ∷ s) zero (ha, hn) f h =
    let k = find-zero_inv (c ∷ []) (e ∷ s) f in ground arith
starts_before c (a ∷ n) (e ∷ s) (suc i) (ha, hn) f h =
    let k = starts_before c n s i hn (find-suc_inv (c ∷ []) e s i f) in ground arith

-- The two searches of the tail, one place earlier.
tail_place :
    (n : Text) (pos e : ℕ) (s : Text) (i : ℕ)
    → find_from n (suc pos) (e ∷ s) ≡ some i
    → (j : ℕ) × (i ≡ suc j) × (find_from n pos s ≡ some j)
tail_place n pos e s i f = next_inv (find_from n pos s) i (sym (from_suc n pos e s) ∙ f)

-- A match of a text that lacks `c` ends before the next `c`.
pub match_before :
    (c : ℕ) (n s : Text) (p o : ℕ)
    → All (λ a. a ≢ c) n
    → find n s ≡ some p
    → find_from (c ∷ []) p s ≡ some o
    → p + length n ≤ o
match_before c n s zero o hn f g =
    omega (arith, starts_before c n s o hn (from_zero (c ∷ []) s o g) (find-zero_inv n s f))
match_before c n [] (suc p) o hn f g = let z = from_nil (c ∷ []) p in cc
match_before c n (e ∷ s) (suc p) o hn f g =
    let (j, e', k) = tail_place (c ∷ []) p e s o g in
    omega (arith, match_before c n s p j hn (find-suc_inv n e s p f) k, e')

pub find_from_bounds :
    (n s : Text) (p o : ℕ) → find_from n p s ≡ some o → (p ≤ o) × (o + length n ≤ length s)
find_from_bounds n s zero o f = (omega arith, find-le-length n s o (from_zero n s o f))
find_from_bounds n [] (suc p) o f = let z = from_nil n p in cc
find_from_bounds n (e ∷ s) (suc p) o f =
    let (j, e', k) = tail_place n p e s o f in
    let (l, m) = find_from_bounds n s p j k in (omega arith, omega arith)

zero_from : (n s : Text) (i : ℕ) → find n s ≡ some i → find_from n 0 s ≡ some i
unfolding find_from
zero_from n s i h = ground arith

pub find_from-cut :
    (n s t : Text) (p o k : ℕ)
    → find_from n p s ≡ some o
    → o + length n ≤ k
    → k ≤ length s
    → find_from n p (take k s ++ t) ≡ some o
find_from-cut n s t zero o k f h g =
    zero_from n (take k s ++ t) o (find-cut n s t o k (from_zero n s o f) h g)
find_from-cut n [] t (suc p) o k f h g = let z = from_nil n p in cc
find_from-cut n (e ∷ s) t (suc p) o zero f h g =
    let (j, e', m) = tail_place n p e s o f in absurd (omega arith)
find_from-cut n (e ∷ s) t (suc p) o (suc k) f h g =
    let (j, e', m) = tail_place n p e s o f in
    from_suc n p e (take k s ++ t)
    ∙ (ap next (find_from-cut n s t p j k m (omega arith) (omega arith)) ∙ ap some (sym e'))
