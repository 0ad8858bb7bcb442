-- ===== src/Base/Text/Find.antt =====
-- Laws of `find`: where a match stands, and when it is the first.
use Prim.Native.Nat.{ℕ, zero, suc, ◌+◌, ◌≤◌}
use Prim.Native.Nat.add
use mathlib.Core.Path.{◌≡◌, refl, ap, ◌∙◌}
use mathlib.Core.Logic.{◌≢◌}
use mathlib.Core.Bool.{true, false, ◌&&◌}
use mathlib.Core.Option.{some}
use mathlib.Core.List.{[], ◌∷◌, ◌++◌}
use native.Mathlib.Omega.{arith}
use bambu_farm.Base.Tests.{◌==◌}
use bambu_farm.Base.Lists.{length, take, drop, All}
use bambu_farm.Base.Text.{Text, starts_with, find}

pub starts_with-append : (p s : Text) → starts_with p (p ++ s) ≡ true
unfolding starts_with
starts_with-append [] s = refl
starts_with-append (c ∷ p) s = ground (arith, starts_with-append p s)

pub starts_with_sound : (p s : Text) → starts_with p s ≡ true → s ≡ p ++ drop (length p) s
unfolding starts_with
starts_with_sound [] s h = refl
starts_with_sound (d ∷ p) [] h = cc
starts_with_sound (d ∷ p) (c ∷ s) h = ground (arith, starts_with_sound p s)

pub starts_with_longer :
    (p s t : Text) → starts_with p s ≡ true → starts_with p (take (length p) s ++ t) ≡ true
unfolding starts_with
starts_with_longer [] s t h = refl
starts_with_longer (d ∷ p) [] t h = cc
starts_with_longer (d ∷ p) (c ∷ s) t h = ground (arith, starts_with_longer p s t)

pub starts_with-length : (p s : Text) → starts_with p s ≡ true → length p ≤ length s
unfolding starts_with
starts_with-length [] s h = omega arith
starts_with-length (d ∷ p) [] h = cc
starts_with-length (d ∷ p) (c ∷ s) h = ground (arith, starts_with-length p s)

-- `find` on a text that is not empty, read off in both directions.
pub find_here : (n s : Text) → starts_with n s ≡ true → find n s ≡ some 0
unfolding find
find_here [] [] h = refl
find_here (d ∷ n) [] h = unfold starts_with in cc
find_here n (c ∷ s) h = rw h

pub find_later :
    (n : Text) (c : ℕ) (s : Text) {i : ℕ}
    → starts_with n (c ∷ s) ≡ false
    → find n s ≡ some i
    → find n (c ∷ s) ≡ some (suc i)
unfolding find
find_later n c s h k = rw (h, k)

-- The same backwards.
pub find-zero_inv : (n s : Text) → find n s ≡ some 0 → starts_with n s ≡ true
unfolding find
find-zero_inv [] [] h = unfold starts_with in refl
find-zero_inv (d ∷ n) [] h = cc
find-zero_inv n (c ∷ s) h = ground arith

pub find-suc_inv :
    (n : Text) (c : ℕ) (s : Text) (i : ℕ) → find n (c ∷ s) ≡ some (suc i) → find n s ≡ some i
unfolding find
find-suc_inv n c s i h = ground arith

pub find-suc_ne :
    (n : Text) (c : ℕ) (s : Text) (i : ℕ)
    → find n (c ∷ s) ≡ some (suc i)
    → starts_with n (c ∷ s) ≡ false
unfolding find
find-suc_ne n c s i h = ground arith

pub find-nil_inv : (n : Text) (i : ℕ) → find n [] ≡ some i → (n ≡ []) × (i ≡ 0)
unfolding find
find-nil_inv [] i h = ground arith
find-nil_inv (d ∷ n) i h = cc

-- A match splits the text into what stands before it, the needle and what stands behind it.
pub find_sound :
    (n s : Text) (i : ℕ) → find n s ≡ some i → s ≡ take i s ++ (n ++ drop (i + length n) s)
find_sound n [] i h = ground (arith, find-nil_inv n i h)
find_sound n (c ∷ s) zero h = rw add.zero (starts_with_sound n (c ∷ s) (find-zero_inv n (c ∷ s) h))
find_sound n (c ∷ s) (suc i) h = rw add.suc (ap (◌∷◌ c) (find_sound n s i (find-suc_inv n c s i h)))

pub find-le-length : (n s : Text) (i : ℕ) → find n s ≡ some i → i + length n ≤ length s
find-le-length n [] i h = ground (arith, find-nil_inv n i h)
find-le-length n (c ∷ s) zero h =
    omega (arith, starts_with-length n (c ∷ s) (find-zero_inv n (c ∷ s) h))
find-le-length n (c ∷ s) (suc i) h = omega (arith, find-le-length n s i (find-suc_inv n c s i h))

-- A needle whose first byte does not occur in `p` is not found before the end of `p`.
pub find_behind :
    (d : ℕ) (n p r : Text)
    → All (λ c. c ≢ d) p
    → find (d ∷ n) (p ++ ((d ∷ n) ++ r)) ≡ some (length p)
find_behind d n [] r h = find_here (d ∷ n) ((d ∷ n) ++ r) (starts_with-append (d ∷ n) r)
find_behind d n (c ∷ p) r (hc, hp) =
    find_later (d ∷ n) c (p ++ ((d ∷ n) ++ r)) (unfold starts_with in ground arith)
      (find_behind d n p r hp)

starts_with_cut :
    (p s t : Text) (k : ℕ)
    → length p ≤ k
    → k ≤ length s
    → starts_with p (take k s ++ t) ≡ starts_with p s
unfolding starts_with
starts_with_cut [] s t k h g = refl
starts_with_cut (d ∷ p) [] t zero h g = absurd (omega arith)
starts_with_cut (d ∷ p) [] t (suc k) h g = absurd (omega arith)
starts_with_cut (d ∷ p) (c ∷ s) t zero h g = absurd (omega arith)
starts_with_cut (d ∷ p) (c ∷ s) t (suc k) h g =
    ap (λ b. (d == c) && b) (starts_with_cut p s t k (omega arith) (omega arith))

-- The first match depends on nothing behind it.
pub find-cut :
    (n s t : Text) (i k : ℕ)
    → find n s ≡ some i
    → i + length n ≤ k
    → k ≤ length s
    → find n (take k s ++ t) ≡ some i
find-cut n [] t i zero h g l =
    let (e, z) = find-nil_inv n i h in rw (e, z) (find_here [] t (unfold starts_with in refl))
find-cut n [] t i (suc k) h g l = absurd (omega arith)
find-cut n (c ∷ s) t zero k h g l =
    find_here n (take k (c ∷ s) ++ t)
      (starts_with_cut n (c ∷ s) t k (omega arith) l ∙ find-zero_inv n (c ∷ s) h)
find-cut n (c ∷ s) t (suc i) zero h g l = absurd (omega arith)
find-cut n (c ∷ s) t (suc i) (suc k) h g l =
    find_later n c (take k s ++ t)
      (starts_with_cut n (c ∷ s) t (suc k) (omega arith) l ∙ find-suc_ne n c s i h)
      (find-cut n s t i k (find-suc_inv n c s i h) (omega arith) (omega arith))
