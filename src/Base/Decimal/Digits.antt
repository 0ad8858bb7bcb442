-- ===== src/Base/Decimal/Digits.antt =====
-- What the printed numbers consist of.
use Prim.Native.Nat.{ℕ, zero, suc, ◌+◌, ◌/◌, ◌%◌, ◌<◌}
use mathlib.Core.List.{[], ◌∷◌}
use native.Mathlib.Omega.{arith}
use bambu_farm.Base.Lists.{All}
use bambu_farm.Base.Text.{Text}
use bambu_farm.Base.Decimal.{digits, show_nat}

module _ (P : ℕ → Type 0) (digit : (d : ℕ) → d < 10 → P (b'0' + d)) where
  digits-All : (fuel n : ℕ) (out : Text) → All P out → All P (digits fuel n out)
  unfolding digits
  digits-All zero n out h = h
  digits-All (suc fuel) n out h =
      ground (arith, digit n, digit (n % 10), digits-All fuel (n / 10) ((b'0' + n % 10) ∷ out))

  -- A property of the ten digits holds of every byte of a printed number.
  pub show_nat-All : (n : ℕ) → All P (show_nat n)
  unfolding show_nat
  show_nat-All n = digits-All (suc n) n [] tt
