-- ===== src/Base/Decimal.antt =====
-- `std::to_string` of integers.
pub mod Digits
use Prim.Native.Nat.{ℕ, zero, suc, ◌+◌, ◌/◌, ◌%◌}
use mathlib.Core.Path.{◌≡◌, refl}
use mathlib.Core.Bool.{true, false}
use mathlib.Core.List.{[], ◌∷◌}
use bambu_farm.Base.Tests.{ltb}
use bambu_farm.Base.Text.{Text, codes}
use bambu_farm.Base.Int.{ℤ, pos, negsuc}

-- The digits of `n` in front of `out`; `n + 1` rounds are more than the number has digits.
unfoldable pub digits : ℕ → ℕ → Text → Text
digits zero n out = out
digits (suc fuel) n out = elim (ltb n 10) [
  | true ↦ (b'0' + n) ∷ out
  | false ↦ digits fuel (n / 10) ((b'0' + n % 10) ∷ out)
]

unfoldable pub show_nat : ℕ → Text
show_nat n = digits (suc n) n []

unfoldable pub show_int : ℤ → Text
show_int (pos n) = show_nat n
show_int (negsuc n) = b'-' ∷ show_nat (suc n)

show_int_negative : show_int (negsuc 4019) ≡ codes "-4020"
unfolding show_int show_nat digits
show_int_negative = refl
