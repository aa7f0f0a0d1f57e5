-- ===== src/Prelude/Decimal.antt =====
-- `std::to_string` on unsigned numbers.
use Prim.Native.Nat.{ℕ, zero, suc, ◌+◌, ◌/◌, ◌%◌}
use mathlib.Core.List.{[], ◌∷◌, ◌++◌}
use device_access_opc_ua_bac.Prelude.Tests.{ltb, if◌then◌else◌, Text}

-- The digits of `n`, if the fuel is above it.
unfoldable pub print : ℕ → ℕ → Text
print zero n = []
print (suc fuel) n =
    let front = print fuel (n / 10) in
    if ltb n 10 then (n + b'0') ∷ [] else front ++ (n % 10 + b'0') ∷ []

unfoldable pub to_decimal : ℕ → Text
unfolding print
to_decimal n = print (suc n) n
