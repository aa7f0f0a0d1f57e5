-- ===== src/Prelude/Number.antt =====
-- `std::stoul` and `std::stol` with base 10, as the standard describes them, and that they read
-- back what `std::to_string` writes.
use Prim.Native.Nat.{ℕ, zero, suc, ◌+◌, ◌-◌, ◌*◌, ◌/◌, ◌%◌, ◌^◌, ◌<◌}
use mathlib.Core.Path.{◌≡◌, refl}
use mathlib.Core.Bool.{Bool, true, false, ◌&&◌, ◌||◌}
use mathlib.Core.List.{[], ◌∷◌, ◌++◌}
use mathlib.Core.Logic.{inl, inr}
use native.Mathlib.Omega.{arith}
use device_access_opc_ua_bac.Prelude.Tests.{ltb, leb, ◌==◌, if◌then◌else◌, Text, Bool-cases}
use device_access_opc_ua_bac.Prelude.Lists.{All}
use device_access_opc_ua_bac.Prelude.Decimal.{print, to_decimal}

-- What the function returns or throws.
pub data Parsed : Type 0 where
  number : ℕ → Parsed
  invalid_argument : Parsed
  out_of_range : Parsed

-- `isspace`
unfoldable pub is_space : ℕ → Bool
is_space c = c == 32 || (leb 9 c && leb c 13)

unfoldable pub is_digit : ℕ → Bool
is_digit c = leb b'0' c && leb c b'9'

unfoldable pub skip_spaces : Text → Text
skip_spaces [] = []
skip_spaces (c ∷ s) = if is_space c then skip_spaces s else c ∷ s

-- The sign is part of what is read: whether it is a minus.
unfoldable pub take_sign : Text → Bool × Text
take_sign [] = (false, [])
take_sign (c ∷ s) =
    if c == b'-' then (true, s) else if c == b'+' then (false, s) else (false, c ∷ s)

-- The number of the digits at the front.
unfoldable pub scan : ℕ → Text → ℕ
scan acc [] = acc
scan acc (c ∷ s) = let rest = scan (acc * 10 + (c - b'0')) s in if is_digit c then rest else acc

unfoldable pub starts_with_digit : Text → Bool
starts_with_digit [] = false
starts_with_digit (c ∷ s) = is_digit c

-- The bounds are for the number without and with a minus; the result is a bit pattern of 64 bits.
unfoldable pub read_signed : ℕ → ℕ → Bool × Text → Parsed
read_signed high low (minus, s) =
    if starts_with_digit s
    then (if ltb (if minus then low else high) (scan 0 s)
        then out_of_range
        else number (if minus then (2 ^ 64 - scan 0 s) % 2 ^ 64 else scan 0 s))
    else invalid_argument

-- `std::stoul`: a minus negates the number, which is unsigned.
unfoldable pub stoul : Text → Parsed
unfolding skip_spaces take_sign read_signed
stoul s = read_signed (2 ^ 64 - 1) (2 ^ 64 - 1) (take_sign (skip_spaces s))

-- `std::stol`, for a `long` of 64 bits.
unfoldable pub stol : Text → Parsed
unfolding skip_spaces take_sign read_signed
stol s = read_signed (2 ^ 63 - 1) (2 ^ 63) (take_sign (skip_spaces s))

abbrev pub IsDigit : ℕ → Type 0
IsDigit c = is_digit c ≡ true

abbrev pub IsNumeral : Text → Type 0
IsNumeral s = All IsDigit s × (starts_with_digit s ≡ true)

scan-concat :
    (s : Text) (acc d : ℕ)
    → All IsDigit s
    → IsDigit d
    → scan acc (s ++ d ∷ []) ≡ scan acc s * 10 + (d - b'0')
unfolding scan
scan-concat [] acc d h k = ground arith
scan-concat (c ∷ s) acc d h k = ground (arith, scan-concat s (acc * 10 + (c - b'0')) d h.1 k)

All-concat : (s : Text) (d : ℕ) → All IsDigit s → IsDigit d → All IsDigit (s ++ d ∷ [])
All-concat [] d h k = (k, tt)
All-concat (c ∷ s) d h k = (h.0, All-concat s d h.1 k)

starts-concat :
    (s : Text) (d : ℕ) → starts_with_digit s ≡ true → starts_with_digit (s ++ d ∷ []) ≡ true
unfolding starts_with_digit
starts-concat [] d h = cc
starts-concat (c ∷ s) d h = h

decimal-IsDigit : (n : ℕ) → n < 10 → IsDigit (n + b'0')
unfolding is_digit
decimal-IsDigit n h = ground arith

-- The digits of a number spell it.
print_lem : (fuel n : ℕ) → n < fuel → IsNumeral (print fuel n) × (scan 0 (print fuel n) ≡ n)
unfolding print scan starts_with_digit
print_lem zero n h = absurd (omega arith)
print_lem (suc fuel) n h = elim (Bool-cases (ltb n 10)) [
  | inl small ↦
      let below : n < 10 = ground arith in
      let d = decimal-IsDigit n below in rw small (((d, tt), d), ground (arith, d))
  | inr large ↦
      let below : n / 10 < fuel = ground arith in
      let (shape, value) = print_lem fuel (n / 10) below in
      let d = decimal-IsDigit (n % 10) (omega arith) in
      rw large (
        (All-concat _ _ shape.0 d, starts-concat _ _ shape.1),
        (let e = scan-concat (print fuel (n / 10)) 0 (n % 10 + b'0') shape.0 d in omega arith),
      )
]

pub to_decimal_lem : (n : ℕ) → IsNumeral (to_decimal n) × (scan 0 (to_decimal n) ≡ n)
unfolding to_decimal
to_decimal_lem n = print_lem (suc n) n (omega arith)

-- A numeral has neither spaces nor a sign.
numeral_plain : (s : Text) → starts_with_digit s ≡ true → take_sign (skip_spaces s) ≡ (false, s)
unfolding starts_with_digit take_sign skip_spaces is_digit is_space
numeral_plain [] h = cc
numeral_plain (c ∷ s) h = ground arith

-- What follows the digits is not read.
scan-append :
    (s : Text) (acc c : ℕ) (rest : Text)
    → All IsDigit s
    → is_digit c ≡ false
    → scan acc (s ++ (c ∷ rest)) ≡ scan acc s
unfolding scan
scan-append [] acc c rest h k = ground (arith, k)
scan-append (d ∷ s) acc c rest h k =
    ground (arith, scan-append s (acc * 10 + (d - b'0')) c rest h.1 k)

starts-append : (s t : Text) → starts_with_digit s ≡ true → starts_with_digit (s ++ t) ≡ true
unfolding starts_with_digit
starts-append [] t h = cc
starts-append (c ∷ s) t h = h

-- A text that begins with a number is read as that number, whatever follows.
pub stoul-to_decimal-append :
    (n c : ℕ) (rest : Text)
    → n < 2 ^ 64
    → is_digit c ≡ false
    → stoul (to_decimal n ++ (c ∷ rest)) ≡ number n
unfolding stoul
stoul-to_decimal-append n c rest h k =
    let (shape, value) = to_decimal_lem n in
    let begins = starts-append (to_decimal n) (c ∷ rest) shape.1 in
    rw (numeral_plain (to_decimal n ++ (c ∷ rest)) begins, begins)
      (ground (arith, value, scan-append (to_decimal n) 0 c rest shape.0 k))

pub stoul-to_decimal : (n : ℕ) → n < 2 ^ 64 → stoul (to_decimal n) ≡ number n
unfolding stoul
stoul-to_decimal n h =
    let (shape, value) = to_decimal_lem n in
    rw (numeral_plain (to_decimal n) shape.1, shape.1) (ground (arith, value))

pub stol-to_decimal : (n : ℕ) → n < 2 ^ 63 → stol (to_decimal n) ≡ number n
unfolding stol
stol-to_decimal n h =
    let (shape, value) = to_decimal_lem n in
    rw (numeral_plain (to_decimal n) shape.1, shape.1) (ground (arith, value))

-- The numeral of a number is not empty.
pub to_decimal_cons : (n : ℕ) → (c : ℕ) × (s : Text) × (to_decimal n ≡ c ∷ s)
to_decimal_cons n = go (to_decimal n) (to_decimal_lem n).0.1
  where
    go : (t : Text) → starts_with_digit t ≡ true → (c : ℕ) × (s : Text) × (t ≡ c ∷ s)
    go [] h = absurd (unfold starts_with_digit in cc)
    go (c ∷ s) h = (c, s, refl)
