-- ===== src/Transfer/Convert/Ranges.antt =====
-- What the converters of include/OPC-UA-BackendRegisterAccessor.h keep: ranges, the order, and the values
-- that both types have.
use device_access_opc_ua_bac.Prelude.{
  Bool, false, ◌≡◌, ◌≢◌, refl, Text, codes, [], ◌∷◌, arith, Bool-cases, inl, inr, All,
  if◌then◌else◌,
}
use device_access_opc_ua_bac.Prelude.Integer.{ℤ, pos, ◌≤ℤ◌, leb_ℤ}
use device_access_opc_ua_bac.Transfer.Convert.{
  Limits, UaType, ua_number, ua_string, UaValue, CtkType, ctk_number, ctk_string, ctk_boolean,
  ctk_void, CtkValue, number, text, boolean, void, converted, Cast, fits, positive_overflow,
  negative_overflow, saturated, c_string, to_number, to_opc_ua, to_ctk,
}

abbrev pub IsIn : Limits → ℤ → Type 0
IsIn l z = (l.min ≤ℤ z) × (z ≤ℤ l.max)

-- What is documented of `boost::numeric::converter`: a number of the range is itself, and one above or
-- below it is an overflow.
pub record IsRangeChecked (cast : Limits → ℤ → Cast) : Type 0 where
  pub inside : (l : Limits) (z : ℤ) → IsIn l z → cast l z ≡ fits z
  pub above :
      (l : Limits) (z : ℤ) → l.min ≤ℤ l.max → leb_ℤ z l.max ≡ false → cast l z ≡ positive_overflow
  pub below :
      (l : Limits) (z : ℤ) → l.min ≤ℤ l.max → leb_ℤ l.min z ≡ false → cast l z ≡ negative_overflow

module _ (cast : Limits → ℤ → Cast) (checked : IsRangeChecked cast) where
  -- The nearest number of the range.
  abbrev clamped : Limits → ℤ → ℤ
  clamped l z = if leb_ℤ z l.max then (if leb_ℤ l.min z then z else l.min) else l.max

  to_number-clamped : (l : Limits) (z : ℤ) → l.min ≤ℤ l.max → to_number cast l z ≡ clamped l z
  unfolding to_number saturated
  to_number-clamped l z h = elim (Bool-cases (leb_ℤ z l.max)) [
    | inl low ↦ elim (Bool-cases (leb_ℤ l.min z)) [
      | inl high ↦ rw (checked.inside l z (ground arith, ground arith), low, high) refl
      | inr less ↦ rw (checked.below l z h less, low, less) refl
    ]
    | inr more ↦ rw (checked.above l z h more, more) refl
  ]

  -- Whatever whole number is converted to a type of whole numbers with a range, the result is one of this
  -- range, and a number that is not smaller has a result that is not smaller. Asked is what the library
  -- documents of its converter: it keeps the numbers of the range and reports the others as too small
  -- or too large.
  pub to_number-IsIn :
      (l : Limits) (a b : ℤ)
      → l.min ≤ℤ l.max
      → a ≤ℤ b
      → IsIn l (to_number cast l a) × (to_number cast l a ≤ℤ to_number cast l b)
  to_number-IsIn l a b h k = rw (to_number-clamped l a h, to_number-clamped l b h) (ground arith)

  -- A number of the range stays what it is.
  pub to_number_inside : (l : Limits) (z : ℤ) → IsIn l z → to_number cast l z ≡ z
  unfolding to_number saturated
  to_number_inside l z h = rw (checked.inside l z h) refl

c_string_whole : (t : Text) → All (λ c. c ≢ 0) t → c_string t ≡ t
unfolding c_string
c_string_whole [] h = refl
c_string_whole (c ∷ t) h = ground (arith, c_string_whole t h.1)

-- Both the type of the server and that of the user have the value; a text has no zero in it.
pub data IsShared : UaType → CtkType → CtkValue → Type 0 where
  same_number :
      (l m : Limits) (z : ℤ)
      → IsIn l z
      → IsIn m z
      → IsShared (ua_number l) (ctk_number m) (number z)
  same_text : (t : Text) → All (λ c. c ≢ 0) t → IsShared ua_string ctk_string (text t)
  same_boolean : (l : Limits) (b : Bool) → IsShared (ua_number l) ctk_boolean (boolean b)
  no_number : (l : Limits) → IsShared (ua_number l) ctk_void void
  no_text : IsShared ua_string ctk_void void

-- A value that both types have is read back as it was written: a number of both ranges, a text without
-- a zero, a Boolean in a number, and Void in any type.
pub to_ctk-to_opc_ua :
    {u : UaType} {c : CtkType} {v : CtkValue} (cast : Limits → ℤ → Cast) (to_boolean : ℤ → Bool)
    → IsRangeChecked cast
    → ((b : Bool) → to_boolean (if b then pos 1 else pos 0) ≡ b)
    → IsShared u c v
    → (w : UaValue) × (to_opc_ua cast to_boolean u v ≡ converted w)
      × (to_ctk cast to_boolean c w ≡ converted v)
unfolding to_opc_ua to_ctk
to_ctk-to_opc_ua cast to_boolean checked truth (same_number l m z h k) = (
  number z,
  rw (to_number_inside cast checked l z h) refl,
  rw (to_number_inside cast checked m z k) refl,
)
to_ctk-to_opc_ua cast to_boolean checked truth (same_text t h) =
    (text t, rw (c_string_whole t h) refl, refl)
to_ctk-to_opc_ua cast to_boolean checked truth (same_boolean l b) =
    (number (if b then pos 1 else pos 0), refl, rw (truth b) refl)
to_ctk-to_opc_ua cast to_boolean checked truth (no_number l) = (number (pos 0), refl, refl)
to_ctk-to_opc_ua cast to_boolean checked truth no_text = (text (codes "void"), refl, refl)
