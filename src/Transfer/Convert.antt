-- ===== src/Transfer/Convert.antt =====
-- `RangeCheckingDataConverter` of include/OPC-UA-BackendRegisterAccessor.h, between the types of the
-- server and those of the user, for whole numbers, texts, Boolean and Void. `boost::numeric::converter`
-- and the conversion of a number to `ChimeraTK::Boolean` are parameters; floating point numbers are
-- left out.
pub mod Ranges
use device_access_opc_ua_bac.Prelude.{ℕ, Bool, Text, codes, [], ◌∷◌, suc, ◌==◌, if◌then◌else◌}
use device_access_opc_ua_bac.Prelude.Decimal.{to_decimal}
use device_access_opc_ua_bac.Prelude.Integer.{ℤ, pos, negsuc}

-- `std::numeric_limits` of a type of whole numbers.
pub record Limits : Type 0 where
  pub min : ℤ
  pub max : ℤ

-- The types of the server; its Boolean is a number from 0 to 1.
pub data UaType : Type 0 where
  ua_number : Limits → UaType
  ua_string : UaType

pub data UaValue : Type 0 where
  number : ℤ → UaValue
  text : Text → UaValue

-- The types of the user, with `ChimeraTK::Boolean` and `ChimeraTK::Void`.
pub data CtkType : Type 0 where
  ctk_number : Limits → CtkType
  ctk_string ctk_boolean ctk_void : CtkType

pub data CtkValue : Type 0 where
  number : ℤ → CtkValue
  text : Text → CtkValue
  boolean : Bool → CtkValue
  void : CtkValue

-- What a converter gives: a value, a `std::logic_error`, or a text that is gone when it is used.
pub data Converted (A : Type 0) : Type 0 where
  converted : A → Converted A
  std_logic_error dangling_text : Converted A

-- What `converter::convert` does: a value, or one of its two exceptions.
pub data Cast : Type 0 where
  fits : ℤ → Cast
  positive_overflow negative_overflow : Cast

-- The conversion with its two `catch` clauses.
unfoldable pub saturated : Limits → Cast → ℤ
saturated l (fits z) = z
saturated l positive_overflow = l.max
saturated l negative_overflow = l.min

-- `std::to_string`
unfoldable pub to_string : ℤ → Text
to_string (pos n) = to_decimal n
to_string (negsuc n) = b'-' ∷ to_decimal (suc n)

-- `UA_String_fromChars(x.c_str())`: the text up to the first zero.
unfoldable pub c_string : Text → Text
c_string [] = []
c_string (c ∷ t) = if c == 0 then [] else c ∷ c_string t

unfoldable pub to_number : (Limits → ℤ → Cast) → Limits → ℤ → ℤ
unfolding saturated
to_number cast l z = saturated l (cast l z)

module _ (cast : Limits → ℤ → Cast) (to_boolean : ℤ → Bool) where
  -- `toOpcUA`. `UA_STRING` of a number keeps a pointer into a text that is gone.
  unfoldable pub to_opc_ua : UaType → CtkValue → Converted UaValue
  unfolding to_number c_string
  to_opc_ua (ua_number l) (number z) = converted (number (to_number cast l z))
  to_opc_ua (ua_number l) (text t) = std_logic_error
  to_opc_ua (ua_number l) (boolean b) = converted (number (if b then pos 1 else pos 0))
  to_opc_ua (ua_number l) void = converted (number (pos 0))
  to_opc_ua ua_string (number z) = dangling_text
  to_opc_ua ua_string (text t) = converted (text (c_string t))
  to_opc_ua ua_string (boolean b) = converted (text (if b then codes "true" else codes "false"))
  to_opc_ua ua_string void = converted (text (codes "void"))

  -- `toCTK`
  unfoldable pub to_ctk : CtkType → UaValue → Converted CtkValue
  unfolding to_number to_string
  to_ctk (ctk_number l) (number z) = converted (number (to_number cast l z))
  to_ctk (ctk_number l) (text t) = std_logic_error
  to_ctk ctk_string (number z) = converted (text (to_string z))
  to_ctk ctk_string (text t) = converted (text t)
  to_ctk ctk_boolean (number z) = converted (boolean (to_boolean z))
  to_ctk ctk_boolean (text t) = std_logic_error
  to_ctk ctk_void (number z) = converted void
  to_ctk ctk_void (text t) = converted void
