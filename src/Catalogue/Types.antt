-- ===== src/Catalogue/Types.antt =====
-- Which data types of OPC UA the backend knows: src/RegisterInfo.cc and the `switch` of
-- `getRegisterAccessor_impl` in src/OPC-UA-Backend.cc.
use device_access_opc_ua_bac.Prelude.{
  ℕ, Bool, true, false, ◌&&◌, leb, ◌≡◌, Option, none, some, ◌==◌, if◌then◌else◌, arith,
}
use device_access_opc_ua_bac.Catalogue.{describe}

pub data UaType : Type 0 where
  ua_boolean ua_sbyte ua_byte ua_int16 ua_uint16 ua_int32 ua_uint32 ua_int64 ua_uint64 : UaType
  ua_float ua_double ua_string : UaType

-- The type of the accessor; `none` is "Type … not implemented."
unfoldable pub accessor_type : ℕ → Option UaType
accessor_type t =
    if t == 1
    then some ua_boolean
    else if t == 2
    then some ua_sbyte
    else if t == 3
    then some ua_byte
    else if t == 4
    then some ua_int16
    else if t == 5
    then some ua_uint16
    else if t == 6
    then some ua_int32
    else if t == 7
    then some ua_uint32
    else if t == 8
    then some ua_int64
    else if t == 9
    then some ua_uint64
    else if t == 10
    then some ua_float
    else if t == 11
    then some ua_double
    else if t == 12
    then some ua_string
    else none

abbrev pub is_some {ℓ} : {A : Type ℓ} → Option A → Bool
is_some none = false
is_some (some a) = true

abbrev pub is_known : ℕ → Bool
is_known t = leb 1 t && leb t 12

describe_known : (t : ℕ) → is_some (describe t) ≡ is_known t
unfolding describe
describe_known t = ground arith

accessor_type_known : (t : ℕ) → is_some (accessor_type t) ≡ is_known t
unfolding accessor_type
accessor_type_known t = ground arith

-- The catalogue takes exactly the data types from 1 to 12, and these are the ones for which
-- accessors exist: a register of the catalogue never ends in "not implemented".
pub known_types :
    (t : ℕ) → (is_some (describe t) ≡ is_known t) × (is_some (accessor_type t) ≡ is_known t)
known_types t = (describe_known t, accessor_type_known t)
