-- ===== src/Tests/Connections.antt =====
-- The set-up of a connection and the conversion of values, at concrete options, types and values.
use device_access_opc_ua_bac.Prelude.{
  ℕ, Bool, true, false, not, ◌==◌, ◌≡◌, refl, Text, codes, List, [], ◌∷◌, Option, none, some, arith,
  text_eq, if◌then◌else◌,
}
use device_access_opc_ua_bac.Prelude.Integer.{ℤ, pos, negsuc, ◌≤ℤ◌, leb_ℤ}
use device_access_opc_ua_bac.Xml.{Result, ok}
use device_access_opc_ua_bac.Parameters.{Options, parameter, options}
use device_access_opc_ua_bac.Connection.{
  OpenFile, ClientConfig, accept_all, configure, is_encrypted, token_of, trust_of, load_file,
  loaded, login_of,
}
use device_access_opc_ua_bac.Connection.Credentials.{presented, configure-presented}
use device_access_opc_ua_bac.Transfer.Convert.{
  Limits, Cast, fits, positive_overflow, negative_overflow, UaValue, number, ua_number, ctk_number,
  converted, to_number, to_opc_ua, to_ctk,
}
use device_access_opc_ua_bac.Transfer.Convert.Ranges.{
  IsIn, IsRangeChecked, same_number, to_number-IsIn, to_ctk-to_opc_ua,
}

abbrev hundred : Text → Result ℕ
hundred t = ok 100

-- Every file has one byte, and no directory can be opened.
abbrev one_byte : Text → Option OpenFile
one_byte path = some (record { told = 1; is_allocated = true; bytes = 7 ∷ [] })

abbrev no_directory : Text → Option (List Text)
no_directory path = none

abbrev with_key : List (Text × Text)
with_key =
    (codes "port", codes "4840")
    ∷ (codes "certificate", codes "c.der")
    ∷ (codes "privateKey", codes "k.der")
    ∷ []

abbrev with_key_options : Options ℕ
with_key_options = options (codes "localhost") with_key 500 (none, []) 5000

abbrev trusting : Options ℕ
trusting = record with_key_options {
  username = codes "me";
  password = codes "secret";
  trust_any = true;
}

abbrev trusting_config : ClientConfig
trusting_config = record {
  encryption = some (record { certificate = 7 ∷ []; private_key = 7 ∷ []; trust = accept_all });
  token = some (codes "me", codes "secret");
  timeout = 5000;
}

configure-presented_example :
    presented trusting_config (login_of trusting) ≡ some (codes "me", codes "secret")
unfolding configure is_encrypted token_of trust_of load_file loaded text_eq parameter
configure-presented_example =
    configure-presented one_byte no_directory trusting trusting_config refl

-- The range check as it is documented.
abbrev range_check : Limits → ℤ → Cast
range_check l z =
    if leb_ℤ z l.max
    then (if leb_ℤ l.min z then fits z else negative_overflow)
    else positive_overflow

range_check-IsRangeChecked : IsRangeChecked range_check
range_check-IsRangeChecked = record {
  inside = λ l z h. ground arith;
  above = λ l z h k. rw k refl;
  below = λ l z h k. ground arith;
}

abbrev int8 : Limits
int8 = record { min = negsuc 127; max = pos 127 }

abbrev uint16 : Limits
uint16 = record { min = pos 0; max = pos 65535 }

to_number-IsIn_example :
    IsIn int8 (to_number range_check int8 (pos 100))
    × (to_number range_check int8 (pos 100) ≤ℤ to_number range_check int8 (pos 4000))
to_number-IsIn_example =
    to_number-IsIn range_check range_check-IsRangeChecked int8 (pos 100) (pos 4000) (omega arith)
      (omega arith)

abbrev nonzero : ℤ → Bool
nonzero (pos n) = not (n == 0)
nonzero (negsuc n) = true

to_ctk-to_opc_ua_example :
    (w : UaValue) × (to_opc_ua range_check nonzero (ua_number int8) (number (pos 100))
      ≡ converted w)
    × (to_ctk range_check nonzero (ctk_number uint16) w ≡ converted (number (pos 100)))
to_ctk-to_opc_ua_example =
    to_ctk-to_opc_ua range_check nonzero range_check-IsRangeChecked
      (λ b. elim b as (λ b. nonzero (if b then pos 1 else pos 0) ≡ b) [
        | true ↦ refl
        | false ↦ refl
      ])
      (same_number int8 uint16 (pos 100) (omega arith, omega arith) (omega arith, omega arith))
