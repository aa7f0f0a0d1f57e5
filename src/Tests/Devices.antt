-- ===== src/Tests/Devices.antt =====
-- The parameters of a device, at concrete descriptors.
use device_access_opc_ua_bac.Prelude.{
  ℕ, ◌≡◌, refl, Text, codes, List, [], ◌∷◌, ◌++◌, some, arith, text_eq,
}
use device_access_opc_ua_bac.Prelude.Decimal.{to_decimal}
use device_access_opc_ua_bac.Xml.{Result, ok}
use device_access_opc_ua_bac.Parameters.{
  parameter, read_interval, read_timeout, options, create_instance,
}
use device_access_opc_ua_bac.Parameters.Root.{create_instance-root}

-- Every interval is read as 100.
abbrev hundred : Text → Result ℕ
hundred t = ok 100

abbrev browsing : List (Text × Text)
browsing =
    (codes "port", codes "4840") ∷ (codes "rootNode", to_decimal 2 ++ (b':' ∷ codes "plc/a:b")) ∷ []

create_instance-root_example :
    create_instance hundred 500 (codes "localhost") browsing
    ≡ ok (options (codes "localhost") browsing 500 (some 2, codes "plc/a:b") 5000)
unfolding parameter text_eq read_interval read_timeout
create_instance-root_example =
    create_instance-root hundred 500 (codes "localhost") browsing 500 5000 2 (codes "plc/a:b")
      (refl, refl, refl) (omega arith) refl refl

abbrev plain : List (Text × Text)
plain = (codes "port", codes "4840") ∷ []
