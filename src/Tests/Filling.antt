-- ===== src/Tests/Filling.antt =====
-- The catalogue filled from the nodes of a server, and its use.
use device_access_opc_ua_bac.Prelude.{
  ℕ, ◌≢◌, refl, Text, codes, List, [], ◌∷◌, ◌++◌, some, none, true, false, All,
}
use device_access_opc_ua_bac.System.{NodeId, numeric, string}
use device_access_opc_ua_bac.Catalogue.{RegisterInfo, numeric_type, describe}
use device_access_opc_ua_bac.Catalogue.Entry.{NodeAttributes, array}
use device_access_opc_ua_bac.Catalogue.Browse.{Reference, variable}
use device_access_opc_ua_bac.Catalogue.Accessor.{refused, not_implemented, get_register_accessor}
use device_access_opc_ua_bac.Catalogue.Filling.{fill_catalogue}
use device_access_opc_ua_bac.Catalogue.Filling.Regular.{
  AllRegular, Leaves, fill_catalogue-AllRegular,
}
use device_access_opc_ua_bac.Catalogue.Filling.Access.{get_register_accessor_implemented}

abbrev no_ranges : Text → List (ℕ × ℕ)
no_ranges t = []

abbrev appended : List RegisterInfo → RegisterInfo → List RegisterInfo
appended c r = c ++ (r ∷ [])

appended_adds :
    (P : RegisterInfo → Type 0) (c : List RegisterInfo) (r : RegisterInfo)
    → All P c
    → P r
    → All P (appended c r)
appended_adds P [] r h p = (p, tt)
appended_adds P (x ∷ c) r h p = (h.0, appended_adds P c r h.1 p)

-- Every node holds four numbers of 32 bits that may be written.
abbrev numbers : NodeId → NodeAttributes
numbers node = record {
  data_type = some 6;
  description = none;
  value = some (array 4);
  access_level = some 3;
}

-- The objects folder has one variable.
abbrev folder : NodeId → List Reference
folder (numeric ns id) = record { target = string 1 (codes "speed"); node_class = variable } ∷ []
folder (string ns name) = []

fill_catalogue-AllRegular_example : Leaves AllRegular (
    fill_catalogue no_ranges appended
      (codes "opc.tcp://plc")
      []
      numbers
      folder
      3
      (numeric 0 85)
      0
      []
      none
      none
      [])
fill_catalogue-AllRegular_example =
    fill_catalogue-AllRegular no_ranges appended appended_adds (codes "opc.tcp://plc") [] numbers
      folder 3 (numeric 0 85) 0 [] none none [] tt

abbrev speed : RegisterInfo
speed = record {
  server_address = codes "opc.tcp://plc";
  node_browse_name = codes "speed";
  description = [];
  data_type = 6;
  data_descriptor = record {
    fundamental = numeric_type;
    is_integral = true;
    is_signed = true;
    digits = 10;
    fractional_digits = 300;
  };
  is_readonly = true;
  is_numeric = false;
  namespace_index = 1;
  array_length = 4;
  waits_for_new_data = true;
  id = string 1 (codes "speed");
  index_range = [];
}

get_register_accessor_implemented_example :
    get_register_accessor (λ t. t) false 1000 (speed ∷ []) (codes "speed") 2 1
    ≢ refused not_implemented
unfolding describe
get_register_accessor_implemented_example =
    get_register_accessor_implemented (λ t. t) false 1000 (speed ∷ []) (codes "speed") 2 1
      ((refl, refl, refl, refl), tt)
