-- ===== src/Catalogue.antt =====
-- The register catalogue: `OpcUaBackendRegisterCatalogue::addProperty` (src/RegisterInfo.cc,
-- include/RegisterInfo.h). The catalogue itself is a class of a library: it is read as the list of
-- its registers, and its `addRegister` is a parameter. The path and the unit of a register, which the
-- backend only hands to that class, are left out.
pub mod Types
pub mod Entry
pub mod Browse
pub mod Filling
pub mod Accessor
use device_access_opc_ua_bac.Prelude.{
  ℕ, Bool, true, false, Text, List, Option, none, some, ◌==◌, if◌then◌else◌,
}
use device_access_opc_ua_bac.System.{NodeId, numeric, string}

pub data FundamentalType : Type 0 where
  boolean_type numeric_type string_type : FundamentalType

pub record DataDescriptor : Type 0 where
  pub fundamental : FundamentalType
  pub is_integral : Bool
  pub is_signed : Bool
  pub digits : ℕ
  pub fractional_digits : ℕ

pub record RegisterInfo : Type 0 where
  pub server_address : Text
  pub node_browse_name : Text
  pub description : Text
  pub data_type : ℕ
  pub data_descriptor : DataDescriptor
  pub is_readonly : Bool
  pub is_numeric : Bool
  pub namespace_index : ℕ
  pub array_length : ℕ
  pub waits_for_new_data : Bool
  pub id : NodeId
  pub index_range : Text

abbrev pub namespace_of : NodeId → ℕ
namespace_of (numeric ns id) = ns
namespace_of (string ns name) = ns

abbrev pub is_numeric_id : NodeId → Bool
is_numeric_id (numeric ns id) = true
is_numeric_id (string ns name) = false

abbrev descriptor : FundamentalType → Bool → Bool → ℕ → Option DataDescriptor
descriptor t integral signed n = some (record {
  fundamental = t;
  is_integral = integral;
  is_signed = signed;
  digits = n;
  fractional_digits = 300;
})

-- The larger of log10 of the largest float (38.5…) and -log10 of the smallest one (44.8…), and 4
-- more, cut to a whole number.
abbrev pub float_max_digits : ℕ
float_max_digits = 48

-- The `switch` of `addProperty`: the descriptor of a data type, or the early return.
unfoldable pub describe : ℕ → Option DataDescriptor
describe t =
    if t == 1
    then descriptor boolean_type true true 320
    else if t == 2
    then descriptor numeric_type true true 4
    else if t == 3
    then descriptor numeric_type true false 3
    else if t == 4
    then descriptor numeric_type true true 5
    else if t == 5
    then descriptor numeric_type true false 6
    else if t == 6
    then descriptor numeric_type true true 10
    else if t == 7
    then descriptor numeric_type true false 11
    else if t == 8
    then descriptor numeric_type true true 320
    else if t == 9
    then descriptor numeric_type true false 320
    else if t == 10
    then descriptor numeric_type false true float_max_digits
    else if t == 11
    then descriptor numeric_type false true 300
    else if t == 12
    then descriptor string_type true true 320
    else none

-- The arguments of `addProperty`.
pub record Property : Type 0 where
  pub node : NodeId
  pub browse_name : Text
  pub range : Text
  pub data_type : ℕ
  pub array_length : ℕ
  pub server_address : Text
  pub description : Text
  pub is_readonly : Bool

unfoldable pub entry_of : Property → DataDescriptor → RegisterInfo
entry_of p d = record {
  server_address = p.server_address;
  node_browse_name = p.browse_name;
  description = p.description;
  data_type = p.data_type;
  data_descriptor = d;
  is_readonly = p.is_readonly;
  is_numeric = is_numeric_id p.node;
  namespace_index = namespace_of p.node;
  array_length = p.array_length;
  waits_for_new_data = true;
  id = p.node;
  index_range = p.range;
}

unfoldable pub add_property :
    (List RegisterInfo → RegisterInfo → List RegisterInfo)
    → Property
    → List RegisterInfo
    → List RegisterInfo
unfolding describe entry_of
add_property add_register p c = elim (describe p.data_type) [
  | none ↦ c
  | some d ↦ add_register c (entry_of p d)
]
