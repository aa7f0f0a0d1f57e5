-- ===== src/Catalogue/Entry.antt =====
-- `OpcUABackend::addCatalogueEntry` of src/OPC-UA-Backend.cc.
pub mod Names
use device_access_opc_ua_bac.Prelude.{
  ℕ, zero, suc, Bool, true, false, not, ◌&&◌, ◌||◌, ◌≡◌, ◌+◌, ◌-◌, ◌%◌, ◌^◌, ◌/◌, refl, Text, codes,
  List, [], ◌∷◌, ◌++◌, Option, none, some, ltb, leb, ◌==◌, if◌then◌else◌, text_eq, length, take,
  drop, arith,
}
use device_access_opc_ua_bac.Prelude.Decimal.{to_decimal}
use device_access_opc_ua_bac.System.{NodeId, numeric, string}
use device_access_opc_ua_bac.Catalogue.{RegisterInfo, Property, add_property}

-- What the reads of the attributes of a node give; `none` is a bad status.
pub data Shape : Type 0 where
  scalar : Shape
  array : ℕ → Shape

pub record NodeAttributes : Type 0 where
  pub data_type : Option ℕ
  pub description : Option Text
  pub value : Option Shape
  pub access_level : Option ℕ

pub data EntryResult {ℓ} (A : Type ℓ) : Type ℓ where
  entry : A → EntryResult A
  -- The node is logged and left out.
  skipped : EntryResult A
  -- `at(0)` on an empty name throws `std::out_of_range`.
  out_of_range : EntryResult A
  -- A range that does not parse has no dimensions to read.
  null_dimensions : EntryResult A

unfoldable pub has_prefix : Text → Text → Bool
has_prefix [] s = true
has_prefix (_ ∷ _) [] = false
has_prefix (p ∷ ps) (c ∷ s) = p == c && has_prefix ps s

-- The last position at which the text occurs.
unfoldable pub rfind : Text → Text → Option ℕ
unfolding has_prefix
rfind p [] = if has_prefix p [] then some 0 else none
rfind p (c ∷ s) = elim (rfind p s) [
  | some i ↦ some (suc i)
  | none ↦ if has_prefix p (c ∷ s) then some 0 else none
]

abbrev pub dir : Text
dir = codes "Dir"

-- `Dir` is cut off where it ends the name of the root.
unfoldable pub local_root_name : Text → Text
unfolding rfind
local_root_name root = elim (rfind dir root) [
  | none ↦ root
  | some i ↦ if i + 3 == length root then take i root else root
]

unfoldable pub raw_name : NodeId → Text
raw_name (string ns name) = name
raw_name (numeric ns id) = codes "numeric/" ++ to_decimal id

abbrev pub slash : ℕ
slash = b'/'

unfoldable pub without_slash : Text → Option Text
without_slash [] = none
without_slash (c ∷ s) = some (if c == slash then s else c ∷ s)

unfoldable pub derived_name : Text → NodeId → Option Text
unfolding local_root_name raw_name without_slash
derived_name root node = elim (without_slash (raw_name node)) [
  | none ↦ none
  | some s ↦ some (drop (length (local_root_name root)) s)
]

-- The name in the catalogue: the one from the map file, or one made from the node and the root.
unfoldable pub local_node_name : Text → NodeId → Option Text → Option Text
unfolding derived_name
local_node_name root node (some name) = some name
local_node_name root node none = derived_name root node

-- The modulus of `UA_UInt32`.
abbrev pub u32_mod : ℕ
u32_mod = 2 ^ 32

-- `UA_ACCESSLEVELMASK_WRITE` is the second bit.
unfoldable pub is_writeable : ℕ → Bool
is_writeable level = level / 2 % 2 == 1

unfoldable pub range_length : List (ℕ × ℕ) → EntryResult ℕ
range_length [] = null_dimensions
range_length ((low, high) ∷ []) = entry ((high + u32_mod - low + 1) % u32_mod)
range_length (_ ∷ _ ∷ _) = skipped

module _ (parse_range : Text → List (ℕ × ℕ)) where
  unfoldable pub array_size : Text → Shape → EntryResult ℕ
  unfolding range_length
  array_size range scalar = entry 1
  array_size range (array zero) = skipped
  array_size range (array (suc n)) =
      if text_eq range [] then entry (suc n) else range_length (parse_range range)

  infixl 5 ◌>>=◌
  abbrev ◌>>=◌ {ℓ κ} :
      {A : Type ℓ} {B : Type κ} → EntryResult A → (A → EntryResult B) → EntryResult B
  entry a >>= f = f a
  skipped >>= f = skipped
  out_of_range >>= f = out_of_range
  null_dimensions >>= f = null_dimensions

  abbrev read_attribute {ℓ} : {A : Type ℓ} → Option A → EntryResult A
  read_attribute none = skipped
  read_attribute (some a) = entry a

  abbrev name_or_throw : Option Text → EntryResult Text
  name_or_throw none = out_of_range
  name_or_throw (some s) = entry s

  abbrev known_type : ℕ → EntryResult ℕ
  known_type t = if ltb 12 t || ltb t 1 then skipped else entry t

  abbrev or_empty : Option Text → Text
  or_empty none = []
  or_empty (some s) = s

  -- What `addCatalogueEntry` hands to `addProperty`.
  unfoldable pub property_of :
      Text → Text → NodeId → Option Text → Text → NodeAttributes → EntryResult Property
  unfolding local_node_name array_size is_writeable
  property_of server root node name range attributes = do
    local ← name_or_throw (local_node_name root node name)
    type ← read_attribute attributes.data_type
    known ← known_type type
    shape ← read_attribute attributes.value
    size ← array_size range shape
    level ← read_attribute attributes.access_level
    entry (record {
      node = node;
      browse_name = local;
      range = range;
      data_type = known;
      array_length = size;
      server_address = server;
      description = or_empty attributes.description;
      is_readonly = not (is_writeable level);
    })

  -- A node that is left out leaves the catalogue as it is.
  unfoldable pub take_property :
      (List RegisterInfo → RegisterInfo → List RegisterInfo)
      → List RegisterInfo
      → EntryResult Property
      → EntryResult (List RegisterInfo)
  unfolding add_property
  take_property add_register c (entry p) = entry (add_property add_register p c)
  take_property add_register c skipped = entry c
  take_property add_register c out_of_range = out_of_range
  take_property add_register c null_dimensions = null_dimensions

  unfoldable pub add_catalogue_entry :
      (List RegisterInfo → RegisterInfo → List RegisterInfo)
      → Text
      → Text
      → NodeId
      → Option Text
      → Text
      → NodeAttributes
      → List RegisterInfo
      → EntryResult (List RegisterInfo)
  unfolding property_of take_property
  add_catalogue_entry add_register server root node name range attributes c =
      take_property add_register c (property_of server root node name range attributes)
