-- ===== src/Cache/Stored.antt =====
-- One register of the cache file (src/CatalogueCache.cc): what is read of the tags that are written.
use device_access_opc_ua_bac.Prelude.{
  ℕ, ◌<◌, ◌≡◌, ◌≢◌, refl, Bool, ◌%◌, ◌^◌, Text, [], map, some, arith, ap,
}
use device_access_opc_ua_bac.Prelude.Number.{stoul-to_decimal, to_decimal_cons}
use device_access_opc_ua_bac.System.{NodeId, numeric, string}
use device_access_opc_ua_bac.Xml.{Result, ok}
use device_access_opc_ua_bac.Catalogue.{
  RegisterInfo, DataDescriptor, Property, describe, is_numeric_id, namespace_of,
}
use device_access_opc_ua_bac.Catalogue.Filling.Regular.{IsRegular}
use device_access_opc_ua_bac.Cache.{id_text, register_fields}
use device_access_opc_ua_bac.Cache.Reading.{
  Fields, no_fields, text_or, need_number, node_id_of, read_fields, property_of_fields,
}
use device_access_opc_ua_bac.Cache.Tags.{
  nonempty, stored, read_node_id, read_name, read_description, read_index_range, read_length,
  read_type_id, read_namespace, read_readonly, read_numeric, read_access_mode, read_next, read_end,
}

abbrev pub IsSavableId : NodeId → Type 0
IsSavableId (numeric ns id) = id < 2 ^ 32
IsSavableId (string ns name) = name ≢ []

-- What a register has to be for the file to hold all of it: the numbers fit their types, and the
-- name and the id are not empty.
abbrev pub IsSavable : (Text → Text) → RegisterInfo → Type 0
IsSavable register_path r =
    IsRegular r
    × (r.array_length < 2 ^ 32)
    × (r.namespace_index < 2 ^ 16)
    × (register_path r.node_browse_name ≢ [])
    × IsSavableId r.id

abbrev pub saved_fields : (Text → Text) → RegisterInfo → Fields
saved_fields register_path r = record {
  node_id = id_text r.id;
  name = register_path r.node_browse_name;
  description = r.description;
  index_range = r.index_range;
  is_readonly = some r.is_readonly;
  is_numeric = some r.is_numeric;
  type_id = some r.data_type;
  namespace_id = some r.namespace_index;
  length = r.array_length;
}

-- The register as it comes back: named by its path.
abbrev pub saved_property : (Text → Text) → RegisterInfo → Property
saved_property register_path r = record {
  node = r.id;
  browse_name = register_path r.node_browse_name;
  range = r.index_range;
  data_type = r.data_type;
  array_length = r.array_length;
  server_address = r.server_address;
  description = r.description;
  is_readonly = r.is_readonly;
}

node_back :
    (i : NodeId) → IsSavableId i → node_id_of (is_numeric_id i) (namespace_of i) (id_text i) ≡ ok i
unfolding node_id_of id_text need_number
node_back (numeric ns id) h =
    rw (stoul-to_decimal id (omega arith))
      (let e : id % 2 ^ 32 ≡ id = omega arith in ap (λ m. ok (numeric ns m)) e)
node_back (string ns name) h = refl

id_text_nonempty : (i : NodeId) → IsSavableId i → id_text i ≢ []
unfolding id_text
id_text_nonempty (numeric ns id) h = let (c, s, e) = to_decimal_cons id in λ z. cc
id_text_nonempty (string ns name) h = h

describe_small : (t : ℕ) (d : DataDescriptor) → describe t ≡ some d → t < 2 ^ 32
unfolding describe
describe_small t d h = ground arith

module _ (register_path : Text → Text) (serialize : Bool → Text)
    (deserialize : Text → Result (Unit {0}))
    (modes_back : (b : Bool) → deserialize (text_or [] (nonempty (serialize b))) ≡ ok tt) where
  pub read_saved_fields :
      (r : RegisterInfo)
      → IsSavable register_path r
      → read_fields deserialize no_fields (map stored (register_fields register_path serialize r))
        ≡ ok (saved_fields register_path r)
  unfolding register_fields
  read_saved_fields r ((d, _, _, _), n, ns, name, i) =
      let len : r.array_length % 2 ^ 32 ≡ r.array_length = omega arith in
      let t = describe_small r.data_type r.data_descriptor d in
      rw (len) (
        read_next deserialize _ _ _
          (read_node_id deserialize _ (id_text r.id) (id_text_nonempty r.id i))
          (read_next deserialize _ _ _
            (read_name deserialize _ (register_path r.node_browse_name) name)
            (read_next deserialize _ _ _ (read_description deserialize _ r.description refl) (
              read_next deserialize _ _ _ (read_length deserialize _ r.array_length n) (
                read_next deserialize _ _ _
                  (read_access_mode deserialize _ (serialize r.waits_for_new_data) (modes_back _))
                  (read_next deserialize _ _ _ (read_readonly deserialize _ r.is_readonly) (
                    read_next deserialize _ _ _ (read_type_id deserialize _ r.data_type t) (
                      read_next deserialize _ _ _
                        (read_namespace deserialize _ r.namespace_index ns)
                        (read_next deserialize _ _ _ (read_numeric deserialize _ r.is_numeric) (
                          read_next deserialize _ _ _
                            (read_index_range deserialize _ r.index_range refl)
                            (read_end deserialize _)))))))))))

  pub property_back :
      (r : RegisterInfo)
      → IsSavable register_path r
      → property_of_fields r.server_address (saved_fields register_path r)
        ≡ ok (saved_property register_path r)
  unfolding property_of_fields
  property_back r ((d, numeric?, ns, w), _, _, _, i) =
      rw (numeric?) (rw (ns) (rw (node_back r.id i) refl))
