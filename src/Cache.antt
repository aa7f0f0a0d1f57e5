-- ===== src/Cache.antt =====
-- The cache file of the catalogue: src/CatalogueCache.cc. The file system and the XML library are
-- not modelled: `catalogue_document` is the document that `saveCatalogue` writes.
pub mod Reading
pub mod Tags
pub mod Stored
pub mod RoundTrip
use device_access_opc_ua_bac.Prelude.{
  ℕ, Bool, true, false, not, ◌%◌, ◌^◌, Text, codes, List, [], ◌∷◌, map, Option, none, some, ◌==◌,
  if◌then◌else◌, text_eq,
}
use device_access_opc_ua_bac.Prelude.Decimal.{to_decimal}
use device_access_opc_ua_bac.Prelude.Number
use device_access_opc_ua_bac.Prelude.Number.{Parsed, stoul}
use device_access_opc_ua_bac.System.{NodeId, numeric, string}
use device_access_opc_ua_bac.Xml.{
  Error, invalid_argument_error, out_of_range_error, runtime_error, Result, ok, throws, undefined,
  ◌>>=◌, XmlElement, XmlNode, element, Branch, Document, content, namespace, create_dom_parser,
  get_root_node, parse_length, parse_type_id, elements,
}
use device_access_opc_ua_bac.Catalogue.{RegisterInfo, Property, add_property}

-- `add_child(tag)->set_child_text(text)`
abbrev pub tagged : Text → Text → XmlElement
tagged t text = record { tag = t; child_text = some text; attributes = [] }

unfoldable pub bit : Bool → ℕ
bit true = 1
bit false = 0

-- The id as a text; `isNumeric` says which of the two it is.
unfoldable pub id_text : NodeId → Text
id_text (numeric ns id) = to_decimal id
id_text (string ns name) = name

-- The address of the first register is that of the server.
unfoldable pub general_fields : List RegisterInfo → List XmlElement
general_fields [] = record { tag = codes "serverAddress"; child_text = none; attributes = [] } ∷ []
general_fields (r ∷ rs) = tagged (codes "serverAddress") r.server_address ∷ []

module _ (register_path : Text → Text) (serialize : Bool → Text) where
  -- The children of the `register` tag, of which `serialize` writes the access modes.
  unfoldable pub register_fields : RegisterInfo → List XmlElement
  unfolding id_text bit
  register_fields r =
      tagged (codes "nodeId") (id_text r.id)
      ∷ tagged (codes "name") (register_path r.node_browse_name)
      ∷ tagged (codes "description") r.description
      ∷ tagged (codes "length") (to_decimal (r.array_length % 2 ^ 32))
      ∷ tagged (codes "access_mode") (serialize r.waits_for_new_data)
      ∷ tagged (codes "readOnly") (to_decimal (bit r.is_readonly))
      ∷ tagged (codes "typeId") (to_decimal r.data_type)
      ∷ tagged (codes "nameSpace") (to_decimal r.namespace_index)
      ∷ tagged (codes "isNumeric") (to_decimal (bit r.is_numeric))
      ∷ tagged (codes "indexRange") r.index_range
      ∷ []

  -- `addRegInfoXmlNode`
  unfoldable pub register_branch : RegisterInfo → Branch
  unfolding register_fields
  register_branch r = record { tag = codes "register"; children = map element (register_fields r) }

  unfoldable pub catalogue_document : List RegisterInfo → Document Branch
  unfolding general_fields register_branch
  catalogue_document c = record {
    root_name = codes "catalogue";
    namespace_uri = namespace;
    children =
        element (record { tag = codes "general"; children = map element (general_fields c) })
        ∷ map (λ r. element (register_branch r)) c;
  }
