-- ===== src/Cache/Reading.antt =====
-- How the cache file is read: `readCatalogue` and `parseRegister` of src/CatalogueCache.cc, from
-- the document that the parser makes of the file.
use device_access_opc_ua_bac.Prelude.{
  ℕ, Bool, true, false, not, ◌%◌, ◌^◌, Text, codes, List, [], ◌∷◌, Option, none, some, ◌==◌,
  if◌then◌else◌, text_eq,
}
use device_access_opc_ua_bac.Prelude.Number
use device_access_opc_ua_bac.Prelude.Number.{Parsed, stoul}
use device_access_opc_ua_bac.System.{NodeId, numeric, string}
use device_access_opc_ua_bac.Xml.{
  invalid_argument_error, out_of_range_error, Result, ok, throws, undefined, ◌>>=◌, XmlElement,
  Branch, Document, content, create_dom_parser, get_root_node, parse_length, parse_type_id,
  elements,
}
use device_access_opc_ua_bac.Catalogue.{RegisterInfo, Property, add_property}

-- The local variables of `parseRegister`; `none` is one that is not set yet.
pub record Fields : Type 0 where
  pub node_id : Text
  pub name : Text
  pub description : Text
  pub index_range : Text
  pub is_readonly : Option Bool
  pub is_numeric : Option Bool
  pub type_id : Option ℕ
  pub namespace_id : Option ℕ
  pub length : ℕ

abbrev pub no_fields : Fields
no_fields = record {
  node_id = [];
  name = [];
  description = [];
  index_range = [];
  is_readonly = none;
  is_numeric = none;
  type_id = none;
  namespace_id = none;
  length = 0;
}

-- `if(e->has_child_text()) x = e->get_child_text()->get_content()`
unfoldable pub text_or : Text → Option Text → Text
text_or old none = old
text_or old (some t) = t

unfoldable pub need {ℓ} : {A : Type ℓ} → Option A → Result A
need none = undefined
need (some a) = ok a

-- `std::stoul` outside every handler.
unfoldable pub need_number : Parsed → Result ℕ
need_number (Number.number n) = ok n
need_number Number.invalid_argument = throws invalid_argument_error
need_number Number.out_of_range = throws out_of_range_error

unfoldable pub node_id_of : Bool → ℕ → Text → Result NodeId
unfolding need_number
node_id_of true ns s = do n ← need_number (stoul s); ok (numeric ns (n % 2 ^ 32))
node_id_of false ns s = ok (string ns s)

unfoldable pub property_of_fields : Text → Fields → Result Property
unfolding need node_id_of
property_of_fields server f = do
  numeric? ← need f.is_numeric
  ns ← need f.namespace_id
  type ← need f.type_id
  readonly ← need f.is_readonly
  node ← node_id_of numeric? ns f.node_id
  ok (record {
    node = node;
    browse_name = f.name;
    range = f.index_range;
    data_type = type;
    array_length = f.length;
    server_address = server;
    description = f.description;
    is_readonly = readonly;
  })

unfoldable pub server_fields : Text → List XmlElement → Result Text
unfolding content
server_fields server [] = ok server
server_fields server (e ∷ es) =
    let rest : Text → Result Text = λ s. server_fields s es in
    if text_eq e.tag (codes "serverAddress") then (do t ← content e; rest t) else rest server

unfoldable pub server_of : Text → List Branch → Result Text
unfolding server_fields elements
server_of server [] = ok server
server_of server (b ∷ bs) =
    let rest : Text → Result Text = λ s. server_of s bs in
    if text_eq b.tag (codes "general")
    then (do s ← server_fields server (elements b.children); rest s)
    else rest server

module _ (deserialize : Text → Result (Unit {0})) where
  -- One child of a register.
  unfoldable pub read_field : Fields → XmlElement → Result Fields
  unfolding content parse_length parse_type_id text_or
  read_field f e =
      if text_eq e.tag (codes "name")
      then (do t ← content e; ok (record f { name = t }))
      else if text_eq e.tag (codes "nodeId")
      then (do t ← content e; ok (record f { node_id = t }))
      else if text_eq e.tag (codes "length")
      then (do n ← parse_length e; ok (record f { length = n }))
      else if text_eq e.tag (codes "access_mode")
      then (do _ ← deserialize (text_or [] e.child_text); ok f)
      else if text_eq e.tag (codes "description")
      then ok (record f { description = text_or f.description e.child_text })
      else if text_eq e.tag (codes "readOnly")
      then (do n ← parse_type_id e; ok (record f { is_readonly = some (not (n == 0)) }))
      else if text_eq e.tag (codes "typeId")
      then (do n ← parse_type_id e; ok (record f { type_id = some n }))
      else if text_eq e.tag (codes "nameSpace")
      then (do n ← parse_type_id e; ok (record f { namespace_id = some (n % 2 ^ 16) }))
      else if text_eq e.tag (codes "isNumeric")
      then (do n ← parse_type_id e; ok (record f { is_numeric = some (not (n == 0)) }))
      else if text_eq e.tag (codes "indexRange")
      then ok (record f { index_range = text_or f.index_range e.child_text })
      else ok f

  unfoldable pub read_fields : Fields → List XmlElement → Result Fields
  unfolding read_field
  read_fields f [] = ok f
  read_fields f (e ∷ es) = do g ← read_field f e; read_fields g es

  -- `parseRegister` up to `addProperty`.
  unfoldable pub parse_register : Text → Branch → Result Property
  unfolding read_fields property_of_fields elements
  parse_register server b = do
    f ← read_fields no_fields (elements b.children)
    property_of_fields server f

  module _ (add_register : List RegisterInfo → RegisterInfo → List RegisterInfo) where
    unfoldable pub parse_registers :
        Text → List Branch → List RegisterInfo → Result (List RegisterInfo)
    unfolding parse_register add_property
    parse_registers server [] c = ok c
    parse_registers server (b ∷ bs) c =
        let rest : List RegisterInfo → Result (List RegisterInfo) = parse_registers server bs in
        if text_eq b.tag (codes "general")
        then rest c
        else (do p ← parse_register server b; rest (add_property add_register p c))

    -- `readCatalogue`: first the address of the server, then the registers.
    unfoldable pub read_catalogue : Option (Document Branch) → Result (List RegisterInfo)
    unfolding create_dom_parser get_root_node server_of parse_registers
    read_catalogue file = do
      d ← create_dom_parser file
      children ← get_root_node d (codes "catalogue")
      server ← server_of [] (elements children)
      parse_registers server (elements children) []
