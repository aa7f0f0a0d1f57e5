-- ===== src/MapFile.antt =====
-- The XML map file: src/MapFile.cc and include/MapFile.h.
pub mod Reading
pub mod Legacy
pub mod Words
pub mod RoundTrip
use device_access_opc_ua_bac.Prelude.{
  ℕ, ◌%◌, ◌^◌, Text, codes, List, [], ◌∷◌, ◌++◌, Option, none, some, if◌then◌else◌, text_eq,
}
use device_access_opc_ua_bac.Prelude.Number
use device_access_opc_ua_bac.Prelude.Number.{Parsed, stoul}
use device_access_opc_ua_bac.System.{NodeId, numeric, string}
use device_access_opc_ua_bac.Xml.{
  Result, ok, throws, undefined, ◌>>=◌, XmlElement, XmlNode, element, other_node, Document,
  attribute, content, create_dom_parser, get_root_node,
}

pub record MapElement : Type 0 where
  pub namespace_index : ℕ
  pub str_node : Text
  pub i_node : ℕ
  pub node : NodeId
  pub range : Text
  pub name : Text

-- The two constructors.
unfoldable pub numeric_element : ℕ → ℕ → Text → Text → MapElement
numeric_element id ns range name = record {
  namespace_index = ns;
  str_node = [];
  i_node = id;
  node = numeric ns id;
  range = range;
  name = name;
}

unfoldable pub string_element : Text → ℕ → Text → Text → MapElement
string_element id ns range name = record {
  namespace_index = ns;
  str_node = id;
  i_node = 0;
  node = string ns id;
  range = range;
  name = name;
}

-- How a node is read from two texts: `none` is a line that is logged and left out. The ids are cut to
-- the 32 and 16 bits of `UA_UInt32` and `UA_UInt16`.
pub data NodeText : Type 0 where
  numeric_text : ℕ → ℕ → NodeText
  string_text : ℕ → NodeText
  bad_text : NodeText

-- The handler of `std::invalid_argument`: the node is a text.
unfoldable pub read_string : Parsed → NodeText
read_string (Number.number ns) = string_text (ns % 2 ^ 16)
read_string Number.invalid_argument = bad_text
read_string Number.out_of_range = bad_text

unfoldable pub read_ids : Parsed → Parsed → NodeText
unfolding read_string
read_ids (Number.number id) (Number.number ns) = numeric_text (id % 2 ^ 32) (ns % 2 ^ 16)
read_ids (Number.number id) Number.out_of_range = bad_text
read_ids (Number.number id) Number.invalid_argument = read_string Number.invalid_argument
read_ids Number.invalid_argument ns = read_string ns
read_ids Number.out_of_range ns = bad_text

unfoldable pub or_empty : Option Text → Text
or_empty none = []
or_empty (some s) = s

unfoldable pub element_of : Text → Text → Text → Text → NodeText → List MapElement
unfolding numeric_element string_element
element_of root node range name (numeric_text id ns) = numeric_element id ns range name ∷ []
element_of root node range name (string_text ns) = string_element (root ++ node) ns range name ∷ []
element_of root node range name bad_text = []

-- One `pv` element: the elements that it adds.
unfoldable pub read_pv : Text → XmlElement → Result (List MapElement)
unfolding content attribute or_empty element_of read_ids
read_pv root e = do
  node ← content e
  ok (
      element_of root node (or_empty (attribute (codes "range") e.attributes))
        (or_empty (attribute (codes "name") e.attributes))
        (read_ids (stoul node) (stoul (or_empty (attribute (codes "ns") e.attributes)))))

unfoldable pub read_node : Text → XmlNode XmlElement → Result (List MapElement)
unfolding read_pv
read_node root other_node = ok []
read_node root (element e) = if text_eq e.tag (codes "pv") then read_pv root e else ok []

unfoldable pub read_elements : Text → List (XmlNode XmlElement) → Result (List MapElement)
unfolding read_node
read_elements root [] = ok []
read_elements root (n ∷ ns) = do xs ← read_node root n; ys ← read_elements root ns; ok (xs ++ ys)

-- The constructor of `OPCUAMapFileReader`; the name of the server's root is prepended to texts.
unfoldable pub read_map_file : Text → Option (Document XmlElement) → Result (List MapElement)
unfolding create_dom_parser get_root_node read_elements
read_map_file root file = do
  d ← create_dom_parser file
  children ← get_root_node d (codes "opcua_map")
  read_elements root children
