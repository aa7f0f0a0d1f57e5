-- ===== src/Catalogue/Filling.antt =====
-- `getNodesFromMapfile` and `fillCatalogue` of src/OPC-UA-Backend.cc: the catalogue is filled from the
-- map file or from the nodes of the server. What the server answers to the reads of a node's
-- attributes is a function of the node.
pub mod Regular
pub mod Access
use device_access_opc_ua_bac.Prelude.{
  ℕ, zero, suc, Bool, true, false, ◌%◌, ◌^◌, Text, codes, List, [], ◌∷◌, ◌++◌, Option, none, some,
  ◌==◌, if◌then◌else◌, length, text_eq,
}
use device_access_opc_ua_bac.System.{NodeId, string}
use device_access_opc_ua_bac.Xml.{
  Error, logic_error, runtime_error, out_of_range_error, Result, ok, throws, undefined, XmlElement,
  Document,
}
use device_access_opc_ua_bac.MapFile.{MapElement, read_map_file}
use device_access_opc_ua_bac.MapFile.Legacy.{lines, read_lines}
use device_access_opc_ua_bac.Catalogue.{RegisterInfo}
use device_access_opc_ua_bac.Catalogue.Entry.{
  NodeAttributes, EntryResult, entry, skipped, out_of_range, null_dimensions, add_catalogue_entry,
}
use device_access_opc_ua_bac.Catalogue.Browse.{Reference, browse_recursive}

-- The catalogue that is left, also by an exception.
pub data Filling : Type 0 where
  filled : List RegisterInfo → Filling
  stopped : Error → List RegisterInfo → Filling
  -- A null pointer is followed.
  broken : Filling
  -- The walk over the server does not end.
  endless : Filling

infixl 5 ◌>>=◌
abbrev pub ◌>>=◌ : Filling → (List RegisterInfo → Filling) → Filling
filled c >>= f = f c
stopped e c >>= f = stopped e c
broken >>= f = broken
endless >>= f = endless

unfoldable pub after_entry : List RegisterInfo → EntryResult (List RegisterInfo) → Filling
after_entry c (entry d) = filled d
after_entry c skipped = filled c
after_entry c out_of_range = stopped out_of_range_error c
after_entry c null_dimensions = broken

-- A node with its new name, if it has one, and its range.
abbrev pub Wanted : Type 0
Wanted = NodeId × Option Text × Text

-- An empty name of a map element is none.
unfoldable pub wanted : MapElement → Wanted
wanted e = (e.node, (if text_eq e.name [] then none else some e.name), e.range)

-- An exception of `addCatalogueEntry` is caught and logged where a line of the old style is read.
unfoldable pub logged : Filling → Filling
logged (filled c) = filled c
logged (stopped e c) = filled c
logged broken = broken
logged endless = endless

unfoldable pub some_registers : List RegisterInfo → Filling
some_registers c = if length c == 0 then stopped runtime_error c else filled c

-- Below a root every exception becomes that of a root that is not formatted correctly.
unfoldable pub relabelled : Filling → Filling
relabelled (filled c) = filled c
relabelled (stopped e c) = stopped runtime_error c
relabelled broken = broken
relabelled endless = endless

module _ (parse_range : Text → List (ℕ × ℕ))
    (add_register : List RegisterInfo → RegisterInfo → List RegisterInfo) (server root : Text)
    (attributes : NodeId → NodeAttributes) where
  unfoldable pub add_node : NodeId → Option Text → Text → List RegisterInfo → Filling
  unfolding after_entry add_catalogue_entry
  add_node node name range c =
      after_entry c (
        add_catalogue_entry parse_range add_register server root node name range (attributes node)
          c)

  unfoldable pub add_elements : List MapElement → List RegisterInfo → Filling
  unfolding add_node wanted
  add_elements [] c = filled c
  add_elements (e ∷ es) c = add_node (wanted e).0 (wanted e).1 (wanted e).2 c >>= add_elements es

  unfoldable pub add_lines : List (NodeId × Option Text) → List RegisterInfo → Filling
  unfolding add_node logged
  add_lines [] c = filled c
  add_lines ((node, name) ∷ ns) c = logged (add_node node name [] c) >>= add_lines ns

  unfoldable pub add_browsed : List NodeId → List RegisterInfo → Filling
  unfolding add_node
  add_browsed [] c = filled c
  add_browsed (node ∷ ns) c = add_node node none [] c >>= add_browsed ns

  -- The `try` block: the map file in XML.
  unfoldable pub read_xml : Result (List MapElement) → List RegisterInfo → Filling
  unfolding add_elements
  read_xml (ok []) c = stopped runtime_error c
  read_xml (ok (e ∷ es)) c = add_elements (e ∷ es) c
  read_xml (throws x) c = stopped x c
  read_xml undefined c = broken

  -- The lines of the file in the old style; `none` is a file that cannot be opened.
  unfoldable pub read_legacy : Option Text → List RegisterInfo → Filling
  unfolding add_lines
  read_legacy none c = stopped runtime_error c
  read_legacy (some text) c = add_lines (read_lines root (lines text)) c

  -- Every exception of the `try` block leads to the old style, with what the catalogue has by then.
  unfoldable pub or_legacy : Option Text → Filling → Filling
  unfolding read_legacy
  or_legacy text (filled c) = filled c
  or_legacy text (stopped e c) = read_legacy text c
  or_legacy text broken = broken
  or_legacy text endless = endless

  unfoldable pub get_nodes_from_mapfile :
      Option (Document XmlElement) → Option Text → List RegisterInfo → Filling
  unfolding or_legacy read_xml read_map_file some_registers
  get_nodes_from_mapfile xml text c =
      or_legacy text (read_xml (read_map_file root xml) c) >>= some_registers

  unfoldable pub browsed : Option (List NodeId) → List RegisterInfo → Filling
  unfolding add_browsed
  browsed none c = endless
  browsed (some nodes) c = add_browsed nodes c

  -- `fillCatalogue` up to the cache file. The fuel is for the walk over the server; the name of the map
  -- file only matters for whether it is empty, and the file is given as both readers see it.
  unfoldable pub fill_catalogue :
      (NodeId → List Reference)
      → ℕ
      → NodeId
      → ℕ
      → Text
      → Option (Document XmlElement)
      → Option Text
      → List RegisterInfo
      → Filling
  unfolding get_nodes_from_mapfile relabelled browsed browse_recursive
  fill_catalogue references fuel objects_folder root_ns mapfile xml text c =
      if text_eq mapfile []
      then (if text_eq root []
          then browsed (browse_recursive references fuel objects_folder) c
          else relabelled
              (browsed (browse_recursive references fuel (string (root_ns % 2 ^ 16) root)) c))
      else get_nodes_from_mapfile xml text c
