-- ===== src/Catalogue/Filling/Regular.antt =====
-- Every register that comes into the catalogue is of a known type, however the catalogue is filled.
use device_access_opc_ua_bac.Prelude.{
  ℕ, true, ◌≡◌, refl, Text, List, [], ◌∷◌, Option, none, some, All, Option-cases, inl, inr,
  if_cases, length, ◌==◌, text_eq,
}
use device_access_opc_ua_bac.System.{NodeId}
use device_access_opc_ua_bac.Xml.{Result, ok, throws, undefined, XmlElement, Document}
use device_access_opc_ua_bac.MapFile.{MapElement, read_map_file}
use device_access_opc_ua_bac.MapFile.Legacy.{lines, read_lines}
use device_access_opc_ua_bac.Catalogue.{
  RegisterInfo, DataDescriptor, Property, describe, entry_of, add_property, is_numeric_id,
  namespace_of,
}
use device_access_opc_ua_bac.Catalogue.Entry.{
  NodeAttributes, EntryResult, entry, skipped, out_of_range, null_dimensions, take_property,
  property_of, add_catalogue_entry,
}
use device_access_opc_ua_bac.Catalogue.Browse.{Reference}
use device_access_opc_ua_bac.Catalogue.Filling.{
  Filling, filled, stopped, broken, endless, ◌>>=◌, after_entry, logged, add_node, add_elements,
  add_lines, add_browsed, read_xml, read_legacy, or_legacy, some_registers, get_nodes_from_mapfile,
  relabelled, browsed, fill_catalogue, wanted,
}

-- The descriptor is that of the type, and what is kept of the node fits it.
abbrev pub IsRegular : RegisterInfo → Type 0
IsRegular r =
    (describe r.data_type ≡ some r.data_descriptor)
    × (r.is_numeric ≡ is_numeric_id r.id)
    × (r.namespace_index ≡ namespace_of r.id)
    × (r.waits_for_new_data ≡ true)

-- A library's catalogue has the registers that were in it, and perhaps the new one.
abbrev pub AddsOnly : (List RegisterInfo → RegisterInfo → List RegisterInfo) → Type 1
AddsOnly add =
    (P : RegisterInfo → Type 0) (c : List RegisterInfo) (r : RegisterInfo)
    → All P c
    → P r
    → All P (add c r)

-- What holds of the catalogue that is left.
abbrev pub Leaves : (List RegisterInfo → Type 0) → Filling → Type 0
Leaves P (filled c) = P c
Leaves P (stopped e c) = P c
Leaves P broken = Unit {0}
Leaves P endless = Unit {0}

Leaves-bind :
    (P : List RegisterInfo → Type 0) (m : Filling) (f : List RegisterInfo → Filling)
    → Leaves P m
    → ((c : List RegisterInfo) → P c → Leaves P (f c))
    → Leaves P (m >>= f)
Leaves-bind P (filled c) f h k = k c h
Leaves-bind P (stopped e c) f h k = h
Leaves-bind P broken f h k = tt
Leaves-bind P endless f h k = tt

Leaves-logged : (P : List RegisterInfo → Type 0) (m : Filling) → Leaves P m → Leaves P (logged m)
unfolding logged
Leaves-logged P (filled c) h = h
Leaves-logged P (stopped e c) h = h
Leaves-logged P broken h = tt
Leaves-logged P endless h = tt

abbrev pub AllRegular : List RegisterInfo → Type 0
AllRegular = All IsRegular

entry_of-IsRegular :
    (p : Property) (d : DataDescriptor) → describe p.data_type ≡ some d → IsRegular (entry_of p d)
unfolding entry_of
entry_of-IsRegular p d e = (e, refl, refl, refl)

module _ (parse_range : Text → List (ℕ × ℕ))
    (add_register : List RegisterInfo → RegisterInfo → List RegisterInfo)
    (adds_only : AddsOnly add_register) where
  add_property-AllRegular :
      (p : Property) (c : List RegisterInfo)
      → AllRegular c
      → AllRegular (add_property add_register p c)
  unfolding add_property
  add_property-AllRegular p c h = elim (Option-cases (describe p.data_type)) [
    | inl e ↦ rw (e, add_property) h
    | inr (d, e) ↦
        rw (e, add_property) (adds_only IsRegular c (entry_of p d) h (entry_of-IsRegular p d e))
  ]

  take_property-Leaves :
      (c : List RegisterInfo) (r : EntryResult Property)
      → AllRegular c
      → Leaves AllRegular (after_entry c (take_property parse_range add_register c r))
  unfolding after_entry take_property
  take_property-Leaves c (entry p) h = add_property-AllRegular p c h
  take_property-Leaves c skipped h = h
  take_property-Leaves c out_of_range h = h
  take_property-Leaves c null_dimensions h = tt

  module _ (server root : Text) (attributes : NodeId → NodeAttributes) where
    abbrev Fills : (List RegisterInfo → Filling) → Type 0
    Fills f = (c : List RegisterInfo) → AllRegular c → Leaves AllRegular (f c)

    add_node-Fills :
        (node : NodeId) (name : Option Text) (range : Text)
        → Fills (add_node parse_range add_register server root attributes node name range)
    unfolding add_node add_catalogue_entry
    add_node-Fills node name range c h =
        take_property-Leaves c
          (property_of parse_range server root node name range (attributes node)) h

    add_elements-Fills :
        (es : List MapElement)
        → Fills (add_elements parse_range add_register server root attributes es)
    unfolding add_elements
    add_elements-Fills [] c h = h
    add_elements-Fills (e ∷ es) c h =
        Leaves-bind AllRegular _ _ (add_node-Fills (wanted e).0 (wanted e).1 (wanted e).2 c h)
          (add_elements-Fills es)

    add_lines-Fills :
        (ns : List (NodeId × Option Text))
        → Fills (add_lines parse_range add_register server root attributes ns)
    unfolding add_lines
    add_lines-Fills [] c h = h
    add_lines-Fills ((node, name) ∷ ns) c h =
        Leaves-bind AllRegular _ _ (Leaves-logged AllRegular _ (add_node-Fills node name [] c h))
          (add_lines-Fills ns)

    add_browsed-Fills :
        (ns : List NodeId) → Fills (add_browsed parse_range add_register server root attributes ns)
    unfolding add_browsed
    add_browsed-Fills [] c h = h
    add_browsed-Fills (node ∷ ns) c h =
        Leaves-bind AllRegular _ _ (add_node-Fills node none [] c h) (add_browsed-Fills ns)

    read_xml-Fills :
        (r : Result (List MapElement))
        → Fills (read_xml parse_range add_register server root attributes r)
    unfolding read_xml
    read_xml-Fills (ok []) c h = h
    read_xml-Fills (ok (e ∷ es)) c h = add_elements-Fills (e ∷ es) c h
    read_xml-Fills (throws x) c h = h
    read_xml-Fills undefined c h = tt

    read_legacy-Fills :
        (text : Option Text)
        → Fills (read_legacy parse_range add_register server root attributes text)
    unfolding read_legacy
    read_legacy-Fills none c h = h
    read_legacy-Fills (some text) c h = add_lines-Fills (read_lines root (lines text)) c h

    or_legacy-Leaves :
        (text : Option Text) (m : Filling)
        → Leaves AllRegular m
        → Leaves AllRegular (or_legacy parse_range add_register server root attributes text m)
    unfolding or_legacy
    or_legacy-Leaves text (filled c) h = h
    or_legacy-Leaves text (stopped e c) h = read_legacy-Fills text c h
    or_legacy-Leaves text broken h = tt
    or_legacy-Leaves text endless h = tt

    some_registers-Fills : Fills some_registers
    unfolding some_registers
    some_registers-Fills c h = if_cases (Leaves AllRegular) (length c == 0) _ _ (λ _. h) (λ _. h)

    get_nodes_from_mapfile-Fills :
        (xml : Option (Document XmlElement)) (text : Option Text)
        → Fills (get_nodes_from_mapfile parse_range add_register server root attributes xml text)
    unfolding get_nodes_from_mapfile
    get_nodes_from_mapfile-Fills xml text c h =
        Leaves-bind AllRegular _ _
          (or_legacy-Leaves text _ (read_xml-Fills (read_map_file root xml) c h))
          some_registers-Fills

    relabelled-Leaves : (m : Filling) → Leaves AllRegular m → Leaves AllRegular (relabelled m)
    unfolding relabelled
    relabelled-Leaves (filled c) h = h
    relabelled-Leaves (stopped e c) h = h
    relabelled-Leaves broken h = tt
    relabelled-Leaves endless h = tt

    browsed-Fills :
        (o : Option (List NodeId))
        → Fills (browsed parse_range add_register server root attributes o)
    unfolding browsed
    browsed-Fills none c h = tt
    browsed-Fills (some ns) c h = add_browsed-Fills ns c h

    -- However `fillCatalogue` goes, by browsing the server or from either style of the map file, and
    -- also where it ends by an exception: each register that is then in the catalogue has the
    -- descriptor of its data type, and the namespace and the kind of its node, if those that were
    -- there before do. Asked is that `addRegister` of the library adds no other register.
    pub fill_catalogue-AllRegular :
        (references : NodeId → List Reference) (fuel : ℕ) (objects_folder : NodeId) (root_ns : ℕ)
        (mapfile : Text) (xml : Option (Document XmlElement)) (text : Option Text)
        (c : List RegisterInfo)
        → AllRegular c
        → Leaves AllRegular (
            fill_catalogue parse_range add_register server root attributes references fuel
              objects_folder root_ns mapfile xml text c)
    unfolding fill_catalogue
    fill_catalogue-AllRegular references fuel objects_folder root_ns mapfile xml text c h =
        if_cases (Leaves AllRegular) (text_eq mapfile []) _ _
          (λ _.
            if_cases (Leaves AllRegular) (text_eq root []) _ _ (λ _. browsed-Fills _ c h)
              (λ _. relabelled-Leaves _ (browsed-Fills _ c h)))
          (λ _. get_nodes_from_mapfile-Fills xml text c h)
