-- ===== src/Tests/Files.antt =====
-- Map files and the cache file, at concrete documents.
use device_access_opc_ua_bac.Prelude.{
  ◌≡◌, refl, Text, codes, List, [], ◌∷◌, ◌++◌, map, Bool, true, none, some, arith,
}
use device_access_opc_ua_bac.Prelude.Number
use device_access_opc_ua_bac.Prelude.Number.{stoul}
use device_access_opc_ua_bac.System.{numeric}
use device_access_opc_ua_bac.Xml.{
  Result, ok, undefined, XmlNode, element, other_node, Branch, Document, elements,
}
use device_access_opc_ua_bac.MapFile.Legacy.{lines, read_lines, is_separator, is_skipped}
use device_access_opc_ua_bac.MapFile.RoundTrip.{
  Line, id_number, id_text, print_file, entry_at, read_lines-print_file,
}
use device_access_opc_ua_bac.Catalogue.{RegisterInfo, numeric_type, describe}
use device_access_opc_ua_bac.Cache.{
  catalogue_document, register_fields, register_branch, general_fields,
}
use device_access_opc_ua_bac.Cache.Tags.{stored}
use device_access_opc_ua_bac.Cache.RoundTrip.{
  add_all, renamed, read_catalogue-saved, read_catalogue_empty,
}
use device_access_opc_ua_bac.Cache.Reading.{read_catalogue}

abbrev two_lines : List Line
two_lines =
    record { new_name = some (codes "speed"); id = id_number 42; namespace_id = 1 }
    ∷ record { new_name = none; id = id_text (codes "pump"); namespace_id = 2 }
    ∷ []

read_lines-print_file_example :
    read_lines (codes "plc/") (lines (print_file two_lines))
    ≡ map (entry_at (codes "plc/")) two_lines
unfolding stoul Number.starts_with_digit Number.is_space Number.is_digit is_separator is_skipped
read_lines-print_file_example = read_lines-print_file (codes "plc/") two_lines (
  (
    (((refl, refl), ((refl, refl), ((refl, refl), ((refl, refl), ((refl, refl), tt))))), refl),
    omega arith,
    omega arith,
  ),
  (
    (
      tt,
      ((((refl, refl), ((refl, refl), ((refl, refl), ((refl, refl), tt)))), refl), refl),
      omega arith,
    ),
    tt,
  ),
)

-- Paths begin with a slash, a catalogue takes every register, and access modes are read as they come.
abbrev pub slashed : Text → Text
slashed name = b'/' ∷ name

abbrev pub modes : Bool → Text
modes b = codes "wait_for_new_data"

abbrev pub known_modes : Text → Result (Unit {0})
known_modes t = ok tt

abbrev pub appended : List RegisterInfo → RegisterInfo → List RegisterInfo
appended c r = c ++ (r ∷ [])

abbrev pub speed : RegisterInfo
speed = record {
  server_address = codes "opc.tcp://plc:4840";
  node_browse_name = codes "speed";
  description = [];
  data_type = 6;
  data_descriptor = record {
    fundamental = numeric_type;
    is_integral = true;
    is_signed = true;
    digits = 10;
    fractional_digits = 300;
  };
  is_readonly = true;
  is_numeric = true;
  namespace_index = 2;
  array_length = 3;
  waits_for_new_data = true;
  id = numeric 2 42;
  index_range = codes "1:3";
}

-- A document as it is read of the file, with white space between the tags.
abbrev pub spaced : Branch → XmlNode Branch
spaced b =
    element
      (record b { children = other_node ∷ map (λ e. element (stored e)) (elements b.children) })

abbrev pub written : Document Branch → Document Branch
written d = record d { children = other_node ∷ map spaced (elements d.children) }

read_catalogue-saved_example :
    read_catalogue known_modes appended
      (some (written (catalogue_document slashed modes (speed ∷ []))))
    ≡ ok (add_all appended [] (map (renamed slashed) (speed ∷ [])))
unfolding catalogue_document elements describe general_fields register_branch register_fields
read_catalogue-saved_example =
    read_catalogue-saved slashed modes known_modes appended (λ b. refl) (codes "opc.tcp://plc:4840")
      speed [] (written (catalogue_document slashed modes (speed ∷ []))) (λ e. cc)
      (((refl, refl, refl, refl), omega arith, omega arith, (λ e. cc), omega arith), tt) (refl, tt)
      (refl, ((refl, refl), ((refl, refl), tt)))

read_catalogue_empty_example :
    read_catalogue known_modes appended (some (written (catalogue_document slashed modes [])))
    ≡ undefined
unfolding catalogue_document elements general_fields
read_catalogue_empty_example =
    read_catalogue_empty slashed modes known_modes appended
      (written (catalogue_document slashed modes [])) (refl, ((refl, refl), tt))
