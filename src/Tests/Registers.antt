-- ===== src/Tests/Registers.antt =====
-- The catalogue, the walk over the nodes and the versions, at concrete inputs.
use device_access_opc_ua_bac.Prelude.{
  ℕ, zero, suc, true, false, ◌≡◌, ◌≤◌, ◌^◌, ◌+◌, ◌-◌, ◌<◌, subst, ap, ap, refl, Text, codes, List,
  [], ◌∷◌, ◌++◌, none, some, arith, text_eq, inl, inr,
}
use device_access_opc_ua_bac.Prelude.Map.{lookup}
use device_access_opc_ua_bac.System.{NodeId, numeric, string}
use device_access_opc_ua_bac.Catalogue.{RegisterInfo, numeric_type, describe}
use device_access_opc_ua_bac.Catalogue.Types.{
  ua_int32, accessor_type, is_some, is_known, known_types,
}
use device_access_opc_ua_bac.Catalogue.Accessor.{
  Accessor, accessor, find_register, get_register_accessor, get_register_accessor-InRange,
  get_register_accessor-Served, get_register_accessor_wraps,
}
use device_access_opc_ua_bac.Catalogue.Browse.{Reference, object, variable, browse_recursive}
use device_access_opc_ua_bac.Catalogue.Browse.Search.{
  browse_recursive_total, browse_recursive_endless, IsRanked,
}
use device_access_opc_ua_bac.Catalogue.Entry.{derived_name, local_root_name, rfind, has_prefix}
use device_access_opc_ua_bac.Catalogue.Entry.Names.{derived_name-slash}
use device_access_opc_ua_bac.Versions.{VersionMapper, get_version, after_calls, signed_order}
use device_access_opc_ua_bac.Versions.Agreement.{
  IsBounded, after_calls-IsBounded, after_calls-get_version,
}

abbrev same_path : Text → Text
same_path s = s

-- A register of ten numbers.
abbrev table : RegisterInfo
table = record {
  server_address = codes "opc.tcp://plc";
  node_browse_name = codes "table";
  description = [];
  data_type = 6;
  data_descriptor = record {
    fundamental = numeric_type;
    is_integral = true;
    is_signed = true;
    digits = 10;
    fractional_digits = 300;
  };
  is_readonly = false;
  is_numeric = false;
  namespace_index = 1;
  array_length = 10;
  waits_for_new_data = true;
  id = string 1 (codes "table");
  index_range = [];
}

abbrev part : Accessor
part = record { info = table; type = ua_int32; number_of_words = 4; offset_words = 6 }

get_register_accessor-InRange_example :
    (find_register same_path (codes "table") (table ∷ []) ≡ some table)
    × (same_path (codes "table") ≡ codes "table")
    × (part.offset_words ≡ 6)
    × (6 + 4 ≤ 10)
    × (accessor_type 6 ≡ some ua_int32)
unfolding get_register_accessor text_eq accessor_type
get_register_accessor-InRange_example =
    get_register_accessor-InRange same_path false 1000 (table ∷ []) (codes "table") 4 6 part
      (omega arith) refl

get_register_accessor-Served_example :
    get_register_accessor same_path false 1000 (table ∷ []) (codes "table") 4 6 ≡ accessor part
unfolding find_register text_eq accessor_type
get_register_accessor-Served_example =
    get_register_accessor-Served same_path false 1000 (table ∷ []) (codes "table") 4 6 table
      ua_int32 refl refl (omega arith) (omega arith) (λ e. absurd (omega arith)) refl (omega arith)

get_register_accessor_wraps_example :
    (a : Accessor) × (get_register_accessor same_path false 1000
        (table ∷ [])
        (codes "table")
        4
        (2 ^ 64 - 2)
      ≡ accessor a)
    × (a.number_of_words ≡ 4)
    × (a.offset_words ≡ 2 ^ 64 - 2)
unfolding find_register text_eq accessor_type
get_register_accessor_wraps_example =
    get_register_accessor_wraps same_path false 1000 (table ∷ []) (codes "table") 4 (2 ^ 64 - 2)
      table ua_int32 refl refl (omega arith) (omega arith) (omega arith) (omega arith) refl
      (omega arith)

known_types_example : (is_some (describe 6) ≡ is_known 6) × (is_some (accessor_type 6) ≡ is_known 6)
known_types_example = known_types 6

-- A folder with a variable and an object that has another variable.
abbrev tree : NodeId → List Reference
tree (numeric ns (suc zero)) =
    record { target = string 1 (codes "a"); node_class = variable }
    ∷ record { target = numeric 1 2; node_class = object }
    ∷ []
tree (numeric ns (suc (suc zero))) =
    record { target = string 1 (codes "b"); node_class = variable } ∷ []
tree _ = []

abbrev height : NodeId → ℕ
height (numeric ns (suc zero)) = 1
height _ = 0

tree-IsRanked : IsRanked tree height
tree-IsRanked (string ns name) r h e = absurd h
tree-IsRanked (numeric ns zero) r h e = absurd h
tree-IsRanked (numeric ns (suc zero)) r (inl p) e = subst (λ q. height q.target < 1) p (omega arith)
tree-IsRanked (numeric ns (suc zero)) r (inr (inl p)) e =
    subst (λ q. height q.target < 1) p (omega arith)
tree-IsRanked (numeric ns (suc (suc zero))) r (inl p) e =
    let c : variable ≡ r.node_class = ap (λ q. q.node_class) p in cc (c, e)
tree-IsRanked (numeric ns (suc zero)) r (inr (inr h)) e = absurd h
tree-IsRanked (numeric ns (suc (suc zero))) r (inr h) e = absurd h
tree-IsRanked (numeric ns (suc (suc (suc n)))) r h e = absurd h

browse_recursive_total_example :
    (nodes : List NodeId) × (browse_recursive tree 2 (numeric 0 1) ≡ some nodes)
browse_recursive_total_example =
    browse_recursive_total tree height 2 (numeric 0 1) tree-IsRanked (omega arith)

-- An object that every node refers to, itself too.
abbrev ring : NodeId → List Reference
ring _ = record { target = numeric 1 1; node_class = object } ∷ []

browse_recursive_endless_example : browse_recursive ring 100 (numeric 1 1) ≡ none
browse_recursive_endless_example =
    browse_recursive_endless ring (λ _. Unit {0})
      (λ node _. (record { target = numeric 1 1; node_class = object }, inl refl, refl, tt)) 100
      (numeric 1 1) tt

derived_name-slash_example :
    derived_name (codes "/plc/") (string 2 (codes "/plc/" ++ codes "motor")) ≡ some (codes "otor")
unfolding local_root_name rfind has_prefix
derived_name-slash_example = derived_name-slash (codes "plc/") (codes "motor") 2 refl

-- Versions that are numbered as they are made.
abbrev numbered : ℕ → ℕ → ℕ
numbered n t = n

abbrev two_versions : VersionMapper ℕ
two_versions = record { made = 2; versions = (2 ^ 63 + 5, 0) ∷ (2 ^ 63 + 9, 1) ∷ [] }

after_calls-IsBounded_example :
    IsBounded 3 numbered (after_calls 3 numbered (7 ∷ 5 ∷ 8 ∷ []) two_versions)
after_calls-IsBounded_example =
    after_calls-IsBounded 3 numbered (7 ∷ 5 ∷ 8 ∷ []) two_versions
      ((omega arith, (omega arith, tt)), omega arith)

after_calls-get_version_example :
    (get_version 3 numbered 5 (after_calls 3 numbered (7 ∷ 5 ∷ 8 ∷ []) two_versions)).0 ≡ some 0
unfolding lookup signed_order
after_calls-get_version_example =
    after_calls-get_version 3 numbered (7 ∷ 5 ∷ 8 ∷ []) 5 0 two_versions (omega arith) refl
