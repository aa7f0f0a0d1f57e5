-- ===== src/MapFile/Legacy.antt =====
-- The lines of a map file in the old style: `getNodesFromMapfile` of src/OPC-UA-Backend.cc.
use device_access_opc_ua_bac.Prelude.{
  ℕ, Bool, true, ◌||◌, Text, List, [], ◌∷◌, ◌++◌, Option, none, some, ◌==◌, if◌then◌else◌,
}
use device_access_opc_ua_bac.Prelude.Number.{stoul}
use device_access_opc_ua_bac.System.{NodeId, numeric, string}
use device_access_opc_ua_bac.MapFile.{NodeText, numeric_text, string_text, bad_text, read_ids}

-- `std::getline`, until it fails: the characters after the last line feed are a line if there are any.
unfoldable pub add_char : ℕ → List Text → List Text
add_char c [] = (c ∷ []) ∷ []
add_char c (l ∷ ls) = (c ∷ l) ∷ ls

unfoldable pub lines : Text → List Text
unfolding add_char
lines [] = []
lines (c ∷ s) = if c == b'\n' then [] ∷ lines s else add_char c (lines s)

unfoldable pub is_separator : ℕ → Bool
is_separator c = c == b'\t' || c == b' '

-- A token goes on, or a separator ends it: the first of the list is the one in progress.
unfoldable pub split : Text → List Text
unfolding add_char is_separator
split [] = [] ∷ []
split (c ∷ s) = if is_separator c then [] ∷ split s else add_char c (split s)

-- `drop_empty_tokens`
unfoldable pub drop_empty : List Text → List Text
drop_empty [] = []
drop_empty ([] ∷ ts) = drop_empty ts
drop_empty ((c ∷ t) ∷ ts) = (c ∷ t) ∷ drop_empty ts

unfoldable pub tokens : Text → List Text
unfolding split drop_empty
tokens s = drop_empty (split s)

-- An empty line, a comment, or a line of XML.
unfoldable pub is_skipped : Text → Bool
is_skipped [] = true
is_skipped (c ∷ s) = c == b'#' || c == b'<'

-- What is handed to `addCatalogueEntry`: the node and its new name, if it has one.
unfoldable pub node_of : Text → Text → Option Text → NodeText → List (NodeId × Option Text)
node_of root id name (numeric_text n ns) = (numeric ns n, name) ∷ []
node_of root id name (string_text ns) = (string ns (root ++ id), name) ∷ []
node_of root id name bad_text = []

unfoldable pub read_tokens : Text → List Text → List (NodeId × Option Text)
unfolding node_of read_ids
read_tokens root (id ∷ ns ∷ []) = node_of root id none (read_ids (stoul id) (stoul ns))
read_tokens root (name ∷ id ∷ ns ∷ []) =
    node_of root id (some name) (read_ids (stoul id) (stoul ns))
read_tokens root _ = []

unfoldable pub read_line : Text → Text → List (NodeId × Option Text)
unfolding is_skipped tokens read_tokens
read_line root line = if is_skipped line then [] else read_tokens root (tokens line)

unfoldable pub read_lines : Text → List Text → List (NodeId × Option Text)
unfolding read_line
read_lines root [] = []
read_lines root (l ∷ ls) = read_line root l ++ read_lines root ls
