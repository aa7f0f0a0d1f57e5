-- ===== src/Cache/RoundTrip.antt =====
-- The whole cache file (src/CatalogueCache.cc): the catalogue that `readCatalogue` makes of a file
-- that `saveCatalogue` wrote.
use device_access_opc_ua_bac.Prelude.{
  ◌≡◌, ◌≢◌, refl, Bool, false, Text, codes, List, [], ◌∷◌, map, subst, some, text_eq, ap, sym, All,
}
use device_access_opc_ua_bac.Xml.{
  Result, ok, undefined, ◌>>=◌, XmlElement, element, Branch, Document, content, create_dom_parser,
  get_root_node, elements,
}
use device_access_opc_ua_bac.Catalogue.{RegisterInfo, add_property, entry_of}
use device_access_opc_ua_bac.Cache.{
  register_fields, register_branch, general_fields, catalogue_document,
}
use device_access_opc_ua_bac.Cache.Reading.{
  text_or, parse_register, parse_registers, server_fields, server_of, read_catalogue,
}
use device_access_opc_ua_bac.Cache.Tags.{nonempty, stored, content_back}
use device_access_opc_ua_bac.Cache.Stored.{
  IsSavable, saved_property, read_saved_fields, property_back,
}

-- A branch as it is read of the file: white space may come between the tags, and an empty text
-- is no child of its tag.
abbrev pub IsReadAs : Branch → Branch → Type 0
IsReadAs b b' = (b'.tag ≡ b.tag) × (elements b'.children ≡ map stored (elements b.children))

abbrev pub AllReadAs : List Branch → List Branch → Type 0
AllReadAs [] [] = Unit {0}
AllReadAs [] (b' ∷ bs') = ⊥
AllReadAs (b ∷ bs) [] = ⊥
AllReadAs (b ∷ bs) (b' ∷ bs') = IsReadAs b b' × AllReadAs bs bs'

-- What the XML library documents of writing a document and parsing the file.
abbrev pub IsFileOf : Document Branch → Document Branch → Type 0
IsFileOf d d' =
    (d'.namespace_uri ≡ d.namespace_uri) × AllReadAs (elements d.children) (elements d'.children)

abbrev pub renamed : (Text → Text) → RegisterInfo → RegisterInfo
renamed register_path r = record r { node_browse_name = register_path r.node_browse_name }

unfoldable pub add_all :
    (List RegisterInfo → RegisterInfo → List RegisterInfo)
    → List RegisterInfo
    → List RegisterInfo
    → List RegisterInfo
add_all add_register c [] = c
add_all add_register c (r ∷ rs) = add_all add_register (add_register c r) rs

elements-map {ℓ} :
    {A : Type ℓ} (f : A → Branch) (xs : List A) → elements (map (λ x. element (f x)) xs) ≡ map f xs
unfolding elements
elements-map f [] = refl
elements-map f (x ∷ xs) = ap (λ ys. f x ∷ ys) (elements-map f xs)

elements-map_tags : (xs : List XmlElement) → elements (map element xs) ≡ xs
unfolding elements
elements-map_tags [] = refl
elements-map_tags (x ∷ xs) = ap (λ ys. x ∷ ys) (elements-map_tags xs)

server_fields_saved :
    (server : Text) (r : RegisterInfo) (rs : List RegisterInfo)
    → r.server_address ≡ server
    → server ≢ []
    → server_fields [] (map stored (general_fields (r ∷ rs))) ≡ ok server
unfolding server_fields general_fields stored text_eq
server_fields_saved server r rs a h =
    rw (a) (rw (content_back (codes "serverAddress") server h) refl)

server_fields_empty : server_fields [] (map stored (general_fields [])) ≡ undefined
unfolding server_fields general_fields stored text_eq content
server_fields_empty = refl

abbrev general_branch : List RegisterInfo → Branch
general_branch c = record { tag = codes "general"; children = map element (general_fields c) }

add_property_saved :
    (register_path : Text → Text)
    (add_register : List RegisterInfo → RegisterInfo → List RegisterInfo) (r : RegisterInfo)
    (c : List RegisterInfo)
    → IsSavable register_path r
    → add_property add_register (saved_property register_path r) c
      ≡ add_register c (renamed register_path r)
unfolding add_property entry_of
add_property_saved register_path add_register r c ((d, numeric?, ns, w), _, _, _, _) =
    rw (d, add_property) (rw (numeric?) (rw (ns) (rw (w) refl)))

module _ (register_path : Text → Text) (serialize : Bool → Text)
    (deserialize : Text → Result (Unit {0}))
    (add_register : List RegisterInfo → RegisterInfo → List RegisterInfo) where
  register_branch_fields :
      (r : RegisterInfo)
      → elements (register_branch register_path serialize r).children
        ≡ register_fields register_path serialize r
  unfolding register_branch
  register_branch_fields r = elements-map_tags (register_fields register_path serialize r)

  register_branch_tag :
      (r : RegisterInfo)
      → text_eq (register_branch register_path serialize r).tag (codes "general") ≡ false
  unfolding register_branch text_eq
  register_branch_tag r = refl

  server_of_registers :
      (server : Text) (rs : List RegisterInfo) (bs' : List Branch)
      → AllReadAs (map (register_branch register_path serialize) rs) bs'
      → server_of server bs' ≡ ok server
  unfolding server_of
  server_of_registers server [] [] k = refl
  server_of_registers server [] (b' ∷ bs') k = elim k [ ]
  server_of_registers server (r ∷ rs) [] k = elim k [ ]
  server_of_registers server (r ∷ rs) (b' ∷ bs') ((tag, children), k) =
      rw (tag) (rw (register_branch_tag r) (server_of_registers server rs bs' k))

  document_elements :
      (c : List RegisterInfo)
      → elements (catalogue_document register_path serialize c).children
        ≡ general_branch c ∷ map (register_branch register_path serialize) c
  unfolding catalogue_document elements
  document_elements c =
      ap (λ bs. general_branch c ∷ bs) (elements-map (register_branch register_path serialize) c)

  root_saved :
      (c : List RegisterInfo) (d' : Document Branch)
      → IsFileOf (catalogue_document register_path serialize c) d'
      → get_root_node d' (codes "catalogue") ≡ ok d'.children
  unfolding get_root_node catalogue_document text_eq
  root_saved c d' (n, k) = rw (n) refl

  server_of_general :
      (c : List RegisterInfo) (b' : Branch) (bs' : List Branch)
      → IsReadAs (general_branch c) b'
      → server_of [] (b' ∷ bs')
        ≡ (do s ← server_fields [] (map stored (general_fields c)); server_of s bs')
  unfolding server_of text_eq
  server_of_general c b' bs' (tag, children) =
      rw (tag) (rw (children) (rw (elements-map_tags (general_fields c)) refl))

  parse_general :
      (server : Text) (c : List RegisterInfo) (b' : Branch) (bs' : List Branch)
      → IsReadAs (general_branch c) b'
      → parse_registers deserialize add_register server (b' ∷ bs') []
        ≡ parse_registers deserialize add_register server bs' []
  unfolding parse_registers text_eq
  parse_general server c b' bs' (tag, children) = rw (tag) refl

  -- The two walks of `readCatalogue` over the branches of the root.
  abbrev read_branches : List Branch → Result (List RegisterInfo)
  read_branches bs' = do
    server ← server_of [] bs'
    parse_registers deserialize add_register server bs' []

  read_empty :
      (bs' : List Branch) → AllReadAs (general_branch [] ∷ []) bs' → read_branches bs' ≡ undefined
  read_empty [] k = elim k [ ]
  read_empty (b' ∷ bs') (h, k) = rw (server_of_general [] b' bs' h) (rw (server_fields_empty) refl)

  -- A file that saveCatalogue wrote of an empty catalogue cannot be read: readCatalogue follows a
  -- null pointer.
  pub read_catalogue_empty :
      (d' : Document Branch)
      → IsFileOf (catalogue_document register_path serialize []) d'
      → read_catalogue deserialize add_register (some d') ≡ undefined
  unfolding read_catalogue create_dom_parser
  read_catalogue_empty d' k = rw (root_saved [] d' k) (
      read_empty (elements d'.children)
        (subst (λ bs. AllReadAs bs (elements d'.children)) (document_elements []) k.1))

  module _
      (modes_back : (b : Bool) → deserialize (text_or [] (nonempty (serialize b))) ≡ ok tt) where
    parse_saved :
        (r : RegisterInfo) (b' : Branch)
        → IsSavable register_path r
        → IsReadAs (register_branch register_path serialize r) b'
        → parse_register deserialize r.server_address b' ≡ ok (saved_property register_path r)
    unfolding parse_register
    parse_saved r b' s (tag, children) = rw (children) (
        rw (register_branch_fields r) (
          rw (read_saved_fields register_path serialize deserialize modes_back r s)
            (property_back register_path serialize deserialize modes_back r s)))

    parse_registers_saved :
        (server : Text) (rs : List RegisterInfo) (bs' : List Branch) (c : List RegisterInfo)
        → All (IsSavable register_path) rs
        → All (λ r. r.server_address ≡ server) rs
        → AllReadAs (map (register_branch register_path serialize) rs) bs'
        → parse_registers deserialize add_register server bs' c
          ≡ ok (add_all add_register c (map (renamed register_path) rs))
    unfolding parse_registers add_all
    parse_registers_saved server [] [] c s a k = refl
    parse_registers_saved server [] (b' ∷ bs') c s a k = elim k [ ]
    parse_registers_saved server (r ∷ rs) [] c s a k = elim k [ ]
    parse_registers_saved server (r ∷ rs) (b' ∷ bs') c (s, ss) (a, aa) ((tag, children), k) =
        let p : parse_register deserialize server b' ≡ ok (saved_property register_path r) =
          rw (sym a) (parse_saved r b' s (tag, children)) in
        rw (tag) (
          rw (register_branch_tag r) (
            rw (p) (
              rw (add_property_saved register_path add_register r c s) (
                parse_registers_saved server rs bs' (add_register c (renamed register_path r)) ss aa
                  k))))

    read_saved :
        (server : Text) (r : RegisterInfo) (rs : List RegisterInfo) (bs' : List Branch)
        → server ≢ []
        → All (IsSavable register_path) (r ∷ rs)
        → All (λ r'. r'.server_address ≡ server) (r ∷ rs)
        → AllReadAs
            (general_branch (r ∷ rs) ∷ map (register_branch register_path serialize) (r ∷ rs))
            bs'
        → read_branches bs' ≡ ok (add_all add_register [] (map (renamed register_path) (r ∷ rs)))
    read_saved server r rs [] h s a k = elim k [ ]
    read_saved server r rs (b' ∷ bs') h s a (g, k) = rw (server_of_general (r ∷ rs) b' bs' g) (
        rw (server_fields_saved server r rs a.0 h) (
          rw (server_of_registers server (r ∷ rs) bs' k) (
            rw (parse_general server (r ∷ rs) b' bs' g)
              (parse_registers_saved server (r ∷ rs) bs' [] s a k))))

    -- A file that saveCatalogue wrote of one or more registers of one server is read back by
    -- readCatalogue: it gives the catalogue with just these registers, in their order and in all
    -- fields the same, each under its register name. Asked is that each is regular, its numbers fit
    -- their types and its name, its id and the server address are not empty.
    pub read_catalogue-saved :
        (server : Text) (r : RegisterInfo) (rs : List RegisterInfo) (d' : Document Branch)
        → server ≢ []
        → All (IsSavable register_path) (r ∷ rs)
        → All (λ r'. r'.server_address ≡ server) (r ∷ rs)
        → IsFileOf (catalogue_document register_path serialize (r ∷ rs)) d'
        → read_catalogue deserialize add_register (some d')
          ≡ ok (add_all add_register [] (map (renamed register_path) (r ∷ rs)))
    unfolding read_catalogue create_dom_parser
    read_catalogue-saved server r rs d' h s a k = rw (root_saved (r ∷ rs) d' k) (
        read_saved server r rs (elements d'.children) h s a
          (subst (λ bs. AllReadAs bs (elements d'.children)) (document_elements (r ∷ rs)) k.1))
