-- ===== src/Xml.antt =====
-- What the backend reads of an XML document, and src/XmlTools.cc. The library that parses the file
-- is not modelled: a document is what its parser makes of a file.
use device_access_opc_ua_bac.Prelude.{
  ℕ, ◌≡◌, refl, ◌%◌, ◌^◌, Text, codes, List, [], ◌∷◌, Option, none, some, if◌then◌else◌, text_eq,
}
use device_access_opc_ua_bac.Prelude.Number
use device_access_opc_ua_bac.Prelude.Number.{Parsed, stoul, stol}

pub data Error : Type 0 where
  logic_error runtime_error out_of_range_error invalid_argument_error : Error

-- A value, an exception, or a read through a null pointer or of a variable that was not set.
pub data Result {ℓ} (A : Type ℓ) : Type ℓ where
  ok : A → Result A
  throws : Error → Result A
  undefined : Result A

infixl 5 ◌>>=◌
abbrev pub ◌>>=◌ {ℓ κ} : {A : Type ℓ} {B : Type κ} → Result A → (A → Result B) → Result B
ok a >>= f = f a
throws e >>= f = throws e
undefined >>= f = undefined

-- A block that gives a value had one from its first part.
pub bind-ok {ℓ κ} :
    {A : Type ℓ} {B : Type κ} (m : Result A) (f : A → Result B) (b : B)
    → (m >>= f) ≡ ok b
    → (a : A) × (m ≡ ok a) × (f a ≡ ok b)
bind-ok (ok a) f b h = (a, refl, h)
bind-ok (throws e) f b h = cc
bind-ok undefined f b h = cc

-- An element with the text that is its child, if it has one.
pub record XmlElement : Type 0 where
  pub tag : Text
  pub child_text : Option Text
  pub attributes : List (Text × Text)

-- A child: an element, or text, a comment and the like.
pub data XmlNode {ℓ} (E : Type ℓ) : Type ℓ where
  element : E → XmlNode E
  other_node : XmlNode E

-- An element below the root that has elements of its own.
pub record Branch : Type 0 where
  pub tag : Text
  pub children : List (XmlNode XmlElement)

pub record Document {ℓ} (E : Type ℓ) : Type ℓ where
  pub root_name : Text
  pub namespace_uri : Text
  pub children : List (XmlNode E)

-- `get_attribute(name)->get_value()`, where the attribute is there.
unfoldable pub attribute : Text → List (Text × Text) → Option Text
attribute name [] = none
attribute name ((n, v) ∷ rest) = if text_eq n name then some v else attribute name rest

-- `get_child_text()->get_content()`
unfoldable pub content : XmlElement → Result Text
content e = elim e.child_text [ none ↦ undefined | some t ↦ ok t ]

abbrev pub namespace : Text
namespace = codes "https://github.com/ChimeraTK/DeviceAccess-OpcUaBackend"

-- `createDomParser`: `none` is a file that the parser refuses.
unfoldable pub create_dom_parser {ℓ} : {E : Type ℓ} → Option (Document E) → Result (Document E)
create_dom_parser none = throws logic_error
create_dom_parser (some d) = ok d

-- `getRootNode`: another name of the root makes an exception that is not thrown, and changes nothing.
unfoldable pub get_root_node {ℓ} : {E : Type ℓ} → Document E → Text → Result (List (XmlNode E))
get_root_node d root_name =
    if text_eq d.namespace_uri namespace then ok d.children else throws logic_error

-- A number of 64 bits is cut to the 32 of `unsigned int` or `int`; the latter as its bit pattern.
unfoldable pub cut : Parsed → Result ℕ
cut (Number.number n) = ok (n % 2 ^ 32)
cut Number.invalid_argument = throws logic_error
cut Number.out_of_range = throws logic_error

unfoldable pub convert_to_uint : Text → Result ℕ
unfolding cut
convert_to_uint s = cut (stoul s)

unfoldable pub convert_to_int : Text → Result ℕ
unfolding cut
convert_to_int s = cut (stol s)

unfoldable pub parse_length : XmlElement → Result ℕ
unfolding content convert_to_uint
parse_length e = do s ← content e; convert_to_uint s

unfoldable pub parse_type_id : XmlElement → Result ℕ
unfolding content convert_to_int
parse_type_id e = do s ← content e; convert_to_int s

-- The loops over the children skip what is no element.
unfoldable pub elements {ℓ} : {E : Type ℓ} → List (XmlNode E) → List E
elements [] = []
elements (element e ∷ ns) = e ∷ elements ns
elements (other_node ∷ ns) = elements ns
