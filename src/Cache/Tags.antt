-- ===== src/Cache/Tags.antt =====
-- One tag of a register in the cache file (src/CatalogueCache.cc): what is read of the text that is
-- written.
use device_access_opc_ua_bac.Prelude.{
  ℕ, ◌<◌, ◌≡◌, ◌≢◌, refl, Bool, true, false, not, ◌%◌, ◌^◌, Text, codes, List, [], ◌∷◌, Option,
  none, some, ◌==◌, text_eq, arith, ap,
}
use device_access_opc_ua_bac.Prelude.Decimal.{to_decimal}
use device_access_opc_ua_bac.Prelude.Number.{stoul-to_decimal, stol-to_decimal, to_decimal_cons}
use device_access_opc_ua_bac.Xml.{
  Result, ok, XmlElement, content, parse_length, parse_type_id, convert_to_int, convert_to_uint,
}
use device_access_opc_ua_bac.Cache.{tagged, bit}
use device_access_opc_ua_bac.Cache.Reading.{Fields, text_or, read_field, read_fields}

-- An empty text leaves no child text in the file.
unfoldable pub nonempty : Text → Option Text
nonempty [] = none
nonempty (c ∷ s) = some (c ∷ s)

abbrev stored_text : Option Text → Option Text
stored_text none = none
stored_text (some t) = nonempty t

unfoldable pub stored : XmlElement → XmlElement
unfolding nonempty
stored e = record e { child_text = stored_text e.child_text }

nonempty_of : (t : Text) → t ≢ [] → nonempty t ≡ some t
unfolding nonempty
nonempty_of [] h = absurd (h refl)
nonempty_of (c ∷ s) h = refl

text_or-nonempty : (t : Text) → text_or [] (nonempty t) ≡ t
unfolding nonempty text_or
text_or-nonempty [] = refl
text_or-nonempty (c ∷ s) = refl

nonempty_decimal : (n : ℕ) → nonempty (to_decimal n) ≡ some (to_decimal n)
nonempty_decimal n = let (c, s, e) = to_decimal_cons n in nonempty_of (to_decimal n) (λ z. cc)

uint_decimal : (n : ℕ) → n < 2 ^ 32 → convert_to_uint (to_decimal n) ≡ ok n
unfolding convert_to_uint
uint_decimal n h =
    rw (stoul-to_decimal n (omega arith)) (let a : n % 2 ^ 32 ≡ n = omega arith in ap ok a)

int_decimal : (n : ℕ) → n < 2 ^ 32 → convert_to_int (to_decimal n) ≡ ok n
unfolding convert_to_int
int_decimal n h =
    rw (stol-to_decimal n (omega arith)) (let a : n % 2 ^ 32 ≡ n = omega arith in ap ok a)

bit_back : (b : Bool) → not (bit b == 0) ≡ b
unfolding bit
bit_back true = refl
bit_back false = refl

bit_small : (b : Bool) → bit b < 2 ^ 32
unfolding bit
bit_small true = omega arith
bit_small false = omega arith

length_back :
    (t : Text) (n : ℕ) → n < 2 ^ 32 → parse_length (stored (tagged t (to_decimal n))) ≡ ok n
unfolding parse_length stored
length_back t n h = rw (nonempty_decimal n) (uint_decimal n h)

type_id_back :
    (t : Text) (n : ℕ) → n < 2 ^ 32 → parse_type_id (stored (tagged t (to_decimal n))) ≡ ok n
unfolding parse_type_id stored
type_id_back t n h = rw (nonempty_decimal n) (int_decimal n h)

pub content_back : (t s : Text) → s ≢ [] → content (stored (tagged t s)) ≡ ok s
unfolding content stored
content_back t s h = rw (nonempty_of s h) refl

module _ (deserialize : Text → Result (Unit {0})) (f : Fields) where
  pub read_node_id :
      (t : Text)
      → t ≢ []
      → read_field deserialize f (stored (tagged (codes "nodeId") t))
        ≡ ok (record f { node_id = t })
  unfolding read_field text_eq stored
  read_node_id t h = rw (content_back (codes "nodeId") t h) refl

  pub read_name :
      (t : Text)
      → t ≢ []
      → read_field deserialize f (stored (tagged (codes "name") t)) ≡ ok (record f { name = t })
  unfolding read_field text_eq stored
  read_name t h = rw (content_back (codes "name") t h) refl

  pub read_description :
      (t : Text)
      → f.description ≡ []
      → read_field deserialize f (stored (tagged (codes "description") t))
        ≡ ok (record f { description = t })
  unfolding read_field text_eq stored
  read_description t h = rw (h) (rw (text_or-nonempty t) refl)

  pub read_index_range :
      (t : Text)
      → f.index_range ≡ []
      → read_field deserialize f (stored (tagged (codes "indexRange") t))
        ≡ ok (record f { index_range = t })
  unfolding read_field text_eq stored
  read_index_range t h = rw (h) (rw (text_or-nonempty t) refl)

  pub read_length :
      (n : ℕ)
      → n < 2 ^ 32
      → read_field deserialize f (stored (tagged (codes "length") (to_decimal n)))
        ≡ ok (record f { length = n })
  unfolding read_field text_eq stored
  read_length n h = rw (length_back (codes "length") n h) refl

  pub read_type_id :
      (n : ℕ)
      → n < 2 ^ 32
      → read_field deserialize f (stored (tagged (codes "typeId") (to_decimal n)))
        ≡ ok (record f { type_id = some n })
  unfolding read_field text_eq stored
  read_type_id n h = rw (type_id_back (codes "typeId") n h) refl

  pub read_namespace :
      (n : ℕ)
      → n < 2 ^ 16
      → read_field deserialize f (stored (tagged (codes "nameSpace") (to_decimal n)))
        ≡ ok (record f { namespace_id = some n })
  unfolding read_field text_eq stored
  read_namespace n h =
      rw (type_id_back (codes "nameSpace") n (omega arith)) (
        let e : n % 2 ^ 16 ≡ n = omega arith in ap (λ m. ok (record f { namespace_id = some m })) e)

  pub read_readonly :
      (b : Bool)
      → read_field deserialize f (stored (tagged (codes "readOnly") (to_decimal (bit b))))
        ≡ ok (record f { is_readonly = some b })
  unfolding read_field text_eq stored
  read_readonly b =
      rw (type_id_back (codes "readOnly") (bit b) (bit_small b))
        (ap (λ m. ok (record f { is_readonly = some m })) (bit_back b))

  pub read_numeric :
      (b : Bool)
      → read_field deserialize f (stored (tagged (codes "isNumeric") (to_decimal (bit b))))
        ≡ ok (record f { is_numeric = some b })
  unfolding read_field text_eq stored
  read_numeric b =
      rw (type_id_back (codes "isNumeric") (bit b) (bit_small b))
        (ap (λ m. ok (record f { is_numeric = some m })) (bit_back b))

  pub read_access_mode :
      (t : Text)
      → deserialize (text_or [] (nonempty t)) ≡ ok tt
      → read_field deserialize f (stored (tagged (codes "access_mode") t)) ≡ ok f
  unfolding read_field text_eq stored
  read_access_mode t h = rw (h) refl

  pub read_next :
      {g : Fields} {x : Result Fields} (e : XmlElement) (es : List XmlElement)
      → read_field deserialize f e ≡ ok g
      → read_fields deserialize g es ≡ x
      → read_fields deserialize f (e ∷ es) ≡ x
  unfolding read_fields
  read_next e es h k = rw (h) k

  pub read_end : read_fields deserialize f [] ≡ ok f
  unfolding read_fields
  read_end = refl
