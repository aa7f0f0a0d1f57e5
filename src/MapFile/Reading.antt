-- ===== src/MapFile/Reading.antt =====
-- What a `pv` element of the map file stands for (src/MapFile.cc).
use device_access_opc_ua_bac.Prelude.{
  ℕ, ◌<◌, ◌^◌, ◌%◌, ◌≡◌, refl, false, Text, codes, ◌∷◌, [], ◌++◌, some, arith, text_eq,
}
use device_access_opc_ua_bac.Prelude.Decimal.{to_decimal}
use device_access_opc_ua_bac.Prelude.Number
use device_access_opc_ua_bac.Prelude.Number.{
  stoul, is_digit, stoul-to_decimal, stoul-to_decimal-append,
}
use device_access_opc_ua_bac.Xml.{ok, XmlElement}
use device_access_opc_ua_bac.MapFile.{numeric_element, string_element, read_pv}

-- The element with this text and these attributes.
abbrev pub pv : Text → ℕ → Text → Text → XmlElement
pv text ns name range = record {
  tag = codes "pv";
  child_text = some text;
  attributes = (codes "ns", to_decimal ns) ∷ (codes "name", name) ∷ (codes "range", range) ∷ [];
}

module _ (root name range : Text) (ns : ℕ) (small : ns < 2 ^ 16) where
  namespace_read : stoul (to_decimal ns) ≡ Number.number ns
  namespace_read = stoul-to_decimal ns (omega arith)

  -- The text of a number below 2 ^ 32 is a numeric id, in the namespace of the attribute (below
  -- 2 ^ 16), with its name and range; the name of the root has no part in it.
  pub read_pv_numeric :
      (id : ℕ)
      → id < 2 ^ 32
      → read_pv root (pv (to_decimal id) ns name range) ≡ ok (numeric_element id ns range name ∷ [])
  unfolding read_pv text_eq
  read_pv_numeric id fits =
      rw (stoul-to_decimal id (omega arith), namespace_read)
        (let a : id % 2 ^ 32 ≡ id = omega arith in
          let b : ns % 2 ^ 16 ≡ ns = omega arith in rw (a, b) refl)

  -- A text that does not begin with a number is a string id below the root, in the namespace of the
  -- attribute (below 2 ^ 16), with its name and range.
  pub read_pv_string :
      (text : Text)
      → stoul text ≡ Number.invalid_argument
      → read_pv root (pv text ns name range) ≡ ok (string_element (root ++ text) ns range name ∷ [])
  unfolding read_pv text_eq
  read_pv_string text plain =
      rw (plain, namespace_read) (let b : ns % 2 ^ 16 ≡ ns = omega arith in rw b refl)

  -- The text of a string id that begins with a number below 2 ^ 32, followed by any character but a
  -- digit, is taken for the numeric id of that number: its rest and the root are dropped.
  pub read_pv_prefix :
      (id c : ℕ) (rest : Text)
      → id < 2 ^ 32
      → is_digit c ≡ false
      → read_pv root (pv (to_decimal id ++ (c ∷ rest)) ns name range)
        ≡ ok (numeric_element id ns range name ∷ [])
  unfolding read_pv text_eq
  read_pv_prefix id c rest fits other =
      rw (stoul-to_decimal-append id c rest (omega arith) other, namespace_read)
        (let a : id % 2 ^ 32 ≡ id = omega arith in
          let b : ns % 2 ^ 16 ≡ ns = omega arith in rw (a, b) refl)
