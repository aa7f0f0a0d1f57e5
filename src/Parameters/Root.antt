-- ===== src/Parameters/Root.antt =====
-- The root node among the parameters of a device (src/OPC-UA-Backend.cc).
use device_access_opc_ua_bac.Prelude.{
  ℕ, false, ◌<◌, ◌≡◌, ◌^◌, refl, ◌⊎◌, inl, inr, Text, codes, List, [], ◌∷◌, ◌++◌, none, some, ◌==◌,
  All, All-map, text_eq, Bool-cases, arith,
}
use device_access_opc_ua_bac.Prelude.Decimal.{to_decimal}
use device_access_opc_ua_bac.Prelude.Number.{
  IsDigit, is_digit, to_decimal_lem, to_decimal_cons, stoul-to_decimal,
}
use device_access_opc_ua_bac.Xml.{Result, ok}
use device_access_opc_ua_bac.Parameters.{
  parameter, split_at_colon, root_of, parse_root, read_root, read_timeout, read_interval, Root,
  options, create_instance,
}

split_at_colon-append :
    (s rest : Text)
    → All (λ c. (c == b':') ≡ false) s
    → split_at_colon (s ++ (b':' ∷ rest)) ≡ some (s, rest)
unfolding split_at_colon
split_at_colon-append [] rest h = refl
split_at_colon-append (c ∷ s) rest h = rw (h.0) (rw (split_at_colon-append s rest h.1) refl)

digit_no_colon : (c : ℕ) → IsDigit c → (c == b':') ≡ false
unfolding is_digit
digit_no_colon c h = ground arith

parse_root-to_decimal :
    (ns : ℕ) (name : Text)
    → ns < 2 ^ 64
    → parse_root (to_decimal ns ++ (b':' ∷ name)) ≡ ok (some ns, name)
unfolding parse_root root_of
parse_root-to_decimal ns name fits =
    let (shape, value) = to_decimal_lem ns in
    rw
      (
        parse_root,
        split_at_colon-append (to_decimal ns) name
            (All-map IsDigit _ digit_no_colon (to_decimal ns) shape.0),
      )
      (rw (stoul-to_decimal ns fits) refl)

read_root_unset :
    (mapfile root : Text)
    → (root ≡ []) ⊎ (text_eq mapfile [] ≡ false)
    → read_root mapfile root ≡ ok (none, root)
unfolding read_root text_eq
read_root_unset mapfile root (inl e) = elim (Bool-cases (text_eq mapfile [])) [
  | inl bare ↦ rw (e) (rw (bare, read_root) refl)
  | inr given ↦ rw (given, read_root) refl
]
read_root_unset mapfile root (inr e) = rw (e, read_root) refl

text_eq-to_decimal : (ns : ℕ) (rest : Text) → text_eq (to_decimal ns ++ rest) [] ≡ false
unfolding text_eq
text_eq-to_decimal ns rest = let (c, s, e) = to_decimal_cons ns in rw (e) refl

read_root-to_decimal :
    (mapfile root : Text) (ns : ℕ) (name : Text)
    → ns < 2 ^ 64
    → mapfile ≡ []
    → root ≡ to_decimal ns ++ (b':' ∷ name)
    → read_root mapfile root ≡ ok (some ns, name)
unfolding read_root text_eq
read_root-to_decimal mapfile root ns name fits m r =
    rw (m, r, read_root)
      (rw (text_eq-to_decimal ns (b':' ∷ name)) (parse_root-to_decimal ns name fits))

module _ {D : Type 0} (stod : Text → Result D) (default_interval : D) (address : Text)
    (parameters : List (Text × Text)) where
  -- The parameters that every device needs are given and can be read.
  abbrev pub IsReadable : D → ℕ → Type 0
  IsReadable interval timeout =
      (text_eq (parameter (codes "port") parameters) [] ≡ false)
      × (read_interval stod default_interval (parameter (codes "publishingInterval") parameters)
          ≡ ok interval)
      × (read_timeout (parameter (codes "connectionTimeout") parameters) ≡ ok timeout)

  create_instance-good :
      (interval : D) (timeout : ℕ) (root : Root)
      → IsReadable interval timeout
      → read_root (parameter (codes "map") parameters) (parameter (codes "rootNode") parameters)
        ≡ ok root
      → create_instance stod default_interval address parameters
        ≡ ok (options address parameters interval root timeout)
  unfolding create_instance
  create_instance-good interval timeout root (p, i, t) r = rw (p) (rw (i) (rw (r) (rw (t) refl)))

  -- Without a map file, a root node that is written as the number of a namespace, a colon and a name
  -- gives the backend this namespace and this name, whatever is in the name. Asked is that the
  -- namespace fits 64 bits, and that a port, and an interval and a timeout that can be read, are given.
  pub create_instance-root :
      (interval : D) (timeout ns : ℕ) (name : Text)
      → IsReadable interval timeout
      → ns < 2 ^ 64
      → parameter (codes "map") parameters ≡ []
      → parameter (codes "rootNode") parameters ≡ to_decimal ns ++ (b':' ∷ name)
      → create_instance stod default_interval address parameters
        ≡ ok (options address parameters interval (some ns, name) timeout)
  create_instance-root interval timeout ns name h fits none_given root =
      create_instance-good interval timeout (some ns, name) h
        (read_root-to_decimal _ _ ns name fits none_given root)

  -- Where no root node is given, or a map file is, the backend is made with a number of the root's
  -- namespace that was never set. Asked is that a port, and an interval and a timeout that can be
  -- read, are given.
  pub create_instance_unset :
      (interval : D) (timeout : ℕ)
      → IsReadable interval timeout
      → (parameter (codes "rootNode") parameters ≡ [])
        ⊎ (text_eq (parameter (codes "map") parameters) [] ≡ false)
      → create_instance stod default_interval address parameters
        ≡ ok (
            options address parameters interval
              (none, parameter (codes "rootNode") parameters)
              timeout)
  create_instance_unset interval timeout h c =
      create_instance-good interval timeout (none, parameter (codes "rootNode") parameters) h
        (read_root_unset _ _ c)
