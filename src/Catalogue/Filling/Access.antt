-- ===== src/Catalogue/Filling/Access.antt =====
-- What a filled catalogue means for the accessors (src/OPC-UA-Backend.cc).
use device_access_opc_ua_bac.Prelude.{
  ℕ, Bool, ◌≡◌, ◌≢◌, refl, Bool-cases, subst, true, Text, List, [], ◌∷◌, Option, none, some, All,
  arith, inl, inr, ◌∙◌, sym, ap, text_eq, length, ◌==◌,
}
use device_access_opc_ua_bac.Catalogue.{RegisterInfo, DataDescriptor, describe}
use device_access_opc_ua_bac.Catalogue.Types.{UaType, accessor_type, is_some, known_types}
use device_access_opc_ua_bac.Catalogue.Accessor.{
  refused, not_implemented, find_register, access_register, get_register_accessor,
}
use device_access_opc_ua_bac.Catalogue.Filling.Regular.{IsRegular, AllRegular}

some_of_known : (o : Option UaType) → is_some o ≡ true → (t : UaType) × (o ≡ some t)
some_of_known none h = cc
some_of_known (some t) h = (t, refl)

-- A type with a descriptor has an accessor.
accessor_type-described :
    (n : ℕ) (d : DataDescriptor) → describe n ≡ some d → (t : UaType) × (accessor_type n ≡ some t)
accessor_type-described n d e =
    let (described, accessible) = known_types n in
    some_of_known (accessor_type n) (accessible ∙ sym described ∙ ap is_some e)

module _ (register_path : Text → Text) where
  find_register-All :
      (P : RegisterInfo → Type 0) (name : Text) (c : List RegisterInfo) (r : RegisterInfo)
      → All P c
      → find_register register_path name c ≡ some r
      → P r
  unfolding find_register
  find_register-All P name [] r h e = cc
  find_register-All P name (x ∷ c) r h e =
      elim (Bool-cases (text_eq (register_path x.node_browse_name) name)) [
        | inl same ↦
            let found : some x ≡ some r = rw same at e in let here : x ≡ r = cc in subst P here h.0
        | inr apart ↦ find_register-All P name c r h.1 (rw apart at e)
      ]

  access_register_implemented :
      (raw : Bool) (max_words words offset : ℕ) (o : Option RegisterInfo)
      → ((r : RegisterInfo) → o ≡ some r → IsRegular r)
      → access_register register_path raw max_words words offset o ≢ refused not_implemented
  unfolding access_register
  access_register_implemented raw max_words words offset none h e = cc
  access_register_implemented raw max_words words offset (some r) h e =
      let (t, known) = accessor_type-described r.data_type r.data_descriptor (h r refl).0 in
      ground (arith, known)

  -- A catalogue of regular registers, as `fillCatalogue` leaves it, has an accessor for each of its
  -- registers: no request ends in "Type … not implemented.".
  pub get_register_accessor_implemented :
      (raw : Bool) (max_words : ℕ) (c : List RegisterInfo) (name : Text) (words offset : ℕ)
      → AllRegular c
      → get_register_accessor register_path raw max_words c name words offset
        ≢ refused not_implemented
  unfolding get_register_accessor
  get_register_accessor_implemented raw max_words c name words offset h e =
      elim (Bool-cases (length c == 0)) [
        | inl none_there ↦ cc (rw none_there at e)
        | inr there ↦
            access_register_implemented raw max_words words offset
              (find_register register_path name c) (λ r. find_register-All IsRegular name c r h)
              (rw there at e)
      ]
