-- ===== src/Catalogue/Accessor.antt =====
-- The checks of `getRegisterAccessor_impl` of src/OPC-UA-Backend.cc. `RegisterPath`, which brings a
-- name into its normal form, is a class of a library and a parameter.
use device_access_opc_ua_bac.Prelude.{
  ℕ, Bool, false, ◌&&◌, ◌||◌, ◌≡◌, ◌+◌, ◌%◌, ◌^◌, ◌≤◌, ◌<◌, refl, Text, List, [], ◌∷◌, Option, none,
  some, ltb, ◌==◌, if◌then◌else◌, text_eq, text_eq_iff, length, arith, Option-cases, inl, inr,
}
use device_access_opc_ua_bac.Catalogue.{RegisterInfo}
use device_access_opc_ua_bac.Catalogue.Types.{UaType, accessor_type}

pub data AccessError : Type 0 where
  no_registers not_found too_many_words not_implemented raw_mode length_error : AccessError

pub record Accessor : Type 0 where
  pub info : RegisterInfo
  pub type : UaType
  pub number_of_words : ℕ
  pub offset_words : ℕ

pub data AccessResult : Type 0 where
  accessor : Accessor → AccessResult
  refused : AccessError → AccessResult

-- The modulus of `size_t`.
abbrev pub size_mod : ℕ
size_mod = 2 ^ 64

module _ (register_path : Text → Text) where
  unfoldable pub find_register : Text → List RegisterInfo → Option RegisterInfo
  find_register name [] = none
  find_register name (r ∷ rs) =
      if text_eq (register_path r.node_browse_name) name then some r else find_register name rs

  unfoldable pub is_out_of_range : ℕ → ℕ → RegisterInfo → Bool
  is_out_of_range words offset info =
      ltb info.array_length ((words + offset) % size_mod) || (words == 0 && ltb 0 offset)

  find_register-name :
      (name : Text) (rs : List RegisterInfo) (r : RegisterInfo)
      → find_register name rs ≡ some r
      → register_path r.node_browse_name ≡ name
  unfolding find_register
  find_register-name name [] r e = cc
  find_register-name name (x ∷ rs) r e =
      ground
        (arith, find_register-name name rs r, text_eq_iff (register_path x.node_browse_name) name)

  -- Whether the flags ask for raw access, and the most words that `std::vector` has room for.
  module _ (raw : Bool) (max_words : ℕ) where
    -- The constructor of the accessor: raw access is refused, and the buffer must not be too long.
    unfoldable pub construct_accessor : ℕ → ℕ → RegisterInfo → UaType → AccessResult
    construct_accessor number offset info t =
        if raw
        then refused raw_mode
        else (if ltb max_words number
            then refused length_error
            else accessor
                (record { info = info; type = t; number_of_words = number; offset_words = offset }))

    unfoldable pub make_accessor : ℕ → ℕ → RegisterInfo → Option UaType → AccessResult
    unfolding construct_accessor
    make_accessor words offset info none = refused not_implemented
    make_accessor words offset info (some t) =
        construct_accessor (if words == 0 then info.array_length else words) offset info t

    unfoldable pub access_register : ℕ → ℕ → Option RegisterInfo → AccessResult
    unfolding is_out_of_range make_accessor
    access_register words offset none = refused not_found
    access_register words offset (some info) =
        if is_out_of_range words offset info
        then refused too_many_words
        else make_accessor words offset info (accessor_type info.data_type)

    unfoldable pub get_register_accessor : List RegisterInfo → Text → ℕ → ℕ → AccessResult
    unfolding find_register access_register
    get_register_accessor registers name words offset =
        if length registers == 0
        then refused no_registers
        else access_register words offset (find_register name registers)

    access_register-InRange :
        (words offset : ℕ) (o : Option RegisterInfo) (a : Accessor)
        → words + offset < size_mod
        → access_register words offset o ≡ accessor a
        → (o ≡ some a.info)
          × (a.offset_words + a.number_of_words ≤ a.info.array_length)
          × (a.offset_words ≡ offset)
          × (accessor_type a.info.data_type ≡ some a.type)
    unfolding access_register
    access_register-InRange words offset none a small e = cc
    access_register-InRange words offset (some info) a small e =
        elim (Option-cases (accessor_type info.data_type)) [
          | inl n ↦ ground (arith, n)
          | inr (t, n) ↦ ground (arith, n)
        ]

    -- An accessor that is handed out belongs to a register of the catalogue with the name that was
    -- asked for, has the type of its data, starts at the offset that was asked for, and ends within
    -- the register, provided that the words and the offset do not exceed `size_t` together.
    pub get_register_accessor-InRange :
        (registers : List RegisterInfo) (name : Text) (words offset : ℕ) (a : Accessor)
        → words + offset < size_mod
        → get_register_accessor registers name words offset ≡ accessor a
        → (find_register name registers ≡ some a.info)
          × (register_path a.info.node_browse_name ≡ name)
          × (a.offset_words ≡ offset)
          × (a.offset_words + a.number_of_words ≤ a.info.array_length)
          × (accessor_type a.info.data_type ≡ some a.type)
    unfolding get_register_accessor
    get_register_accessor-InRange registers name words offset a small e =
        let inner : access_register words offset (find_register name registers) ≡ accessor a =
          ground (arith, e) in
        let (found, range, start, type) = access_register-InRange words offset _ a small inner in
        (found, find_register-name name registers a.info found, start, range, type)

    pub get_register_accessor-Served :
        (registers : List RegisterInfo) (name : Text) (words offset : ℕ) (info : RegisterInfo)
        (t : UaType)
        → find_register name registers ≡ some info
        → accessor_type info.data_type ≡ some t
        → words + offset < size_mod
        → words + offset ≤ info.array_length
        → (words ≡ 0 → offset ≡ 0)
        → raw ≡ false
        → info.array_length ≤ max_words
        → get_register_accessor registers name words offset
          ≡ accessor (record {
            info = info;
            type = t;
            number_of_words = if words == 0 then info.array_length else words;
            offset_words = offset;
          })
    unfolding get_register_accessor access_register
    get_register_accessor-Served [] name words offset info t found known small fits whole cooked
          room =
        absurd (unfold find_register in cc)
    get_register_accessor-Served (r ∷ rs) name words offset info t found known small fits whole
          cooked room =
        rw (found) (ground (arith, known))

    pub get_register_accessor_wraps :
        (registers : List RegisterInfo) (name : Text) (words offset : ℕ) (info : RegisterInfo)
        (t : UaType)
        → find_register name registers ≡ some info
        → accessor_type info.data_type ≡ some t
        → words < size_mod
        → offset < size_mod
        → size_mod ≤ words + offset
        → words + offset ≤ size_mod + info.array_length
        → raw ≡ false
        → words ≤ max_words
        → (a : Accessor) × (get_register_accessor registers name words offset ≡ accessor a)
          × (a.number_of_words ≡ words)
          × (a.offset_words ≡ offset)
    unfolding get_register_accessor access_register
    get_register_accessor_wraps [] name words offset info t found known sw so over under cooked
          room =
        absurd (unfold find_register in cc)
    get_register_accessor_wraps (r ∷ rs) name words offset info t found known sw so over under
          cooked room =
        (
          record { info = info; type = t; number_of_words = words; offset_words = offset },
          rw (found) (ground (arith, known)),
          refl,
          refl,
        )
