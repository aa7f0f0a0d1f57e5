-- ===== src/Tests/Values.antt =====
-- The ownership of values, at concrete objects.
use device_access_opc_ua_bac.Prelude.{ℕ, ◌≡◌, refl, true, [], ◌∷◌, ◌++◌, some}
use device_access_opc_ua_bac.Managed.{
  Value, empty_value, ManagedDataValue, block_list, managed, managed_from, assign, destroy,
}
use device_access_opc_ua_bac.Managed.Ownership.{pass_on, held, pass_on_lem, assign_reused}

abbrev content : ℕ → Value
content b = record empty_value { block = some b; has_value = true }

abbrev owner : ManagedDataValue
owner = record { val = content 7; clear_data = true }

pass_on_lem_example :
    pass_on (owner ∷ managed ∷ []) (managed_from (content 8))
    ≡ held (owner ∷ managed ∷ []) ++ block_list (some 8)
pass_on_lem_example = pass_on_lem owner (managed ∷ []) (managed_from (content 8)) refl

assign_reused_example :
    ((assign
        (assign managed (assign managed (managed_from (content 8))).left.0).left.1
        (managed_from (content 9))).freed
      ≡ 8 ∷ [])
    × (destroy (assign managed (assign managed (managed_from (content 8))).left.0).left.0 ≡ 8 ∷ [])
assign_reused_example =
    assign_reused managed managed (managed_from (content 8)) (managed_from (content 9)) refl
