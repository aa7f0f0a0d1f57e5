-- ===== src/Versions.antt =====
-- `VersionMapper` of src/VersionMapper.cc and include/VersionMapper.h: one version for all values
-- with the same source time stamp. `new_version n t` stands for the version that the library gives
-- to the `n`th call of its constructor, here at the time point `t`.
pub mod Agreement
use device_access_opc_ua_bac.Prelude.{
  ℕ, suc, ◌+◌, ◌-◌, ◌*◌, ◌%◌, ◌^◌, List, [], ◌∷◌, Option, none, some, ◌==◌, if◌then◌else◌, length,
}
use device_access_opc_ua_bac.Prelude.Map
use device_access_opc_ua_bac.Prelude.Map.{lookup}

-- The order of the map is that of signed numbers of 64 bits: the place of a bit pattern in it.
unfoldable pub signed_order : ℕ → ℕ
signed_order t = (t + 2 ^ 63) % 2 ^ 64

-- `maxSizeEventIdMap`
abbrev pub max_size : ℕ
max_size = 2000

pub record VersionMapper {ℓ} (V : Type ℓ) : Type ℓ where
  pub made : ℕ
  pub versions : List (ℕ × V)

unfoldable pub make_room {ℓ} : {V : Type ℓ} → List (ℕ × V) → List (ℕ × V)
make_room m = if length m == max_size then Map.erase_begin m else m

module _ {ℓ} {V : Type ℓ} (unix_epoch : ℕ) (new_version : ℕ → ℕ → V) where
  -- Steps of 100 nanoseconds since 1601 become nanoseconds since 1970, on 64 bits. Where the signed
  -- arithmetic of the source overflows, which is undefined there, it wraps here.
  unfoldable pub convert_to_time_point : ℕ → ℕ
  convert_to_time_point t = (t + (2 ^ 64 - unix_epoch)) * 100 % 2 ^ 64

  unfoldable pub add_version : ℕ → VersionMapper V → VersionMapper V
  unfolding convert_to_time_point make_room
  add_version t s = record {
    made = suc s.made;
    versions =
        Map.assign (signed_order t) (new_version s.made (convert_to_time_point t))
          (make_room s.versions);
  }

  -- `getVersion`: the version, if the map has it in the end, and the state after the call.
  unfoldable pub get_version : ℕ → VersionMapper V → Option V × VersionMapper V
  unfolding add_version
  get_version t s =
      let after : VersionMapper V = elim (lookup (signed_order t) s.versions) [
        | some v ↦ s
        | none ↦ add_version t s
      ] in
      (lookup (signed_order t) after.versions, after)

  -- The state after the calls for some time stamps, in turn.
  unfoldable pub after_calls : List ℕ → VersionMapper V → VersionMapper V
  unfolding get_version
  after_calls [] s = s
  after_calls (t ∷ ts) s = after_calls ts (get_version t s).1
