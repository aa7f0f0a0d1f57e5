-- ===== src/Versions/Agreement.antt =====
-- Values with the same time stamp get the same version, and the map of the versions stays in bounds.
use device_access_opc_ua_bac.Prelude.{
  ℕ, ◌+◌, ◌≤◌, ◌<◌, ◌≡◌, ◌≢◌, refl, List, [], ◌∷◌, none, some, ◌==◌, length, arith, false,
  Option-cases, Bool-cases, inl, inr, ap, ==_refl, if_cases, if◌then◌else◌,
}
use device_access_opc_ua_bac.Prelude.Map
use device_access_opc_ua_bac.Prelude.Map.{
  lookup, Rising, lookup-assign, assign-Rising, erase_begin-Rising, length-erase_begin,
  length-assign,
}
use device_access_opc_ua_bac.Versions.{
  VersionMapper, convert_to_time_point, signed_order, max_size, make_room, add_version, get_version,
  after_calls,
}

module _ {ℓ} {V : Type ℓ} (unix_epoch : ℕ) (new_version : ℕ → ℕ → V) where
  -- The keys rise, and there are no more of them than the bound.
  abbrev pub IsBounded : VersionMapper V → Type 0
  IsBounded s = Rising 0 s.versions × (length s.versions ≤ max_size)

  make_room-IsBounded :
      (m : List (ℕ × V))
      → Rising 0 m
      → length m ≤ max_size
      → Rising 0 (make_room m) × (length (make_room m) < max_size)
  unfolding make_room
  make_room-IsBounded m r b =
      if_cases {A = List (ℕ × V)} (λ n. Rising 0 n × (length n < max_size)) (length m == max_size)
        (Map.erase_begin m) m
        (λ full. (
          erase_begin-Rising 0 m r,
          (let full' : length m ≡ max_size = ground arith in
              let l = length-erase_begin m (omega arith) in omega arith),
        ))
        (λ free. (r, (let free' : length m ≢ max_size = ground arith in omega arith)))

  make_room_free : (m : List (ℕ × V)) → length m < max_size → make_room m ≡ m
  unfolding make_room
  make_room_free m room = let apart : (length m == max_size) ≡ false = ground arith in rw apart refl

  lookup-assign_other :
      (k j : ℕ) (n v : V) (m : List (ℕ × V))
      → lookup j m ≡ some v
      → lookup k m ≡ none
      → lookup j (Map.assign k n m) ≡ some v
  lookup-assign_other k j n v m e new = elim (Bool-cases (k == j)) [
    | inl same ↦ let at : k ≡ j = ground arith in absurd (grind (arith, e, new, at))
    | inr apart ↦ rw (lookup-assign k j n m, apart) e
  ]

  -- The state after one call.
  abbrev after : ℕ → VersionMapper V → VersionMapper V
  after t s = (get_version unix_epoch new_version t s).1

  get_version_known :
      (t : ℕ) (v : V) (s : VersionMapper V)
      → lookup (signed_order t) s.versions ≡ some v
      → get_version unix_epoch new_version t s ≡ (some v, s)
  unfolding get_version
  get_version_known t v s e = rw (e, e) refl

  -- What the call leaves under the key of the time stamp.
  lookup-add_version :
      (t j : ℕ) (s : VersionMapper V)
      → lookup j (add_version unix_epoch new_version t s).versions ≡ (
          if signed_order t == j
          then some (new_version s.made (convert_to_time_point unix_epoch new_version t))
          else lookup j (make_room s.versions))
  unfolding add_version
  lookup-add_version t j s =
      lookup-assign (signed_order t) j
        (new_version s.made (convert_to_time_point unix_epoch new_version t)) (make_room s.versions)

  get_version_new :
      (t : ℕ) (s : VersionMapper V)
      → lookup (signed_order t) s.versions ≡ none
      → get_version unix_epoch new_version t s ≡ (
        some (new_version s.made (convert_to_time_point unix_epoch new_version t)),
        add_version unix_epoch new_version t s,
      )
  unfolding get_version
  get_version_new t s e =
      rw (e, lookup-add_version t (signed_order t) s, ==_refl (signed_order t)) refl

  add_version-IsBounded :
      (t : ℕ) (s : VersionMapper V)
      → IsBounded s
      → IsBounded (add_version unix_epoch new_version t s)
  unfolding add_version
  add_version-IsBounded t s h =
      let (r, b) = make_room-IsBounded s.versions h.0 h.1 in
      let v = new_version s.made (convert_to_time_point unix_epoch new_version t) in
      (
        assign-Rising 0 (signed_order t) v (make_room s.versions) (omega arith) r,
        (let l = length-assign (signed_order t) v (make_room s.versions) in omega arith),
      )

  -- Under the bound a call keeps every key but the smallest one of a full map.
  get_version-IsBounded : (t : ℕ) (s : VersionMapper V) → IsBounded s → IsBounded (after t s)
  get_version-IsBounded t s h = elim (Option-cases (lookup (signed_order t) s.versions)) [
    | inl e ↦ rw (get_version_new t s e, after, IsBounded) (add_version-IsBounded t s h)
    | inr (v, e) ↦ rw (get_version_known t v s e, after, IsBounded) h
  ]

  -- However many calls there were, the map keeps its order and its bound.
  pub after_calls-IsBounded :
      (ts : List ℕ) (s : VersionMapper V)
      → IsBounded s
      → IsBounded (after_calls unix_epoch new_version ts s)
  unfolding after_calls
  after_calls-IsBounded [] s h = h
  after_calls-IsBounded (t ∷ ts) s h =
      after_calls-IsBounded ts (after t s) (get_version-IsBounded t s h)

  -- A call always gives a version, and the next call for the same time stamp the same one.
  pub get_version-again :
      (t : ℕ) (s : VersionMapper V)
      → (v : V) × ((get_version unix_epoch new_version t s).0 ≡ some v)
        × (get_version unix_epoch new_version t (after t s) ≡ (some v, after t s))
  get_version-again t s = elim (Option-cases (lookup (signed_order t) s.versions)) [
    | inl e ↦ (
      new_version s.made (convert_to_time_point unix_epoch new_version t),
      ap (λ r. r.0) (get_version_new t s e),
      rw (get_version_new t s e, after)
          (get_version_known t _ (add_version unix_epoch new_version t s)
            (rw (lookup-add_version t (signed_order t) s, ==_refl (signed_order t)) refl)),
    )
    | inr (v, e) ↦ (
      v,
      ap (λ r. r.0) (get_version_known t v s e),
      rw (get_version_known t v s e, after) (get_version_known t v s e),
    )
  ]

  add_version-keeps :
      (t j : ℕ) (v : V) (s : VersionMapper V)
      → length s.versions < max_size
      → lookup j s.versions ≡ some v
      → lookup (signed_order t) s.versions ≡ none
      → (lookup j (add_version unix_epoch new_version t s).versions ≡ some v)
        × (length (add_version unix_epoch new_version t s).versions ≤ length s.versions + 1)
  unfolding add_version
  add_version-keeps t j v s room e new =
      let n : V = new_version s.made (convert_to_time_point unix_epoch new_version t) in
      rw (make_room_free s.versions room) (
        lookup-assign_other (signed_order t) j n v s.versions e new,
        length-assign (signed_order t) n s.versions,
      )

  -- A known version stays while the map does not fill up.
  keeps_version :
      (t j : ℕ) (v : V) (s : VersionMapper V)
      → length s.versions < max_size
      → lookup j s.versions ≡ some v
      → (lookup j (after t s).versions ≡ some v)
        × (length (after t s).versions ≤ length s.versions + 1)
  keeps_version t j v s room e = elim (Option-cases (lookup (signed_order t) s.versions)) [
    | inl new ↦ rw (get_version_new t s new, after) (add_version-keeps t j v s room e new)
    | inr (w, known) ↦ rw (get_version_known t w s known, after) (e, omega arith)
  ]

  -- Where the map does not fill up, a time stamp keeps its version over the calls for others.
  pub after_calls-get_version :
      (ts : List ℕ) (t : ℕ) (v : V) (s : VersionMapper V)
      → length s.versions + length ts ≤ max_size
      → lookup (signed_order t) s.versions ≡ some v
      → (get_version unix_epoch new_version t (after_calls unix_epoch new_version ts s)).0 ≡ some v
  unfolding after_calls
  after_calls-get_version [] t v s room e = ap (λ r. r.0) (get_version_known t v s e)
  after_calls-get_version (u ∷ ts) t v s room e =
      let (kept, size) = keeps_version u (signed_order t) v s (omega arith) e in
      after_calls-get_version ts t v (after u s) (omega arith) kept
