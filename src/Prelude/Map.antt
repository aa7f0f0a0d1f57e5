-- ===== src/Prelude/Map.antt =====
-- `std::map` with numbers for keys: an association list in the order of its keys.
use Prim.Native.Nat.{ℕ, suc, ◌+◌, ◌<◌, ◌≤◌}
use mathlib.Core.Path.{◌≡◌, refl}
use mathlib.Core.List.{List, [], ◌∷◌}
use mathlib.Core.Option.{Option, none, some}
use native.Mathlib.Omega.{arith}
use device_access_opc_ua_bac.Prelude.Tests.{if_cases, ltb, ◌==◌, if◌then◌else◌}
use device_access_opc_ua_bac.Prelude.Lists.{length}

module _ {ℓ} {V : Type ℓ} where
  -- `find` or `at`: `none` where the key is missing.
  unfoldable pub lookup : ℕ → List (ℕ × V) → Option V
  lookup k [] = none
  lookup k ((j, v) ∷ m) = if j == k then some v else lookup k m

  -- `m[k] = v`
  unfoldable pub assign : ℕ → V → List (ℕ × V) → List (ℕ × V)
  assign k v [] = (k, v) ∷ []
  assign k v ((j, w) ∷ m) =
      if ltb k j then (k, v) ∷ (j, w) ∷ m else if j == k then (k, v) ∷ m else (j, w) ∷ assign k v m

  -- `m.erase(k)`
  unfoldable pub erase : ℕ → List (ℕ × V) → List (ℕ × V)
  erase k [] = []
  erase k ((j, w) ∷ m) = if j == k then erase k m else (j, w) ∷ erase k m

  -- `m.erase(m.begin())`: the entry with the smallest key.
  unfoldable pub erase_begin : List (ℕ × V) → List (ℕ × V)
  erase_begin [] = []
  erase_begin (_ ∷ m) = m

  -- Keys rise along the list, from a lower bound on.
  abbrev pub Rising : ℕ → List (ℕ × V) → Type 0
  Rising b [] = Unit {0}
  Rising b ((k, v) ∷ m) = (b ≤ k) × Rising (suc k) m

  pub lookup-assign :
      (k j : ℕ) (v : V) (m : List (ℕ × V))
      → lookup j (assign k v m) ≡ (if k == j then some v else lookup j m)
  unfolding lookup assign
  lookup-assign k j v [] = refl
  lookup-assign k j v ((i, w) ∷ m) = ground (arith, lookup-assign k j v m)

  pub lookup-erase :
      (k j : ℕ) (m : List (ℕ × V)) → lookup j (erase k m) ≡ (if k == j then none else lookup j m)
  unfolding lookup erase
  lookup-erase k j [] = ground arith
  lookup-erase k j ((i, w) ∷ m) = ground (arith, lookup-erase k j m)

  pub assign-Rising :
      (b k : ℕ) (v : V) (m : List (ℕ × V)) → b ≤ k → Rising b m → Rising b (assign k v m)
  unfolding assign
  assign-Rising b k v [] h r = (h, tt)
  assign-Rising b k v ((j, w) ∷ m) h r = ground (arith, assign-Rising (suc j) k v m)

  Rising-mono : (a b : ℕ) (m : List (ℕ × V)) → a ≤ b → Rising b m → Rising a m
  Rising-mono a b [] h r = tt
  Rising-mono a b ((j, w) ∷ m) h r = (omega arith, r.1)

  pub erase-Rising : (b k : ℕ) (m : List (ℕ × V)) → Rising b m → Rising b (erase k m)
  unfolding erase
  erase-Rising b k [] r = tt
  erase-Rising b k ((j, w) ∷ m) r =
      if_cases (Rising b) (j == k) _ _
        (λ _. erase-Rising b k m (Rising-mono b (suc j) m (omega arith) r.1))
        (λ _. (r.0, erase-Rising (suc j) k m r.1))

  pub erase_begin-Rising : (b : ℕ) (m : List (ℕ × V)) → Rising b m → Rising b (erase_begin m)
  unfolding erase_begin
  erase_begin-Rising b [] r = tt
  erase_begin-Rising b ((j, w) ∷ m) r = Rising-mono b (suc j) m (omega arith) r.1

  pub length-erase_begin : (m : List (ℕ × V)) → 0 < length m → length (erase_begin m) + 1 ≡ length m
  unfolding erase_begin
  length-erase_begin [] h = absurd (omega arith)
  length-erase_begin (_ ∷ m) h = omega arith

  pub length-assign : (k : ℕ) (v : V) (m : List (ℕ × V)) → length (assign k v m) ≤ length m + 1
  unfolding assign
  length-assign k v [] = omega arith
  length-assign k v ((j, w) ∷ m) = ground (arith, length-assign k v m)

  pub lookup_below : (b k : ℕ) (m : List (ℕ × V)) → k < b → Rising b m → lookup k m ≡ none
  unfolding lookup
  lookup_below b k [] h r = refl
  lookup_below b k ((j, w) ∷ m) h r = ground (arith, lookup_below (suc j) k m)
