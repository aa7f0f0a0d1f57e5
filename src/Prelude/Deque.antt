-- ===== src/Prelude/Deque.antt =====
-- `std::deque` with the addresses of its elements. `push_back` keeps every address; `erase` keeps
-- the addresses of the others only where the first or the last element goes, and gives all of
-- them new ones otherwise, since the standard calls every pointer into the deque invalid then.
pub mod Writes
use Prim.Native.Nat.{ℕ, suc, ◌<◌}
use mathlib.Core.Path.{◌≡◌, refl}
use mathlib.Core.Logic.{◌≢◌}
use mathlib.Core.Bool.{Bool, false, ◌||◌}
use mathlib.Core.List.{List, [], ◌∷◌, ◌++◌}
use mathlib.Core.Option
use mathlib.Core.Option.{Option, none, some}
use native.Mathlib.Omega.{arith}
use device_access_opc_ua_bac.Prelude.Tests.{◌==◌, if◌then◌else◌}
use device_access_opc_ua_bac.Prelude.Map.{lookup}

-- `fresh` is above every address in use.
pub record Deque {ℓ} (A : Type ℓ) : Type ℓ where
  pub fresh : ℕ
  pub cells : List (ℕ × A)

module _ {ℓ} {A : Type ℓ} where
  abbrev pub empty : Deque A
  empty = record { fresh = 0; cells = [] }

  -- A read through a pointer: `none` where it dangles.
  abbrev pub deref : Deque A → ℕ → Option A
  deref d a = lookup a d.cells

  unfoldable pub update_cells : ℕ → (A → A) → List (ℕ × A) → List (ℕ × A)
  update_cells a f [] = []
  update_cells a f ((b, x) ∷ cs) = (b, (if b == a then f x else x)) ∷ update_cells a f cs

  -- A write through a pointer.
  abbrev pub modify : Deque A → ℕ → (A → A) → Deque A
  modify d a f = record d { cells = update_cells a f d.cells }

  unfoldable pub map_cells : (A → A) → List (ℕ × A) → List (ℕ × A)
  map_cells f [] = []
  map_cells f ((b, x) ∷ cs) = (b, f x) ∷ map_cells f cs

  -- `for(auto& x : d) x = f(x)`
  abbrev pub map_items : (A → A) → Deque A → Deque A
  map_items f d = record d { cells = map_cells f d.cells }

  abbrev pub push_back : Deque A → A → Deque A
  push_back d x = record { fresh = suc d.fresh; cells = d.cells ++ (d.fresh, x) ∷ [] }

  unfoldable pub relocate : ℕ → List (ℕ × A) → Deque A
  relocate n [] = record { fresh = n; cells = [] }
  relocate n ((_, x) ∷ cs) =
      let rest = relocate (suc n) cs in record { fresh = rest.fresh; cells = (n, x) ∷ rest.cells }

  unfoldable pub is_first : ℕ → List (ℕ × A) → Bool
  is_first a [] = false
  is_first a ((b, _) ∷ _) = b == a

  unfoldable pub is_last : ℕ → List (ℕ × A) → Bool
  is_last a [] = false
  is_last a ((b, _) ∷ []) = b == a
  is_last a (_ ∷ c ∷ cs) = is_last a (c ∷ cs)

  unfoldable pub without : ℕ → List (ℕ × A) → List (ℕ × A)
  without a [] = []
  without a ((b, x) ∷ cs) = if b == a then cs else (b, x) ∷ without a cs

  unfoldable pub erase_at : Deque A → ℕ → Deque A
  erase_at d a =
      if is_first a d.cells || is_last a d.cells
      then record d { cells = without a d.cells }
      else relocate d.fresh (without a d.cells)

  -- `std::find` by a test: the address of the first match.
  unfoldable pub find_cell : (A → Bool) → List (ℕ × A) → Option (ℕ × A)
  find_cell test [] = none
  find_cell test ((b, x) ∷ cs) = if test x then some (b, x) else find_cell test cs

  -- Every address is below `fresh`, and they are distinct.
  abbrev pub Absent : ℕ → List (ℕ × A) → Type 0
  Absent a [] = Unit {0}
  Absent a ((b, _) ∷ cs) = (b ≢ a) × Absent a cs

  abbrev pub Placed : ℕ → List (ℕ × A) → Type 0
  Placed n [] = Unit {0}
  Placed n ((b, _) ∷ cs) = (b < n) × Absent b cs × Placed n cs

  pub lookup-update_cells :
      (a b : ℕ) (f : A → A) (cs : List (ℕ × A))
      → lookup b (update_cells a f cs)
        ≡ (if a == b then Option.map f (lookup b cs) else lookup b cs)
  unfolding lookup update_cells
  lookup-update_cells a b f [] = ground arith
  lookup-update_cells a b f ((c, x) ∷ cs) = ground (arith, lookup-update_cells a b f cs)

  pub lookup-map_cells :
      (b : ℕ) (f : A → A) (cs : List (ℕ × A))
      → lookup b (map_cells f cs) ≡ Option.map f (lookup b cs)
  unfolding lookup map_cells
  lookup-map_cells b f [] = refl
  lookup-map_cells b f ((c, x) ∷ cs) = ground (arith, lookup-map_cells b f cs)

  -- New elements at the end leave what a pointer reads.
  pub lookup-append :
      (b : ℕ) (cs ds : List (ℕ × A)) (x : A) → lookup b cs ≡ some x → lookup b (cs ++ ds) ≡ some x
  unfolding lookup
  lookup-append b [] ds x h = cc
  lookup-append b ((c, y) ∷ cs) ds x h = ground (arith, lookup-append b cs ds x)

  -- Erasing an element leaves what the other pointers read, if the addresses stay.
  pub lookup-without : (a b : ℕ) (cs : List (ℕ × A)) → a ≢ b → lookup b (without a cs) ≡ lookup b cs
  unfolding lookup without
  lookup-without a b [] h = refl
  lookup-without a b ((c, y) ∷ cs) h = ground (arith, lookup-without a b cs h)

  pub update_cells-Placed :
      (n a : ℕ) (f : A → A) (cs : List (ℕ × A)) → Placed n cs → Placed n (update_cells a f cs)
  unfolding update_cells
  update_cells-Placed n a f [] h = tt
  update_cells-Placed n a f ((c, y) ∷ cs) h =
      (h.0, absent c cs h.1, update_cells-Placed n a f cs h.2)
    where
      absent : (b : ℕ) (ds : List (ℕ × A)) → Absent b ds → Absent b (update_cells a f ds)
      absent b [] k = tt
      absent b ((_, _) ∷ ds) k = (k.0, absent b ds k.1)

  pub map_cells-Placed :
      (n : ℕ) (f : A → A) (cs : List (ℕ × A)) → Placed n cs → Placed n (map_cells f cs)
  unfolding map_cells
  map_cells-Placed n f [] h = tt
  map_cells-Placed n f ((c, y) ∷ cs) h = (h.0, absent c cs h.1, map_cells-Placed n f cs h.2)
    where
      absent : (b : ℕ) (ds : List (ℕ × A)) → Absent b ds → Absent b (map_cells f ds)
      absent b [] k = tt
      absent b ((_, _) ∷ ds) k = (k.0, absent b ds k.1)

  Absent-without : (b a : ℕ) (cs : List (ℕ × A)) → Absent b cs → Absent b (without a cs)
  unfolding without
  Absent-without b a [] h = tt
  Absent-without b a ((c, y) ∷ cs) h = ground (arith, Absent-without b a cs h.1)

  pub without-Placed : (n a : ℕ) (cs : List (ℕ × A)) → Placed n cs → Placed n (without a cs)
  unfolding without
  without-Placed n a [] h = tt
  without-Placed n a ((c, y) ∷ cs) h =
      ground (arith, without-Placed n a cs h.2, Absent-without c a cs h.1)

  Absent-append :
      (b n : ℕ) (x : A) (cs : List (ℕ × A)) → n ≢ b → Absent b cs → Absent b (cs ++ (n, x) ∷ [])
  Absent-append b n x [] h k = (h, tt)
  Absent-append b n x ((c, y) ∷ cs) h k = (k.0, Absent-append b n x cs h k.1)

  pub push_back-Placed :
      (n : ℕ) (x : A) (cs : List (ℕ × A)) → Placed n cs → Placed (suc n) (cs ++ (n, x) ∷ [])
  push_back-Placed n x [] h = (omega arith, tt, tt)
  push_back-Placed n x ((c, y) ∷ cs) h =
      (omega arith, Absent-append c n x cs (omega arith) h.1, push_back-Placed n x cs h.2)

  pub lookup_absent : (n : ℕ) (cs : List (ℕ × A)) → Placed n cs → lookup n cs ≡ none
  unfolding lookup
  lookup_absent n [] h = refl
  lookup_absent n ((c, y) ∷ cs) h = ground (arith, lookup_absent n cs h.2)
