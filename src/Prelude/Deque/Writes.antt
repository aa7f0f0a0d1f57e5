-- ===== src/Prelude/Deque/Writes.antt =====
-- Writes through several pointers into a deque, one after another.
use device_access_opc_ua_bac.Prelude.{
  ℕ, Bool, false, ◌||◌, ◌≡◌, refl, List, [], ◌∷◌, some, arith, Bool-cases, inl, inr, ◌==◌, ==_iff,
  ==_refl, All, if◌then◌else◌,
}
use device_access_opc_ua_bac.Prelude.Map.{lookup}
use device_access_opc_ua_bac.Prelude.Deque.{Absent, Placed, update_cells}

unfoldable pub among : ℕ → List ℕ → Bool
among b [] = false
among b (a ∷ l) = b == a || among b l

module _ {ℓ} {A : Type ℓ} where
  -- The write through the pointer `a` makes `f a x` of what it finds.
  unfoldable pub write_all : (ℕ → A → A) → List ℕ → List (ℕ × A) → List (ℕ × A)
  write_all f [] cs = cs
  write_all f (a ∷ l) cs = write_all f l (update_cells a (f a) cs)

  written : (ℕ → A → A) → ℕ → List ℕ → A → A
  written f b [] x = x
  written f b (a ∷ l) x = written f b l (if b == a then f a x else x)

  pub write_all_nil : (f : ℕ → A → A) (l : List ℕ) → write_all f l [] ≡ []
  unfolding write_all update_cells
  write_all_nil f [] = refl
  write_all_nil f (a ∷ l) = write_all_nil f l

  write_all_cons :
      (f : ℕ → A → A) (l : List ℕ) (b : ℕ) (x : A) (cs : List (ℕ × A))
      → write_all f l ((b, x) ∷ cs) ≡ (b, written f b l x) ∷ write_all f l cs
  unfolding write_all written update_cells
  write_all_cons f [] b x cs = refl
  write_all_cons f (a ∷ l) b x cs =
      write_all_cons f l b (if b == a then f a x else x) (update_cells a (f a) cs)

  module _ (f : ℕ → A → A) (once : (a : ℕ) (x : A) → f a (f a x) ≡ f a x) where
    written_again : (l : List ℕ) (b : ℕ) (x : A) → written f b l (f b x) ≡ f b x
    unfolding written
    written_again [] b x = refl
    written_again (a ∷ l) b x = elim (Bool-cases (b == a)) [
      | inl e ↦ rw (e, ← (==_iff b a).0 e, once b x) (written_again l b x)
      | inr e ↦ rw e (written_again l b x)
    ]

    written-among :
        (l : List ℕ) (b : ℕ) (x : A) → written f b l x ≡ (if among b l then f b x else x)
    unfolding written among
    written-among [] b x = refl
    written-among (a ∷ l) b x = elim (Bool-cases (b == a)) [
      | inl e ↦ rw (e, ← (==_iff b a).0 e) (written_again l b x)
      | inr e ↦ rw e (written-among l b x)
    ]

    -- A write that is done twice is the same as once.
    pub write_all-cell :
        (l : List ℕ) (b : ℕ) (x : A) (cs : List (ℕ × A))
        → write_all f l ((b, x) ∷ cs) ≡ (b, (if among b l then f b x else x)) ∷ write_all f l cs
    write_all-cell l b x cs = rw (write_all_cons f l b x cs, written-among l b x) refl

-- Distinct addresses: each cell is the one that is read at its address.
lookup-Absent {ℓ} :
    {A : Type ℓ} (b : ℕ) (x : A) (cs ds : List (ℕ × A))
    → Absent b cs
    → All (λ c. lookup c.0 ds ≡ some c.1) cs
    → All (λ c. lookup c.0 ((b, x) ∷ ds) ≡ some c.1) cs
unfolding lookup
lookup-Absent b x [] ds a h = tt
lookup-Absent b x ((c, y) ∷ cs) ds a h = (ground arith, lookup-Absent b x cs ds a.1 h.1)

pub Placed-lookup {ℓ} :
    {A : Type ℓ} (n : ℕ) (cs : List (ℕ × A)) → Placed n cs → All (λ c. lookup c.0 cs ≡ some c.1) cs
unfolding lookup
Placed-lookup n [] h = tt
Placed-lookup n ((b, x) ∷ cs) h =
    (rw (==_refl b) refl, lookup-Absent b x cs cs h.1 (Placed-lookup n cs h.2))

-- What a pointer reads after the writes.
pub lookup-write_all {ℓ} :
    {A : Type ℓ} (f : ℕ → A → A) (l : List ℕ) (b : ℕ) (x : A) (cs : List (ℕ × A))
    → ((a : ℕ) (y : A) → f a (f a y) ≡ f a y)
    → lookup b cs ≡ some x
    → lookup b (write_all f l cs) ≡ some (if among b l then f b x else x)
unfolding lookup
lookup-write_all f l b x [] once e = cc
lookup-write_all f l b x ((c, y) ∷ cs) once e = elim (Bool-cases (c == b)) [
  | inl same ↦
      let found : some y ≡ some x = ground arith in
      rw (write_all-cell f once l c y cs) (ground (arith, found))
  | inr other ↦
      rw (write_all-cell f once l c y cs, other) (lookup-write_all f l b x cs once (ground arith))
]
