-- ===== src/Subscription/Pointers/Departure.antt =====
-- An accessor that goes (`unsubscribe` of src/SubscriptionManager.cc): what is left has no pointer to it.
use device_access_opc_ua_bac.Prelude.{
  ℕ, true, false, ◌≡◌, refl, Text, List, [], ◌∷◌, none, some, arith, All, All-map, ◌==◌, ==_refl,
  ==_iff, Bool-cases, inl, inr, length, ltb, Option-cases, ◌⊎◌,
}
use device_access_opc_ua_bac.Prelude.Map.{lookup}
use device_access_opc_ua_bac.Prelude.Deque.{Placed, Absent, update_cells, without, find_cell}
use device_access_opc_ua_bac.Prelude.Deque.Writes.{among, Placed-lookup}
use device_access_opc_ua_bac.System.{MonitorItem}
use device_access_opc_ua_bac.Subscription.{is_named}
use device_access_opc_ua_bac.Subscription.Accessors.{
  IsManned, AllManned, without_accessor, IsManned-without,
}
use device_access_opc_ua_bac.Subscription.Monitor.{remove_accessor}

-- The accessor is in the item that its name finds, and in no other.
abbrev pub IsAlone : Text → ℕ → List (ℕ × MonitorItem) → Type 0
IsAlone name x cs =
    (b : ℕ) (j : MonitorItem)
    → lookup b cs ≡ some j
    → among x j.accessors ≡ true
    → find_cell (is_named name) cs ≡ some (b, j)

-- The items but that at the address `a` do not have the accessor `x`.
abbrev pub LeftBy : ℕ → ℕ → List (ℕ × MonitorItem) → Type 0
LeftBy x a = All (λ c. (c.0 == a ≡ true) ⊎ (among x c.1.accessors ≡ false))

pub IsAlone-LeftBy :
    (name : Text) (x a n : ℕ) (i : MonitorItem) (cs : List (ℕ × MonitorItem))
    → Placed n cs
    → find_cell (is_named name) cs ≡ some (a, i)
    → IsAlone name x cs
    → LeftBy x a cs
IsAlone-LeftBy name x a n i cs p e alone =
    All-map _ _
      (λ (c : ℕ × MonitorItem) (at : lookup c.0 cs ≡ some c.1).
        elim (Bool-cases (among x c.1.accessors)) [
          | inl has ↦
              let q = alone c.0 c.1 at has in
              let same : c.0 ≡ a = cc in inl (rw (same, ==_refl a) refl)
          | inr off ↦ inr off
        ])
      cs (Placed-lookup n cs p)

pub IsAlone-none :
    (name : Text) (x n : ℕ) (live : List ℕ) (cs : List (ℕ × MonitorItem))
    → Placed n cs
    → find_cell (is_named name) cs ≡ none
    → IsAlone name x cs
    → AllManned live cs
    → AllManned (without_accessor x live) cs
IsAlone-none name x n live cs p e alone h = go cs (Placed-lookup n cs p) h
  where
    go :
        (ds : List (ℕ × MonitorItem))
        → All (λ c. lookup c.0 cs ≡ some c.1) ds
        → AllManned live ds
        → AllManned (without_accessor x live) ds
    go [] q h = tt
    go ((b, j) ∷ ds) q h = (
      elim (Bool-cases (among x j.accessors)) [
        | inl has ↦ let r = alone b j (q.0) has in cc (r, e)
        | inr off ↦ IsManned-without x live j off (h.0)
      ],
      go ds q.1 h.1,
    )

others-AllManned :
    (x a : ℕ) (live : List ℕ) (cs : List (ℕ × MonitorItem))
    → Absent a cs
    → LeftBy x a cs
    → AllManned live cs
    → AllManned (without_accessor x live) cs
others-AllManned x a live [] p l h = tt
others-AllManned x a live ((b, j) ∷ cs) p l h = (
  elim (l.0) [
    | inl here ↦ absurd (p.0 ((==_iff b a).0 here))
    | inr off ↦ IsManned-without x live j off (h.0)
  ],
  others-AllManned x a live cs p.1 l.1 h.1,
)

pub without-AllManned :
    (x a n : ℕ) (live : List ℕ) (cs : List (ℕ × MonitorItem))
    → Placed n cs
    → LeftBy x a cs
    → AllManned live cs
    → AllManned (without_accessor x live) (without a cs)
unfolding without
without-AllManned x a n live [] p l h = tt
without-AllManned x a n live ((b, j) ∷ cs) p l h = elim (Bool-cases (b == a)) [
  | inl e ↦ rw e (others-AllManned x a live cs (rw (← (==_iff b a).0 e) p.1) l.1 h.1)
  | inr e ↦ rw e (elim (l.0) [
    | inl here ↦ cc (here, e)
    | inr off ↦ (IsManned-without x live j off (h.0), without-AllManned x a n live cs p.2 l.1 h.1)
  ])
]

pub kept-AllManned :
    (x a : ℕ) (live rest : List ℕ) (cs : List (ℕ × MonitorItem))
    → ((i : MonitorItem) → IsManned (without_accessor x live) (record i { accessors = rest }))
    → LeftBy x a cs
    → AllManned live cs
    → AllManned (without_accessor x live) (update_cells a (λ j. record j { accessors = rest }) cs)
unfolding update_cells
kept-AllManned x a live rest [] k l h = tt
kept-AllManned x a live rest ((b, j) ∷ cs) k l h = (
  elim (Bool-cases (b == a)) [
    | inl e ↦ rw e (k j)
    | inr e ↦
        rw e
          (elim (l.0) [ inl here ↦ cc (here, e) | inr off ↦ IsManned-without x live j off (h.0) ])
  ],
  kept-AllManned x a live rest cs k l.1 h.1,
)

nothing_removed : (x : ℕ) (rest : List ℕ) → ¬ (remove_accessor x [] ≡ some rest)
unfolding remove_accessor
nothing_removed x rest e = cc

-- The first accessor goes, or one after it.
remove_accessor-cases :
    (x a : ℕ) (l rest : List ℕ)
    → remove_accessor x (a ∷ l) ≡ some rest
    → (rest ≡ l) ⊎ ((cs : List ℕ) × (remove_accessor x l ≡ some cs) × (rest ≡ a ∷ cs))
unfolding remove_accessor
remove_accessor-cases x a l rest e = elim (Bool-cases (a == x)) [
  | inl q ↦ inl (ground arith)
  | inr q ↦ elim (Option-cases (remove_accessor x l)) [
    | inl r ↦ ground arith
    | inr (cs, r) ↦ inr (cs, r, ground arith)
  ]
]

pub All-remove_accessor :
    (P : ℕ → Type 0) (x : ℕ) (l rest : List ℕ)
    → remove_accessor x l ≡ some rest
    → All P l
    → All P rest
All-remove_accessor P x [] rest e h = absurd (nothing_removed x rest e)
All-remove_accessor P x (a ∷ l) rest e h = elim (remove_accessor-cases x a l rest e) [
  | inl q ↦ rw q (h.1)
  | inr (cs, r, q) ↦ rw q (h.0, All-remove_accessor P x l cs r h.1)
]

-- What is left of more than one accessor.
pub some_left :
    (x : ℕ) (l rest : List ℕ)
    → remove_accessor x l ≡ some rest
    → ltb 1 (length l) ≡ true
    → (a : ℕ) × (as' : List ℕ) × (rest ≡ a ∷ as')
some_left x [] rest e h = absurd (nothing_removed x rest e)
some_left x (a ∷ []) rest e h = cc
some_left x (a ∷ b ∷ l) rest e h = elim (remove_accessor-cases x a (b ∷ l) rest e) [
  | inl q ↦ (b, l, q)
  | inr (cs, r, q) ↦ (a, cs, q)
]
