-- ===== src/Subscription/Accessors.antt =====
-- The accessors that the items of src/SubscriptionManager.cc point to: `std::vector<…> accessors` of
-- `MonitorItem` has raw pointers, which nobody tells of the end of an accessor but its destructor.
use device_access_opc_ua_bac.Prelude.{
  ℕ, true, false, ◌≡◌, refl, List, [], ◌∷◌, ◌++◌, some, arith, All, ◌==◌, Bool-cases, inl, inr,
  if◌then◌else◌, codes, subst,
}
use device_access_opc_ua_bac.Prelude.Deque.{map_cells, update_cells}
use device_access_opc_ua_bac.Prelude.Deque.Writes.{among}
use device_access_opc_ua_bac.Prelude.Map.{lookup}
use device_access_opc_ua_bac.System.{
  System, MonitorItem, ok, M, ◌>>=◌, done, get, throw, fail, dangling_pointer,
}

-- The item has an accessor, and all that it has are alive.
abbrev pub IsManned : List ℕ → MonitorItem → Type 0
IsManned live i =
    ((a : ℕ) × (as' : List ℕ) × (i.accessors ≡ a ∷ as'))
    × All (λ a. among a live ≡ true) i.accessors

abbrev pub AllManned : List ℕ → List (ℕ × MonitorItem) → Type 0
AllManned live = All (λ c. IsManned live c.1)

abbrev pub KeepsManned : List ℕ → (MonitorItem → MonitorItem) → Type 0
KeepsManned live f = (i : MonitorItem) → IsManned live i → IsManned live (f i)

pub map_cells-AllManned :
    (live : List ℕ) (f : MonitorItem → MonitorItem) (cs : List (ℕ × MonitorItem))
    → KeepsManned live f
    → AllManned live cs
    → AllManned live (map_cells f cs)
unfolding map_cells
map_cells-AllManned live f [] k h = tt
map_cells-AllManned live f ((a, i) ∷ cs) k h = (k i h.0, map_cells-AllManned live f cs k h.1)

pub update_cells-AllManned :
    (live : List ℕ) (a : ℕ) (f : MonitorItem → MonitorItem) (cs : List (ℕ × MonitorItem))
    → KeepsManned live f
    → AllManned live cs
    → AllManned live (update_cells a f cs)
unfolding update_cells
update_cells-AllManned live a f [] k h = tt
update_cells-AllManned live a f ((b, i) ∷ cs) k h = (
  elim (Bool-cases (b == a)) [ inl e ↦ rw e (k i h.0) | inr e ↦ rw e (h.0) ],
  update_cells-AllManned live a f cs k h.1,
)

pub lookup-AllManned :
    (live : List ℕ) (a : ℕ) (i : MonitorItem) (cs : List (ℕ × MonitorItem))
    → lookup a cs ≡ some i
    → AllManned live cs
    → IsManned live i
unfolding lookup
lookup-AllManned live a i [] e h = cc
lookup-AllManned live a i ((b, j) ∷ cs) e h = elim (Bool-cases (b == a)) [
  | inl q ↦ let same : j ≡ i = ground arith in subst (IsManned live) same (h.0)
  | inr q ↦ lookup-AllManned live a i cs (ground arith) h.1
]

-- `accessors.at(0)->…`: without an accessor `at` throws.
unfoldable pub first_accessor : List ℕ → M (Unit {0})
unfolding among
first_accessor [] = throw (codes "vector::_M_range_check")
first_accessor (a ∷ _) = do s ← get; if among a s.live then done else fail dangling_pointer

pub first_accessor-IsManned :
    (i : MonitorItem) (s : System) → IsManned s.live i → first_accessor i.accessors s ≡ ok tt s
unfolding first_accessor
first_accessor-IsManned i s ((a, as', e), h) =
    let alive : among a s.live ≡ true = (subst (All (λ b. among b s.live ≡ true)) e h).0 in
    rw (e, alive) refl

-- The accessors without this one.
unfoldable pub without_accessor : ℕ → List ℕ → List ℕ
without_accessor x [] = []
without_accessor x (a ∷ as') =
    let rest = without_accessor x as' in if a == x then rest else a ∷ rest

among-without_accessor :
    (a x : ℕ) (l : List ℕ)
    → (a == x) ≡ false
    → among a l ≡ true
    → among a (without_accessor x l) ≡ true
unfolding among without_accessor
among-without_accessor a x [] e h = cc
among-without_accessor a x (b ∷ l) e h = ground (arith, among-without_accessor a x l e)

-- Accessors among which one is not stay alive when it ends.
stay_alive :
    (x : ℕ) (live l : List ℕ)
    → among x l ≡ false
    → All (λ a. among a live ≡ true) l
    → All (λ a. among a (without_accessor x live) ≡ true) l
unfolding among
stay_alive x live [] e h = tt
stay_alive x live (a ∷ l) e h =
    (among-without_accessor a x live (ground arith) (h.0), stay_alive x live l (ground arith) h.1)

pub IsManned-without :
    (x : ℕ) (live : List ℕ) (i : MonitorItem)
    → among x i.accessors ≡ false
    → IsManned live i
    → IsManned (without_accessor x live) i
IsManned-without x live i e h = (h.0, stay_alive x live i.accessors e h.1)

-- A new accessor leaves the others alive.
grow_alive :
    (x : ℕ) (live l : List ℕ)
    → All (λ a. among a live ≡ true) l
    → All (λ a. among a (x ∷ live) ≡ true) l
unfolding among
grow_alive x live [] h = tt
grow_alive x live (a ∷ l) h = (ground (arith, h.0), grow_alive x live l h.1)

pub AllManned-grow :
    (x : ℕ) (live : List ℕ) (cs : List (ℕ × MonitorItem))
    → AllManned live cs
    → AllManned (x ∷ live) cs
AllManned-grow x live [] h = tt
AllManned-grow x live ((a, i) ∷ cs) h =
    ((h.0.0, grow_alive x live i.accessors h.0.1), AllManned-grow x live cs h.1)

pub AllManned-append :
    (live : List ℕ) (cs : List (ℕ × MonitorItem)) (c : ℕ × MonitorItem)
    → AllManned live cs
    → IsManned live c.1
    → AllManned live (cs ++ c ∷ [])
AllManned-append live [] c h k = (k, tt)
AllManned-append live (b ∷ cs) c h k = (h.0, AllManned-append live cs c h.1 k)

append_alive :
    (live l : List ℕ) (x : ℕ)
    → All (λ a. among a live ≡ true) l
    → among x live ≡ true
    → All (λ a. among a live ≡ true) (l ++ x ∷ [])
append_alive live [] x h k = (k, tt)
append_alive live (a ∷ l) x h k = (h.0, append_alive live l x h.1 k)

pub share-KeepsManned :
    (live : List ℕ) (x : ℕ)
    → among x live ≡ true
    → KeepsManned live (λ i. record i { accessors = i.accessors ++ x ∷ [] })
share-KeepsManned live x k i ((a, as', e), h) =
    ((a, as' ++ x ∷ [], rw e refl), append_alive live i.accessors x h k)
