-- ===== src/Subscription/Pointers/Roster.antt =====
-- Adding and removing items: where the addresses change.
use device_access_opc_ua_bac.Prelude.{
  ℕ, Bool, true, ◌≡◌, ◌≢◌, refl, ap, Text, List, [], ◌∷◌, ◌||◌, none, some, arith, ◌==◌, ◌∙◌,
  if_cases,
}
use device_access_opc_ua_bac.Prelude.Map.{lookup, erase, erase-Rising}
use device_access_opc_ua_bac.Prelude.Deque
use device_access_opc_ua_bac.Prelude.Deque.{
  Placed, find_cell, is_first, is_last, erase_at, without, lookup-append, lookup-without,
  push_back-Placed, without-Placed,
}
use device_access_opc_ua_bac.System.{System, MonitorItem, NodeId, Outcome, ok, raise, fault, M}
use device_access_opc_ua_bac.System.Safe.{Safe, Keeps}
use device_access_opc_ua_bac.Prelude.Deque.Writes.{among}
use device_access_opc_ua_bac.Subscription.Accessors.{AllManned, AllManned-append}
use device_access_opc_ua_bac.Subscription.Monitor.{new_item}
use device_access_opc_ua_bac.Subscription.Pointers.{Items, Points, Points-Tracks, Held, addresses}

-- Every pointer of the map leads to an item that is monitored under the id of the entry, the keys of
-- the map rise, the addresses are distinct, there is no run without a thread, and the callbacks know the client.
abbrev pub Inv : System → Type 0
Inv s = Held (addresses s.items.cells) none s

pub Inv-Held : (places : List ℕ) (s : System) → Held places none s → Inv s
Inv-Held places s h = (
  record {
    placed = h.0.placed;
    points = h.0.points;
    sorted = h.0.sorted;
    addressed = refl;
    focus = tt;
    manned = h.0.manned;
  },
  h.1,
)

-- What keeps the pointers for fixed addresses keeps the invariant.
pub Keeps-Inv {ℓ} :
    {A : Type ℓ} (m : M A) → ((places : List ℕ) → Keeps (Held places none) m) → Keeps Inv m
Keeps-Inv {A} m k s h = go (m s) (k (addresses s.items.cells) s h)
  where
    go : (r : Outcome A) → Safe (Held (addresses s.items.cells) none) r → Safe Inv r
    go (ok a t) q = Inv-Held _ t q
    go (raise e t) q = Inv-Held _ t q
    go (fault x) q = q

pub push_back-Inv :
    (name : Text) (node : NodeId) (accessor : ℕ) (s : System)
    → among accessor s.live ≡ true
    → Inv s
    → Inv (record s { items = Deque.push_back s.items (new_item name node accessor) })
push_back-Inv name node accessor s alive h = (
  record {
    placed = push_back-Placed s.items.fresh (new_item name node accessor) s.items.cells h.0.placed;
    points =
        Points-Tracks s.items (Deque.push_back s.items (new_item name node accessor))
          s.subscription_map (λ a i at on. (i, lookup-append a s.items.cells _ i at, refl, on))
          h.0.points;
    sorted = h.0.sorted;
    addressed = refl;
    focus = tt;
    manned = AllManned-append s.live s.items.cells _ h.0.manned ((accessor, [], refl), (alive, tt));
  },
  h.1,
)

-- The item may be erased and leave the addresses of the others.
abbrev pub IsAtEnd : ℕ → System → Type 0
IsAtEnd a s = (is_first a s.items.cells || is_last a s.items.cells) ≡ true

-- The entries that `erase` leaves lead to other items.
erase-Points :
    (a : ℕ) (i : MonitorItem) (d e : Items) (m : List (ℕ × ℕ))
    → Deque.deref d a ≡ some i
    → ((b : ℕ) → a ≢ b → Deque.deref e b ≡ Deque.deref d b)
    → Points d m
    → Points e (erase i.id m)
unfolding erase
erase-Points a i d e [] at same p = tt
erase-Points a i d e ((id, b) ∷ m) at same p =
    if_cases (Points e) (id == i.id) _ _ (λ _. erase-Points a i d e m at same p.1)
      λ other.
        let (j, at', named, on) = p.0 in
        let apart : a ≢ b = λ q. ground (arith, ap (Deque.deref d) q) in
        ((j, same b apart ∙ at', named, on), erase-Points a i d e m at same p.1)

pub erase-Inv :
    (a : ℕ) (i : MonitorItem) (live : List ℕ) (s : System)
    → Deque.deref s.items a ≡ some i
    → IsAtEnd a s
    → AllManned live (without a s.items.cells)
    → Inv s
    → Inv (record s {
      live = live;
      subscription_map = erase i.id s.subscription_map;
      items = erase_at s.items a;
    })
unfolding erase_at
erase-Inv a i live s at edge manned h = rw edge (
  record {
    placed = without-Placed s.items.fresh a s.items.cells h.0.placed;
    points =
        erase-Points a i s.items (record s.items { cells = without a s.items.cells })
          s.subscription_map at (λ b. lookup-without a b s.items.cells) h.0.points;
    sorted = erase-Rising 0 i.id s.subscription_map h.0.sorted;
    addressed = refl;
    focus = tt;
    manned = manned;
  },
  h.1,
)

lookup_of_Absent : (b : ℕ) (cs : List (ℕ × MonitorItem)) → Deque.Absent b cs → lookup b cs ≡ none
unfolding lookup
lookup_of_Absent b [] h = refl
lookup_of_Absent b ((c, x) ∷ cs) h = ground (arith, lookup_of_Absent b cs h.1)

-- What `std::find` returns points to what it found.
pub lookup-find_cell :
    (test : MonitorItem → Bool) (n : ℕ) (cs : List (ℕ × MonitorItem)) (a : ℕ) (i : MonitorItem)
    → Placed n cs
    → find_cell test cs ≡ some (a, i)
    → lookup a cs ≡ some i
unfolding lookup find_cell
lookup-find_cell test n [] a i p h = cc
lookup-find_cell test n ((b, x) ∷ cs) a i p h =
    ground (arith, lookup-find_cell test n cs a i p.2, lookup_of_Absent b cs p.1)
