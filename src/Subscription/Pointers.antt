-- ===== src/Subscription/Pointers.antt =====
-- The pointers of `subscriptionMap` (include/SubscriptionManager.h) into the deque of the items.
pub mod Calls
pub mod Requests
pub mod Roster
pub mod Joins
pub mod Departure
pub mod Changes
pub mod Arrival
use device_access_opc_ua_bac.Prelude.{
  ℕ, suc, Bool, true, false, ◌≡◌, ◌≢◌, refl, sym, ap, List, [], ◌∷◌, map, Option, none, some, arith,
  All, All-map, ◌==◌, ==_iff, Bool-cases, Option-cases, inl, inr, ◌∙◌,
}
use device_access_opc_ua_bac.Prelude.Map
use device_access_opc_ua_bac.Prelude.Map.{lookup, assign, erase}
use device_access_opc_ua_bac.Prelude.Deque
use device_access_opc_ua_bac.Prelude.Deque.{
  Deque, Placed, map_cells, update_cells, lookup-update_cells, lookup-map_cells,
  update_cells-Placed, map_cells-Placed,
}
use device_access_opc_ua_bac.Subscription.Accessors.{
  AllManned, KeepsManned, map_cells-AllManned, update_cells-AllManned,
}
use device_access_opc_ua_bac.System.{System, MonitorItem}
use device_access_opc_ua_bac.Subscription.{is_running}

abbrev pub Items : Type 0
Items = Deque MonitorItem

-- The pointer leads to an item that is monitored under this id.
abbrev pub PointsAt : Items → ℕ → ℕ → Type 0
PointsAt d id a =
    (i : MonitorItem) × (Deque.deref d a ≡ some i) × (i.id ≡ id) × (i.is_monitored ≡ true)

abbrev pub Points : Items → List (ℕ × ℕ) → Type 0
Points d = All (λ e. PointsAt d e.0 e.1)

abbrev pub addresses : List (ℕ × MonitorItem) → List ℕ
addresses = map (λ c. c.0)

abbrev pub Unmonitored : ℕ → Items → Type 0
Unmonitored a d = (i : MonitorItem) → Deque.deref d a ≡ some i → i.is_monitored ≡ false

abbrev pub Focus : Option ℕ → Items → Type 0
Focus none d = Unit {0}
Focus (some a) d = Unmonitored a d

-- The items stand at the addresses `places`, every pointer of the map is good, its keys rise, and the
-- item in focus, if there is one, is not monitored; each item has accessors, which are alive.
pub record Good (live places : List ℕ) (o : Option ℕ) (d : Items) (m : List (ℕ × ℕ)) : Type 0 where
  pub placed : Placed d.fresh d.cells
  pub points : Points d m
  pub sorted : Map.Rising 0 m
  pub addressed : addresses d.cells ≡ places
  pub focus : Focus o d
  pub manned : AllManned live d.cells

-- Monitored items stay what they are.
abbrev pub Tracks : Items → Items → Type 0
Tracks d e =
    (a : ℕ) (i : MonitorItem) → Deque.deref d a ≡ some i → i.is_monitored ≡ true → PointsAt e i.id a

pub Points-Tracks : (d e : Items) (m : List (ℕ × ℕ)) → Tracks d e → Points d m → Points e m
Points-Tracks d e m t =
    All-map _ _
      (λ c p.
        let (i, at, same, on) = p in
        let (j, at', same', on') = t c.1 i at on in (j, at', same' ∙ same, on'))
      m

-- A change of an item that leaves its id and whether it is monitored.
abbrev pub IsGentle : (MonitorItem → MonitorItem) → Type 0
IsGentle f = (i : MonitorItem) → ((f i).id ≡ i.id) × ((f i).is_monitored ≡ i.is_monitored)

addresses-map_cells :
    (f : MonitorItem → MonitorItem) (cs : List (ℕ × MonitorItem))
    → addresses (map_cells f cs) ≡ addresses cs
unfolding map_cells
addresses-map_cells f [] = refl
addresses-map_cells f ((a, i) ∷ cs) = ap (◌∷◌ a) (addresses-map_cells f cs)

pub addresses-update_cells :
    (a : ℕ) (f : MonitorItem → MonitorItem) (cs : List (ℕ × MonitorItem))
    → addresses (update_cells a f cs) ≡ addresses cs
unfolding update_cells
addresses-update_cells a f [] = refl
addresses-update_cells a f ((b, i) ∷ cs) = ap (◌∷◌ b) (addresses-update_cells a f cs)

pub map_items-Tracks :
    (f : MonitorItem → MonitorItem) (d : Items) → IsGentle f → Tracks d (Deque.map_items f d)
map_items-Tracks f d g a i at on =
    (f i, ground (arith, lookup-map_cells a f d.cells), (g i).0, (g i).1 ∙ on)

pub modify-Tracks :
    (b : ℕ) (f : MonitorItem → MonitorItem) (d : Items) → IsGentle f → Tracks d (Deque.modify d b f)
modify-Tracks b f d g a i at on = elim (Bool-cases (b == a)) [
  | inl e ↦ (f i, rw (lookup-update_cells b a f d.cells, e, at), (g i).0, (g i).1 ∙ on)
  | inr e ↦ (i, rw (lookup-update_cells b a f d.cells, e, at), refl, on)
]

abbrev pub KeepsUnmonitored : (MonitorItem → MonitorItem) → Type 0
KeepsUnmonitored f = (i : MonitorItem) → i.is_monitored ≡ false → (f i).is_monitored ≡ false

map_items-Focus :
    (f : MonitorItem → MonitorItem) (o : Option ℕ) (d : Items)
    → KeepsUnmonitored f
    → Focus o d
    → Focus o (Deque.map_items f d)
map_items-Focus f none d k u = tt
map_items-Focus f (some a) d k u = λ i at. elim (Option-cases (lookup a d.cells)) [
  | inl e ↦ ground (arith, lookup-map_cells a f d.cells)
  | inr (j, e) ↦ ground (arith, lookup-map_cells a f d.cells, u j e, k j)
]

pub modify-Focus :
    (b : ℕ) (f : MonitorItem → MonitorItem) (o : Option ℕ) (d : Items)
    → KeepsUnmonitored f
    → Focus o d
    → Focus o (Deque.modify d b f)
modify-Focus b f none d k u = tt
modify-Focus b f (some a) d k u = λ i at. elim (Option-cases (lookup a d.cells)) [
  | inl e ↦ ground (arith, lookup-update_cells b a f d.cells)
  | inr (j, e) ↦ ground (arith, lookup-update_cells b a f d.cells, u j e, k j)
]

module _ (live places : List ℕ) (o : Option ℕ) (d : Items) (m : List (ℕ × ℕ)) where
  pub map_items-Good :
      (f : MonitorItem → MonitorItem)
      → IsGentle f
      → KeepsManned live f
      → Good live places o d m
      → Good live places o (Deque.map_items f d) m
  map_items-Good f g q h = record {
    placed = map_cells-Placed d.fresh f d.cells h.placed;
    points = Points-Tracks d (Deque.map_items f d) m (map_items-Tracks f d g) h.points;
    sorted = h.sorted;
    addressed = addresses-map_cells f d.cells ∙ h.addressed;
    focus = map_items-Focus f o d (λ i e. (g i).1 ∙ e) h.focus;
    manned = map_cells-AllManned live f d.cells q h.manned;
  }

  pub modify-Good :
      (a : ℕ) (f : MonitorItem → MonitorItem)
      → IsGentle f
      → KeepsManned live f
      → Good live places o d m
      → Good live places o (Deque.modify d a f) m
  modify-Good a f g q h = record {
    placed = update_cells-Placed d.fresh a f d.cells h.placed;
    points = Points-Tracks d (Deque.modify d a f) m (modify-Tracks a f d g) h.points;
    sorted = h.sorted;
    addressed = addresses-update_cells a f d.cells ∙ h.addressed;
    focus = modify-Focus a f o d (λ i e. (g i).1 ∙ e) h.focus;
    manned = update_cells-AllManned live a f d.cells q h.manned;
  }

  -- An emptied map has no pointer to keep good.
  pub reset-Good :
      (f : MonitorItem → MonitorItem)
      → KeepsUnmonitored f
      → KeepsManned live f
      → Good live places o d m
      → Good live places o (Deque.map_items f d) []
  reset-Good f k q h = record {
    placed = map_cells-Placed d.fresh f d.cells h.placed;
    points = tt;
    sorted = tt;
    addressed = addresses-map_cells f d.cells ∙ h.addressed;
    focus = map_items-Focus f o d k h.focus;
    manned = map_cells-AllManned live f d.cells q h.manned;
  }

-- Only a thread in its loop runs, and the callbacks know the client.
abbrev pub Attached : System → Type 0
Attached s = (s.run ≡ true → is_running s.thread ≡ true) × (s.registered ≡ true)

-- What every operation of the manager keeps.
abbrev pub Held : List ℕ → Option ℕ → System → Type 0
Held places o s = Good s.live places o s.items s.subscription_map × Attached s
