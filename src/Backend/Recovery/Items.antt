-- ===== src/Backend/Recovery/Items.antt =====
-- The items that the server has taken, looked up by their addresses.
use device_access_opc_ua_bac.Prelude.{
  ℕ, Bool, true, false, ◌&&◌, ◌≡◌, refl, sym, ap, Text, List, [], ◌∷◌, map, some, arith, ◌∙◌, All,
  length, ltb, ◌==◌, ==_refl, Bool-cases, inl, inr,
}
use device_access_opc_ua_bac.Prelude.Map.{lookup}
use device_access_opc_ua_bac.Prelude.Deque.{update_cells}
use device_access_opc_ua_bac.Prelude.Deque.Writes.{
  among, write_all, lookup-write_all, Placed-lookup,
}
use device_access_opc_ua_bac.System.{System, MonitorItem, is_connected, null}
use device_access_opc_ua_bac.System.Returns.{Returns}
use device_access_opc_ua_bac.Subscription.Monitor.{
  activated_item, monitored_item, add_monitored_items, needs_monitoring,
}
use device_access_opc_ua_bac.Subscription.Recovery.{
  takes_all, add_items-takes_all, requested, lookup-assign_all, after_requests, IsNewAt,
}
use device_access_opc_ua_bac.Subscription.Accessors.{AllManned}
use device_access_opc_ua_bac.Subscription.Pointers.{Items, addresses, addresses-update_cells}
use device_access_opc_ua_bac.Subscription.Board.{entries_of}
use device_access_opc_ua_bac.Backend.Recovery.Roster.{key, IsBlank}
use device_access_opc_ua_bac.Backend.Recovery.Restart.{Subscribed}

abbrev pub Cells : Type 0
Cells = List (ℕ × MonitorItem)

abbrev pub roster : List (ℕ × ℕ) → Cells → List (Text × List ℕ)
roster m cs = map key (entries_of m cs)

blank-IsNewAt :
    (ids : ℕ → ℕ) (live : List ℕ) (d : Items) (m : List (ℕ × ℕ)) (cs : Cells)
    → All (λ c. lookup c.0 d.cells ≡ some c.1) cs
    → IsBlank (entries_of m cs)
    → AllManned live cs
    → All (λ c. IsNewAt ids live d c.0) cs
unfolding entries_of
blank-IsNewAt ids live d m [] h k q = tt
blank-IsNewAt ids live d m ((a, i) ∷ cs) h k q =
    ((i, h.0, k.0, q.0), blank-IsNewAt ids live d m cs h.1 k.1 q.1)

-- With the same addresses and the same roster, each pointer reads an item with the same accessors.
roster-lookup :
    (l m : List (ℕ × ℕ)) (a : ℕ) (i : MonitorItem) (cs ds : Cells)
    → addresses cs ≡ addresses ds
    → roster l cs ≡ roster m ds
    → lookup a cs ≡ some i
    → (j : MonitorItem) × (lookup a ds ≡ some j) × (j.accessors ≡ i.accessors)
unfolding entries_of lookup
roster-lookup l m a i [] ds p q e = cc
roster-lookup l m a i (c ∷ cs) [] p q e = cc
roster-lookup l m a i ((b, x) ∷ cs) ((c, y) ∷ ds) p q e =
    let place : b ≡ c = cc in
    let first : ◌≡◌ {A = Text × List ℕ} (x.browse_name, x.accessors) (y.browse_name, y.accessors) =
      cc in
    elim (Bool-cases (b == a)) [
      | inl same ↦
          let found : x ≡ i = ground arith in
          (
            y,
            ground arith,
            sym (ap (λ (k : Text × List ℕ). k.1) first) ∙ ap (λ z. z.accessors) found,
          )
      | inr other ↦
          let (j, at, same) = roster-lookup l m a i cs ds (cc) (cc) (ground arith) in
          (j, ground arith, same)
    ]

addresses-write_all :
    (f : ℕ → MonitorItem → MonitorItem) (l : List ℕ) (cs : Cells)
    → addresses (write_all f l cs) ≡ addresses cs
unfolding write_all
addresses-write_all f [] cs = refl
addresses-write_all f (a ∷ l) cs =
    addresses-write_all f l (update_cells a (f a) cs) ∙ addresses-update_cells a (f a) cs

among-addresses :
    (a : ℕ) (i : MonitorItem) (cs : Cells) → lookup a cs ≡ some i → among a (addresses cs) ≡ true
unfolding lookup among
among-addresses a i [] e = cc
among-addresses a i ((b, x) ∷ cs) e = ground (arith, among-addresses a i cs)

requested_twice :
    (async : Bool) (ids : ℕ → ℕ) (a : ℕ) (i : MonitorItem)
    → requested async ids a (requested async ids a i) ≡ requested async ids a i
unfolding requested monitored_item activated_item
requested_twice true ids a i = refl
requested_twice false ids a i = refl

module _ (ids : ℕ → ℕ) (distinct : (a c : ℕ) → ids a ≡ ids c → a ≡ c) where
  -- The item at the address is mapped under its id, and its accessors are those of `i`.
  abbrev pub IsServed : ℕ → MonitorItem → System → Type 0
  IsServed a i t =
      (lookup (ids a) t.subscription_map ≡ some a)
      × ((j : MonitorItem) × (lookup a t.items.cells ≡ some j) × (j.accessors ≡ i.accessors))

  -- Every item of the list is served so.
  abbrev pub AllServed : Cells → System → Type 0
  AllServed cs t = (a : ℕ) (i : MonitorItem) → lookup a cs ≡ some i → IsServed a i t

  requested-accessors :
      (async : Bool) (a : ℕ) (i : MonitorItem) → (requested async ids a i).accessors ≡ i.accessors
  unfolding requested monitored_item activated_item
  requested-accessors true a i = refl
  requested-accessors false a i = refl

  after_requests-AllServed :
      (l : List (ℕ × ℕ)) (cs : Cells) (s : System)
      → addresses cs ≡ addresses s.items.cells
      → roster l cs ≡ roster s.subscription_map s.items.cells
      → AllServed cs (after_requests ids (addresses s.items.cells) s)
  after_requests-AllServed l cs s p q = λ a i at.
      let (j, found, same) = roster-lookup l s.subscription_map a i cs s.items.cells p q at in
      let on : among a (addresses s.items.cells) ≡ true = among-addresses a j s.items.cells found in
      let f : ℕ → MonitorItem → MonitorItem = requested s.async_read_active ids in
      (
        rw (lookup-assign_all ids a (addresses s.items.cells) s.subscription_map distinct, on) refl,
        (
          f a j,
          rw
              (
                lookup-write_all f (addresses s.items.cells) a j s.items.cells
                    (requested_twice s.async_read_active ids) found,
                on,
              )
              refl,
          requested-accessors s.async_read_active a j ∙ same,
        ),
      )

  lookup_nonempty : (k v : ℕ) (m : List (ℕ × ℕ)) → lookup k m ≡ some v → length m == 0 ≡ false
  unfolding lookup
  lookup_nonempty k v [] e = cc
  lookup_nonempty k v ((j, w) ∷ m) e = ground arith

  -- The map is empty only with the items.
  AllServed-needs_monitoring :
      (cs : Cells) (s : System)
      → addresses cs ≡ addresses s.items.cells
      → AllServed cs s
      → needs_monitoring s ≡ false
  unfolding needs_monitoring lookup
  AllServed-needs_monitoring cs s p h = go cs s.items.cells p h
    where
      go :
          (cs ds : Cells)
          → addresses cs ≡ addresses ds
          → AllServed cs s
          → (ltb 0 (length ds) && length s.subscription_map == 0) ≡ false
      go [] [] p h = refl
      go [] (d ∷ ds) p h = cc
      go ((a, i) ∷ cs) ds p h =
          let served : IsServed a i s = h a i (rw (==_refl a) refl) in
          rw (lookup_nonempty (ids a) a s.subscription_map served.0) (ground arith)

  -- What `open` leaves for `activateAsyncRead`.
  abbrev pub Prepared : Cells → System → Type 0
  Prepared cs t =
      ((is_connected t ≡ true) × (t.has_manager ≡ true))
      × ((t.thread ≡ null) × (t.subscription_active ≡ true))
      × ((needs_monitoring t ≡ false) × AllServed cs t)

  pub add_monitored_items-Prepared :
      (l : List (ℕ × ℕ)) (cs : Cells) (s : System)
      → Subscribed (addresses cs) (roster l cs) s
      → Returns (Prepared cs) (add_monitored_items (takes_all ids) s)
  unfolding add_monitored_items is_connected
  add_monitored_items-Prepared l cs s h =
      let places : List ℕ = addresses s.items.cells in
      let same : addresses cs ≡ places = sym (h.0.0.0.0.addressed) in
      let new : All (λ c. IsNewAt ids s.live s.items c.0) s.items.cells =
        blank-IsNewAt ids s.live s.items s.subscription_map s.items.cells
          (Placed-lookup s.items.fresh s.items.cells h.0.0.0.0.placed) h.0.0.1.1 h.0.0.0.0.manned in
      let served : AllServed cs (after_requests ids places s) =
        after_requests-AllServed l cs s same (sym h.0.0.1.0.0) in
      rw (add_items-takes_all ids s.items.fresh s.items.cells s h.0.0.0.0.placed new, Returns)
        (
          (h.0.1, h.0.0.1.0.1),
          (h.1.2, h.1.1),
          (
            AllServed-needs_monitoring cs (after_requests ids places s)
                (same
                  ∙ sym (
                      addresses-write_all (requested s.async_read_active ids) places s.items.cells))
                served,
            served,
          ),
        )
