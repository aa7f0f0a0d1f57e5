-- ===== src/Subscription/Recovery.antt =====
-- What `addMonitoredItems` of src/SubscriptionManager.cc leaves where the server takes every item: each
-- is monitored under its id, and mapped.
use device_access_opc_ua_bac.Prelude.{
  ℕ, Bool, false, ◌≡◌, refl, List, [], ◌∷◌, some, arith, Bool-cases, inl, inr, ◌==◌, ◌∙◌, All,
  if◌then◌else◌,
}
use device_access_opc_ua_bac.Prelude.Map
use device_access_opc_ua_bac.Prelude.Map.{lookup, lookup-assign}
use device_access_opc_ua_bac.Prelude.Deque
use device_access_opc_ua_bac.Prelude.Deque.{Absent, update_cells, lookup-update_cells}
use device_access_opc_ua_bac.Prelude.Deque.Writes.{among, write_all}
use device_access_opc_ua_bac.System.{System, MonitorItem, ok}
use device_access_opc_ua_bac.System.Safe.{bind_ok}
use device_access_opc_ua_bac.Callbacks.{handle_all}
use device_access_opc_ua_bac.Subscription.Accessors.{IsManned, first_accessor-IsManned}
use device_access_opc_ua_bac.Subscription.Pointers.{Items, addresses}
use device_access_opc_ua_bac.Subscription.Monitor.{
  MonitorAnswer, monitored, take_monitored, request_item, activated_item, monitored_item, add_item,
  add_items,
}

-- A server that takes every item and gives it the id that goes with its address.
abbrev pub takes_all : (ℕ → ℕ) → ℕ → MonitorAnswer
takes_all ids a = record { events = []; result = monitored (ids a) }

-- An item that was asked for, with or without `asyncReadActive`.
unfoldable pub requested : Bool → (ℕ → ℕ) → ℕ → MonitorItem → MonitorItem
unfolding activated_item monitored_item
requested async ids a i = monitored_item (ids a) (if async then activated_item i else i)

unfoldable pub assign_all : (ℕ → ℕ) → List ℕ → List (ℕ × ℕ) → List (ℕ × ℕ)
assign_all ids [] m = m
assign_all ids (a ∷ l) m = assign_all ids l (Map.assign (ids a) a m)

update_twice :
    (a : ℕ) (f g : MonitorItem → MonitorItem) (cs : List (ℕ × MonitorItem))
    → update_cells a g (update_cells a f cs) ≡ update_cells a (λ i. g (f i)) cs
unfolding update_cells
update_twice a f g [] = refl
update_twice a f g ((b, i) ∷ cs) = elim (Bool-cases (b == a)) [
  | inl e ↦ rw (e, update_twice a f g cs) refl
  | inr e ↦ rw (e, update_twice a f g cs) refl
]

module _ (ids : ℕ → ℕ) where
  abbrev requested_at : ℕ → System → System
  requested_at a s = record s {
    items = Deque.modify s.items a (requested s.async_read_active ids a);
    subscription_map = Map.assign (ids a) a s.subscription_map;
  }

  add_item-takes_all :
      (a : ℕ) (i : MonitorItem) (s : System)
      → Deque.deref s.items a ≡ some i
      → i.is_monitored ≡ false
      → IsManned s.live i
      → add_item (takes_all ids a) a s ≡ ok tt (requested_at a s)
  unfolding add_item request_item take_monitored handle_all requested
  add_item-takes_all a i s at off manned = ground (
    arith,
    first_accessor-IsManned i s manned,
    first_accessor-IsManned i (record s { items = Deque.modify s.items a activated_item }) manned,
    update_twice a activated_item (monitored_item (ids a)) s.items.cells,
  )

  -- The item at the address is not monitored yet; its accessors are alive.
  abbrev pub IsNewAt : List ℕ → Items → ℕ → Type 0
  IsNewAt live d a =
      (i : MonitorItem) × (Deque.deref d a ≡ some i) × (i.is_monitored ≡ false) × IsManned live i

  modify-IsNewAt :
      (live : List ℕ) (a : ℕ) (f : MonitorItem → MonitorItem) (d : Items)
      (cs : List (ℕ × MonitorItem))
      → Absent a cs
      → All (λ c. IsNewAt live d c.0) cs
      → All (λ c. IsNewAt live (Deque.modify d a f) c.0) cs
  modify-IsNewAt live a f d [] h k = tt
  modify-IsNewAt live a f d ((b, j) ∷ cs) h ((i, at, off, m), k) = (
    (i, ground (arith, lookup-update_cells a b f d.cells), off, m),
    modify-IsNewAt live a f d cs h.1 k,
  )

  abbrev pub after_requests : List ℕ → System → System
  after_requests l s = record s {
    items = record s.items {
      cells = write_all (requested s.async_read_active ids) l s.items.cells;
    };
    subscription_map = assign_all ids l s.subscription_map;
  }

  pub add_items-takes_all :
      (n : ℕ) (cs : List (ℕ × MonitorItem)) (s : System)
      → Deque.Placed n cs
      → All (λ c. IsNewAt s.live s.items c.0) cs
      → add_items (takes_all ids) cs s ≡ ok tt (after_requests (addresses cs) s)
  unfolding add_items write_all assign_all
  add_items-takes_all n [] s p h = refl
  add_items-takes_all n ((a, j) ∷ cs) s p ((i, at, off, m), h) =
      let t : System = requested_at a s in
      bind_ok (add_item (takes_all ids a) a) (λ _. add_items (takes_all ids) cs) s tt t
        (add_item-takes_all a i s at off m)
      ∙ add_items-takes_all n cs t p.2
          (modify-IsNewAt s.live a (requested s.async_read_active ids a) s.items cs p.1 h)

  -- With an id of its own, each item is mapped.
  pub lookup-assign_all :
      (b : ℕ) (l : List ℕ) (m : List (ℕ × ℕ))
      → ((a c : ℕ) → ids a ≡ ids c → a ≡ c)
      → lookup (ids b) (assign_all ids l m) ≡ (if among b l then some b else lookup (ids b) m)
  unfolding assign_all among
  lookup-assign_all b [] m h = refl
  lookup-assign_all b (a ∷ l) m h = ground (
    arith,
    lookup-assign_all b l (Map.assign (ids a) a m) h,
    lookup-assign (ids a) (ids b) a m,
    h b a,
  )
