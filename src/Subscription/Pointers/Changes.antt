-- ===== src/Subscription/Pointers/Changes.antt =====
-- The operations that add and remove items (src/SubscriptionManager.cc) keep the pointers good.
use device_access_opc_ua_bac.Prelude.{
  ℕ, true, false, ◌≡◌, refl, Text, List, none, some, Option-cases, inl, inr, ◌⊎◌, length, ltb,
}
use device_access_opc_ua_bac.Prelude.Deque
use device_access_opc_ua_bac.Prelude.Deque.{
  Placed, find_cell, update_cells, update_cells-Placed, is_first, is_last, erase_at, without,
  lookup-append, lookup-without, push_back-Placed, without-Placed,
}
use device_access_opc_ua_bac.System.{System, MonitorItem}
use device_access_opc_ua_bac.System.Safe.{Safe, Keeps, Safe-bind, Keeps-bind, Keeps-when, Safe-if}
use device_access_opc_ua_bac.Subscription.{is_named, remove_subscription}
use device_access_opc_ua_bac.Subscription.Monitor.{
  UnsubscribeAnswer, remove_accessor, delete_monitored_item, close_subscription, drop_item,
  unsubscribe,
}
use device_access_opc_ua_bac.Callbacks.{handle_all}
use device_access_opc_ua_bac.Subscription.Accessors.{
  AllManned, IsManned, lookup-AllManned, without_accessor, IsManned-without,
}
use device_access_opc_ua_bac.Subscription.Pointers.{
  Held, Points-Tracks, modify-Tracks, addresses, addresses-update_cells,
}
use device_access_opc_ua_bac.Subscription.Pointers.Departure.{
  IsAlone, LeftBy, IsAlone-LeftBy, IsAlone-none, without-AllManned, kept-AllManned,
  All-remove_accessor, some_left,
}
use device_access_opc_ua_bac.Prelude.Deque.Writes.{among}
use device_access_opc_ua_bac.Subscription.Pointers.Calls.{remove_subscription-Held, handle_all-Held}
use device_access_opc_ua_bac.Subscription.Pointers.Roster.{
  Inv, Inv-Held, Keeps-Inv, IsAtEnd, erase-Inv, lookup-find_cell,
}
use device_access_opc_ua_bac.Subscription.Pointers.Joins.{stop_halted-Held}

module _ (places : List ℕ) where
  abbrev H : System → Type 0
  H = Held places none

  close_subscription-Held : (ans : UnsubscribeAnswer) → Keeps H (close_subscription ans)
  unfolding close_subscription
  close_subscription-Held ans s h =
      Safe-bind H H (remove_subscription ans.deletion) _ s (λ t k. k)
        (remove_subscription-Held places none ans.deletion s h)
        (λ _ t k.
          stop_halted-Held places ans.rounds ans.final_deletion (record t { run = false })
            ((k.0, ((λ e. cc), k.1.1)), refl))

  delete_monitored_item-Held : (ans : UnsubscribeAnswer) → Keeps H (delete_monitored_item ans)
  unfolding delete_monitored_item
  delete_monitored_item-Held ans =
      Keeps-bind H (handle_all ans.events) _ (handle_all-Held places none ans.events)
        λ _ s k. Keeps-when H _ _ (close_subscription-Held ans) s k

-- What a call of `unsubscribe` by the destructor asks for: the accessor is one of the item that its name
-- finds, once, and of no other, and if it is the last one, then the item is the first or the last of
-- the deque.
abbrev pub MayUnsubscribe : Text → ℕ → System → Type 0
MayUnsubscribe name accessor s =
    IsAlone name accessor s.items.cells
    × ((a : ℕ) (i : MonitorItem)
        → find_cell (is_named name) s.items.cells ≡ some (a, i)
        → ((rest : List ℕ) × (remove_accessor accessor i.accessors ≡ some rest)
            × (among accessor rest ≡ false))
          × ((ltb 1 (length i.accessors) ≡ true) ⊎ IsAtEnd a s))

-- The accessor is not alive any more.
abbrev pub without_it : ℕ → System → System
without_it accessor s = record s { live = without_accessor accessor s.live }

drop_item-Inv :
    (ans : UnsubscribeAnswer) (accessor a : ℕ) (i : MonitorItem) (s : System)
    → Deque.deref s.items a ≡ some i
    → IsAtEnd a s
    → LeftBy accessor a s.items.cells
    → Inv s
    → Safe Inv (drop_item ans a i (without_it accessor s))
unfolding drop_item
drop_item-Inv ans accessor a i s at edge left h =
    Keeps-when Inv _ _ (Keeps-Inv _ (λ places. delete_monitored_item-Held places ans)) _ (
      erase-Inv a i (without_accessor accessor s.live) s at edge
        (without-AllManned accessor a s.items.fresh s.live s.items.cells h.0.placed left h.0.manned)
        h)

-- A change of the accessors of an item, after which all items have accessors that are alive.
pub set_accessors-Inv :
    (a : ℕ) (f : List ℕ → List ℕ) (live : List ℕ) (s : System)
    → AllManned live (update_cells a (λ j. record j { accessors = f j.accessors }) s.items.cells)
    → Inv s
    → Inv (record s {
      live = live;
      items = Deque.modify s.items a (λ j. record j { accessors = f j.accessors });
    })
set_accessors-Inv a f live s manned h =
    let t : System = record s {
      live = live;
      items = Deque.modify s.items a (λ j. record j { accessors = f j.accessors });
    } in
    Inv-Held (addresses s.items.cells) t (
      record {
        placed = update_cells-Placed s.items.fresh a _ s.items.cells h.0.placed;
        points =
            Points-Tracks s.items t.items s.subscription_map
              (modify-Tracks a (λ j. record j { accessors = f j.accessors }) s.items
                (λ j. (refl, refl)))
              h.0.points;
        sorted = h.0.sorted;
        addressed = addresses-update_cells a _ s.items.cells;
        focus = tt;
        manned = manned;
      },
      h.1,
    )

sole :
    (a : ℕ) (i : MonitorItem) (s : System)
    → ltb 1 (length i.accessors) ≡ false
    → (ltb 1 (length i.accessors) ≡ true) ⊎ IsAtEnd a s
    → IsAtEnd a s
sole a i s few (inl many) = cc
sole a i s few (inr h) = h

-- The accessors that stay are alive without the one that goes.
rest-IsManned :
    (accessor : ℕ) (rest live : List ℕ) (i j : MonitorItem)
    → remove_accessor accessor i.accessors ≡ some rest
    → among accessor rest ≡ false
    → ltb 1 (length i.accessors) ≡ true
    → IsManned live i
    → IsManned (without_accessor accessor live) (record j { accessors = rest })
rest-IsManned accessor rest live i j found gone many h =
    IsManned-without accessor live (record j { accessors = rest }) gone
      (
        some_left accessor i.accessors rest found many,
        All-remove_accessor _ accessor i.accessors rest found h.1,
      )

pub unsubscribe-Inv :
    (ans : UnsubscribeAnswer) (name : Text) (accessor : ℕ) (s : System)
    → MayUnsubscribe name accessor s
    → Inv s
    → Safe Inv (unsubscribe ans name accessor (without_it accessor s))
unfolding unsubscribe
unsubscribe-Inv ans name accessor s (alone, may) h =
    elim (Option-cases (find_cell (is_named name) s.items.cells)) [
      | inl e ↦ rw (e, Safe) (gone-Inv e)
      | inr ((a, i), e) ↦
          let ((rest, found, gone), end_) = may a i e in
          let at = lookup-find_cell _ s.items.fresh s.items.cells a i h.0.placed e in
          let left =
            IsAlone-LeftBy name accessor a s.items.fresh i s.items.cells h.0.placed e alone in
          let manned = lookup-AllManned s.live a i s.items.cells at h.0.manned in
          rw (e, Safe)
            (Safe-if Inv (ltb 1 (length i.accessors)) _ (drop_item ans a i) (without_it accessor s)
              (λ many.
                rw (found, Safe)
                  (set_accessors-Inv a (λ _. rest) (without_accessor accessor s.live) s
                    (kept-AllManned accessor a s.live rest s.items.cells
                      (λ j. rest-IsManned accessor rest s.live i j found gone many manned) left
                      h.0.manned)
                    h))
              (λ few. drop_item-Inv ans accessor a i s at (sole a i s few end_) left h))
    ]
  where
    gone-Inv : find_cell (is_named name) s.items.cells ≡ none → Inv (without_it accessor s)
    gone-Inv e = (
      record {
        placed = h.0.placed;
        points = h.0.points;
        sorted = h.0.sorted;
        addressed = refl;
        focus = tt;
        manned =
            IsAlone-none name accessor s.items.fresh s.live s.items.cells h.0.placed e alone
              h.0.manned;
      },
      h.1,
    )
