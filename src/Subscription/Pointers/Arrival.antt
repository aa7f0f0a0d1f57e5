-- ===== src/Subscription/Pointers/Arrival.antt =====
-- An accessor that comes (`subscribe` of src/SubscriptionManager.cc): its item has it, alive.
use device_access_opc_ua_bac.Prelude.{
  ℕ, true, not, ◌≡◌, Text, [], ◌∷◌, ◌++◌, Option, none, some, Option-cases, inl, inr,
}
use device_access_opc_ua_bac.Prelude.Deque
use device_access_opc_ua_bac.Prelude.Deque.{
  Placed, find_cell, update_cells, update_cells-Placed, is_first, is_last, erase_at, without,
  lookup-append, lookup-without, push_back-Placed, without-Placed,
}
use device_access_opc_ua_bac.System.{
  System, MonitorItem, NodeId, Message, value, exception, DataValue, put, when,
}
use device_access_opc_ua_bac.System.Safe.{
  NoThrow, DoesNotThrow, DoesNotThrow-bind, DoesNotThrow-when, NoThrow-when, Safe, Keeps, Safe-bind,
  Keeps-when,
}
use device_access_opc_ua_bac.Subscription.{is_named}
use device_access_opc_ua_bac.Subscription.Monitor.{
  CreateAnswer, MonitorAnswer, Pending, create_subscription, take_initial, push_initial, new_item,
  subscribe, created, add_new_item, share_item,
}
use device_access_opc_ua_bac.Subscription.Accessors.{share-KeepsManned, update_cells-AllManned}
use device_access_opc_ua_bac.Subscription.Throws.{
  create_subscription-NoThrow, add_monitored_items-NoThrow,
}
use device_access_opc_ua_bac.Prelude.Deque.Writes.{among}
use device_access_opc_ua_bac.Subscription.Pointers.Roster.{Inv, Keeps-Inv, push_back-Inv}
use device_access_opc_ua_bac.Subscription.Pointers.Requests.{
  create_subscription-Held, add_monitored_items-Held,
}
use device_access_opc_ua_bac.Subscription.Pointers.Changes.{set_accessors-Inv}

-- A correct state in which the accessor is alive.
abbrev pub InvWith : ℕ → System → Type 0
InvWith accessor s = Inv s × (among accessor s.live ≡ true)

add_new_item-Inv :
    (ans : CreateAnswer) (answers : ℕ → MonitorAnswer) (name : Text) (node : NodeId) (accessor : ℕ)
    (s : System)
    → InvWith accessor s
    → Safe Inv (add_new_item ans answers name node accessor s)
unfolding add_new_item
add_new_item-Inv ans answers name node accessor s h =
    let grown = record s { items = Deque.push_back s.items (new_item name node accessor) } in
    Keeps-when Inv s.async_read_active _
      (λ t k.
        Safe-bind Inv Inv (when (not s.subscription_active) (create_subscription ans)) _ t
          (λ u q. q)
          (Keeps-when Inv _ _ (Keeps-Inv _ (λ places. create_subscription-Held places ans)) t k)
          (λ _. Keeps-Inv _ (λ places. add_monitored_items-Held places answers)))
      grown (push_back-Inv name node accessor s h.1 h.0)

push_initial-Inv : (v : DataValue) (accessor : ℕ) → Keeps Inv (push_initial v accessor)
unfolding push_initial
push_initial-Inv v accessor =
    Keeps-when Inv v.has_value (put λ s. record s { pushed = s.pushed ++ (accessor, value v) ∷ [] })
      (λ s h. h)

take_initial-Inv :
    (front : Option Message) (current : DataValue) (accessor : ℕ)
    → Keeps Inv (take_initial front current accessor)
unfolding take_initial
take_initial-Inv none current accessor = push_initial-Inv current accessor
take_initial-Inv (some (value v)) current accessor = push_initial-Inv v accessor
take_initial-Inv (some (exception e)) current accessor = λ s h. h

share_item-Inv :
    (p : Pending) (a : ℕ) (i : MonitorItem) (accessor : ℕ) (s : System)
    → InvWith accessor s
    → Safe Inv (share_item p a i accessor s)
unfolding share_item
share_item-Inv p a i accessor s h =
    Keeps-when Inv i.active _ (take_initial-Inv p.front p.current accessor) _ (
      set_accessors-Inv a (λ as'. as' ++ accessor ∷ []) s.live s
        (update_cells-AllManned s.live a _ s.items.cells (share-KeepsManned s.live accessor h.1)
          h.0.0.manned)
        h.0)

pub subscribe-Inv :
    (ans : CreateAnswer) (answers : ℕ → MonitorAnswer) (p : Pending) (name : Text) (node : NodeId)
    (accessor : ℕ) (s : System)
    → InvWith accessor s
    → Safe Inv (subscribe ans answers p name node accessor s)
unfolding subscribe
subscribe-Inv ans answers p name node accessor s h =
    elim (Option-cases (find_cell (is_named name) s.items.cells)) [
      | inl e ↦ rw (e, Safe) (add_new_item-Inv ans answers name node accessor s h)
      | inr ((a, i), e) ↦ rw (e, Safe) (share_item-Inv p a i accessor s h)
    ]

-- The front of the queue is no exception.
abbrev pub IsQuiet : Option Message → Type 0
IsQuiet none = Unit {0}
IsQuiet (some (value v)) = Unit {0}
IsQuiet (some (exception e)) = ⊥

push_initial-NoThrow : (v : DataValue) (accessor : ℕ) → NoThrow (push_initial v accessor)
unfolding push_initial
push_initial-NoThrow v accessor =
    NoThrow-when v.has_value (put λ s. record s { pushed = s.pushed ++ (accessor, value v) ∷ [] })
      (λ s. tt)

take_initial-NoThrow :
    (front : Option Message) (current : DataValue) (accessor : ℕ)
    → IsQuiet front
    → NoThrow (take_initial front current accessor)
unfolding take_initial
take_initial-NoThrow none current accessor q = push_initial-NoThrow current accessor
take_initial-NoThrow (some (value v)) current accessor q = push_initial-NoThrow v accessor
take_initial-NoThrow (some (exception e)) current accessor q = absurd q

-- `subscribe` throws only where the server refuses the subscription, and where the queue of the other
-- accessor has an exception in front.
pub subscribe-NoThrow :
    (ans : CreateAnswer) (answers : ℕ → MonitorAnswer) (p : Pending) (name : Text) (node : NodeId)
    (accessor id revised : ℕ) (s : System)
    → ans.result ≡ created id revised
    → IsQuiet p.front
    → InvWith accessor s
    → DoesNotThrow (subscribe ans answers p name node accessor s)
unfolding subscribe add_new_item share_item
subscribe-NoThrow ans answers p name node accessor id revised s good quiet h =
    elim (Option-cases (find_cell (is_named name) s.items.cells)) [
      | inl e ↦
          let grown = record s { items = Deque.push_back s.items (new_item name node accessor) } in
          let k = push_back-Inv name node accessor s h.1 h.0 in
          rw (e, DoesNotThrow)
            (DoesNotThrow-when s.async_read_active _ grown (
              DoesNotThrow-bind Inv (when (not s.subscription_active) (create_subscription ans)) _
                grown
                (Keeps-when Inv _ _ (Keeps-Inv _ (λ places. create_subscription-Held places ans))
                  grown k)
                (NoThrow-when _ _ (create_subscription-NoThrow ans id revised good) grown)
                (λ _ t q. add_monitored_items-NoThrow answers t q)))
      | inr ((a, i), e) ↦
          rw (e, DoesNotThrow)
            (NoThrow-when i.active _ (take_initial-NoThrow p.front p.current accessor quiet) _)
    ]
