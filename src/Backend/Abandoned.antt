-- ===== src/Backend/Abandoned.antt =====
-- An accessor whose constructor throws: `OpcUABackendRegisterAccessor` of
-- include/OPC-UA-BackendRegisterAccessor.h and `subscribe` of src/SubscriptionManager.cc.
use device_access_opc_ua_bac.Prelude.{ℕ, true, false, ◌≡◌, refl, Text, codes, List, [], ◌∷◌, arith}
use device_access_opc_ua_bac.Prelude.Map.{lookup}
use device_access_opc_ua_bac.Prelude.Deque
use device_access_opc_ua_bac.Prelude.Deque.{find_cell, update_cells}
use device_access_opc_ua_bac.Prelude.Deque.Writes.{among}
use device_access_opc_ua_bac.System.{System, NodeId, raise, fault, dangling_pointer}
use device_access_opc_ua_bac.Subscription.Accessors.{without_accessor, first_accessor}
use device_access_opc_ua_bac.Subscription.Monitor.{
  CreateAnswer, not_created, MonitorAnswer, Pending, new_item, create_subscription, take_created,
  subscribe, add_new_item, add_item, add_items, add_monitored_items,
}
use device_access_opc_ua_bac.Callbacks.{handle_all}
use device_access_opc_ua_bac.Backend.{
  activate_subscription_support, constructing, join_manager, attach_accessor,
}

without_itself : (x : ℕ) (l : List ℕ) → among x (without_accessor x l) ≡ false
unfolding among without_accessor
without_itself x [] = refl
without_itself x (a ∷ l) = ground (arith, without_itself x l)

-- The item of the new accessor is there, and the accessor is not.
abbrev abandoned : Text → NodeId → ℕ → System → System
abandoned name node accessor s = record s {
  items = Deque.push_back s.items (new_item name node accessor);
  live = without_accessor accessor (accessor ∷ s.live);
}

create_throws :
    (ans : CreateAnswer) (s : System)
    → s.subscription_id ≡ 0
    → ans.events ≡ []
    → ans.result ≡ not_created
    → create_subscription ans s ≡ raise (codes "Failed to set up subscription.") s
unfolding create_subscription handle_all take_created
create_throws ans s no_id quiet refused = rw (no_id, quiet, refused) refl

attach_throws :
    (ans : CreateAnswer) (answers : ℕ → MonitorAnswer) (p : Pending) (name : Text) (node : NodeId)
    (accessor : ℕ) (s : System)
    → s.items.cells ≡ []
    → s.has_manager ≡ true
    → s.async_read_active ≡ true
    → s.subscription_active ≡ false
    → s.subscription_id ≡ 0
    → ans.events ≡ []
    → ans.result ≡ not_created
    → attach_accessor ans answers p name node accessor s
      ≡ raise (codes "Failed to set up subscription.") (abandoned name node accessor s)
unfolding attach_accessor constructing join_manager activate_subscription_support subscribe
    find_cell add_new_item
attach_throws ans answers p name node accessor s empty has async inactive no_id quiet refused =
    let grown : System = record s {
      items = Deque.push_back s.items (new_item name node accessor);
      live = accessor ∷ s.live;
    } in
    ground (arith, empty, has, async, inactive, create_throws ans grown no_id quiet refused)

follows_it :
    (answers : ℕ → MonitorAnswer) (name : Text) (node : NodeId) (accessor : ℕ) (s : System)
    → s.items.cells ≡ []
    → add_monitored_items answers (abandoned name node accessor s) ≡ fault dangling_pointer
unfolding add_monitored_items add_items add_item lookup first_accessor update_cells
follows_it answers name node accessor s empty =
    ground (arith, empty, without_itself accessor (accessor ∷ s.live))

-- An accessor that is the first to wait for data after activateAsyncRead, on a device whose subscription is
-- gone, throws out of its constructor where the server refuses a new subscription. Its item stays, with
-- a pointer to the accessor that was never constructed, and the next request for the items follows it.
pub attach_accessor_dangling :
    (ans : CreateAnswer) (answers later : ℕ → MonitorAnswer) (p : Pending) (name : Text)
    (node : NodeId) (accessor : ℕ) (s : System)
    → s.items.cells ≡ []
    → s.has_manager ≡ true
    → s.async_read_active ≡ true
    → s.subscription_active ≡ false
    → s.subscription_id ≡ 0
    → ans.events ≡ []
    → ans.result ≡ not_created
    → (t : System) × (attach_accessor ans answers p name node accessor s
        ≡ raise (codes "Failed to set up subscription.") t)
      × (add_monitored_items later t ≡ fault dangling_pointer)
attach_accessor_dangling ans answers later p name node accessor s empty has async inactive no_id
      quiet refused =
    (
      abandoned name node accessor s,
      attach_throws ans answers p name node accessor s empty has async inactive no_id quiet refused,
      follows_it later name node accessor s empty,
    )
