-- ===== src/Backend/Recovery/Reading.antt =====
-- `open` and then `activateAsyncRead` of src/OPC-UA-Backend.cc bring every item back, so that the next
-- value reaches its accessors.
use device_access_opc_ua_bac.Prelude.{ℕ, true, false, not, ◌≡◌, refl, Text, List, ◌++◌, some, arith}
use device_access_opc_ua_bac.Prelude.Map.{lookup}
use device_access_opc_ua_bac.Prelude.Deque
use device_access_opc_ua_bac.Prelude.Deque.{lookup-map_cells}
use device_access_opc_ua_bac.System.{
  System, MonitorItem, Message, null, running, terminated, when, Outcome, ok, raise, fault,
  is_connected, ◌>>◌, M, DataValue, value,
}
use device_access_opc_ua_bac.System.Returns.{
  Returns, Returns-bind, Returns-when, Returns-if, Returns-weaken,
}
use device_access_opc_ua_bac.Subscription.{has_thread, response_handler, push_to}
use device_access_opc_ua_bac.Subscription.Monitor.{
  CreateAnswer, MonitorAnswer, create_subscription, needs_monitoring, resume_items, activate,
  activated_item,
}
use device_access_opc_ua_bac.Subscription.Worker.{start, launch}
use device_access_opc_ua_bac.Subscription.Pointers.Roster.{Inv}
use device_access_opc_ua_bac.Backend.{
  open_device, activate_async_read, try_async_read, enable_async_read,
  activate_subscription_support, start_if_needed, noexcept,
}
use device_access_opc_ua_bac.Backend.Recovery.Items.{Cells, IsServed, Prepared}
use device_access_opc_ua_bac.Backend.Recovery.Reconnect.{Opening, answer, open_device-Ready}

-- The item at the address is mapped under its id and active, and its accessors are those of `i`.
abbrev pub IsRead : (ℕ → ℕ) → ℕ → MonitorItem → System → Type 0
IsRead ids a i t =
    (lookup (ids a) t.subscription_map ≡ some a)
    × ((j : MonitorItem) × (lookup a t.items.cells ≡ some j)
        × (j.accessors ≡ i.accessors)
        × (j.active ≡ true))

-- The thread runs, asynchronous reading is active, and every item of the list is read.
abbrev pub Resumed : (ℕ → ℕ) → Cells → System → Type 0
Resumed ids cs t =
    ((t.run ≡ true) × (t.thread ≡ running))
    × ((t.async_read_active ≡ true)
        × ((a : ℕ) (i : MonitorItem) → lookup a cs ≡ some i → IsRead ids a i t))

Returns-noexcept :
    (P : System → Type 0) (m : M (Unit {0})) (s : System)
    → Returns P (m s)
    → Returns P (noexcept m s)
unfolding noexcept
Returns-noexcept P m s h = go (m s) h
  where
    go :
        (r : Outcome (Unit {0}))
        → Returns P r
        → Returns P (elim r [ ok a t ↦ ok a t | raise e t ↦ fault terminated | fault x ↦ fault x ])
    go (ok a t) k = k
    go (raise e t) k = k
    go (fault x) k = k

module _ (ids : ℕ → ℕ) (distinct : (a c : ℕ) → ids a ≡ ids c → a ≡ c) (cs : Cells)
    (ans : CreateAnswer) (answers : ℕ → MonitorAnswer) where
  abbrev Active : System → Type 0
  Active t =
      ((t.thread ≡ null) × (t.subscription_active ≡ true))
      × ((t.async_read_active ≡ true)
          × ((a : ℕ) (i : MonitorItem) → lookup a cs ≡ some i → IsRead ids a i t))

  activated-IsRead :
      (a : ℕ) (i : MonitorItem) (t : System)
      → IsServed ids distinct a i t
      → IsRead ids a i (record t { items = Deque.map_items activated_item t.items })
  unfolding activated_item
  activated-IsRead a i t h =
      let (j, at, same) = h.1 in
      (
        h.0,
        (
          activated_item j,
          rw (lookup-map_cells a activated_item t.items.cells, at) refl,
          same,
          refl,
        ),
      )

  activate-Active :
      (s : System) → Prepared ids distinct cs s → Returns Active (activate ans answers s)
  unfolding activate resume_items needs_monitoring
  activate-Active s h =
      Returns-bind (Prepared ids distinct cs) Active
        (when (not s.subscription_active) (create_subscription ans)) _ s
        (Returns-when (Prepared ids distinct cs) (not s.subscription_active)
          (create_subscription ans) s (λ _. h) (λ on. ground (arith, h.1.1)))
        (λ _ t k.
          Returns-if Active (needs_monitoring (record t { async_read_active = true })) _ _ _
            (λ on. cc (on, k.2.0))
            (λ _. (k.1, (refl, λ a i at. activated-IsRead a i t (k.2.1 a i at)))))

  start_if_needed-Resumed : (s : System) → Active s → Returns (Resumed ids cs) (start_if_needed s)
  unfolding start_if_needed start launch has_thread
  start_if_needed-Resumed s h = rw (h.0.0, h.0.1, Returns) ((refl, refl), h.1)

  activate_async_read-Resumed :
      (s : System)
      → Prepared ids distinct cs s
      → Returns (Resumed ids cs) (activate_async_read true ans answers s)
  unfolding activate_async_read try_async_read enable_async_read activate_subscription_support
  activate_async_read-Resumed s h =
      Returns-noexcept (Resumed ids cs) (try_async_read true ans answers) s (
        Returns-bind (Prepared ids distinct cs) (Resumed ids cs) activate_subscription_support _ s
          (Returns-when (Prepared ids distinct cs) (not s.has_manager) _ s (λ _. h)
            (λ on. ground (arith, h.0.1)))
          (λ _ t k.
            Returns-bind Active (Resumed ids cs) (activate ans answers) _ t (activate-Active t k)
              (λ _. start_if_needed-Resumed)))

-- A device that lost its connection, whose manager was told to stop, is opened again, and asynchronous
-- reading is activated, with a server that accepts the connection, a subscription and every item, each
-- under an id of its own: `open` and `activateAsyncRead` return, whatever else the client reports and
-- the thread meets. Every item is then monitored and active, mapped under its id, with the accessors
-- that it had, and the thread runs.
pub open_device-Resumed :
    (address : Text) (o : Opening) (ans : CreateAnswer) (answers : ℕ → MonitorAnswer) (s : System)
    → ((a c : ℕ) → o.server.ids a ≡ o.server.ids c → a ≡ c)
    → Inv s
    → s.has_manager ≡ true
    → s.run ≡ false
    → is_connected s ≡ false
    → Returns
        (Resumed o.server.ids s.items.cells)
        ((open_device address (answer o) >> activate_async_read true ans answers) s)
open_device-Resumed address o ans answers s distinct h has off lost =
    Returns-bind (Prepared o.server.ids distinct s.items.cells) (Resumed o.server.ids s.items.cells)
      (open_device address (answer o)) _ s
      (open_device-Ready o distinct s.subscription_map s.items.cells address s (h, (refl, has)) off
        lost)
      (λ _. activate_async_read-Resumed o.server.ids distinct s.items.cells ans answers)

-- The next value for an item that is read reaches all its accessors.
response-Resumed :
    (ids : ℕ → ℕ) (cs : Cells) (a : ℕ) (i : MonitorItem) (v : DataValue) (t : System)
    → lookup a cs ≡ some i
    → Resumed ids cs t
    → Returns
        (λ u. u.pushed ≡ t.pushed ++ push_to (value v) i.accessors)
        (response_handler (ids a) v t)
unfolding response_handler
response-Resumed ids cs a i v t at h =
    let (mapped, (j, found, same, on)) = h.1.1 a i at in rw (mapped, found, on, same, Returns) refl

-- A device that lost its connection recovers where the server takes the connection, tells last of the
-- open session, and takes the subscription and every item under an id of its own. Opened again and
-- read asynchronously, which both return, it pushes the next value that comes for any of its items to each
-- accessor of the item, in their order. Asked is a correct state with a subscription manager whose run
-- flag is off; callbacks before the session opens are any.
pub open_device-delivers :
    (address : Text) (o : Opening) (ans : CreateAnswer) (answers : ℕ → MonitorAnswer) (s : System)
    (a : ℕ) (i : MonitorItem) (v : DataValue)
    → ((a c : ℕ) → o.server.ids a ≡ o.server.ids c → a ≡ c)
    → Inv s
    → s.has_manager ≡ true
    → s.run ≡ false
    → is_connected s ≡ false
    → lookup a s.items.cells ≡ some i
    → Returns
        (λ t. (before : List (ℕ × Message)) × (t.pushed ≡ before ++ push_to (value v) i.accessors))
        ((open_device address (answer o)
            >> activate_async_read true ans answers
            >> response_handler (o.server.ids a) v)
          s)
open_device-delivers address o ans answers s a i v distinct h has off lost at =
    Returns-bind (Resumed o.server.ids s.items.cells) _
      (open_device address (answer o) >> activate_async_read true ans answers) _ s
      (open_device-Resumed address o ans answers s distinct h has off lost)
      (λ _ t k.
        Returns-weaken _ _ (response_handler (o.server.ids a) v t) (λ u e. (t.pushed, e))
          (response-Resumed o.server.ids s.items.cells a i v t at k))
