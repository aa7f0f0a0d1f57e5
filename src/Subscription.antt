-- ===== src/Subscription.antt =====
-- The subscription manager of src/SubscriptionManager.cc: what needs no answer of the server but
-- to the deletion of a subscription, and is called from the callbacks of the client.
pub mod Worker
pub mod Accessors
pub mod Pointers
pub mod Deactivation
pub mod Throws
pub mod Monitor
pub mod Delivery
pub mod Dangling
pub mod Board
pub mod Recovery
use device_access_opc_ua_bac.Prelude.{
  ℕ, Bool, true, false, not, ◌&&◌, Text, List, [], ◌∷◌, ◌++◌, map, ◌≡◌, arith, none, some, ◌==◌,
  if◌then◌else◌, text_eq,
}
use device_access_opc_ua_bac.Prelude.Map.{lookup}
use device_access_opc_ua_bac.Prelude.Deque
use device_access_opc_ua_bac.Prelude.Deque.{Deque, map_cells, update_cells}
use device_access_opc_ua_bac.System.{
  System, MonitorItem, Message, value, exception, DataValue, Thread, null, running, returned, M,
  ◌>>=◌, ◌>>◌, done, get, put, fail, when, dangling_pointer, null_pointer,
}

-- What `UA_Client_Subscriptions_deleteSingle` does: whether the client calls the deletion
-- callback of the subscription from within the call.
pub data DeleteAnswer : Type 0 where
  deleted_with_callback deleted_silently : DeleteAnswer

unfoldable pub set_inactive : M (Unit {0})
set_inactive = put λ s. record s { subscription_active = false; subscription_id = 0 }

-- `deleteSubscriptionCallback`; a client that is not registered is ignored, and of one that is
-- registered the manager must be there.
unfoldable pub delete_subscription_callback : M (Unit {0})
unfolding set_inactive
delete_subscription_callback = do
  s ← get
  when s.registered (do s' ← get; if s'.has_manager then set_inactive else fail null_pointer)

-- The client makes this callback for a subscription that it has, and only a manager, which stays as long
-- as the backend, asks it for one.
unfoldable pub subscription_ends : M (Unit {0})
unfolding delete_subscription_callback
subscription_ends = do s ← get; when s.has_manager delete_subscription_callback

pub subscription_ends-set_inactive :
    (s : System) → subscription_ends s ≡ when (s.has_manager && s.registered) set_inactive s
unfolding subscription_ends delete_subscription_callback
subscription_ends-set_inactive s = ground arith

unfoldable pub unmonitored : MonitorItem → MonitorItem
unmonitored i = record i { is_monitored = false }

unfoldable pub reset_monitored_items : M (Unit {0})
unfolding unmonitored
reset_monitored_items =
    put λ s. record s { items = Deque.map_items unmonitored s.items; subscription_map = [] }

unfoldable pub delete_single : DeleteAnswer → M (Unit {0})
unfolding subscription_ends
delete_single deleted_with_callback = subscription_ends
delete_single deleted_silently = done

unfoldable pub remove_subscription : DeleteAnswer → M (Unit {0})
unfolding delete_single reset_monitored_items
remove_subscription d = do
  delete_single d
  put λ s. record s { subscription_id = 0 }
  reset_monitored_items

-- The test of `handleException`: only an active item is told, and only once.
unfoldable pub is_told : MonitorItem → Bool
is_told i = i.active && not i.has_exception

unfoldable pub with_exception : MonitorItem → MonitorItem
unfolding is_told
with_exception i = if is_told i then record i { has_exception = true } else i

abbrev pub push_to : Message → List ℕ → List (ℕ × Message)
push_to m = map λ a. (a, m)

unfoldable pub exceptions : Text → List (ℕ × MonitorItem) → List (ℕ × Message)
unfolding is_told
exceptions message [] = []
exceptions message ((_, i) ∷ cs) =
    (if is_told i then push_to (exception message) i.accessors else []) ++ exceptions message cs

unfoldable pub handle_exception : Text → M (Unit {0})
unfolding with_exception exceptions
handle_exception message = put λ s. record s {
  items = Deque.map_items with_exception s.items;
  pushed = s.pushed ++ exceptions message s.items.cells;
}

unfoldable pub inactive : MonitorItem → MonitorItem
inactive i = record i { active = false }

-- `for(auto& item : subscriptionMap) item.second->active = false`
unfoldable pub deactivate_mapped : List (ℕ × ℕ) → M (Unit {0})
unfolding inactive
deactivate_mapped [] = done
deactivate_mapped ((_, a) ∷ m) = do
  s ← get
  elim (Deque.deref s.items a) [
    | none ↦ fail dangling_pointer
    | some _ ↦ put λ s. record s { items = Deque.modify s.items a inactive }
  ]
  deactivate_mapped m

unfoldable pub has_thread : Thread → Bool
has_thread null = false
has_thread running = true
has_thread returned = true

unfoldable pub is_running : Thread → Bool
is_running null = false
is_running running = true
is_running returned = false

-- With a thread the removal is left to it, since it holds the lock of the client.
unfoldable pub drop_subscription : DeleteAnswer → M (Unit {0})
unfolding remove_subscription has_thread
drop_subscription d = do
  put λ s. record s { subscription_active = false }
  s ← get
  if has_thread s.thread
      then put (λ s. record s { subscription_needs_to_be_removed = true })
      else remove_subscription d

unfoldable pub deactivate : DeleteAnswer → M (Unit {0})
unfolding deactivate_mapped drop_subscription
deactivate d = do
  s ← get
  deactivate_mapped s.subscription_map
  put λ s. record s { run = false }
  s' ← get
  when s'.subscription_active (drop_subscription d)
  put λ s. record s { async_read_active = false }

unfoldable pub deactivate_all_and_push_exception : Text → DeleteAnswer → M (Unit {0})
unfolding handle_exception deactivate
deactivate_all_and_push_exception message d = do handle_exception message; deactivate d

unfoldable pub received : MonitorItem → MonitorItem
received i = record i { has_exception = false }

-- `responseHandler`: an id that is not in the map is logged and ignored.
unfoldable pub response_handler : ℕ → DataValue → M (Unit {0})
unfolding received
response_handler mon_id v = do
  s ← get
  elim (lookup mon_id s.subscription_map) [
    | none ↦ done
    | some a ↦ elim (Deque.deref s.items a) [
      | none ↦ fail dangling_pointer
      | some i ↦ when i.active (
          put λ s. record s {
            items = Deque.modify s.items a received;
            pushed = s.pushed ++ push_to (value v) i.accessors;
          })
    ]
  ]

abbrev pub is_named : Text → MonitorItem → Bool
is_named name i = text_eq i.browse_name name

unfoldable pub set_external_error : Text → M (Unit {0})
set_external_error name = do
  s ← get
  elim (Deque.find_cell (is_named name) s.items.cells) [
    | none ↦ done
    | some (a, _) ↦
        put
          λ s. record s { items = Deque.modify s.items a (λ i. record i { has_exception = true }) }
  ]
