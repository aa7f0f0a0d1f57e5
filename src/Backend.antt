-- ===== src/Backend.antt =====
-- The life of a device: `resetClient`, `connect`, `open`, `close`, `activateAsyncRead`,
-- `activateSubscriptionSupport` and `setExceptionImpl` of src/OPC-UA-Backend.cc, and what the
-- constructor and the destructor of an accessor do with the subscription manager
-- (include/OPC-UA-BackendRegisterAccessor.h).
pub mod Pointers
pub mod Safety
pub mod Operations
pub mod Reachable
pub mod Closing
pub mod Opening
pub mod Recovery
pub mod Destruction
pub mod Abandoned
pub mod Construction
use device_access_opc_ua_bac.Prelude.{
  ℕ, zero, suc, Bool, true, false, not, ◌&&◌, ◌||◌, Text, codes, List, [], ◌∷◌, ◌++◌, Option, none,
  some, if◌then◌else◌,
}
use device_access_opc_ua_bac.Prelude.Deque
use device_access_opc_ua_bac.System.{
  System, NodeId, Thread, null, running, returned, Outcome, ok, raise, fault, is_connected, M,
  ◌>>=◌, ◌>>◌, done, get, put, throw, when, terminated,
}
use device_access_opc_ua_bac.Subscription.{
  DeleteAnswer, deactivate, reset_monitored_items, deactivate_all_and_push_exception, has_thread,
}
use device_access_opc_ua_bac.Subscription.Accessors.{without_accessor}
use device_access_opc_ua_bac.Subscription.Worker.{Round, start, stop_client_thread}
use device_access_opc_ua_bac.Subscription.Monitor.{
  CreateAnswer, MonitorAnswer, Pending, UnsubscribeAnswer, prepare, activate, subscribe,
  unsubscribe,
}
use device_access_opc_ua_bac.Callbacks.{ClientEvent, handle_all}

-- The deletions of the subscription, the rounds that the thread still makes, and the callbacks
-- that `UA_Client_disconnect` makes.
pub record ResetAnswer : Type 0 where
  pub deletion : DeleteAnswer
  pub rounds : List Round
  pub final_deletion : DeleteAnswer
  pub disconnect_events : List ClientEvent

unfoldable pub reset_manager : ResetAnswer → M (Unit {0})
unfolding deactivate reset_monitored_items stop_client_thread
reset_manager ans = do
  deactivate ans.deletion
  reset_monitored_items
  stop_client_thread ans.rounds ans.final_deletion

-- That the disconnection fails is only logged.
unfoldable pub reset_client : ResetAnswer → M (Unit {0})
unfolding reset_manager handle_all
reset_client ans = do
  s ← get
  when s.has_manager (reset_manager ans)
  handle_all ans.disconnect_events

-- The name of the status with which the connection was refused, if it was.
pub record ConnectAnswer : Type 0 where
  pub reset : ResetAnswer
  pub connect_events : List ClientEvent
  pub refusal : Option Text
  pub create : CreateAnswer
  pub monitor : ℕ → MonitorAnswer

abbrev pub connect_message : Text → Text → Text
connect_message address reason =
    codes "Failed to connect to opc server: " ++ (address ++ (codes " with reason: " ++ reason))

unfoldable pub take_connected : Text → ConnectAnswer → Option Text → M (Unit {0})
unfolding prepare
take_connected address ans (some reason) = throw (connect_message address reason)
take_connected address ans none = do s ← get; when s.has_manager (prepare ans.create ans.monitor)

unfoldable pub connect : Text → ConnectAnswer → M (Unit {0})
unfolding reset_client handle_all take_connected
connect address ans = do
  reset_client ans.reset
  handle_all ans.connect_events
  take_connected address ans ans.refusal

abbrev pub not_established : Text
not_established = codes "Connection could not be established."

-- The rest of the wait of `open`, with as many sleeps left; the callbacks that come in each go by
-- the number that is left. The connection is not looked at again after the last sleep.
unfoldable pub wait_for_client : ℕ → (ℕ → List ClientEvent) → M (Unit {0})
unfolding handle_all is_connected
wait_for_client zero events = throw not_established
wait_for_client (suc left) events =
    let rest = wait_for_client left events in
    do s ← get; if is_connected s then done else (do handle_all (events left); rest)

pub record OpenAnswer : Type 0 where
  pub rounds : List Round
  pub final_deletion : DeleteAnswer
  pub connection : ConnectAnswer
  pub sleep_events : ℕ → List ClientEvent

unfoldable pub reconnect : Text → OpenAnswer → M (Unit {0})
unfolding stop_client_thread connect
reconnect address ans = do
  s ← get
  when s.has_manager (stop_client_thread ans.rounds ans.final_deletion)
  connect address ans.connection

-- `setOpenedAndClearException` of the library's base class ends it.
unfoldable pub open_device : Text → OpenAnswer → M (Unit {0})
unfolding is_connected reconnect wait_for_client
open_device address ans = do
  s ← get
  when (not (is_connected s)) (reconnect address ans)
  wait_for_client 5 ans.sleep_events
  put λ s. record s { opened = true; active_exception = false }

unfoldable pub close_device : ResetAnswer → M (Unit {0})
unfolding reset_client
close_device ans = do put λ s. record s { opened = false }; reset_client ans

-- The constructor of the subscription manager.
unfoldable pub new_manager : M (Unit {0})
new_manager = put λ s. record s {
  has_manager = true;
  run = false;
  subscription_active = false;
  subscription_needs_to_be_removed = false;
  async_read_active = false;
  thread = null;
  subscription_id = 0;
  items = Deque.empty;
  subscription_map = [];
}

unfoldable pub activate_subscription_support : M (Unit {0})
unfolding new_manager
activate_subscription_support = do s ← get; when (not s.has_manager) new_manager

-- An exception that leaves a `noexcept` function terminates the program.
unfoldable pub noexcept : M (Unit {0}) → M (Unit {0})
noexcept m s = elim (m s) [ ok a t ↦ ok a t | raise e t ↦ fault terminated | fault x ↦ fault x ]

unfoldable pub start_if_needed : M (Unit {0})
unfolding start has_thread
start_if_needed = do s ← get; when (not (has_thread s.thread)) start

unfoldable pub enable_async_read : CreateAnswer → (ℕ → MonitorAnswer) → M (Unit {0})
unfolding activate_subscription_support activate start_if_needed
enable_async_read ans answers = do
  activate_subscription_support
  activate ans answers
  start_if_needed

-- `functional` is what `isFunctional` of the library's base class answers.
unfoldable pub try_async_read : Bool → CreateAnswer → (ℕ → MonitorAnswer) → M (Unit {0})
unfolding enable_async_read
try_async_read functional ans answers = when functional (enable_async_read ans answers)

unfoldable pub activate_async_read : Bool → CreateAnswer → (ℕ → MonitorAnswer) → M (Unit {0})
unfolding noexcept try_async_read
activate_async_read functional ans answers = noexcept (try_async_read functional ans answers)

abbrev pub other_accessor : Text
other_accessor = codes "Exception reported by another accessor."

unfoldable pub tell_accessors : DeleteAnswer → M (Unit {0})
unfolding deactivate_all_and_push_exception
tell_accessors d = do
  s ← get
  when s.has_manager (deactivate_all_and_push_exception other_accessor d)

unfoldable pub set_exception_impl : DeleteAnswer → M (Unit {0})
unfolding noexcept tell_accessors
set_exception_impl d = noexcept (tell_accessors d)

-- The accessor is alive while its constructor runs, and stays so unless it throws.
unfoldable pub constructing : ℕ → M (Unit {0}) → M (Unit {0})
constructing accessor m s = elim (m (record s { live = accessor ∷ s.live })) [
  | ok a t ↦ ok a t
  | raise e t ↦ raise e (record t { live = without_accessor accessor t.live })
  | fault x ↦ fault x
]

-- What the constructor of an accessor with `wait_for_new_data` does with the manager.
unfoldable pub join_manager :
    CreateAnswer → (ℕ → MonitorAnswer) → Pending → Text → NodeId → ℕ → M (Unit {0})
unfolding activate_subscription_support subscribe start_if_needed
join_manager ans answers p name node accessor = do
  activate_subscription_support
  subscribe ans answers p name node accessor
  s ← get
  when s.async_read_active start_if_needed

unfoldable pub attach_accessor :
    CreateAnswer → (ℕ → MonitorAnswer) → Pending → Text → NodeId → ℕ → M (Unit {0})
unfolding constructing join_manager
attach_accessor ans answers p name node accessor =
    constructing accessor (join_manager ans answers p name node accessor)

-- The destructor of such an accessor; from then on nobody may follow a pointer to it.
unfoldable pub detach_accessor : UnsubscribeAnswer → Text → ℕ → M (Unit {0})
unfolding unsubscribe without_accessor
detach_accessor ans name accessor = do
  put λ s. record s { live = without_accessor accessor s.live }
  unsubscribe ans name accessor
