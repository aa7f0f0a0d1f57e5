-- ===== src/Subscription/Monitor.antt =====
-- `createSubscription`, `addMonitoredItems`, `prepare`, `activate`, `subscribe` and `unsubscribe`
-- of src/SubscriptionManager.cc. What the server answers is an argument.
use device_access_opc_ua_bac.Prelude.{
  ℕ, Bool, true, false, not, ◌&&◌, Text, codes, List, [], ◌∷◌, ◌++◌, Option, none, some, ltb, ◌==◌,
  length, if◌then◌else◌,
}
use device_access_opc_ua_bac.Prelude.Map
use device_access_opc_ua_bac.Prelude.Deque
use device_access_opc_ua_bac.Prelude.Deque.{Deque}
use device_access_opc_ua_bac.System.{
  System, NodeId, MonitorItem, Message, DataValue, value, exception, is_connected, M, ◌>>=◌, ◌>>◌,
  done, get, put, fail, throw, when, dangling_pointer,
}
use device_access_opc_ua_bac.Subscription.{
  DeleteAnswer, remove_subscription, handle_exception, is_named,
}
use device_access_opc_ua_bac.Subscription.Accessors.{first_accessor}
use device_access_opc_ua_bac.Subscription.Worker.{Round, stop_client_thread}
use device_access_opc_ua_bac.Callbacks.{ClientEvent, handle_all}

-- The subscription's id and the revised publishing interval, cut to a whole number as the
-- assignment to `publishingInterval` does.
pub data CreateResult : Type 0 where
  created : ℕ → ℕ → CreateResult
  not_created : CreateResult

pub record CreateAnswer : Type 0 where
  pub deletion : DeleteAnswer
  pub events : List ClientEvent
  pub result : CreateResult

pub data MonitorResult : Type 0 where
  monitored : ℕ → MonitorResult
  refused : Text → MonitorResult

pub record MonitorAnswer : Type 0 where
  pub events : List ClientEvent
  pub result : MonitorResult

-- The end of `createSubscription`, once the server has answered.
unfoldable pub take_created : CreateResult → M (Unit {0})
take_created (created id revised) = put λ s. record s {
  subscription_id = id;
  publishing_interval = revised;
  subscription_active = true;
}
take_created not_created = throw (codes "Failed to set up subscription.")

unfoldable pub create_subscription : CreateAnswer → M (Unit {0})
unfolding remove_subscription handle_all take_created
create_subscription ans = do
  s ← get
  when (not (s.subscription_id == 0)) (remove_subscription ans.deletion)
  handle_all ans.events
  take_created ans.result

unfoldable pub activated_item : MonitorItem → MonitorItem
activated_item i = record i { active = true }

unfoldable pub monitored_item : ℕ → MonitorItem → MonitorItem
monitored_item id i = record i { id = id; is_monitored = true }

-- The answer to the request for the item with this address and name.
unfoldable pub take_monitored : MonitorResult → ℕ → Text → M (Unit {0})
unfolding monitored_item handle_exception
take_monitored (monitored id) a name = put λ s. record s {
  items = Deque.modify s.items a (monitored_item id);
  subscription_map = Map.assign id a s.subscription_map;
}
take_monitored (refused reason) a name =
    handle_exception
      (codes "Failed to add monitored item for node: " ++ (name ++ (codes " Error: " ++ reason)))

unfoldable pub request_item : MonitorAnswer → ℕ → Text → M (Unit {0})
unfolding handle_all take_monitored
request_item ans a name = do handle_all ans.events; take_monitored ans.result a name

-- One round of the loop of `addMonitoredItems`, at the item with this address.
unfoldable pub add_item : MonitorAnswer → ℕ → M (Unit {0})
unfolding activated_item first_accessor request_item
add_item ans a = do
  s ← get
  elim (Deque.deref s.items a) [
    | none ↦ fail dangling_pointer
    | some i ↦ do
      when s.async_read_active (put λ s. record s { items = Deque.modify s.items a activated_item })
      when (not i.is_monitored) (do first_accessor i.accessors; request_item ans a i.browse_name)
  ]

unfoldable pub add_items : (ℕ → MonitorAnswer) → List (ℕ × MonitorItem) → M (Unit {0})
unfolding add_item
add_items answers [] = done
add_items answers ((a, _) ∷ cs) = do add_item (answers a) a; add_items answers cs

-- The answers go by the address of the item.
unfoldable pub add_monitored_items : (ℕ → MonitorAnswer) → M (Unit {0})
unfolding add_items
add_monitored_items answers = do s ← get; add_items answers s.items.cells

unfoldable pub prepare : CreateAnswer → (ℕ → MonitorAnswer) → M (Unit {0})
unfolding create_subscription add_monitored_items
prepare ans answers = do create_subscription ans; add_monitored_items answers

unfoldable pub needs_monitoring : System → Bool
needs_monitoring s = ltb 0 (length s.items.cells) && length s.subscription_map == 0

-- The end of `activate`.
unfoldable pub resume_items : (ℕ → MonitorAnswer) → M (Unit {0})
unfolding needs_monitoring add_monitored_items activated_item
resume_items answers = do
  s ← get
  if needs_monitoring s
      then add_monitored_items answers
      else put (λ s. record s { items = Deque.map_items activated_item s.items })

unfoldable pub activate : CreateAnswer → (ℕ → MonitorAnswer) → M (Unit {0})
unfolding create_subscription resume_items
activate ans answers = do
  s ← get
  when (not s.subscription_active) (create_subscription ans)
  put λ s. record s { async_read_active = true }
  resume_items answers

-- The last accessor of an item: the front of its queue, if there is one, and its data. What the queue
-- has in front may be an exception, which the queue throws where its front is asked for.
pub record Pending : Type 0 where
  pub front : Option Message
  pub current : DataValue

abbrev pub new_item : Text → NodeId → ℕ → MonitorItem
new_item name node accessor = record {
  node = node;
  accessors = accessor ∷ [];
  id = 0;
  active = false;
  is_monitored = false;
  has_exception = false;
  browse_name = name;
}

-- The initial value that an accessor takes over from another one.
unfoldable pub push_initial : DataValue → ℕ → M (Unit {0})
push_initial v accessor =
    when v.has_value (put λ s. record s { pushed = s.pushed ++ (accessor, value v) ∷ [] })

unfoldable pub take_initial : Option Message → DataValue → ℕ → M (Unit {0})
unfolding push_initial
take_initial none current accessor = push_initial current accessor
take_initial (some (value v)) current accessor = push_initial v accessor
take_initial (some (exception e)) current accessor = throw e

-- An item with a name that is new.
unfoldable pub add_new_item : CreateAnswer → (ℕ → MonitorAnswer) → Text → NodeId → ℕ → M (Unit {0})
unfolding create_subscription add_monitored_items
add_new_item ans answers name node accessor = do
  put λ s. record s { items = Deque.push_back s.items (new_item name node accessor) }
  s ← get
  when s.async_read_active
      (do when (not s.subscription_active) (create_subscription ans); add_monitored_items answers)

-- One more accessor of the item at this address.
unfoldable pub share_item : Pending → ℕ → MonitorItem → ℕ → M (Unit {0})
unfolding take_initial
share_item p a i accessor = do
  put λ s. record s {
    items = Deque.modify s.items a (λ j. record j { accessors = j.accessors ++ accessor ∷ [] });
  }
  when i.active (take_initial p.front p.current accessor)

unfoldable pub subscribe :
    CreateAnswer → (ℕ → MonitorAnswer) → Pending → Text → NodeId → ℕ → M (Unit {0})
unfolding add_new_item share_item
subscribe ans answers p name node accessor = do
  s ← get
  elim (Deque.find_cell (is_named name) s.items.cells) [
    | none ↦ add_new_item ans answers name node accessor
    | some (a, i) ↦ share_item p a i accessor
  ]

pub record UnsubscribeAnswer : Type 0 where
  pub events : List ClientEvent
  pub deletion : DeleteAnswer
  pub rounds : List Round
  pub final_deletion : DeleteAnswer

-- `accessors.erase(std::find(…))`; an accessor that is not there would erase the end.
unfoldable pub remove_accessor : ℕ → List ℕ → Option (List ℕ)
remove_accessor a [] = none
remove_accessor a (b ∷ bs) =
    if b == a
    then some bs
    else (elim (remove_accessor a bs) [ none ↦ none | some cs ↦ some (b ∷ cs) ])

-- The last item is gone.
unfoldable pub close_subscription : UnsubscribeAnswer → M (Unit {0})
unfolding remove_subscription stop_client_thread
close_subscription ans = do
  remove_subscription ans.deletion
  put λ s. record s { run = false }
  stop_client_thread ans.rounds ans.final_deletion

-- The part of `unsubscribe` after the item is gone. Whether the server deletes it is only logged.
unfoldable pub delete_monitored_item : UnsubscribeAnswer → M (Unit {0})
unfolding handle_all close_subscription
delete_monitored_item ans = do
  handle_all ans.events
  s ← get
  when (length s.items.cells == 0) (close_subscription ans)

-- The last accessor of the item at this address is gone.
unfoldable pub drop_item : UnsubscribeAnswer → ℕ → MonitorItem → M (Unit {0})
unfolding delete_monitored_item is_connected
drop_item ans a i = do
  put λ s. record s {
    subscription_map = Map.erase i.id s.subscription_map;
    items = Deque.erase_at s.items a;
  }
  s ← get
  when (not (i.id == 0) && is_connected s) (delete_monitored_item ans)

unfoldable pub keep_accessors : ℕ → Option (List ℕ) → M (Unit {0})
keep_accessors a none = fail dangling_pointer
keep_accessors a (some rest) =
    put λ s. record s { items = Deque.modify s.items a (λ j. record j { accessors = rest }) }

unfoldable pub unsubscribe : UnsubscribeAnswer → Text → ℕ → M (Unit {0})
unfolding remove_accessor keep_accessors drop_item
unsubscribe ans name accessor = do
  s ← get
  elim (Deque.find_cell (is_named name) s.items.cells) [
    | none ↦ done
    | some (a, i) ↦
        if ltb 1 (length i.accessors)
        then keep_accessors a (remove_accessor accessor i.accessors)
        else drop_item ans a i
  ]
