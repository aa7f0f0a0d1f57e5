-- ===== src/Subscription/Throws.antt =====
-- Which operations throw: only the creation of a subscription that the server refuses.
use device_access_opc_ua_bac.Prelude.{
  ◌&&◌, ℕ, true, false, ◌≡◌, refl, Text, List, [], ◌∷◌, Option, none, some, not, All, Option-cases,
  Bool-cases, inl, inr,
}
use device_access_opc_ua_bac.Prelude.Map.{lookup}
use device_access_opc_ua_bac.Prelude.Deque
use device_access_opc_ua_bac.System.{
  System, MonitorItem, DataValue, M, put, when, fail, dangling_pointer,
}
use device_access_opc_ua_bac.Subscription.Accessors.{lookup-AllManned, first_accessor-IsManned}
use device_access_opc_ua_bac.Subscription.Pointers.{Held, addresses}
use device_access_opc_ua_bac.Subscription.Pointers.Roster.{Inv, Keeps-Inv}
use device_access_opc_ua_bac.Subscription.Pointers.Requests.{
  holds, holds-All, add_item-Held, create_subscription-Held,
}
use device_access_opc_ua_bac.System.Safe.{
  DoesNotThrow-bind, DoesNotThrow-when, Keeps-when, NoThrow, DoesNotThrow, NoThrow-bind,
  NoThrow-when, NoThrow-if,
}
use device_access_opc_ua_bac.Subscription.{
  subscription_ends-set_inactive, DeleteAnswer, deleted_with_callback, deleted_silently,
  subscription_ends, set_inactive, delete_single, reset_monitored_items, remove_subscription,
  inactive, deactivate_mapped, has_thread, drop_subscription, deactivate, handle_exception,
  deactivate_all_and_push_exception, response_handler,
}
use device_access_opc_ua_bac.Subscription.Monitor.{
  CreateAnswer, created, MonitorAnswer, MonitorResult, monitored, refused, take_created,
  create_subscription, take_monitored, request_item, add_item, add_items, add_monitored_items,
  resume_items, activate, activated_item, needs_monitoring,
}
use device_access_opc_ua_bac.Callbacks.{
  ClientEvent, state_change, inactivity, subscription_deleted, data_change, state_callback,
  inactivity_callback, handle, handle_all,
}

delete_single-NoThrow : (d : DeleteAnswer) → NoThrow (delete_single d)
unfolding delete_single subscription_ends set_inactive
delete_single-NoThrow deleted_silently s = tt
delete_single-NoThrow deleted_with_callback s =
    rw (subscription_ends-set_inactive s, DoesNotThrow)
      (NoThrow-when (s.has_manager && s.registered) set_inactive (λ t. tt) s)

remove_subscription-NoThrow : (d : DeleteAnswer) → NoThrow (remove_subscription d)
unfolding remove_subscription reset_monitored_items
remove_subscription-NoThrow d =
    NoThrow-bind (delete_single d) _ (delete_single-NoThrow d) (λ _ s. tt)

at_pointer-NoThrow {ℓ} :
    {A : Type ℓ} (o : Option A) (m : M (Unit {0})) (f : A → M (Unit {0}))
    → NoThrow m
    → ((a : A) → NoThrow (f a))
    → NoThrow (elim o [ none ↦ m | some a ↦ f a ])
at_pointer-NoThrow none m f h k = h
at_pointer-NoThrow (some a) m f h k = k a

deactivate_mapped-NoThrow : (m : List (ℕ × ℕ)) → NoThrow (deactivate_mapped m)
unfolding deactivate_mapped
deactivate_mapped-NoThrow [] = λ s. tt
deactivate_mapped-NoThrow ((id, a) ∷ m) = λ s.
    NoThrow-bind {A = Unit {0}}
      (elim (Deque.deref s.items a) [
        | none ↦ fail dangling_pointer
        | some _ ↦ put λ t. record t { items = Deque.modify t.items a inactive }
      ])
      _
      (at_pointer-NoThrow {A = MonitorItem} (Deque.deref s.items a) (fail dangling_pointer)
        (λ _. put λ t. record t { items = Deque.modify t.items a inactive }) (λ t. tt) (λ i t. tt))
      (λ _. deactivate_mapped-NoThrow m) s

drop_subscription-NoThrow : (d : DeleteAnswer) → NoThrow (drop_subscription d)
unfolding drop_subscription
drop_subscription-NoThrow d s =
    NoThrow-if (has_thread s.thread) _ (remove_subscription d) (λ t. tt)
      (remove_subscription-NoThrow d) (record s { subscription_active = false })

deactivate-NoThrow : (d : DeleteAnswer) → NoThrow (deactivate d)
unfolding deactivate
deactivate-NoThrow d s =
    NoThrow-bind (deactivate_mapped s.subscription_map) _
      (deactivate_mapped-NoThrow s.subscription_map)
      (λ _ t.
        NoThrow-bind (when t.subscription_active (drop_subscription d)) _
          (NoThrow-when _ _ (drop_subscription-NoThrow d)) (λ _ u. tt) (record t { run = false }))
      s

pub deactivate_all-NoThrow :
    (message : Text) (d : DeleteAnswer) → NoThrow (deactivate_all_and_push_exception message d)
unfolding deactivate_all_and_push_exception handle_exception
deactivate_all-NoThrow message d =
    NoThrow-bind (handle_exception message) _ (λ s. tt) (λ _. deactivate-NoThrow d)

response_handler-NoThrow : (id : ℕ) (v : DataValue) → NoThrow (response_handler id v)
unfolding response_handler
response_handler-NoThrow id v s =
    at_pointer-NoThrow (lookup id s.subscription_map) _ _ (λ t. tt)
      (λ a.
        at_pointer-NoThrow (Deque.deref s.items a) _ _ (λ t. tt)
          (λ i. NoThrow-when i.active _ (λ t. tt)))
      s

handle-NoThrow : (e : ClientEvent) → NoThrow (handle e)
unfolding handle state_callback inactivity_callback set_inactive
handle-NoThrow (state_change c n d) s =
    NoThrow-when s.registered _ (λ t. NoThrow-when _ _ (deactivate_all-NoThrow _ d) _) s
handle-NoThrow (inactivity functional sub_id d) s =
    NoThrow-if s.registered _ _
      (NoThrow-when _ _ (
        NoThrow-bind (deactivate_all_and_push_exception _ d) _ (deactivate_all-NoThrow _ d)
          (λ _ t. tt)))
      (λ t. tt) s
handle-NoThrow subscription_deleted s =
    rw (subscription_ends-set_inactive s, DoesNotThrow)
      (NoThrow-when (s.has_manager && s.registered) set_inactive (λ t. tt) s)
handle-NoThrow (data_change id v) s = response_handler-NoThrow id v s

handle_all-NoThrow : (es : List ClientEvent) → NoThrow (handle_all es)
unfolding handle_all
handle_all-NoThrow [] = λ s. tt
handle_all-NoThrow (e ∷ es) =
    NoThrow-bind (handle e) _ (handle-NoThrow e) (λ _. handle_all-NoThrow es)

take_monitored-NoThrow :
    (r : MonitorResult) (a : ℕ) (name : Text) → NoThrow (take_monitored r a name)
unfolding take_monitored handle_exception
take_monitored-NoThrow (monitored id) a name s = tt
take_monitored-NoThrow (refused reason) a name s = tt

request_item-NoThrow :
    (ans : MonitorAnswer) (a : ℕ) (name : Text) → NoThrow (request_item ans a name)
unfolding request_item
request_item-NoThrow ans a name =
    NoThrow-bind (handle_all ans.events) _ (handle_all-NoThrow ans.events)
      (λ _. take_monitored-NoThrow ans.result a name)

-- Where an item has an accessor, `at(0)` finds one.
add_item-NoThrow :
    (places : List ℕ) (ans : MonitorAnswer) (a : ℕ) (s : System)
    → Held places none s
    → DoesNotThrow (add_item ans a s)
unfolding add_item
add_item-NoThrow places ans a s h = elim (Option-cases (Deque.deref s.items a)) [
  | inl e ↦ rw (e, DoesNotThrow) tt
  | inr (i, e) ↦
      rw (e, DoesNotThrow)
        (DoesNotThrow-bind (λ t. t.live ≡ s.live) (when s.async_read_active _) _ s
          (Keeps-when (λ t. t.live ≡ s.live) s.async_read_active
            (put λ t. record t { items = Deque.modify t.items a activated_item }) (λ t k. k) s refl)
          (DoesNotThrow-when s.async_read_active
            (put λ t. record t { items = Deque.modify t.items a activated_item }) s tt)
          (λ _ t k. DoesNotThrow-when (not i.is_monitored) _ t (
            rw
              (
                first_accessor-IsManned i t
                    (rw k (lookup-AllManned s.live a i s.items.cells e h.0.manned)),
                DoesNotThrow,
              )
              (request_item-NoThrow ans a i.browse_name t))))
]

add_items-NoThrow :
    (places : List ℕ) (answers : ℕ → MonitorAnswer) (cs : List (ℕ × MonitorItem)) (s : System)
    → All (λ a. holds a places ≡ true) (addresses cs)
    → Held places none s
    → DoesNotThrow (add_items answers cs s)
unfolding add_items
add_items-NoThrow places answers [] s w h = tt
add_items-NoThrow places answers ((a, i) ∷ cs) s w h =
    DoesNotThrow-bind (Held places none) (add_item (answers a) a) _ s
      (add_item-Held places (answers a) a w.0 s h) (add_item-NoThrow places (answers a) a s h)
      (λ _ t k. add_items-NoThrow places answers cs t w.1 k)

pub add_monitored_items-NoThrow :
    (answers : ℕ → MonitorAnswer) (s : System)
    → Inv s
    → DoesNotThrow (add_monitored_items answers s)
unfolding add_monitored_items
add_monitored_items-NoThrow answers s h =
    let places : List ℕ = addresses s.items.cells in
    add_items-NoThrow places answers s.items.cells s (holds-All places places (λ a k. k)) h

resume_items-NoThrow :
    (answers : ℕ → MonitorAnswer) (s : System) → Inv s → DoesNotThrow (resume_items answers s)
unfolding resume_items
resume_items-NoThrow answers s h = elim (Bool-cases (needs_monitoring s)) [
  | inl e ↦ rw (e, DoesNotThrow) (add_monitored_items-NoThrow answers s h)
  | inr e ↦ rw (e, DoesNotThrow) tt
]

pub create_subscription-NoThrow :
    (ans : CreateAnswer) (id revised : ℕ)
    → ans.result ≡ created id revised
    → NoThrow (create_subscription ans)
unfolding create_subscription take_created
create_subscription-NoThrow ans id revised good s =
    NoThrow-bind (when (not _) (remove_subscription ans.deletion)) _
      (NoThrow-when _ _ (remove_subscription-NoThrow ans.deletion))
      (λ _.
        NoThrow-bind (handle_all ans.events) _ (handle_all-NoThrow ans.events)
          (λ _ t. rw (good, DoesNotThrow) tt))
      s

-- In a correct state, in which each item has an accessor, activate throws no exception where the server
-- creates the subscription, whatever it answers to the requests for the items and whatever callbacks
-- come in.
pub activate-NoThrow :
    (ans : CreateAnswer) (answers : ℕ → MonitorAnswer) (id revised : ℕ) (s : System)
    → ans.result ≡ created id revised
    → Inv s
    → DoesNotThrow (activate ans answers s)
unfolding activate
activate-NoThrow ans answers id revised s good h =
    DoesNotThrow-bind Inv (when (not s.subscription_active) (create_subscription ans)) _ s
      (Keeps-when Inv _ _ (Keeps-Inv _ (λ places. create_subscription-Held places ans)) s h)
      (NoThrow-when _ _ (create_subscription-NoThrow ans id revised good) s)
      (λ _ t k. resume_items-NoThrow answers (record t { async_read_active = true }) k)
