-- ===== src/Backend/Destruction.antt =====
-- The end of a backend: `~OpcUABackend` of src/OPC-UA-Backend.cc, `~OPCUASubscriptionManager` of
-- src/SubscriptionManager.cc and the deletion of the client (include/OPC-UA-Connection.h).
use device_access_opc_ua_bac.Prelude.{
  ◌&&◌, true, false, ◌≡◌, if◌then◌else◌, refl, List, [], ◌∷◌, none,
}
use device_access_opc_ua_bac.System.{
  System, Thread, null, running, returned, Outcome, ok, raise, fault, Fault, dangling_pointer, M,
  ◌>>=◌, ◌>>◌, done, get, fail, when, null_pointer,
}
use device_access_opc_ua_bac.System.Safe.{Safe, Keeps, Safe-bind, Keeps-when}
use device_access_opc_ua_bac.System.Returns.{Returns, Returns-bind, Returns-when, Returns-weaken}
use device_access_opc_ua_bac.Subscription.{
  subscription_ends-set_inactive, DeleteAnswer, deleted_with_callback, deleted_silently,
  delete_single, subscription_ends, set_inactive, reset_monitored_items, remove_subscription,
  deactivate,
}
use device_access_opc_ua_bac.Subscription.Worker.{Round, finish_client, run_client, join}
use device_access_opc_ua_bac.Subscription.Pointers.{Held, addresses}
use device_access_opc_ua_bac.Subscription.Pointers.Roster.{Inv, Inv-Held, Keeps-Inv}
use device_access_opc_ua_bac.Subscription.Pointers.Joins.{run_loop_idle, join_any-Held}
use device_access_opc_ua_bac.Subscription.Pointers.Calls.{deactivate-Held}
use device_access_opc_ua_bac.Subscription.Deactivation.{AtRest, deactivate-AtRest}
use device_access_opc_ua_bac.Callbacks.{
  ClientEvent, state_change, inactivity, subscription_deleted, data_change,
}
use device_access_opc_ua_bac.Backend.{ResetAnswer, close_device}
use device_access_opc_ua_bac.Backend.Pointers.{close_device-Held}
use device_access_opc_ua_bac.Backend.Closing.{Closed, close_device-Closed}

-- What the server and the client answer to `close`, and to the destructor of the manager, and the
-- callbacks of `UA_Client_delete`, which closes what is still open.
pub record EndAnswer : Type 0 where
  pub closing : ResetAnswer
  pub deletion : DeleteAnswer
  pub rounds : List Round
  pub final_deletion : DeleteAnswer
  pub delete_events : List ClientEvent

unfoldable pub destroy_manager : EndAnswer → M (Unit {0})
unfolding deactivate join
destroy_manager ans = do
  deactivate ans.deletion
  s ← get
  join s.thread ans.rounds ans.final_deletion

-- A callback of a client that `backendClients` does not have: those of the backend and of the deletion
-- do nothing, or find a null pointer; a response goes to the manager, which is destroyed.
unfoldable pub late_callback : ClientEvent → M (Unit {0})
late_callback (state_change c n d) = done
late_callback (inactivity functional sub_id d) = fail null_pointer
late_callback subscription_deleted = done
late_callback (data_change id v) = fail dangling_pointer

-- `UA_Client_delete`: where `backendClients` has the client, it has a pointer to the backend, whose
-- members are gone.
unfoldable pub delete_client : List ClientEvent → M (Unit {0})
unfolding late_callback
delete_client [] = done
delete_client (e ∷ es) =
    let rest = delete_client es in
    do s ← get; if s.registered then fail dangling_pointer else late_callback e; rest

unfoldable pub destroy_members : EndAnswer → M (Unit {0})
unfolding destroy_manager close_device
destroy_members ans = do
  s ← get
  when s.opened (close_device ans.closing)
  s' ← get
  when s'.has_manager (destroy_manager ans)

unfoldable pub destroy_backend : EndAnswer → M (Unit {0})
unfolding destroy_members delete_client
destroy_backend ans = do destroy_members ans; delete_client ans.delete_events

abbrev Any : System → Type 0
Any t = Unit {0}

delete_single-Any : (d : DeleteAnswer) (s : System) → Returns Any (delete_single d s)
unfolding delete_single subscription_ends set_inactive
delete_single-Any deleted_silently s = tt
delete_single-Any deleted_with_callback s =
    rw (subscription_ends-set_inactive s, Returns)
      (Returns-when Any (s.has_manager && s.registered) set_inactive s (λ _. tt) (λ _. tt))

remove_subscription-Any : (d : DeleteAnswer) (s : System) → Returns Any (remove_subscription d s)
unfolding remove_subscription reset_monitored_items
remove_subscription-Any d s =
    Returns-bind Any Any (delete_single d) _ s (delete_single-Any d s) (λ _ t k. tt)

finish_client-Any : (d : DeleteAnswer) (s : System) → Returns Any (finish_client d s)
unfolding finish_client
finish_client-Any d s =
    Returns-bind Any Any (when s.subscription_needs_to_be_removed _) _ s
      (Returns-when Any s.subscription_needs_to_be_removed _ s (λ _. tt)
        (λ _.
          Returns-bind Any Any (remove_subscription d) _ s (remove_subscription-Any d s)
            (λ _ t k. tt)))
      (λ _ t k. tt)

abbrev pub IsJoined : System → Type 0
IsJoined t = t.thread ≡ null

join-IsJoined :
    (th : Thread) (rounds : List Round) (d : DeleteAnswer) (s : System)
    → s.thread ≡ th
    → s.run ≡ false
    → Returns IsJoined (join th rounds d s)
unfolding join run_client
join-IsJoined null rounds d s e off = e
join-IsJoined returned rounds d s e off = refl
join-IsJoined running rounds d s e off =
    Returns-bind Any IsJoined (run_client rounds d) _ s
      (rw (run_loop_idle [] rounds s off, Returns) (finish_client-Any d s)) (λ _ t k. refl)

destroy_manager-IsJoined :
    (ans : EndAnswer) (s : System) → Inv s → Returns IsJoined (destroy_manager ans s)
unfolding destroy_manager
destroy_manager-IsJoined ans s h =
    Returns-bind (λ t. AtRest (addresses s.items.cells) none t × (t.async_read_active ≡ false))
      IsJoined (deactivate ans.deletion) _ s
      (deactivate-AtRest (addresses s.items.cells) none ans.deletion s h)
      (λ _ t k. join-IsJoined t.thread ans.rounds ans.final_deletion t refl k.0.0.1)

-- What is known after an operation that returns, and is safe.
known :
    (P Q : System → Type 0) (r : Outcome (Unit {0}))
    → Returns P r
    → Safe Q r
    → Returns (λ t. P t × Q t) r
known P Q (ok a t) h k = (h, k)
known P Q (raise e t) h k = h
known P Q (fault x) h k = h

destroy_members-IsJoined :
    (ans : EndAnswer) (s : System)
    → Inv s
    → s.has_manager ≡ true
    → Returns IsJoined (destroy_members ans s)
unfolding destroy_members
destroy_members-IsJoined ans s h has =
    Returns-bind (λ t. Inv t × (t.has_manager ≡ false → IsJoined t)) IsJoined
      (when s.opened (close_device ans.closing)) _ s
      (Returns-when _ s.opened (close_device ans.closing) s (λ _. (h, λ off. cc (off, has)))
        (λ _.
          Returns-weaken _ _ (close_device ans.closing s)
            (λ t q. (Inv-Held (addresses s.items.cells) t q.1, λ _. q.0.1))
            (known Closed (Held (addresses s.items.cells) none) (close_device ans.closing s)
              (close_device-Closed ans.closing s h has)
              (close_device-Held (addresses s.items.cells) ans.closing s h))))
      (λ _ t k.
        Returns-when IsJoined t.has_manager (destroy_manager ans) t k.1
          (λ _. destroy_manager-IsJoined ans t k.0))

-- A backend with a subscription manager is destroyed, open or not, without a wait for a thread that goes
-- on and without an exception, and the thread is joined then, if the client makes no callback while it
-- is deleted.
pub destroy_backend-IsJoined :
    (ans : EndAnswer) (s : System)
    → Inv s
    → s.has_manager ≡ true
    → ans.delete_events ≡ []
    → Returns IsJoined (destroy_backend ans s)
unfolding destroy_backend delete_client
destroy_backend-IsJoined ans s h has quiet =
    Returns-bind IsJoined IsJoined (destroy_members ans) _ s (destroy_members-IsJoined ans s h has)
      (λ _ t k. rw (quiet, Returns) k)

destroy_members-Inv : (ans : EndAnswer) → Keeps Inv (destroy_members ans)
unfolding destroy_members destroy_manager
destroy_members-Inv ans s h =
    Safe-bind Inv Inv (when s.opened (close_device ans.closing)) _ s (λ t k. k)
      (Keeps-when Inv s.opened (close_device ans.closing)
        (Keeps-Inv _ (λ places. close_device-Held places ans.closing)) s h)
      (λ _ t k.
        Keeps-when Inv t.has_manager (destroy_manager ans)
          (Keeps-Inv (destroy_manager ans) (λ places u q.
            Safe-bind (Held places none) (Held places none) (deactivate ans.deletion) _ u (λ w x. x)
              (deactivate-Held places none ans.deletion u q)
              (λ _ w x. join_any-Held places w.thread ans.rounds ans.final_deletion w x.1.0 x)))
          t k)

bind-fault :
    (P : System → Type 0) (m n : M (Unit {0})) (s : System) (x : Fault)
    → Returns P (m s)
    → ((t : System) → P t → n t ≡ fault x)
    → (m >> n) s ≡ fault x
bind-fault P m n s x = go (m s)
  where
    go :
        (r : Outcome (Unit {0}))
        → Returns P r
        → ((t : System) → P t → n t ≡ fault x)
        → ◌≡◌ {A = Outcome (Unit {0})}
            (elim r [ ok a t ↦ n t | raise e t ↦ raise e t | fault y ↦ fault y ])
            (fault x)
    go (ok a t) h k = k t h
    go (raise e t) h k = elim h [ ]
    go (fault y) h k = elim h [ ]

delete_client_registered :
    (e : ClientEvent) (es : List ClientEvent) (t : System)
    → t.registered ≡ true
    → delete_client (e ∷ es) t ≡ fault dangling_pointer
unfolding delete_client
delete_client_registered e es t on = rw on refl

pub destroy_backend_dangling :
    (ans : EndAnswer) (e : ClientEvent) (es : List ClientEvent) (s : System)
    → Inv s
    → s.has_manager ≡ true
    → ans.delete_events ≡ e ∷ es
    → destroy_backend ans s ≡ fault dangling_pointer
unfolding destroy_backend
destroy_backend_dangling ans e es s h has some_event = rw some_event (
    bind-fault (λ t. t.registered ≡ true) (destroy_members ans) (delete_client (e ∷ es)) s
      dangling_pointer
      (Returns-weaken (λ t. IsJoined t × Inv t) _ (destroy_members ans s) (λ t q. q.1.1.1)
        (known IsJoined Inv (destroy_members ans s) (destroy_members-IsJoined ans s h has)
          (destroy_members-Inv ans s h)))
      (delete_client_registered e es))
