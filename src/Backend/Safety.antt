-- ===== src/Backend/Safety.antt =====
-- The calls of src/OPC-UA-Backend.cc that are `noexcept`, and the constructor of an accessor
-- (include/OPC-UA-BackendRegisterAccessor.h).
use device_access_opc_ua_bac.Prelude.{
  ℕ, Bool, true, not, ◌≡◌, refl, Text, ◌∷◌, none, arith, ==_refl,
}
use device_access_opc_ua_bac.System.{
  System, NodeId, Thread, null, running, returned, Outcome, ok, raise, fault, terminated, M,
}
use device_access_opc_ua_bac.System.Safe.{
  Safe-bind, DoesNotThrow-bind, DoesNotThrow-when, Safe, Keeps, Keeps-bind, Keeps-when, NoThrow,
  DoesNotThrow, NoThrow-when, NoThrow-if,
}
use device_access_opc_ua_bac.Subscription.{
  DeleteAnswer, has_thread, deactivate_all_and_push_exception,
}
use device_access_opc_ua_bac.Subscription.Worker.{launch, start}
use device_access_opc_ua_bac.Subscription.Monitor.{
  CreateAnswer, created, MonitorAnswer, Pending, activate, subscribe,
}
use device_access_opc_ua_bac.Prelude.Deque.Writes.{among}
use device_access_opc_ua_bac.Subscription.Accessors.{without_accessor, AllManned-grow}
use device_access_opc_ua_bac.Subscription.Throws.{activate-NoThrow, deactivate_all-NoThrow}
use device_access_opc_ua_bac.Subscription.Pointers.Calls.{deactivate_all-Held}
use device_access_opc_ua_bac.Subscription.Pointers.Requests.{activate-Held}
use device_access_opc_ua_bac.Subscription.Pointers.Roster.{Inv, Keeps-Inv}
use device_access_opc_ua_bac.Subscription.Pointers.Arrival.{
  subscribe-Inv, InvWith, IsQuiet, subscribe-NoThrow,
}
use device_access_opc_ua_bac.Backend.Pointers.{start_if_needed-Held}
use device_access_opc_ua_bac.Backend.{
  new_manager, activate_subscription_support, noexcept, start_if_needed, enable_async_read,
  activate_async_read, try_async_read, other_accessor, tell_accessors, set_exception_impl,
  constructing, join_manager, attach_accessor,
}

new_manager-Inv : (s : System) → Inv s → Safe Inv (new_manager s)
unfolding new_manager
new_manager-Inv s h = (
  record { placed = tt; points = tt; sorted = tt; addressed = refl; focus = tt; manned = tt },
  ((λ e. cc), h.1.1),
)

support-Inv : Keeps Inv activate_subscription_support
unfolding activate_subscription_support
support-Inv s h = Keeps-when Inv (not s.has_manager) new_manager new_manager-Inv s h

enable_async_read-Inv :
    (ans : CreateAnswer) (answers : ℕ → MonitorAnswer) → Keeps Inv (enable_async_read ans answers)
unfolding enable_async_read
enable_async_read-Inv ans answers = Keeps-bind Inv activate_subscription_support _ support-Inv (λ _.
    Keeps-bind Inv (activate ans answers) _
      (Keeps-Inv (activate ans answers) (λ places. activate-Held places ans answers))
      (λ _. Keeps-Inv start_if_needed start_if_needed-Held))

noexcept-Safe :
    (P : System → Type 0) (m : M (Unit {0})) (s : System)
    → DoesNotThrow (m s)
    → Safe P (m s)
    → Safe P (noexcept m s)
unfolding noexcept
noexcept-Safe P m s = go (m s)
  where
    go :
        (o : Outcome (Unit {0}))
        → DoesNotThrow o
        → Safe P o
        → Safe P (elim o [ ok a t ↦ ok a t | raise e t ↦ fault terminated | fault x ↦ fault x ])
    go (ok a t) q h = h
    go (raise e t) q h = absurd q
    go (fault x) q h = h

launch-NoThrow : (th : Thread) → NoThrow (launch th)
unfolding launch
launch-NoThrow null s = tt
launch-NoThrow running s = tt
launch-NoThrow returned s = tt

new_manager-NoThrow : NoThrow new_manager
unfolding new_manager
new_manager-NoThrow s = tt

start_if_needed-NoThrow : NoThrow start_if_needed
unfolding start_if_needed start
start_if_needed-NoThrow s =
    NoThrow-when (not (has_thread s.thread)) _
      (λ t.
        NoThrow-if t.subscription_active _ _
          (λ u. launch-NoThrow t.thread (record u { run = true })) (λ u. tt) t)
      s

enable_async_read-NoThrow :
    (ans : CreateAnswer) (answers : ℕ → MonitorAnswer) (id revised : ℕ) (s : System)
    → ans.result ≡ created id revised
    → Inv s
    → DoesNotThrow (enable_async_read ans answers s)
unfolding enable_async_read activate_subscription_support
enable_async_read-NoThrow ans answers id revised s good h =
    DoesNotThrow-bind Inv activate_subscription_support _ s (support-Inv s h)
      (NoThrow-when (not s.has_manager) new_manager new_manager-NoThrow s)
      (λ _ t k.
        DoesNotThrow-bind Inv (activate ans answers) _ t
          (Keeps-Inv (activate ans answers) (λ places. activate-Held places ans answers) t k)
          (activate-NoThrow ans answers id revised t good k) (λ _ u q. start_if_needed-NoThrow u))

pub activate_async_read-Inv :
    (functional : Bool) (ans : CreateAnswer) (answers : ℕ → MonitorAnswer) (id revised : ℕ)
    → ans.result ≡ created id revised
    → Keeps Inv (activate_async_read functional ans answers)
unfolding activate_async_read try_async_read
activate_async_read-Inv functional ans answers id revised good s h =
    noexcept-Safe Inv (try_async_read functional ans answers) s
      (DoesNotThrow-when functional _ s (enable_async_read-NoThrow ans answers id revised s good h))
      (Keeps-when Inv functional _ (enable_async_read-Inv ans answers) s h)

-- The constructor of an accessor: where it does not throw, no item is left with a pointer to it.
support-InvWith : (accessor : ℕ) → Keeps (InvWith accessor) activate_subscription_support
unfolding activate_subscription_support new_manager
support-InvWith accessor s h =
    Keeps-when (InvWith accessor) (not s.has_manager) new_manager
      (λ t k. (
        (
          record {
            placed = tt;
            points = tt;
            sorted = tt;
            addressed = refl;
            focus = tt;
            manned = tt;
          },
          ((λ e. cc), k.0.1.1),
        ),
        k.1,
      ))
      s h

join_manager-Inv :
    (ans : CreateAnswer) (answers : ℕ → MonitorAnswer) (p : Pending) (name : Text) (node : NodeId)
    (accessor : ℕ) (s : System)
    → InvWith accessor s
    → Safe Inv (join_manager ans answers p name node accessor s)
unfolding join_manager
join_manager-Inv ans answers p name node accessor s h =
    Safe-bind (InvWith accessor) Inv activate_subscription_support _ s (λ t k. k.0)
      (support-InvWith accessor s h)
      (λ _ t k.
        Safe-bind Inv Inv (subscribe ans answers p name node accessor) _ t (λ u q. q)
          (subscribe-Inv ans answers p name node accessor t k)
          (λ _ u q.
            Keeps-when Inv u.async_read_active start_if_needed
              (Keeps-Inv start_if_needed start_if_needed-Held) u q))

join_manager-NoThrow :
    (ans : CreateAnswer) (answers : ℕ → MonitorAnswer) (p : Pending) (name : Text) (node : NodeId)
    (accessor id revised : ℕ) (s : System)
    → ans.result ≡ created id revised
    → IsQuiet p.front
    → InvWith accessor s
    → DoesNotThrow (join_manager ans answers p name node accessor s)
unfolding join_manager activate_subscription_support
join_manager-NoThrow ans answers p name node accessor id revised s good quiet h =
    DoesNotThrow-bind (InvWith accessor) activate_subscription_support _ s
      (support-InvWith accessor s h)
      (NoThrow-when (not s.has_manager) new_manager new_manager-NoThrow s)
      (λ _ t k.
        DoesNotThrow-bind Inv (subscribe ans answers p name node accessor) _ t
          (subscribe-Inv ans answers p name node accessor t k)
          (subscribe-NoThrow ans answers p name node accessor id revised t good quiet k)
          (λ _ u q. NoThrow-when u.async_read_active start_if_needed start_if_needed-NoThrow u))

constructing-Safe :
    (P : System → Type 0) (accessor : ℕ) (m : M (Unit {0})) (s : System)
    → DoesNotThrow (m (record s { live = accessor ∷ s.live }))
    → Safe P (m (record s { live = accessor ∷ s.live }))
    → Safe P (constructing accessor m s)
unfolding constructing
constructing-Safe P accessor m s = go (m (record s { live = accessor ∷ s.live }))
  where
    go :
        (o : Outcome (Unit {0}))
        → DoesNotThrow o
        → Safe P o
        → Safe P (elim o [
          | ok a t ↦ ok a t
          | raise e t ↦ raise e (record t { live = without_accessor accessor t.live })
          | fault x ↦ fault x
        ])
    go (ok a t) q h = h
    go (raise e t) q h = absurd q
    go (fault x) q h = h

grown-InvWith :
    (accessor : ℕ) (s : System) → Inv s → InvWith accessor (record s { live = accessor ∷ s.live })
unfolding among
grown-InvWith accessor s h = (
  (
    record {
      placed = h.0.placed;
      points = h.0.points;
      sorted = h.0.sorted;
      addressed = refl;
      focus = tt;
      manned = AllManned-grow accessor s.live s.items.cells h.0.manned;
    },
    h.1,
  ),
  ground (arith, ==_refl accessor),
)

pub attach_accessor-Inv :
    (ans : CreateAnswer) (answers : ℕ → MonitorAnswer) (p : Pending) (name : Text) (node : NodeId)
    (accessor id revised : ℕ)
    → ans.result ≡ created id revised
    → IsQuiet p.front
    → Keeps Inv (attach_accessor ans answers p name node accessor)
unfolding attach_accessor
attach_accessor-Inv ans answers p name node accessor id revised good quiet s h =
    let t = record s { live = accessor ∷ s.live } in
    let k = grown-InvWith accessor s h in
    constructing-Safe Inv accessor (join_manager ans answers p name node accessor) s
      (join_manager-NoThrow ans answers p name node accessor id revised t good quiet k)
      (join_manager-Inv ans answers p name node accessor t k)

pub set_exception_impl-Inv : (d : DeleteAnswer) → Keeps Inv (set_exception_impl d)
unfolding set_exception_impl tell_accessors
set_exception_impl-Inv d s h =
    noexcept-Safe Inv (tell_accessors d) s
      (NoThrow-when s.has_manager _ (deactivate_all-NoThrow other_accessor d) s)
      (Keeps-when Inv s.has_manager _
        (Keeps-Inv (deactivate_all_and_push_exception other_accessor d)
          (λ places. deactivate_all-Held places none other_accessor d))
        s h)
