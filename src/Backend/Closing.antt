-- ===== src/Backend/Closing.antt =====
-- `close` of src/OPC-UA-Backend.cc comes to an end, with the thread joined.
use device_access_opc_ua_bac.Prelude.{
  ◌&&◌, Bool, ℕ, true, false, ◌≡◌, refl, List, [], ◌∷◌, none, arith, sym, All, subst,
}
use device_access_opc_ua_bac.System.{System, DataValue, Thread, null, running, returned, when}
use device_access_opc_ua_bac.System.Returns.{Returns, Returns-bind, Returns-when, Returns-if}
use device_access_opc_ua_bac.Subscription.{
  subscription_ends-set_inactive, DeleteAnswer, deleted_with_callback, deleted_silently,
  delete_single, subscription_ends, set_inactive, reset_monitored_items, remove_subscription,
  deactivate, response_handler,
}
use device_access_opc_ua_bac.Subscription.Worker.{
  Round, finish_client, run_client, join, stop_client_thread,
}
use device_access_opc_ua_bac.Subscription.Deactivation.{
  AtRest, deactivate-AtRest, IsQuiet, IsQuietAt, response-IsQuiet,
}
use device_access_opc_ua_bac.Subscription.Pointers.{addresses}
use device_access_opc_ua_bac.Subscription.Pointers.Roster.{Inv}
use device_access_opc_ua_bac.Subscription.Pointers.Joins.{run_loop_idle}
use device_access_opc_ua_bac.Callbacks.{
  ClientEvent, state_change, inactivity, subscription_deleted, data_change, lost_connection,
  state_callback, is_silent, inactivity_callback, handle, handle_all,
}
use device_access_opc_ua_bac.Backend.{ResetAnswer, reset_manager, reset_client, close_device}

-- No item is mapped, no subscription is active, and no loop goes on.
abbrev pub Stopped : System → Type 0
Stopped t =
    ((t.registered ≡ true) × (t.run ≡ false))
    × ((t.subscription_map ≡ []) × (t.subscription_active ≡ false))

abbrev pub Closed : System → Type 0
Closed t = Stopped t × (t.thread ≡ null)

delete_single-Stopped :
    (d : DeleteAnswer) (s : System) → Stopped s → Returns Stopped (delete_single d s)
unfolding delete_single subscription_ends set_inactive
delete_single-Stopped deleted_silently s h = h
delete_single-Stopped deleted_with_callback s h =
    rw (subscription_ends-set_inactive s, Returns)
      (Returns-when Stopped (s.has_manager && s.registered) set_inactive s (λ _. h)
        (λ _. (h.0, (h.1.0, refl))))

remove_subscription-Stopped :
    (d : DeleteAnswer) (s : System) → Stopped s → Returns Stopped (remove_subscription d s)
unfolding remove_subscription reset_monitored_items
remove_subscription-Stopped d s h =
    Returns-bind Stopped Stopped (delete_single d) _ s (delete_single-Stopped d s h)
      (λ _ t k. (k.0, (refl, k.1.1)))

finish_client-Stopped :
    (d : DeleteAnswer) (s : System) → Stopped s → Returns Stopped (finish_client d s)
unfolding finish_client
finish_client-Stopped d s h =
    Returns-bind Stopped Stopped (when s.subscription_needs_to_be_removed _) _ s
      (Returns-when Stopped s.subscription_needs_to_be_removed _ s (λ _. h)
        (λ _.
          Returns-bind Stopped Stopped (remove_subscription d) _ s
            (remove_subscription-Stopped d s h) (λ _ t k. k)))
      (λ _ t k. ((k.0.0, refl), k.1))

run_client-Stopped :
    (rs : List Round) (d : DeleteAnswer) (s : System)
    → Stopped s
    → Returns Stopped (run_client rs d s)
unfolding run_client
run_client-Stopped rs d s h =
    rw (run_loop_idle (addresses s.items.cells) rs s h.0.1, Returns) (finish_client-Stopped d s h)

join-Closed :
    (th : Thread) (rounds : List Round) (d : DeleteAnswer) (s : System)
    → s.thread ≡ th
    → Stopped s
    → Returns Closed (join th rounds d s)
unfolding join
join-Closed null rounds d s e h = (h, e)
join-Closed returned rounds d s e h = (h, refl)
join-Closed running rounds d s e h =
    Returns-bind Stopped Closed (run_client rounds d) _ s (run_client-Stopped rounds d s h)
      (λ _ t k. (k, refl))

quiet_handler :
    (id : ℕ) (v : DataValue) (s : System) → Closed s → Returns Closed (response_handler id v s)
quiet_handler id v s h =
    let quiet : IsQuiet s = subst (All (IsQuietAt s.items)) (sym h.0.1.0) tt in
    rw (response-IsQuiet id v s quiet, Returns) h

pub lost_connection_idle : (s : System) → s.run ≡ false → lost_connection s ≡ true → ⊥
unfolding lost_connection
lost_connection_idle s off on = ground arith

is_silent_idle : (f : Bool) (id : ℕ) (s : System) → s.run ≡ false → is_silent f id s ≡ true → ⊥
unfolding is_silent
is_silent_idle f id s off on = ground arith

handle-Closed : (e : ClientEvent) (s : System) → Closed s → Returns Closed (handle e s)
unfolding handle state_callback inactivity_callback set_inactive
handle-Closed (state_change c n d) s h =
    Returns-when Closed s.registered _ s (λ _. h)
      (λ _.
        let t : System = record s { channel_state = c; session_state = n } in
        Returns-when Closed (lost_connection t) _ t (λ _. h)
          (λ on. absurd (lost_connection_idle t h.0.0.1 on)))
handle-Closed (inactivity f id d) s h =
    Returns-if Closed s.registered _ _ s
      (λ _.
        Returns-when Closed (is_silent f id s) _ s (λ _. h)
          (λ on. absurd (is_silent_idle f id s h.0.0.1 on)))
      (λ off. cc (off, h.0.0.0))
handle-Closed subscription_deleted s h =
    rw (subscription_ends-set_inactive s, Returns)
      (Returns-when Closed (s.has_manager && s.registered) set_inactive s (λ _. h)
        (λ _. ((h.0.0, (h.0.1.0, refl)), h.1)))
handle-Closed (data_change id v) s h = quiet_handler id v s h

pub handle_all-Closed :
    (es : List ClientEvent) (s : System) → Closed s → Returns Closed (handle_all es s)
unfolding handle_all
handle_all-Closed [] s h = h
handle_all-Closed (e ∷ es) s h =
    Returns-bind Closed Closed (handle e) (λ _. handle_all es) s (handle-Closed e s h)
      (λ _ t k. handle_all-Closed es t k)

reset_manager-Closed :
    (ans : ResetAnswer) (s : System) → Inv s → Returns Closed (reset_manager ans s)
unfolding reset_manager reset_monitored_items stop_client_thread
reset_manager-Closed ans s h =
    Returns-bind (λ t. AtRest (addresses s.items.cells) none t × (t.async_read_active ≡ false))
      Closed (deactivate ans.deletion) _ s
      (deactivate-AtRest (addresses s.items.cells) none ans.deletion s h)
      (λ _ t q.
        join-Closed t.thread ans.rounds ans.final_deletion _ refl
          ((q.0.0.0.0.1.1, q.0.0.1), (refl, q.0.1)))

-- The reset of the client does so, too.
pub reset_client-Closed :
    (ans : ResetAnswer) (s : System)
    → Inv s
    → s.has_manager ≡ true
    → Returns Closed (reset_client ans s)
unfolding reset_client
reset_client-Closed ans s h has =
    Returns-bind Closed Closed (when s.has_manager (reset_manager ans)) _ s
      (Returns-when Closed s.has_manager (reset_manager ans) s (λ off. cc (off, has))
        (λ _. reset_manager-Closed ans s h))
      (λ _. handle_all-Closed ans.disconnect_events)

-- `close` of a device with a subscription manager returns, whatever the server answers and the
-- client reports: it throws nothing and waits for no thread that goes on. The thread is joined then,
-- no item is mapped, and no subscription is active.
pub close_device-Closed :
    (ans : ResetAnswer) (s : System)
    → Inv s
    → s.has_manager ≡ true
    → Returns Closed (close_device ans s)
unfolding close_device
close_device-Closed ans s h has = reset_client-Closed ans (record s { opened = false }) h has
