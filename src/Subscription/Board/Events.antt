-- ===== src/Subscription/Board/Events.antt =====
-- What each callback of the client does to the abstract manager: `stateCallback` and
-- `inactivityCallback` of src/OPC-UA-Backend.cc and the callbacks of src/SubscriptionManager.cc.
use device_access_opc_ua_bac.Prelude.{
  Bool, true, false, not, ◌&&◌, ◌==◌, ◌≡◌, refl, ap, ◌∙◌, Text, codes, ◌++◌, none, if◌then◌else◌,
  arith,
}
use device_access_opc_ua_bac.Prelude.Decimal.{to_decimal}
use device_access_opc_ua_bac.Prelude.Deque
use device_access_opc_ua_bac.Prelude.Deque.Writes.{Placed-lookup}
use device_access_opc_ua_bac.System.{
  System, is_connected, is_activated, is_channel_open, session_closed, when, put, ◌>>◌, M,
}
use device_access_opc_ua_bac.System.Returns.{
  Returns, Returns-bind, Returns-when, Returns-if, Returns-weaken,
}
use device_access_opc_ua_bac.Subscription.{
  DeleteAnswer, deleted_with_callback, deleted_silently, delete_single,
  subscription_ends-set_inactive, set_inactive, reset_monitored_items, remove_subscription,
  handle_exception, has_thread, drop_subscription, deactivate_mapped, exceptions, with_exception,
  deactivate, deactivate_all_and_push_exception,
}
use device_access_opc_ua_bac.Subscription.Pointers.Calls.{handle_exception-Held}
use device_access_opc_ua_bac.Subscription.Pointers.Roster.{Inv, Keeps-Inv}
use device_access_opc_ua_bac.Callbacks.{
  ClientEvent, state_change, inactivity, subscription_deleted, data_change, state_callback,
  inactivity_callback, handle, lost_connection, is_silent,
}
use device_access_opc_ua_bac.Subscription.Board.{Board, board_of, deliver, tell, stop, clear}
use device_access_opc_ua_bac.Subscription.Board.Passes.{
  entries-cleared, handle_exception-tell, response_handler-board,
}
use device_access_opc_ua_bac.Subscription.Board.Sweep.{deactivate_mapped-sweep, entries-sweep}

-- The mapped items stop, and where the manager removes its subscription itself none is monitored.
unfoldable pub stopped : Bool → Board → Board
stopped true b = clear (stop b)
stopped false b = stop b

-- With a thread the removal is left to it.
abbrev pub removes_itself : System → Bool
removes_itself s = s.subscription_active && not (has_thread s.thread)

-- The active items are told of the exception, once, before all stop.
abbrev pub shut_down : Text → System → Board
shut_down message s = stopped (removes_itself s) (tell message (board_of s))

-- What is left of the board after one callback.
unfoldable pub after : ClientEvent → System → Board
unfolding is_activated is_channel_open is_connected
after (state_change channel session d) s =
    if s.opened && not (is_activated session && is_channel_open channel) && s.has_manager && s.run
    then shut_down (codes "Client session is not open any more.") s
    else board_of s
after (inactivity functional id d) s =
    if functional && is_connected s && s.has_manager && s.run && s.subscription_id == id
    then shut_down (codes "No activity for subscriptions: " ++ to_decimal id) s
    else board_of s
after subscription_deleted s = board_of s
after (data_change id v) s = deliver id v (board_of s)

delete_single-board :
    (d : DeleteAnswer) (s : System) → Returns (λ t. board_of t ≡ board_of s) (delete_single d s)
unfolding delete_single set_inactive
delete_single-board deleted_silently s = refl
delete_single-board deleted_with_callback s =
    rw (subscription_ends-set_inactive s, Returns)
      (Returns-when (λ t. board_of t ≡ board_of s) (s.has_manager && s.registered) set_inactive s
        (λ _. refl) (λ _. refl))

remove_subscription-clear :
    (d : DeleteAnswer) (s : System)
    → Returns (λ t. board_of t ≡ clear (board_of s)) (remove_subscription d s)
unfolding remove_subscription reset_monitored_items
remove_subscription-clear d s =
    Returns-bind (λ t. board_of t ≡ board_of s) (λ t. board_of t ≡ clear (board_of s))
      (delete_single d) _ s (delete_single-board d s)
      (λ _ t k.
        ap (λ es. record { entries = es; present = t.has_manager; pushed = t.pushed })
          (entries-cleared t.subscription_map t.items.cells)
        ∙ ap clear k)

stopped-true : (c : Bool) (b : Board) → c ≡ true → clear (stop b) ≡ stopped c b
unfolding stopped
stopped-true c b e = rw e refl

stopped-false : (c : Bool) (b : Board) → c ≡ false → stop b ≡ stopped c b
unfolding stopped
stopped-false c b e = rw e refl

-- A state after which the flags are those of `s`.
abbrev IsSwept : System → System → Type 0
IsSwept s t =
    (board_of t ≡ stop (board_of s))
    × (t.subscription_active ≡ s.subscription_active)
    × (t.thread ≡ s.thread)

drop_subscription-stopped :
    (d : DeleteAnswer) (s t : System)
    → IsSwept s t
    → t.subscription_active ≡ true
    → Returns (λ u. board_of u ≡ stopped (removes_itself s) (board_of s)) (drop_subscription d t)
unfolding drop_subscription
drop_subscription-stopped d s t (e, active, thread) on =
    let off : System = record t { subscription_active = false } in
    Returns-if (λ u. board_of u ≡ stopped (removes_itself s) (board_of s)) (has_thread t.thread) _
      (remove_subscription d) off
      (λ has.
        e ∙ stopped-false (removes_itself s) (board_of s) (rw (← thread) (ground (arith, has))))
      (λ none_there.
        Returns-weaken (λ u. board_of u ≡ clear (board_of off)) _ (remove_subscription d off)
          (λ u k.
            k
            ∙ ap clear e
            ∙ stopped-true (removes_itself s) (board_of s)
                (rw (← active, ← thread, on, none_there) refl))
          (remove_subscription-clear d off))

deactivate-stopped :
    (d : DeleteAnswer) (s : System)
    → Inv s
    → Returns (λ t. board_of t ≡ stopped (removes_itself s) (board_of s)) (deactivate d s)
unfolding deactivate
deactivate-stopped d s h =
    Returns-bind (IsSwept s) (λ t. board_of t ≡ stopped (removes_itself s) (board_of s))
      (deactivate_mapped s.subscription_map) _ s
      (rw (deactivate_mapped-sweep s.subscription_map s h.0.points, Returns)
        (
          ap (λ es. record { entries = es; present = s.has_manager; pushed = s.pushed })
              (entries-sweep s.subscription_map s.items h.0.sorted h.0.points s.items.cells
                (Placed-lookup s.items.fresh s.items.cells h.0.placed)),
          refl,
          refl,
        ))
      (λ _ t k.
        let u : System = record t { run = false } in
        Returns-bind (λ w. board_of w ≡ stopped (removes_itself s) (board_of s)) _
          (when t.subscription_active (drop_subscription d)) _ u
          (Returns-when (λ w. board_of w ≡ stopped (removes_itself s) (board_of s))
            t.subscription_active (drop_subscription d) u
            (λ off. k.0 ∙ stopped-false (removes_itself s) (board_of s) (rw (← k.1, off) refl))
            (λ on. drop_subscription-stopped d s u k on))
          (λ _ w x. x))

deactivate_all-shut_down :
    (message : Text) (d : DeleteAnswer) (s : System)
    → Inv s
    → Returns
        (λ t. board_of t ≡ shut_down message s)
        (deactivate_all_and_push_exception message d s)
unfolding deactivate_all_and_push_exception handle_exception
deactivate_all-shut_down message d s h =
    let told : System = record s {
      items = Deque.map_items with_exception s.items;
      pushed = s.pushed ++ exceptions message s.items.cells;
    } in
    Returns-weaken (λ t. board_of t ≡ stopped (removes_itself told) (board_of told)) _
      (deactivate d told)
      (λ t k. k ∙ ap (stopped (removes_itself s)) (handle_exception-tell message s))
      (deactivate-stopped d told (
        Keeps-Inv (handle_exception message) (λ places. handle_exception-Held places none message) s
          h))

when-if :
    (c : Bool) (m : M (Unit {0})) (b : Board) (s : System)
    → Returns (λ t. board_of t ≡ b) (m s)
    → Returns (λ t. board_of t ≡ (if c then b else board_of s)) (when c m s)
when-if true m b s h = h
when-if false m b s h = refl

-- In a correct state each callback of the client returns, follows no pointer that dangles, and does to the
-- items and to what is pushed just what the abstract manager says of it. A value goes to the item that
-- is mapped under its id. A change of the connection of an open device with a running manager to one
-- that is not connected, and the silence of its subscription, give an exception to every active item
-- that was not told of one and stop the mapped items; where a subscription is active and no thread is
-- there, no item is monitored after that. Else, and where a subscription was deleted, nothing changes.
pub handle-after :
    (e : ClientEvent) (s : System) → Inv s → Returns (λ t. board_of t ≡ after e s) (handle e s)
unfolding handle state_callback inactivity_callback after lost_connection is_silent is_connected
    set_inactive
handle-after (state_change channel session d) s h =
    let message : Text = codes "Client session is not open any more." in
    let t : System = record s { channel_state = channel; session_state = session } in
    Returns-when (λ u. board_of u ≡ after (state_change channel session d) s) s.registered _ s
      (λ off. cc (off, h.1.1))
      (λ _.
        when-if (lost_connection t) (deactivate_all_and_push_exception message d)
          (shut_down message s) t (deactivate_all-shut_down message d t h))
handle-after (inactivity functional id d) s h =
    let message : Text = codes "No activity for subscriptions: " ++ to_decimal id in
    Returns-if (λ u. board_of u ≡ after (inactivity functional id d) s) s.registered _ _ s
      (λ _.
        when-if (is_silent functional id s)
          (deactivate_all_and_push_exception message d
            >> put (λ u. record u { session_state = session_closed }))
          (shut_down message s) s
          (Returns-bind (λ t. board_of t ≡ shut_down message s) _
            (deactivate_all_and_push_exception message d) _ s
            (deactivate_all-shut_down message d s h) (λ _ t k. k)))
      (λ off. cc (off, h.1.1))
handle-after subscription_deleted s h =
    rw (subscription_ends-set_inactive s, Returns)
      (Returns-when (λ t. board_of t ≡ board_of s) (s.has_manager && s.registered) set_inactive s
        (λ _. refl) (λ _. refl))
handle-after (data_change id v) s h = response_handler-board id v s h
