-- ===== src/Subscription/Board/Refinement.antt =====
-- The callbacks of the client implement the passes over the items: src/SubscriptionManager.cc and the
-- callbacks of src/OPC-UA-Backend.cc.
use device_access_opc_ua_bac.Prelude.{
  ◌&&◌, ℕ, false, ◌≡◌, sym, ap, Text, List, [], ◌∷◌, none, subst,
}
use device_access_opc_ua_bac.Prelude.Deque.Writes.{Placed-lookup}
use device_access_opc_ua_bac.System.{System, DataValue, Outcome, ok, raise, fault, when}
use device_access_opc_ua_bac.System.Safe.{Safe}
use device_access_opc_ua_bac.System.Returns.{
  Returns, Returns-bind, Returns-when, Returns-if, Returns-weaken,
}
use device_access_opc_ua_bac.Subscription.{
  subscription_ends-set_inactive, DeleteAnswer, deleted_with_callback, deleted_silently,
  set_inactive, subscription_ends, delete_single, reset_monitored_items, remove_subscription,
  handle_exception, deactivate_mapped, has_thread, drop_subscription, deactivate,
  deactivate_all_and_push_exception, response_handler,
}
use device_access_opc_ua_bac.Callbacks.{
  ClientEvent, state_change, inactivity, subscription_deleted, data_change, lost_connection,
  state_callback, is_silent, inactivity_callback, handle, handle_all,
}
use device_access_opc_ua_bac.Subscription.Pointers.{Held, addresses}
use device_access_opc_ua_bac.Subscription.Pointers.Roster.{Inv, Inv-Held}
use device_access_opc_ua_bac.Subscription.Pointers.Calls.{
  response_handler-Held, handle_exception-Held, deactivate_mapped-Held, reset_monitored_items-Held,
}
use device_access_opc_ua_bac.Subscription.Board.{
  IsKept, Board, board_of, deliver, tell, stop, clear, Move, delivers, tells, stops, clears, Moves,
  here, next,
}
use device_access_opc_ua_bac.Subscription.Board.Passes.{
  entries-cleared, handle_exception-tell, response_handler-board,
}
use device_access_opc_ua_bac.Subscription.Board.Sweep.{deactivate_mapped-sweep, entries-sweep}

-- What every move keeps, the callbacks keep, and the pointers stay good.
module _ (places : List ℕ) (P : Board → Type 0) (keeps : IsKept P) where
  abbrev pub Follows : System → Type 0
  Follows t = Held places none t × P (board_of t)

  -- A state whose board is reached by a move.
  moved :
      (s t : System) (c : Board)
      → Held places none t
      → P (board_of s)
      → Move (board_of s) c
      → board_of t ≡ c
      → Follows t
  moved s t c h p m e = (h, subst P (sym e) (keeps (board_of s) c m p))

  -- What is known of the state after an operation that returns, from two sides.
  both :
      (c : Board) (s : System) (r : Outcome (Unit {0}))
      → Safe (Held places none) r
      → Returns (λ t. board_of t ≡ c) r
      → P (board_of s)
      → Move (board_of s) c
      → Returns Follows r
  both c s (ok a t) h e p m = moved s t c h p m e
  both c s (raise x t) h e p m = e
  both c s (fault x) h e p m = e

  set_inactive-Follows : (s : System) → Follows s → Returns Follows (subscription_ends s)
  unfolding subscription_ends set_inactive
  set_inactive-Follows s h =
      rw (subscription_ends-set_inactive s, Returns)
        (Returns-when Follows (s.has_manager && s.registered) set_inactive s (λ _. h) (λ _. h))

  delete_single-Follows :
      (d : DeleteAnswer) (s : System) → Follows s → Returns Follows (delete_single d s)
  unfolding delete_single
  delete_single-Follows deleted_silently s h = h
  delete_single-Follows deleted_with_callback s h = set_inactive-Follows s h

  pub remove_subscription-Follows :
      (d : DeleteAnswer) (s : System) → Follows s → Returns Follows (remove_subscription d s)
  unfolding remove_subscription reset_monitored_items
  remove_subscription-Follows d s h =
      Returns-bind Follows Follows (delete_single d) _ s (delete_single-Follows d s h) λ _ t k.
        let u : System = record t { subscription_id = 0 } in
        both (clear (board_of t)) t (reset_monitored_items u)
          (reset_monitored_items-Held places none u k.0)
          (ap (λ es. record { entries = es; present = t.has_manager; pushed = t.pushed })
            (entries-cleared t.subscription_map t.items.cells))
          k.1 (clears (board_of t))

  handle_exception-Follows :
      (message : Text) (s : System) → Follows s → Returns Follows (handle_exception message s)
  handle_exception-Follows message s h =
      both (tell message (board_of s)) s (handle_exception message s)
        (handle_exception-Held places none message s h.0) (handle_exception-tell message s) h.1
        (tells message (board_of s))

  deactivate_mapped-Follows :
      (s : System) → Follows s → Returns Follows (deactivate_mapped s.subscription_map s)
  deactivate_mapped-Follows s h =
      both (stop (board_of s)) s (deactivate_mapped s.subscription_map s)
        (deactivate_mapped-Held places none s.subscription_map s h.0.0.points h.0)
        (rw (deactivate_mapped-sweep s.subscription_map s h.0.0.points, Returns)
          (ap (λ es. record { entries = es; present = s.has_manager; pushed = s.pushed })
            (entries-sweep s.subscription_map s.items h.0.0.sorted h.0.0.points s.items.cells
              (Placed-lookup s.items.fresh s.items.cells h.0.0.placed))))
        h.1 (stops (board_of s))

  drop_subscription-Follows :
      (d : DeleteAnswer) (s : System) → Follows s → Returns Follows (drop_subscription d s)
  unfolding drop_subscription
  drop_subscription-Follows d s h =
      let t : System = record s { subscription_active = false } in
      Returns-if Follows (has_thread s.thread) _ (remove_subscription d) t (λ _. h)
        (λ _. remove_subscription-Follows d t h)

  pub deactivate-Follows :
      (d : DeleteAnswer) (s : System) → Follows s → Returns Follows (deactivate d s)
  unfolding deactivate
  deactivate-Follows d s h =
      Returns-bind Follows Follows (deactivate_mapped s.subscription_map) _ s
        (deactivate_mapped-Follows s h)
        λ _ t k.
          let u : System = record t { run = false } in
          let q : Follows u = ((k.0.0, ((λ e. cc), k.0.1.1)), k.1) in
          Returns-bind Follows Follows (when t.subscription_active (drop_subscription d)) _ u
            (Returns-when Follows t.subscription_active (drop_subscription d) u (λ _. q)
              (λ _. drop_subscription-Follows d u q))
            (λ _ w x. x)

  deactivate_all-Follows :
      (message : Text) (d : DeleteAnswer) (s : System)
      → Follows s
      → Returns Follows (deactivate_all_and_push_exception message d s)
  unfolding deactivate_all_and_push_exception
  deactivate_all-Follows message d s h =
      Returns-bind Follows Follows (handle_exception message) _ s
        (handle_exception-Follows message s h) (λ _. deactivate-Follows d)

  response-Follows :
      (id : ℕ) (v : DataValue) (s : System) → Follows s → Returns Follows (response_handler id v s)
  response-Follows id v s h =
      both (deliver id v (board_of s)) s (response_handler id v s)
        (response_handler-Held places none id v s h.0)
        (response_handler-board id v s (Inv-Held places s h.0)) h.1 (delivers id v (board_of s))

  handle-Follows : (e : ClientEvent) (s : System) → Follows s → Returns Follows (handle e s)
  unfolding handle state_callback inactivity_callback
  handle-Follows (state_change c n d) s h =
      Returns-when Follows s.registered _ s (λ _. h)
        (λ _.
          let t : System = record s { channel_state = c; session_state = n } in
          Returns-when Follows (lost_connection t) _ t (λ _. h)
            (λ _. deactivate_all-Follows _ d t h))
  handle-Follows (inactivity f id d) s h =
      Returns-if Follows s.registered _ _ s
        (λ _.
          Returns-when Follows (is_silent f id s) _ s (λ _. h)
            (λ _.
              Returns-bind Follows Follows (deactivate_all_and_push_exception _ d) _ s
                (deactivate_all-Follows _ d s h) (λ _ t k. k)))
        (λ off. cc (off, h.0.1.1))
  handle-Follows subscription_deleted s h = set_inactive-Follows s h
  handle-Follows (data_change id v) s h = response-Follows id v s h

  pub handle_all-Follows :
      (es : List ClientEvent) (s : System) → Follows s → Returns Follows (handle_all es s)
  unfolding handle_all
  handle_all-Follows [] s h = h
  handle_all-Follows (e ∷ es) s h =
      Returns-bind Follows Follows (handle e) (λ _. handle_all es) s (handle-Follows e s h)
        (λ _ t k. handle_all-Follows es t k)

-- Any callbacks of the client, in any order, implement the abstract manager: they return, follow no
-- dangling pointer, and take the items by moves of the abstract manager only, in which a value goes to
-- the item that is mapped under its id, an exception goes to the active items that were not told of
-- one, the mapped items stop, or none is monitored any more.
pub handle_all-Moves :
    (es : List ClientEvent) (s : System)
    → Inv s
    → Returns (λ t. Moves (board_of s) (board_of t)) (handle_all es s)
handle_all-Moves es s h =
    let keeps : IsKept (Moves (board_of s)) = λ b c m ms. next ms m in
    Returns-weaken (Follows (addresses s.items.cells) (Moves (board_of s)) keeps)
      (λ t. Moves (board_of s) (board_of t)) (handle_all es s) (λ t k. k.1)
      (handle_all-Follows (addresses s.items.cells) (Moves (board_of s)) keeps es s (h, here))
