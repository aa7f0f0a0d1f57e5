-- ===== src/Backend/Recovery/Restart.antt =====
-- `open` and `activateAsyncRead` of src/OPC-UA-Backend.cc after a connection was lost, where the server
-- is reached and takes what it is asked for.
use device_access_opc_ua_bac.Prelude.{
  ◌&&◌, ℕ, true, not, ◌≡◌, refl, Text, List, [], ◌∷◌, ◌++◌, none, ◌==◌,
}
use device_access_opc_ua_bac.System.{
  System, null, when, Outcome, ok, raise, fault, channel_open, activated, is_connected,
  is_activated, is_channel_open,
}
use device_access_opc_ua_bac.System.Returns.{
  Returns, Returns-bind, Returns-when, Returns-both, Returns-weaken,
}
use device_access_opc_ua_bac.Callbacks.{
  ClientEvent, state_change, handle, handle_all, state_callback, lost_connection,
}
use device_access_opc_ua_bac.Subscription.{
  subscription_ends-set_inactive, DeleteAnswer, deleted_silently, deleted_with_callback,
  delete_single, subscription_ends, set_inactive, remove_subscription, reset_monitored_items,
}
use device_access_opc_ua_bac.Subscription.Monitor.{created, take_created, create_subscription}
use device_access_opc_ua_bac.Subscription.Recovery.{takes_all}
use device_access_opc_ua_bac.Subscription.Board.Refinement.{
  handle_all-Follows, remove_subscription-Follows,
}
use device_access_opc_ua_bac.Backend.{ResetAnswer, ConnectAnswer}
use device_access_opc_ua_bac.Backend.Closing.{Closed, handle_all-Closed, lost_connection_idle}
use device_access_opc_ua_bac.Backend.Recovery.Roster.{IsReset, Move-IsReset, Reset}

-- A server that accepts the connection, a subscription and every item, which it gives ids of its own.
pub record Server : Type 0 where
  pub ids : ℕ → ℕ
  pub subscription : ℕ
  pub interval : ℕ
  pub deletion : DeleteAnswer

-- What `connect` meets: any callbacks first, and the last of them tells of the open session.
abbrev pub accepts : Server → ResetAnswer → List ClientEvent → ConnectAnswer
accepts v reset events = record {
  reset = reset;
  connect_events = events ++ state_change channel_open activated v.deletion ∷ [];
  refusal = none;
  create = record {
    deletion = v.deletion;
    events = [];
    result = created v.subscription v.interval;
  };
  monitor = takes_all v.ids;
}

pub Returns-append :
    (Q P : System → Type 0) (xs ys : List ClientEvent) (s : System)
    → Returns Q (handle_all xs s)
    → ((t : System) → Q t → Returns P (handle_all ys t))
    → Returns P (handle_all (xs ++ ys) s)
unfolding handle_all
Returns-append Q P [] ys s h k = k s h
Returns-append Q P (x ∷ xs) ys s h k = go (λ t q. Returns-append Q P xs ys t q k) (handle x s) h
  where
    go :
        ((t : System) → Returns Q (handle_all xs t) → Returns P (handle_all (xs ++ ys) t))
        → (o : Outcome (Unit {0}))
        → Returns Q
            (elim o [ ok a t ↦ handle_all xs t | raise e t ↦ raise e t | fault x ↦ fault x ])
        → Returns P (elim o [
          | ok a t ↦ handle_all (xs ++ ys) t
          | raise e t ↦ raise e t
          | fault x ↦ fault x
        ])
    go f (ok a t) q = f t q
    go f (raise e t) q = q
    go f (fault x) q = q

module _ (places : List ℕ) (r : List (Text × List ℕ)) where
  -- Nothing is monitored, and the session is open.
  abbrev pub Quieted : System → Type 0
  Quieted t = Closed t × Reset places r t

  abbrev pub Linked : System → Type 0
  Linked t = Quieted t × (is_connected t ≡ true)

  pub handle_all-Quieted :
      (es : List ClientEvent) (s : System) → Quieted s → Returns Quieted (handle_all es s)
  handle_all-Quieted es s h =
      Returns-both Closed (Reset places r) (handle_all es s) (handle_all-Closed es s h.0)
        (handle_all-Follows places (IsReset r) (λ _ _. Move-IsReset r) es s h.1)

  pub open_session-Linked :
      (d : DeleteAnswer) (s : System)
      → Quieted s
      → Returns Linked (handle_all (state_change channel_open activated d ∷ []) s)
  unfolding handle_all handle state_callback is_connected is_activated is_channel_open
  open_session-Linked d s h =
      let t : System = record s { channel_state = channel_open; session_state = activated } in
      Returns-bind Linked Linked (handle (state_change channel_open activated d)) _ s
        (Returns-when Linked s.registered _ s (λ off. cc (off, h.0.0.0.0))
          (λ _.
            Returns-when Linked (lost_connection t) _ t (λ _. (h, refl))
              (λ on. absurd (lost_connection_idle t h.0.0.0.1 on))))
        (λ _ u k. k)

  delete_single-Linked :
      (d : DeleteAnswer) (s : System)
      → Closed s × (is_connected s ≡ true)
      → Returns (λ t. Closed t × (is_connected t ≡ true)) (delete_single d s)
  unfolding delete_single subscription_ends set_inactive is_connected
  delete_single-Linked deleted_silently s h = h
  delete_single-Linked deleted_with_callback s h =
      rw (subscription_ends-set_inactive s, Returns)
        (Returns-when (λ t. Closed t × (is_connected t ≡ true)) (s.has_manager && s.registered)
          set_inactive s (λ _. h) (λ _. (((h.0.0.0, (h.0.0.1.0, refl)), h.0.1), h.1)))

  abbrev Silent : System → Type 0
  Silent t = Closed t × (is_connected t ≡ true)

  remove_subscription-Silent :
      (d : DeleteAnswer) (s : System) → Silent s → Returns Silent (remove_subscription d s)
  unfolding remove_subscription reset_monitored_items is_connected
  remove_subscription-Silent d s h =
      Returns-bind Silent Silent (delete_single d) _ s (delete_single-Linked d s h)
        (λ _ t k. (((k.0.0.0, (refl, k.0.0.1.1)), k.0.1), k.1))

  remove_subscription-Linked :
      (d : DeleteAnswer) (s : System) → Linked s → Returns Linked (remove_subscription d s)
  remove_subscription-Linked d s h =
      Returns-weaken _ Linked (remove_subscription d s) (λ t k. ((k.0.0, k.1), k.0.1))
        (Returns-both Silent (Reset places r) (remove_subscription d s)
          (remove_subscription-Silent d s (h.0.0, h.1))
          (remove_subscription-Follows places (IsReset r) (λ _ _. Move-IsReset r) d s h.0.1))

  -- The new subscription is there, and no item is asked for yet.
  abbrev pub Subscribed : System → Type 0
  Subscribed t =
      (Reset places r t × (is_connected t ≡ true))
      × ((t.subscription_map ≡ []) × (t.subscription_active ≡ true) × (t.thread ≡ null))

  pub create_subscription-Subscribed :
      (v : Server) (reset : ResetAnswer) (events : List ClientEvent) (s : System)
      → Linked s
      → Returns Subscribed (create_subscription (accepts v reset events).create s)
  unfolding create_subscription handle_all take_created is_connected
  create_subscription-Subscribed v reset events s h =
      Returns-bind Linked Subscribed (when (not (s.subscription_id == 0)) _) _ s
        (Returns-when Linked (not (s.subscription_id == 0)) (remove_subscription v.deletion) s
          (λ _. h) (λ _. remove_subscription-Linked v.deletion s h))
        (λ _ t k. ((k.0.1, k.1), (k.0.0.0.1.0, refl, k.0.0.1)))
