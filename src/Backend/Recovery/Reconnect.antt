-- ===== src/Backend/Recovery/Reconnect.antt =====
-- `open` of src/OPC-UA-Backend.cc with a server that takes every item asks for all of them again.
use device_access_opc_ua_bac.Prelude.{ℕ, false, not, ◌≡◌, Text, List, arith}
use device_access_opc_ua_bac.System.{System, when, is_connected}
use device_access_opc_ua_bac.System.Returns.{
  Returns, Returns-bind, Returns-when, Returns-if, Returns-both,
}
use device_access_opc_ua_bac.Callbacks.{ClientEvent, handle_all}
use device_access_opc_ua_bac.Subscription.{DeleteAnswer}
use device_access_opc_ua_bac.Subscription.Monitor.{create_subscription, prepare, needs_monitoring}
use device_access_opc_ua_bac.Subscription.Worker.{Round, stop_client_thread}
use device_access_opc_ua_bac.Subscription.Pointers.{addresses}
use device_access_opc_ua_bac.Subscription.Pointers.Roster.{Inv-Held}
use device_access_opc_ua_bac.Backend.{
  ResetAnswer, OpenAnswer, connect, take_connected, reconnect, wait_for_client, open_device,
  reset_client,
}
use device_access_opc_ua_bac.Backend.Closing.{Closed, reset_client-Closed}
use device_access_opc_ua_bac.Backend.Recovery.Roster.{
  IsRoster, Move-IsRoster, Kept, Reset, reset_client-Reset, stop_client_thread-Follows,
}
use device_access_opc_ua_bac.Backend.Recovery.Restart.{
  Server, accepts, Returns-append, Quieted, Linked, Subscribed, handle_all-Quieted,
  open_session-Linked, create_subscription-Subscribed,
}
use device_access_opc_ua_bac.Backend.Recovery.Items.{
  Cells, roster, Prepared, add_monitored_items-Prepared,
}

-- What `open` meets with a server that takes every item: the rounds of the thread, the deletions and the callbacks are
-- any.
pub record Opening : Type 0 where
  pub server : Server
  pub rounds : List Round
  pub final_deletion : DeleteAnswer
  pub reset : ResetAnswer
  pub events : List ClientEvent
  pub sleep_events : ℕ → List ClientEvent

abbrev pub answer : Opening → OpenAnswer
answer o = record {
  rounds = o.rounds;
  final_deletion = o.final_deletion;
  connection = accepts o.server o.reset o.events;
  sleep_events = o.sleep_events;
}

module _ (o : Opening) (distinct : (a c : ℕ) → o.server.ids a ≡ o.server.ids c → a ≡ c)
    (l : List (ℕ × ℕ)) (cs : Cells) where
  abbrev Ready : System → Type 0
  Ready = Prepared o.server.ids distinct cs

  abbrev K : System → Type 0
  K = Kept (addresses cs) (roster l cs)

  prepare-Ready :
      (s : System)
      → Linked (addresses cs) (roster l cs) s
      → Returns Ready (prepare (answer o).connection.create (answer o).connection.monitor s)
  unfolding prepare
  prepare-Ready s h =
      Returns-bind (Subscribed (addresses cs) (roster l cs)) Ready
        (create_subscription (answer o).connection.create) _ s
        (create_subscription-Subscribed (addresses cs) (roster l cs) o.server o.reset o.events s h)
        (λ _ t k. add_monitored_items-Prepared o.server.ids distinct l cs t k)

  connect-Ready :
      (address : Text) (s : System) → K s → Returns Ready (connect address (answer o).connection s)
  unfolding connect take_connected
  connect-Ready address s h =
      Returns-bind (Quieted (addresses cs) (roster l cs)) Ready (reset_client o.reset) _ s
        (Returns-both Closed (Reset (addresses cs) (roster l cs)) (reset_client o.reset s)
          (reset_client-Closed o.reset s (Inv-Held (addresses cs) s h.0) h.1.1)
          (reset_client-Reset (addresses cs) (roster l cs) o.reset s h))
        λ _ t k.
          Returns-bind (Linked (addresses cs) (roster l cs)) Ready
            (handle_all (answer o).connection.connect_events) _ t
            (Returns-append (Quieted (addresses cs) (roster l cs))
              (Linked (addresses cs) (roster l cs)) o.events _ t
              (handle_all-Quieted (addresses cs) (roster l cs) o.events t k)
              (open_session-Linked (addresses cs) (roster l cs) o.server.deletion))
            λ _ u q.
              Returns-when Ready u.has_manager _ u (λ off. cc (off, q.0.1.1.0.1))
                (λ _. prepare-Ready u q)

  reconnect-Ready :
      (address : Text) (s : System)
      → K s
      → s.run ≡ false
      → Returns Ready (reconnect address (answer o) s)
  unfolding reconnect
  reconnect-Ready address s h off =
      Returns-bind (λ t. K t × (t.run ≡ false)) Ready
        (when s.has_manager (stop_client_thread o.rounds o.final_deletion)) _ s
        (Returns-when (λ t. K t × (t.run ≡ false)) s.has_manager
          (stop_client_thread o.rounds o.final_deletion) s (λ _. (h, off))
          (λ _.
            stop_client_thread-Follows (addresses cs) (IsRoster (roster l cs))
              (λ _ _. Move-IsRoster (roster l cs)) o.rounds o.final_deletion s (h, off)))
        (λ _ t k. connect-Ready address t k.0)

  -- The client is connected at the first look.
  wait_for_client-Ready :
      (s : System) → Ready s → Returns Ready (wait_for_client 5 o.sleep_events s)
  unfolding wait_for_client
  wait_for_client-Ready s h =
      Returns-if Ready (is_connected s) _ _ s (λ _. h) (λ off. cc (off, h.0.0))

  pub open_device-Ready :
      (address : Text) (s : System)
      → K s
      → s.run ≡ false
      → is_connected s ≡ false
      → Returns Ready (open_device address (answer o) s)
  unfolding open_device is_connected needs_monitoring
  open_device-Ready address s h off lost =
      Returns-bind Ready Ready (when (not (is_connected s)) (reconnect address (answer o))) _ s
        (Returns-when Ready (not (is_connected s)) (reconnect address (answer o)) s
          (λ on. ground (arith, lost)) (λ _. reconnect-Ready address s h off))
        (λ _ t k.
          Returns-bind Ready Ready (wait_for_client 5 o.sleep_events) _ t
            (wait_for_client-Ready t k) (λ _ u q. q))
