-- ===== src/Backend/Pointers.antt =====
-- Every operation of the device keeps the pointers of the subscription manager good.
use device_access_opc_ua_bac.Prelude.{
  ℕ, zero, suc, Bool, true, false, not, ◌≡◌, refl, sym, Text, List, Option, none, some,
}
use device_access_opc_ua_bac.System.{System, Thread, null, running, returned, is_connected, when}
use device_access_opc_ua_bac.System.Safe.{
  Safe, Keeps, Safe-bind, Keeps-bind, Keeps-when, Safe-if, Safe-when,
}
use device_access_opc_ua_bac.System.Returns.{Returns-Safe}
use device_access_opc_ua_bac.Subscription.{
  deactivate, reset_monitored_items, has_thread, is_running,
}
use device_access_opc_ua_bac.Subscription.Worker.{launch, start, stop_client_thread}
use device_access_opc_ua_bac.Subscription.Deactivation.{AtRest, deactivate-AtRest}
use device_access_opc_ua_bac.Subscription.Pointers.{Held, Good}
use device_access_opc_ua_bac.Subscription.Pointers.Calls.{
  handle_all-Held, reset_monitored_items-Held,
}
use device_access_opc_ua_bac.Subscription.Pointers.Requests.{prepare-Held}
use device_access_opc_ua_bac.Subscription.Pointers.Joins.{stop_halted-Held, stop_client_thread-Held}
use device_access_opc_ua_bac.Callbacks.{ClientEvent, handle_all}
use device_access_opc_ua_bac.Backend.{
  ResetAnswer, reset_manager, reset_client, ConnectAnswer, take_connected, connect, wait_for_client,
  OpenAnswer, reconnect, open_device, close_device, start_if_needed,
}

not-true : (b : Bool) → not b ≡ true → b ≡ false
not-true true e = sym e
not-true false e = refl

module _ (places : List ℕ) where
  abbrev H : System → Type 0
  H = Held places none

  pub reset_manager-Held : (ans : ResetAnswer) → Keeps H (reset_manager ans)
  unfolding reset_manager reset_monitored_items
  reset_manager-Held ans s h =
      Returns-Safe (λ t. AtRest places none t × (t.async_read_active ≡ false)) H
        (deactivate ans.deletion) _ s (deactivate-AtRest places none ans.deletion s h)
        (λ _ t q.
          stop_halted-Held places ans.rounds ans.final_deletion _
            (reset_monitored_items-Held places none t q.0.0.0.0, q.0.0.1))

  reset_client-Held : (ans : ResetAnswer) → Keeps H (reset_client ans)
  unfolding reset_client
  reset_client-Held ans s h =
      Safe-bind H H (when s.has_manager (reset_manager ans)) _ s (λ t k. k)
        (Keeps-when H s.has_manager _ (reset_manager-Held ans) s h)
        (λ _. handle_all-Held places none ans.disconnect_events)

  take_connected-Held :
      (address : Text) (ans : ConnectAnswer) (r : Option Text)
      → Keeps H (take_connected address ans r)
  unfolding take_connected
  take_connected-Held address ans none s h =
      Keeps-when H s.has_manager _ (prepare-Held places ans.create ans.monitor) s h
  take_connected-Held address ans (some reason) s h = h

  pub connect-Held : (address : Text) (ans : ConnectAnswer) → Keeps H (connect address ans)
  unfolding connect
  connect-Held address ans =
      Keeps-bind H (reset_client ans.reset) _ (reset_client-Held ans.reset) (λ _.
        Keeps-bind H (handle_all ans.connect_events) _
          (handle_all-Held places none ans.connect_events)
          (λ _. take_connected-Held address ans ans.refusal))

  wait_for_client-Held :
      (left : ℕ) (events : ℕ → List ClientEvent) → Keeps H (wait_for_client left events)
  unfolding wait_for_client
  wait_for_client-Held zero events s h = h
  wait_for_client-Held (suc left) events s h =
      let rest : Keeps H (wait_for_client left events) = wait_for_client-Held left events in
      Safe-if H (is_connected s) _ _ s (λ _. h)
        (λ _.
          Safe-bind H H (handle_all (events left)) _ s (λ t k. k)
            (handle_all-Held places none (events left) s h) (λ _. rest))

  pub reconnect-Held : (address : Text) (ans : OpenAnswer) → Keeps H (reconnect address ans)
  unfolding reconnect
  reconnect-Held address ans s h =
      Safe-bind H H (when s.has_manager (stop_client_thread ans.rounds ans.final_deletion)) _ s
        (λ t k. k)
        (Keeps-when H s.has_manager _ (stop_client_thread-Held places ans.rounds ans.final_deletion)
          s h)
        (λ _. connect-Held address ans.connection)

  pub open_device-Held : (address : Text) (ans : OpenAnswer) → Keeps H (open_device address ans)
  unfolding open_device
  open_device-Held address ans s h =
      Safe-bind H H (when (not (is_connected s)) (reconnect address ans)) _ s (λ t k. k)
        (Keeps-when H (not (is_connected s)) _ (reconnect-Held address ans) s h)
        (λ _.
          Keeps-bind H (wait_for_client 5 ans.sleep_events) _
            (wait_for_client-Held 5 ans.sleep_events) (λ _ t k. k))

  pub close_device-Held : (ans : ResetAnswer) → Keeps H (close_device ans)
  unfolding close_device
  close_device-Held ans s h = reset_client-Held ans (record s { opened = false }) h

  launch-Held :
      (th : Thread) (s : System)
      → has_thread th ≡ false
      → Good s.live places none s.items s.subscription_map
      → s.registered ≡ true
      → Safe H (launch th s)
  unfolding launch has_thread is_running
  launch-Held null s e g r = (g, ((λ _. refl), r))
  launch-Held running s e g r = cc
  launch-Held returned s e g r = cc

  start-Held : (s : System) → has_thread s.thread ≡ false → H s → Safe H (start s)
  unfolding start
  start-Held s e h =
      Safe-if H s.subscription_active _ _ s
        (λ _. launch-Held s.thread (record s { run = true }) e h.0 h.1.1)
        (λ _. (h.0, ((λ k. cc), h.1.1)))

  pub start_if_needed-Held : Keeps H start_if_needed
  unfolding start_if_needed
  start_if_needed-Held s h =
      Safe-when H (not (has_thread s.thread)) start s h
        (λ e. start-Held s (not-true (has_thread s.thread) e) h)
