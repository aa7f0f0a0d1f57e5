-- ===== src/Backend/Opening.antt =====
-- What `open` of src/OPC-UA-Backend.cc leaves.
use device_access_opc_ua_bac.Prelude.{
  ℕ, zero, suc, Bool, true, false, not, ◌≡◌, refl, Text, List, none, if◌then◌else◌,
}
use device_access_opc_ua_bac.System.{System, is_connected, M, when}
use device_access_opc_ua_bac.System.Safe.{Keeps-when, Ends, Ends-bind, Safe-Ends}
use device_access_opc_ua_bac.Subscription.Pointers.{Held, addresses}
use device_access_opc_ua_bac.Subscription.Pointers.Calls.{handle_all-Held}
use device_access_opc_ua_bac.Subscription.Pointers.Roster.{Inv}
use device_access_opc_ua_bac.Callbacks.{ClientEvent, handle_all}
use device_access_opc_ua_bac.Backend.{OpenAnswer, reconnect, wait_for_client, open_device}
use device_access_opc_ua_bac.Backend.Pointers.{reconnect-Held}

Ends-if :
    (P E : System → Type 0) (b : Bool) (m n : M (Unit {0})) (s : System)
    → (b ≡ true → Ends P E (m s))
    → (b ≡ false → Ends P E (n s))
    → Ends P E ((if b then m else n) s)
Ends-if P E true m n s h k = h refl
Ends-if P E false m n s h k = k refl

module _ (places : List ℕ) where
  abbrev H : System → Type 0
  H = Held places none

  abbrev Found : System → Type 0
  Found t = H t × (is_connected t ≡ true)

  wait_for_client-Found :
      (left : ℕ) (events : ℕ → List ClientEvent) (s : System)
      → H s
      → Ends Found H (wait_for_client left events s)
  unfolding wait_for_client
  wait_for_client-Found zero events s h = h
  wait_for_client-Found (suc left) events s h =
      let rest : (t : System) → H t → Ends Found H (wait_for_client left events t) =
        wait_for_client-Found left events in
      Ends-if Found H (is_connected s) _ _ s (λ on. (h, on))
        (λ _.
          Ends-bind H Found H (handle_all (events left)) _ s
            (Safe-Ends H (handle_all (events left) s)
              (handle_all-Held places none (events left) s h))
            (λ _ t k. rest t k))

  -- The device is open, and so is the client's channel and session.
  abbrev pub Opened : System → Type 0
  Opened t = (H t × (is_connected t ≡ true)) × ((t.opened ≡ true) × (t.active_exception ≡ false))

  open_device-Opened_places :
      (address : Text) (ans : OpenAnswer) (s : System)
      → H s
      → Ends Opened H (open_device address ans s)
  unfolding open_device is_connected
  open_device-Opened_places address ans s h =
      Ends-bind H Opened H (when (not (is_connected s)) (reconnect address ans)) _ s
        (Safe-Ends H (when (not (is_connected s)) (reconnect address ans) s) (
          Keeps-when H (not (is_connected s)) (reconnect address ans)
            (reconnect-Held places address ans) s h))
        (λ _ t k.
          Ends-bind Found Opened H (wait_for_client 5 ans.sleep_events) _ t
            (wait_for_client-Found 5 ans.sleep_events t k) (λ _ u q. (q, (refl, refl))))

-- `open` returns only with an open channel and an activated session, and then the device is open
-- and no exception is active; otherwise it throws, or waits for a thread that goes on. The pointers
-- of `subscriptionMap` stay good in each case.
pub open_device-Opened :
    (address : Text) (ans : OpenAnswer) (s : System)
    → Inv s
    → Ends
        (Opened (addresses s.items.cells))
        (Held (addresses s.items.cells) none)
        (open_device address ans s)
open_device-Opened address ans s h =
    open_device-Opened_places (addresses s.items.cells) address ans s h
