-- ===== src/Transfer/Errors.antt =====
-- How a transfer ends that the server refuses (include/OPC-UA-BackendRegisterAccessor.h).
use device_access_opc_ua_bac.Prelude.{◌≡◌, Text, List, none, some}
use device_access_opc_ua_bac.System.{System, DataValue, M}
use device_access_opc_ua_bac.System.Safe.{Keeps, Keeps-when, Ends, Ends-bind, Safe-Ends}
use device_access_opc_ua_bac.Subscription.{set_external_error}
use device_access_opc_ua_bac.Subscription.Pointers.Roster.{Inv, Keeps-Inv}
use device_access_opc_ua_bac.Subscription.Pointers.Calls.{handle_all-Held}
use device_access_opc_ua_bac.Subscription.Pointers.Joins.{set_external_error-Held}
use device_access_opc_ua_bac.Callbacks.{ClientEvent, handle_all}
use device_access_opc_ua_bac.Transfer.{
  Target, ReadAnswer, check_active_exception, tell_manager, handle_error, take_answer,
  read_synchronously,
}

-- Nothing is returned: an exception is thrown, and the pointers of the manager are still good.
abbrev pub Throws {ℓ} : {A : Type ℓ} → M A → System → Type 0
Throws m s = Ends (λ t. ⊥) Inv (m s)

check-Inv : Keeps Inv check_active_exception
unfolding check_active_exception
check-Inv s h = Keeps-when Inv s.active_exception _ (λ t k. k) s h

tell_manager-Inv : (name : Text) → Keeps Inv (tell_manager name)
unfolding tell_manager
tell_manager-Inv name s h =
    Keeps-when Inv s.has_manager (set_external_error name)
      (Keeps-Inv (set_external_error name) (λ places. set_external_error-Held places name)) s h

handle_error-Throws :
    (name reason : Text) (events : List ClientEvent) (s : System)
    → Inv s
    → Throws (handle_error name reason events) s
unfolding handle_error
handle_error-Throws name reason events s h =
    Ends-bind Inv (λ t. ⊥) Inv (tell_manager name) _ s (Safe-Ends Inv _ (tell_manager-Inv name s h))
      (λ _ t k.
        Ends-bind Inv (λ u. ⊥) Inv (handle_all events) _ t
          (Safe-Ends Inv _
            (Keeps-Inv (handle_all events) (λ places. handle_all-Held places none events) t k))
          (λ _ u q. q))

-- A read that the server refuses returns no value: it throws an exception, whatever callbacks come in
-- meanwhile, and the pointers of the manager stay good; or a join in it waits for ever.
pub read_synchronously_refused :
    (target : Target) (ans : ReadAnswer) (v : DataValue) (reason : Text) (s : System)
    → Inv s
    → ans.refusal ≡ some reason
    → Throws (read_synchronously target ans v) s
unfolding read_synchronously take_answer
read_synchronously_refused target ans v reason s h e =
    Ends-bind Inv (λ t. ⊥) Inv check_active_exception _ s (Safe-Ends Inv _ (check-Inv s h))
      (λ _ t k.
        Ends-bind (λ u. ⊥) (λ u. ⊥) Inv (take_answer target.node_browse_name ans ans.refusal) _ t
          (rw (e) (handle_error-Throws target.node_browse_name reason ans.disconnect_events t k))
          (λ _ u q. absurd q))
