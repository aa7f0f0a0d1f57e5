-- ===== src/Subscription/Delivery.antt =====
-- What reaches the accessors (src/SubscriptionManager.cc): no exception twice, and no data after a
-- deactivation.
use device_access_opc_ua_bac.Prelude.{
  ℕ, true, false, ◌≡◌, refl, Text, List, [], ◌∷◌, ◌++◌, map, ◌∙◌, none, arith, if_cases,
}
use mathlib.Core.List.{append-nil}
use device_access_opc_ua_bac.Prelude.Deque.{map_cells}
use device_access_opc_ua_bac.System.{
  System, MonitorItem, DataValue, Outcome, ok, raise, fault, ◌>>◌,
}
use device_access_opc_ua_bac.System.Safe.{bind_ok}
use device_access_opc_ua_bac.System.Returns.{Returns, Returns-weaken}
use device_access_opc_ua_bac.Subscription.{
  DeleteAnswer, deactivate, is_told, with_exception, exceptions, handle_exception, response_handler,
}
use device_access_opc_ua_bac.Subscription.Deactivation.{
  AtRest, deactivate-AtRest, IsQuiet, response-IsQuiet,
}
use device_access_opc_ua_bac.Subscription.Pointers.{addresses}
use device_access_opc_ua_bac.Subscription.Pointers.Roster.{Inv}
use device_access_opc_ua_bac.Callbacks.{ClientEvent, data_change, handle, handle_all}

with_exception_told : (i : MonitorItem) → is_told (with_exception i) ≡ false
unfolding is_told with_exception
with_exception_told i =
    if_cases (λ j. is_told j ≡ false) (is_told i) (record i { has_exception = true }) i
      (λ told. ground arith) (λ untold. untold)

with_exception_untold : (i : MonitorItem) → is_told i ≡ false → with_exception i ≡ i
unfolding with_exception
with_exception_untold i e = rw e refl

with_exception_twice : (i : MonitorItem) → with_exception (with_exception i) ≡ with_exception i
with_exception_twice i = with_exception_untold (with_exception i) (with_exception_told i)

map_cells_twice :
    (cs : List (ℕ × MonitorItem))
    → map_cells with_exception (map_cells with_exception cs) ≡ map_cells with_exception cs
unfolding map_cells
map_cells_twice [] = refl
map_cells_twice ((a, i) ∷ cs) = rw (with_exception_twice i, map_cells_twice cs) refl

exceptions_after :
    (message : Text) (cs : List (ℕ × MonitorItem))
    → exceptions message (map_cells with_exception cs) ≡ []
unfolding map_cells exceptions
exceptions_after message [] = refl
exceptions_after message ((a, i) ∷ cs) =
    rw (with_exception_told i, exceptions_after message cs) refl

-- An accessor is told of an exception once: until new data came, a second exception is not passed
-- on, and changes nothing.
pub handle_exception-once :
    (first second : Text) (s : System)
    → (handle_exception first >> handle_exception second) s ≡ handle_exception first s
unfolding handle_exception
handle_exception-once first second s =
    rw
      (
        map_cells_twice s.items.cells,
        exceptions_after second s.items.cells,
        append-nil (s.pushed ++ exceptions first s.items.cells),
      )
      refl

abbrev pub responses : List (ℕ × DataValue) → List ClientEvent
responses = map λ r. data_change r.0 r.1

responses-IsQuiet :
    (rs : List (ℕ × DataValue)) (s : System) → IsQuiet s → handle_all (responses rs) s ≡ ok tt s
unfolding handle_all handle
responses-IsQuiet [] s q = refl
responses-IsQuiet ((id, v) ∷ rs) s q =
    bind_ok (response_handler id v) (λ _. handle_all (responses rs)) s tt s
      (response-IsQuiet id v s q)
    ∙ responses-IsQuiet rs s q

-- After `deactivate` returned no response passes on any data or changes anything, whatever arrives.
pub deactivate-responses :
    (d : DeleteAnswer) (rs : List (ℕ × DataValue)) (s : System)
    → Inv s
    → (deactivate d >> handle_all (responses rs)) s ≡ deactivate d s
deactivate-responses d rs s h = go (deactivate d s) (
    Returns-weaken (λ t. AtRest (addresses s.items.cells) none t × (t.async_read_active ≡ false))
      IsQuiet (deactivate d s) (λ t q. q.0.0.0.1)
      (deactivate-AtRest (addresses s.items.cells) none d s h))
  where
    go :
        (o : Outcome (Unit {0}))
        → Returns IsQuiet o
        → (elim o [
          | ok a t ↦ handle_all (responses rs) t
          | raise e t ↦ raise e t
          | fault x ↦ fault x
        ])
          ≡ o
    go (ok a t) q = responses-IsQuiet rs t q
    go (raise e t) q = absurd q
    go (fault x) q = absurd q
