-- ===== src/Backend/Operations.antt =====
-- The device over any sequence of calls: the pointers of the subscription manager stay good.
use device_access_opc_ua_bac.Prelude.{ℕ, Bool, ◌≡◌, Text, List, none}
use device_access_opc_ua_bac.System.{System, NodeId, M}
use device_access_opc_ua_bac.System.Safe.{Safe}
use device_access_opc_ua_bac.Subscription.{DeleteAnswer, set_external_error}
use device_access_opc_ua_bac.Subscription.Worker.{Round, run_client}
use device_access_opc_ua_bac.Subscription.Monitor.{
  CreateAnswer, created, MonitorAnswer, Pending, UnsubscribeAnswer,
}
use device_access_opc_ua_bac.Subscription.Pointers.Calls.{handle_all-Held}
use device_access_opc_ua_bac.Subscription.Pointers.Roster.{Inv, Keeps-Inv}
use device_access_opc_ua_bac.Subscription.Pointers.Joins.{run_client-Held, set_external_error-Held}
use device_access_opc_ua_bac.Subscription.Pointers.Changes.{unsubscribe-Inv, MayUnsubscribe}
use device_access_opc_ua_bac.Subscription.Pointers.Arrival.{IsQuiet}
use device_access_opc_ua_bac.Backend.Pointers.{open_device-Held, close_device-Held}
use device_access_opc_ua_bac.Callbacks.{ClientEvent, handle_all}
use device_access_opc_ua_bac.Backend.{
  ResetAnswer, OpenAnswer, open_device, close_device, activate_async_read, set_exception_impl,
  attach_accessor, detach_accessor,
}
use device_access_opc_ua_bac.Backend.Safety.{
  attach_accessor-Inv, activate_async_read-Inv, set_exception_impl-Inv,
}

-- What happens to a device, in any order: the calls of the application, a failed access, and the
-- thread that goes through its loop to the end.
pub data Call : Type 0 where
  opens : Text → OpenAnswer → Call
  closes : ResetAnswer → Call
  reads_async : Bool → CreateAnswer → (ℕ → MonitorAnswer) → Call
  sets_exception : DeleteAnswer → Call
  attaches : CreateAnswer → (ℕ → MonitorAnswer) → Pending → Text → NodeId → ℕ → Call
  detaches : UnsubscribeAnswer → Text → ℕ → Call
  reports_error : Text → Call
  calls_back : List ClientEvent → Call
  works : List Round → DeleteAnswer → Call

unfoldable pub perform : Call → M (Unit {0})
unfolding open_device close_device activate_async_read set_exception_impl attach_accessor
    detach_accessor set_external_error handle_all run_client
perform (opens address ans) = open_device address ans
perform (closes ans) = close_device ans
perform (reads_async functional ans answers) = activate_async_read functional ans answers
perform (sets_exception d) = set_exception_impl d
perform (attaches ans answers p name node accessor) =
    attach_accessor ans answers p name node accessor
perform (detaches ans name accessor) = detach_accessor ans name accessor
perform (reports_error name) = set_external_error name
perform (calls_back events) = handle_all events
perform (works rounds d) = run_client rounds d

-- What the calls ask for: a subscription that the server creates, where its refusal would end the
-- program or leave an accessor that was not constructed in its item, and an item that may be erased.
abbrev pub MayPerform : Call → System → Type 0
MayPerform (reads_async functional ans answers) s =
    (id : ℕ) × (revised : ℕ) × (ans.result ≡ created id revised)
MayPerform (attaches ans answers p name node accessor) s =
    ((id : ℕ) × (revised : ℕ) × (ans.result ≡ created id revised)) × IsQuiet p.front
MayPerform (detaches ans name accessor) s = MayUnsubscribe name accessor s
MayPerform _ s = Unit {0}

pub perform-Inv : (c : Call) (s : System) → MayPerform c s → Inv s → Safe Inv (perform c s)
unfolding perform detach_accessor
perform-Inv (opens address ans) s m h =
    Keeps-Inv (open_device address ans) (λ places. open_device-Held places address ans) s h
perform-Inv (closes ans) s m h =
    Keeps-Inv (close_device ans) (λ places. close_device-Held places ans) s h
perform-Inv (reads_async functional ans answers) s (id, revised, good) h =
    activate_async_read-Inv functional ans answers id revised good s h
perform-Inv (sets_exception d) s m h = set_exception_impl-Inv d s h
perform-Inv (attaches ans answers p name node accessor) s ((id, revised, good), quiet) h =
    attach_accessor-Inv ans answers p name node accessor id revised good quiet s h
perform-Inv (detaches ans name accessor) s m h = unsubscribe-Inv ans name accessor s m h
perform-Inv (reports_error name) s m h =
    Keeps-Inv (set_external_error name) (λ places. set_external_error-Held places name) s h
perform-Inv (calls_back events) s m h =
    Keeps-Inv (handle_all events) (λ places. handle_all-Held places none events) s h
perform-Inv (works rounds d) s m h =
    Keeps-Inv (run_client rounds d) (λ places. run_client-Held places rounds d) s h
