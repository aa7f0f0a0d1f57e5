-- ===== src/Transfer/Refused.antt =====
-- A write returns only where the server took it (include/OPC-UA-BackendRegisterAccessor.h).
use device_access_opc_ua_bac.Prelude.{ℕ, ◌≢◌, refl, Text, List, map, Option, none, some}
use device_access_opc_ua_bac.System.{System, DataValue, Outcome, ok, raise, fault, M, ◌>>=◌}
use device_access_opc_ua_bac.Callbacks.{ClientEvent, handle_all}
use device_access_opc_ua_bac.Transfer.Words.{write_words}
use device_access_opc_ua_bac.Transfer.{
  Target, ReadAnswer, WriteAnswer, written, not_writable, write_failed, check_active_exception,
  tell_manager, handle_error, take_written, base_value, send, write_transfer,
}

-- The operation throws, waits, or does something undefined.
abbrev DoesNotReturn {ℓ} : {A : Type ℓ} → Outcome A → Type 0
DoesNotReturn (ok a s) = ⊥
DoesNotReturn (raise e s) = Unit {0}
DoesNotReturn (fault x) = Unit {0}

abbrev pub NeverReturns {ℓ} : {A : Type ℓ} → M A → Type 0
NeverReturns m = (s : System) → DoesNotReturn (m s)

NeverReturns-first {ℓ κ} :
    {A : Type ℓ} {B : Type κ} (m : M A) (f : A → M B) → NeverReturns m → NeverReturns (m >>= f)
NeverReturns-first {A} m f h s = go (m s) (h s)
  where
    go :
        (o : Outcome A)
        → DoesNotReturn o
        → DoesNotReturn (elim o [ ok a t ↦ f a t | raise e t ↦ raise e t | fault x ↦ fault x ])
    go (ok a t) q = absurd q
    go (raise e t) q = tt
    go (fault x) q = tt

NeverReturns-then {ℓ κ} :
    {A : Type ℓ} {B : Type κ} (m : M A) (f : A → M B)
    → ((a : A) → NeverReturns (f a))
    → NeverReturns (m >>= f)
NeverReturns-then {A} m f h s = go (m s)
  where
    go :
        (o : Outcome A)
        → DoesNotReturn (elim o [ ok a t ↦ f a t | raise e t ↦ raise e t | fault x ↦ fault x ])
    go (ok a t) = h a t
    go (raise e t) = tt
    go (fault x) = tt

handle_error-NeverReturns :
    (name reason : Text) (events : List ClientEvent)
    → NeverReturns (handle_error name reason events)
unfolding handle_error
handle_error-NeverReturns name reason events =
    NeverReturns-then (tell_manager name) _
      (λ _. NeverReturns-then (handle_all events) _ (λ _ s. tt))

take_written-NeverReturns :
    (name : Text) (ans : WriteAnswer) → ans ≢ written → NeverReturns (take_written name ans)
unfolding take_written
take_written-NeverReturns name written n = absurd (n refl)
take_written-NeverReturns name not_writable n = NeverReturns-then (tell_manager name) _ (λ _ s. tt)
take_written-NeverReturns name (write_failed reason events) n =
    handle_error-NeverReturns name reason events

send-NeverReturns :
    (target : Target) (ans : WriteAnswer) (v : DataValue) (o : Option (List ℕ))
    → ans ≢ written
    → NeverReturns (send target ans v o)
unfolding send
send-NeverReturns target ans v none n = λ s. tt
send-NeverReturns target ans v (some xs) n =
    NeverReturns-first (take_written target.node_browse_name ans) _
      (take_written-NeverReturns target.node_browse_name ans n)

-- doWriteTransfer returns only where the server took the value: whatever the state of the device
-- and the accessor, where the server answers that the variable is not writable, or with any other
-- bad status, it does not return true.
pub write_transfer-NeverReturns :
    {C : Type 0} (to_opcua : C → ℕ) (target : Target) (reading : ReadAnswer) (writing : WriteAnswer)
    (v : DataValue) (buffer : List C)
    → writing ≢ written
    → NeverReturns (write_transfer to_opcua target reading writing v buffer)
unfolding write_transfer
write_transfer-NeverReturns to_opcua target reading writing v buffer n =
    NeverReturns-then check_active_exception _ (λ _.
      NeverReturns-then (base_value target reading v) _ (λ w.
        send-NeverReturns target writing w
          (write_words (map to_opcua buffer) target.offset_words w.elements) n))
