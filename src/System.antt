-- ===== src/System.antt =====
-- The state that the backend, its subscription manager and the client callbacks share
-- (include/OPC-UA-Backend.h, include/SubscriptionManager.h, include/OPC-UA-Connection.h), and the
-- monad of the operations on it. Pushes into the notification queues of the accessors, which a
-- library implements, are recorded in the order in which they are made.
pub mod Safe
pub mod Returns
use device_access_opc_ua_bac.Prelude.{ℕ, Bool, true, false, Text, List, [], ◌≡◌, ◌&&◌, refl}
use device_access_opc_ua_bac.Prelude.Deque
use device_access_opc_ua_bac.Prelude.Deque.{Deque}

pub data NodeId : Type 0 where
  numeric : ℕ → ℕ → NodeId
  string : ℕ → Text → NodeId

pub data ChannelState : Type 0 where
  channel_closed reverse_listening connecting connected reverse_connected rhe_sent hel_sent :
      ChannelState
  hel_received ack_sent ack_received opn_sent channel_open channel_closing : ChannelState

pub data SessionState : Type 0 where
  session_closed create_requested created activate_requested activated session_closing :
      SessionState

-- The content of a `UA_DataValue` that the backend reads; the elements are bit patterns.
pub record DataValue : Type 0 where
  pub has_value : Bool
  pub status : ℕ
  pub source_timestamp : ℕ
  pub elements : List ℕ

-- What is pushed into the notification queue of an accessor.
pub data Message : Type 0 where
  value : DataValue → Message
  exception : Text → Message

-- An accessor is the number that stands for its address.
pub record MonitorItem : Type 0 where
  pub node : NodeId
  pub accessors : List ℕ
  pub id : ℕ
  pub active : Bool
  pub is_monitored : Bool
  pub has_exception : Bool
  pub browse_name : Text

-- `opcuaThread`: null, in `runClient`, or returned from it and not joined.
pub data Thread : Type 0 where
  null running returned : Thread

-- `live`: the accessors that are constructed, or under construction, and not destroyed.
pub record System : Type 0 where
  pub registered : Bool
  pub opened : Bool
  pub active_exception : Bool
  pub has_manager : Bool
  pub channel_state : ChannelState
  pub session_state : SessionState
  pub publishing_interval : ℕ
  pub run : Bool
  pub subscription_active : Bool
  pub subscription_needs_to_be_removed : Bool
  pub async_read_active : Bool
  pub thread : Thread
  pub subscription_id : ℕ
  pub items : Deque MonitorItem
  pub subscription_map : List (ℕ × ℕ)
  pub pushed : List (ℕ × Message)
  pub live : List ℕ

-- `OPCUAConnection::isConnected`
unfoldable pub is_activated : SessionState → Bool
is_activated activated = true
is_activated _ = false

unfoldable pub is_channel_open : ChannelState → Bool
is_channel_open channel_open = true
is_channel_open _ = false

unfoldable pub is_connected : System → Bool
is_connected s = is_activated s.session_state && is_channel_open s.channel_state

-- What the standard leaves undefined, and a wait that does not end.
pub data Fault : Type 0 where
  dangling_pointer null_pointer out_of_bounds terminated waits_forever : Fault

-- An exception keeps what was done before it was thrown.
pub data Outcome {ℓ} (A : Type ℓ) : Type ℓ where
  ok : A → System → Outcome A
  raise : Text → System → Outcome A
  fault : Fault → Outcome A

abbrev pub M {ℓ} : Type ℓ → Type ℓ
M A = System → Outcome A

infixl 5 ◌>>=◌ ◌>>◌
abbrev pub ◌>>=◌ {ℓ κ} : {A : Type ℓ} {B : Type κ} → M A → (A → M B) → M B
◌>>=◌ m f s = elim (m s) [ ok a t ↦ f a t | raise e t ↦ raise e t | fault x ↦ fault x ]

abbrev pub ◌>>◌ {ℓ} : {B : Type ℓ} → M (Unit {0}) → M B → M B
m >> k = m >>= λ _. k

abbrev pub pure {ℓ} : {A : Type ℓ} → A → M A
pure a s = ok a s

abbrev pub done : M (Unit {0})
done s = ok tt s

abbrev pub get : M System
get s = ok s s

abbrev pub put : (System → System) → M (Unit {0})
put f s = ok tt (f s)

abbrev pub throw {ℓ} : {A : Type ℓ} → Text → M A
throw e s = raise e s

abbrev pub fail {ℓ} : {A : Type ℓ} → Fault → M A
fail x s = fault x

-- `if(c) m`
abbrev pub when : Bool → M (Unit {0}) → M (Unit {0})
when true m = m
when false m = done
