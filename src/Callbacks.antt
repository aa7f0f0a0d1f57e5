-- ===== src/Callbacks.antt =====
-- The callbacks that the client calls from within its services: `OpcUABackend::stateCallback` and
-- `inactivityCallback` of src/OPC-UA-Backend.cc, and those of the subscription manager.
use device_access_opc_ua_bac.Prelude.{
  ℕ, Bool, not, ◌&&◌, codes, List, [], ◌∷◌, ◌++◌, ◌==◌, if◌then◌else◌,
}
use device_access_opc_ua_bac.Prelude.Decimal.{to_decimal}
use device_access_opc_ua_bac.System.{
  System, DataValue, ChannelState, SessionState, session_closed, is_connected, M, ◌>>=◌, ◌>>◌, done,
  get, put, fail, when, null_pointer,
}
use device_access_opc_ua_bac.Subscription.{
  DeleteAnswer, subscription_ends, deactivate_all_and_push_exception, response_handler,
}

-- The Boolean of `inactivity` is what `isFunctional` of the library's base class answers then.
pub data ClientEvent : Type 0 where
  state_change : ChannelState → SessionState → DeleteAnswer → ClientEvent
  inactivity : Bool → ℕ → DeleteAnswer → ClientEvent
  subscription_deleted : ClientEvent
  data_change : ℕ → DataValue → ClientEvent

unfoldable pub lost_connection : System → Bool
unfolding is_connected
lost_connection s = s.opened && not (is_connected s) && s.has_manager && s.run

unfoldable pub state_callback : ChannelState → SessionState → DeleteAnswer → M (Unit {0})
unfolding lost_connection
state_callback channel session d = do
  s ← get
  when s.registered (do
    put λ s. record s { channel_state = channel; session_state = session }
    s' ← get
    when (lost_connection s')
        (deactivate_all_and_push_exception (codes "Client session is not open any more.") d))

unfoldable pub is_silent : Bool → ℕ → System → Bool
unfolding is_connected
is_silent functional sub_id s =
    functional && is_connected s && s.has_manager && s.run && s.subscription_id == sub_id

unfoldable pub inactivity_callback : Bool → ℕ → DeleteAnswer → M (Unit {0})
unfolding is_silent
inactivity_callback functional sub_id d = do
  s ← get
  if s.registered
      then when (is_silent functional sub_id s) (do
        deactivate_all_and_push_exception
            (codes "No activity for subscriptions: " ++ to_decimal sub_id) d
        put λ s. record s { session_state = session_closed })
      else fail null_pointer

unfoldable pub handle : ClientEvent → M (Unit {0})
unfolding state_callback inactivity_callback
handle (state_change channel session d) = state_callback channel session d
handle (inactivity functional sub_id d) = inactivity_callback functional sub_id d
handle subscription_deleted = subscription_ends
handle (data_change mon_id v) = response_handler mon_id v

-- The callbacks of one service call, in turn.
unfoldable pub handle_all : List ClientEvent → M (Unit {0})
unfolding handle
handle_all [] = done
handle_all (e ∷ es) = do handle e; handle_all es
