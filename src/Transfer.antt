-- ===== src/Transfer.antt =====
-- The transfer of data by an accessor: `doReadTransferSynchronously`, `doPostRead` and
-- `doWriteTransfer` of include/OPC-UA-BackendRegisterAccessor.h. The converters between the type of
-- the server and that of the user are parameters, and a value of the server is a bit pattern. What
-- is in `data` after an exception is not followed.
pub mod Words
pub mod Written
pub mod Errors
pub mod Refused
pub mod Convert
pub mod Notified
use device_access_opc_ua_bac.Prelude.{
  ℕ, Bool, true, false, not, ◌||◌, Text, codes, List, [], ◌++◌, map, Option, none, some, ◌==◌,
  if◌then◌else◌, text_eq,
}
use device_access_opc_ua_bac.System.{
  System, DataValue, M, ◌>>=◌, ◌>>◌, done, pure, get, throw, fail, when, out_of_bounds,
}
use device_access_opc_ua_bac.Subscription.{set_external_error}
use device_access_opc_ua_bac.Callbacks.{ClientEvent, handle_all}
use device_access_opc_ua_bac.Versions.{VersionMapper, get_version}
use device_access_opc_ua_bac.Transfer.Words.{read_words, write_words}

-- The members of an accessor that say what it transfers; its buffer has `number_of_words` words.
pub record Target : Type 0 where
  pub node_browse_name : Text
  pub index_range : Text
  pub number_of_words : ℕ
  pub offset_words : ℕ
  pub is_partial : Bool

-- What the server answers to the reading of the value: the name of a bad status, if it is one, and
-- the copy that `copyVariant` makes of the value, with the status of the copying.
pub record ReadAnswer : Type 0 where
  pub refusal : Option Text
  pub copied : List ℕ
  pub copy_code : ℕ
  pub now : ℕ
  pub disconnect_events : List ClientEvent

pub data WriteAnswer : Type 0 where
  written : WriteAnswer
  not_writable : WriteAnswer
  -- The name of another bad status, and the callbacks while the connection is closed.
  write_failed : Text → List ClientEvent → WriteAnswer

abbrev pub no_value : DataValue
no_value = record { has_value = false; status = 0; source_timestamp = 0; elements = [] }

-- `copyVariant`: without a range the status of the copying is not stored.
unfoldable pub copied_value : Text → ReadAnswer → DataValue → DataValue
copied_value range ans v =
    let old : DataValue = if v.has_value then no_value else v in
    let code : ℕ = if text_eq range [] then old.status else ans.copy_code in
    if code == 0
    then (record {
      has_value = true;
      status = 0;
      source_timestamp = ans.now;
      elements = ans.copied;
    })
    else (record old { status = code; elements = ans.copied })

-- `checkActiveException` of the library's base class, which throws what is active.
unfoldable pub check_active_exception : M (Unit {0})
check_active_exception = do s ← get; when s.active_exception (throw (codes "active exception"))

unfoldable pub tell_manager : Text → M (Unit {0})
unfolding set_external_error
tell_manager name = do s ← get; when s.has_manager (set_external_error name)

-- `handleError`: the manager is told, the connection is closed, and an exception is thrown.
unfoldable pub handle_error : Text → Text → List ClientEvent → M (Unit {0})
unfolding tell_manager handle_all
handle_error name reason events = do
  tell_manager name
  handle_all events
  throw (codes "OPC-UA-Backend::Failed to access variable with reason: " ++ reason)

unfoldable pub take_answer : Text → ReadAnswer → Option Text → M (Unit {0})
unfolding handle_error
take_answer name ans none = done
take_answer name ans (some reason) = handle_error name reason ans.disconnect_events

-- `doReadTransferSynchronously`: what `data` is afterwards.
unfoldable pub read_synchronously : Target → ReadAnswer → DataValue → M DataValue
unfolding check_active_exception take_answer copied_value
read_synchronously target ans v = do
  check_active_exception
  take_answer target.node_browse_name ans ans.refusal
  pure (copied_value target.index_range ans v)

unfoldable pub take_written : Text → WriteAnswer → M (Unit {0})
unfolding handle_error tell_manager
take_written name written = done
take_written name not_writable = do
  tell_manager name
  throw (codes "OPC-UA-Backend::Variable is not writable!")
take_written name (write_failed reason events) = handle_error name reason events

-- What the user sees of an accessor after a read.
pub record Received (C V : Type 0) : Type 0 where
  pub buffer : List C
  pub is_faulty : Bool
  pub version : Option V

-- The data that the words are stored into.
unfoldable pub base_value : Target → ReadAnswer → DataValue → M DataValue
unfolding read_synchronously
base_value target ans v =
    if target.is_partial || not v.has_value then read_synchronously target ans v else pure v

unfoldable pub send : Target → WriteAnswer → DataValue → Option (List ℕ) → M DataValue
unfolding take_written
send target ans v none = fail out_of_bounds
send target ans v (some xs) = do
  take_written target.node_browse_name ans
  pure (record v { elements = xs })

module _ {C : Type 0} (to_ctk : ℕ → C) where
  -- The buffer and the validity; `none` is a read beyond the end of the array. Without a value the
  -- buffer keeps what it had.
  unfoldable pub fill_buffer : Target → DataValue → List C → Option (List C × Bool)
  unfolding read_words
  fill_buffer target v buffer =
      if v.has_value
      then (elim (read_words target.number_of_words target.offset_words v.elements) [
        | none ↦ none
        | some xs ↦ some (map to_ctk xs, false)
      ])
      else some (buffer, true)

  module _ {V : Type 0} (unix_epoch : ℕ) (new_version : ℕ → ℕ → V) where
    -- `doPostRead` with new data; without new data it does nothing.
    unfoldable pub post_read :
        Target → DataValue → List C → VersionMapper V → Option (Received C V × VersionMapper V)
    unfolding fill_buffer get_version
    post_read target v buffer mapper = elim (fill_buffer target v buffer) [
      | none ↦ none
      | some (filled, faulty) ↦ some (
        record {
          buffer = filled;
          is_faulty = faulty;
          version = (get_version unix_epoch new_version v.source_timestamp mapper).0;
        },
        (get_version unix_epoch new_version v.source_timestamp mapper).1,
      )
    ]

module _ {C : Type 0} (to_opcua : C → ℕ) where
  -- `doWriteTransfer`: what `data` is after it returned true, and what was sent.
  unfoldable pub write_transfer :
      Target → ReadAnswer → WriteAnswer → DataValue → List C → M DataValue
  unfolding check_active_exception base_value send write_words
  write_transfer target reading writing v buffer = do
    check_active_exception
    w ← base_value target reading v
    send target writing w (write_words (map to_opcua buffer) target.offset_words w.elements)
