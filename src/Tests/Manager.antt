-- ===== src/Tests/Manager.antt =====
-- The subscription manager and the life of a device, at devices with three mapped items.
use device_access_opc_ua_bac.Prelude.{
  ℕ, true, false, ◌≡◌, refl, Text, codes, [], ◌∷◌, none, arith, text_eq,
}
use device_access_opc_ua_bac.Prelude.Deque.Writes.{among}
use device_access_opc_ua_bac.Prelude.Map.{lookup, erase}
use device_access_opc_ua_bac.Prelude.Deque.{find_cell, is_first, is_last}
use device_access_opc_ua_bac.System.{
  System, MonitorItem, DataValue, string, channel_closed, channel_open, session_closed, activated,
  null, running, fault, dangling_pointer, is_connected, is_activated, is_channel_open, ◌>>◌,
}
use device_access_opc_ua_bac.System.Safe.{Safe, Ends, DoesNotThrow}
use device_access_opc_ua_bac.System.Returns.{Returns}
use device_access_opc_ua_bac.Subscription.{
  deleted_with_callback, deleted_silently, deactivate, is_running,
}
use device_access_opc_ua_bac.Subscription.Monitor.{
  CreateAnswer, created, MonitorAnswer, monitored, UnsubscribeAnswer, activate, unsubscribe,
}
use device_access_opc_ua_bac.Subscription.Pointers.{Held}
use device_access_opc_ua_bac.Subscription.Pointers.Roster.{Inv}
use device_access_opc_ua_bac.Subscription.Deactivation.{AtRest, deactivate-AtRest}
use device_access_opc_ua_bac.Subscription.Delivery.{responses, deactivate-responses}
use device_access_opc_ua_bac.Subscription.Dangling.{unsubscribe_dangling}
use device_access_opc_ua_bac.Subscription.Throws.{activate-NoThrow}
use device_access_opc_ua_bac.Callbacks.{state_change, data_change, handle_all}
use device_access_opc_ua_bac.Backend.{ResetAnswer, OpenAnswer, open_device, close_device}
use device_access_opc_ua_bac.Backend.Operations.{
  Call, calls_back, opens, attaches, perform, perform-Inv,
}
use device_access_opc_ua_bac.Backend.Reachable.{
  Reachable, built, returned, new_backend, Reachable-perform,
}
use device_access_opc_ua_bac.Backend.Closing.{Closed, close_device-Closed}
use device_access_opc_ua_bac.Backend.Opening.{Opened, open_device-Opened}

abbrev item : Text → ℕ → ℕ → MonitorItem
item name id accessor = record {
  node = string 1 name;
  accessors = accessor ∷ [];
  id = id;
  active = true;
  is_monitored = true;
  has_exception = false;
  browse_name = name;
}

abbrev pub pressure : MonitorItem
pressure = item (codes "pressure") 10 100

abbrev level : MonitorItem
level = item (codes "level") 11 101

abbrev flow : MonitorItem
flow = item (codes "flow") 12 102

abbrev pub reading : DataValue
reading = record { has_value = true; status = 0; source_timestamp = 7; elements = 42 ∷ [] }

-- An open device whose thread passes on the data of three items.
abbrev pub device : System
device = record {
  registered = true;
  opened = true;
  active_exception = false;
  has_manager = true;
  channel_state = channel_open;
  session_state = activated;
  publishing_interval = 500;
  run = true;
  subscription_active = true;
  subscription_needs_to_be_removed = false;
  async_read_active = true;
  thread = running;
  subscription_id = 3;
  items = record { fresh = 3; cells = (0, pressure) ∷ (1, level) ∷ (2, flow) ∷ [] };
  subscription_map = (10, 0) ∷ (11, 1) ∷ (12, 2) ∷ [];
  pushed = [];
  live = 100 ∷ 101 ∷ 102 ∷ [];
}

pub device-Inv : Inv device
unfolding among lookup is_running
device-Inv = (
  record {
    placed = (
      omega arith,
      (omega arith, (omega arith, tt)),
      (omega arith, (omega arith, tt), (omega arith, tt, tt)),
    );
    points =
        ((pressure, refl, refl, refl), ((level, refl, refl, refl), ((flow, refl, refl, refl), tt)));
    sorted = (omega arith, (omega arith, (omega arith, tt)));
    addressed = refl;
    focus = tt;
    manned = (
      ((100, [], refl), (refl, tt)),
      (((101, [], refl), (refl, tt)), (((102, [], refl), (refl, tt)), tt)),
    );
  },
  ((λ _. refl), refl),
)

abbrev lost : Call
lost =
    calls_back
      (data_change 11 reading ∷ state_change channel_closed session_closed deleted_silently ∷ [])

perform-Inv_example : Safe Inv (perform lost device)
perform-Inv_example = perform-Inv lost device tt device-Inv

abbrev pub reset_answer : ResetAnswer
reset_answer = record {
  deletion = deleted_with_callback;
  rounds = [];
  final_deletion = deleted_with_callback;
  disconnect_events = state_change channel_closed session_closed deleted_silently ∷ [];
}

close_device-Closed_example : Returns Closed (close_device reset_answer device)
close_device-Closed_example = close_device-Closed reset_answer device device-Inv refl

deactivate-responses_example :
    (deactivate deleted_silently >> handle_all (responses ((10, reading) ∷ (11, reading) ∷ [])))
      device
    ≡ deactivate deleted_silently device
deactivate-responses_example =
    deactivate-responses deleted_silently ((10, reading) ∷ (11, reading) ∷ []) device device-Inv

deactivate-AtRest_example :
    Returns
      (λ t. AtRest (0 ∷ 1 ∷ 2 ∷ []) none t × (t.async_read_active ≡ false))
      (deactivate deleted_silently device)
deactivate-AtRest_example =
    deactivate-AtRest (0 ∷ 1 ∷ 2 ∷ []) none deleted_silently device device-Inv

abbrev pub create_answer : CreateAnswer
create_answer = record { deletion = deleted_silently; events = []; result = created 4 250 }

abbrev pub monitor_answers : ℕ → MonitorAnswer
monitor_answers a = record { events = []; result = monitored a }

activate-NoThrow_example : DoesNotThrow (activate create_answer monitor_answers device)
activate-NoThrow_example =
    activate-NoThrow create_answer monitor_answers 4 250 device refl device-Inv

abbrev open_answer : OpenAnswer
open_answer = record {
  rounds = [];
  final_deletion = deleted_silently;
  connection = record {
    reset = reset_answer;
    connect_events = state_change channel_open activated deleted_silently ∷ [];
    refusal = none;
    create = create_answer;
    monitor = monitor_answers;
  };
  sleep_events = λ _. [];
}

abbrev pub offline : System
offline = record device {
  opened = false;
  channel_state = channel_closed;
  session_state = session_closed;
  run = false;
  thread = null;
}

pub offline-Inv : Inv offline
offline-Inv = (device-Inv.0, ((λ e. cc), refl))

open_device-Opened_example :
    Ends
      (Opened (0 ∷ 1 ∷ 2 ∷ []))
      (Held (0 ∷ 1 ∷ 2 ∷ []) none)
      (open_device (codes "opc.tcp://plc") open_answer offline)
open_device-Opened_example =
    open_device-Opened (codes "opc.tcp://plc") open_answer offline offline-Inv

abbrev unsubscribe_answer : UnsubscribeAnswer
unsubscribe_answer = record {
  events = data_change 12 reading ∷ [];
  deletion = deleted_silently;
  rounds = [];
  final_deletion = deleted_silently;
}

unsubscribe_dangling_example :
    unsubscribe unsubscribe_answer (codes "level") 101 device ≡ fault dangling_pointer
unfolding find_cell text_eq is_first is_last is_connected is_activated is_channel_open lookup erase
unsubscribe_dangling_example =
    unsubscribe_dangling unsubscribe_answer (codes "level") 101 1 2 12 reading [] level device refl
      refl refl refl refl refl (omega arith) refl

-- A new backend with one accessor that waits for data.
abbrev attach : Call
attach =
    attaches create_answer monitor_answers (record { front = none; current = reading })
      (codes "pressure") (string 1 (codes "pressure")) 100

abbrev with_accessor : System
with_accessor = record (new_backend false 500) {
  has_manager = true;
  items = record {
    fresh = 1;
    cells = (0, record pressure { id = 0; active = false; is_monitored = false }) ∷ [];
  };
  live = 100 ∷ [];
}

with_accessor-Reachable : Reachable false 500 with_accessor
unfolding perform find_cell
with_accessor-Reachable =
    returned attach (new_backend false 500) with_accessor built ((4, 250, refl), tt) refl

Reachable-perform_example :
    Inv with_accessor × Safe Inv (perform (opens (codes "opc.tcp://plc") open_answer) with_accessor)
Reachable-perform_example =
    Reachable-perform false 500 with_accessor (opens (codes "opc.tcp://plc") open_answer)
      with_accessor-Reachable tt
