-- ===== src/Tests/Recovery.antt =====
-- The abstract manager, the recovery of a device and its end, at a device with three items.
use device_access_opc_ua_bac.Prelude.{
  ℕ, ◌+◌, ◌≡◌, refl, true, false, none, codes, List, [], ◌∷◌, ◌++◌, arith,
}
use device_access_opc_ua_bac.Prelude.Map.{lookup}
use device_access_opc_ua_bac.System.{
  System, Message, value, fault, raise, string, dangling_pointer, channel_closed, session_closed,
  is_connected, is_activated, is_channel_open, ◌>>◌,
}
use device_access_opc_ua_bac.System.Returns.{Returns}
use device_access_opc_ua_bac.Subscription.{deleted_silently, push_to, response_handler}
use device_access_opc_ua_bac.Subscription.Board.{board_of, deliver}
use device_access_opc_ua_bac.Subscription.Board.Passes.{response_handler-deliver}
use device_access_opc_ua_bac.Subscription.Board.Events.{after, handle-after}
use device_access_opc_ua_bac.Subscription.Monitor.{CreateAnswer, not_created, add_monitored_items}
use device_access_opc_ua_bac.Backend.Abandoned.{attach_accessor_dangling}
use device_access_opc_ua_bac.Callbacks.{subscription_deleted, state_change, handle}
use device_access_opc_ua_bac.Backend.{open_device, activate_async_read, attach_accessor}
use device_access_opc_ua_bac.Backend.Recovery.Restart.{Server}
use device_access_opc_ua_bac.Backend.Recovery.Reconnect.{Opening, answer}
use device_access_opc_ua_bac.Backend.Recovery.Reading.{open_device-delivers}
use device_access_opc_ua_bac.Backend.Destruction.{
  EndAnswer, destroy_backend, IsJoined, destroy_backend-IsJoined, destroy_backend_dangling,
}
use device_access_opc_ua_bac.Tests.Manager.{
  device, device-Inv, offline, offline-Inv, reading, reset_answer, create_answer, monitor_answers,
  pressure,
}

response_handler-deliver_example :
    Returns
      (λ t.
        (board_of t ≡ deliver 11 reading (board_of device))
        × (t ≡ record device { items = t.items; pushed = t.pushed }))
      (response_handler 11 reading device)
response_handler-deliver_example = response_handler-deliver 11 reading device device-Inv

handle-after_example :
    Returns
      (λ t. board_of t ≡ after (state_change channel_closed session_closed deleted_silently) device)
      (handle (state_change channel_closed session_closed deleted_silently) device)
handle-after_example =
    handle-after (state_change channel_closed session_closed deleted_silently) device device-Inv

-- A device that is read asynchronously, whose last accessor and subscription are gone.
abbrev bare : System
bare = record device {
  items = record { fresh = 3; cells = [] };
  subscription_map = [];
  subscription_active = false;
  subscription_id = 0;
  live = [];
}

abbrev refusal : CreateAnswer
refusal = record { deletion = deleted_silently; events = []; result = not_created }

attach_accessor_dangling_example :
    (t : System) × (attach_accessor refusal monitor_answers
        (record { front = none; current = reading })
        (codes "level")
        (string 1 (codes "level"))
        101
        bare
      ≡ raise (codes "Failed to set up subscription.") t)
    × (add_monitored_items monitor_answers t ≡ fault dangling_pointer)
attach_accessor_dangling_example =
    attach_accessor_dangling refusal monitor_answers monitor_answers
      (record { front = none; current = reading }) (codes "level") (string 1 (codes "level")) 101
      bare refl refl refl refl refl refl refl

abbrev plc : Server
plc = record { ids = λ a. a + 20; subscription = 5; interval = 250; deletion = deleted_silently }

abbrev reopening : Opening
reopening = record {
  server = plc;
  rounds = [];
  final_deletion = deleted_silently;
  reset = reset_answer;
  events = subscription_deleted ∷ [];
  sleep_events = λ _. [];
}

open_device-delivers_example :
    Returns
      (λ t.
        (before : List (ℕ × Message)) × (t.pushed ≡ before ++ push_to (value reading) (100 ∷ [])))
      ((open_device (codes "opc.tcp://plc") (answer reopening)
          >> activate_async_read true create_answer monitor_answers
          >> response_handler 20 reading)
        offline)
unfolding is_connected is_activated is_channel_open lookup
open_device-delivers_example =
    open_device-delivers (codes "opc.tcp://plc") reopening create_answer monitor_answers offline 0
      pressure reading (λ a c e. omega arith) offline-Inv refl refl refl refl

abbrev quiet_end : EndAnswer
quiet_end = record {
  closing = reset_answer;
  deletion = deleted_silently;
  rounds = [];
  final_deletion = deleted_silently;
  delete_events = [];
}

destroy_backend-IsJoined_example : Returns IsJoined (destroy_backend quiet_end device)
destroy_backend-IsJoined_example = destroy_backend-IsJoined quiet_end device device-Inv refl refl

abbrev noisy_end : EndAnswer
noisy_end = record quiet_end {
  delete_events = state_change channel_closed session_closed deleted_silently ∷ [];
}

destroy_backend_dangling_example : destroy_backend noisy_end device ≡ fault dangling_pointer
destroy_backend_dangling_example =
    destroy_backend_dangling noisy_end (state_change channel_closed session_closed deleted_silently)
      [] device device-Inv refl refl
