-- ===== src/Tests/Transfers.antt =====
-- The transfer of data, at a device with three items.
use device_access_opc_ua_bac.Prelude.{
  ℕ, true, false, ◌≡◌, ◌≤◌, ◌<◌, ◌+◌, ◌⊎◌, refl, codes, [], ◌∷◌, All, none, some, get_elem?, length,
  arith, text_eq,
}
use device_access_opc_ua_bac.System.{DataValue, ok}
use device_access_opc_ua_bac.Subscription.{response_handler}
use device_access_opc_ua_bac.Subscription.Board.{board_of, deliveries}
use device_access_opc_ua_bac.System.Returns.{Returns}
use device_access_opc_ua_bac.Transfer.{
  Target, ReadAnswer, written, not_writable, copied_value, fill_buffer, write_transfer,
}
use device_access_opc_ua_bac.Transfer.Words.{read_words}
use device_access_opc_ua_bac.Transfer.Written.{write_transfer-fill_buffer}
use device_access_opc_ua_bac.Transfer.Refused.{NeverReturns, write_transfer-NeverReturns}
use device_access_opc_ua_bac.Transfer.Notified.{IsReadAs, response_handler-read_message}
use device_access_opc_ua_bac.Tests.Manager.{device, device-Inv, reading}

-- Two words from the second on.
abbrev middle : Target
middle = record {
  node_browse_name = codes "level";
  index_range = [];
  number_of_words = 2;
  offset_words = 1;
  is_partial = true;
}

abbrev four_words : ReadAnswer
four_words = record {
  refusal = none;
  copied = 5 ∷ 6 ∷ 7 ∷ 8 ∷ [];
  copy_code = 0;
  now = 9;
  disconnect_events = [];
}

write_transfer-fill_buffer_example :
    (w : DataValue) × (write_transfer
        (λ n. n)
        middle
        four_words
        written
        reading
        (60 ∷ 70 ∷ [])
        device
      ≡ ok w device)
    × (fill_buffer (λ n. n) middle w (0 ∷ 0 ∷ []) ≡ some (60 ∷ 70 ∷ [], false))
    × (length w.elements ≡ 4)
    × ((j : ℕ) → (j < 1) ⊎ (1 + 2 ≤ j) → get_elem? w.elements j ≡ get_elem? (5 ∷ 6 ∷ 7 ∷ 8 ∷ []) j)
unfolding copied_value text_eq
write_transfer-fill_buffer_example =
    write_transfer-fill_buffer (λ n. n) (λ n. n) middle four_words reading (60 ∷ 70 ∷ [])
      (0 ∷ 0 ∷ []) device (λ c. refl) refl refl refl refl (omega arith)

write_transfer-NeverReturns_example :
    NeverReturns (write_transfer (λ n. n) middle four_words not_writable reading (60 ∷ 70 ∷ []))
write_transfer-NeverReturns_example =
    write_transfer-NeverReturns (λ n. n) middle four_words not_writable reading (60 ∷ 70 ∷ [])
      (λ e. cc)

abbrev first_word : Target
first_word = record {
  node_browse_name = codes "level";
  index_range = [];
  number_of_words = 1;
  offset_words = 0;
  is_partial = false;
}

response_handler-read_message_example :
    Returns
      (λ t.
        (t.pushed ≡ deliveries 11 reading (board_of device).entries)
        × All
            (λ p.
              IsReadAs
                (λ n. n + 1)
                0
                (λ made time. made)
                first_word
                (0 ∷ [])
                (record { made = 0; versions = [] })
                device
                (42 ∷ [])
                p)
            (deliveries 11 reading (board_of device).entries))
      (response_handler 11 reading device)
unfolding read_words
response_handler-read_message_example =
    response_handler-read_message (λ n. n + 1) 0 (λ made time. made) first_word (0 ∷ [])
      (record { made = 0; versions = [] }) 11 reading (42 ∷ []) device device device-Inv refl refl
      refl
