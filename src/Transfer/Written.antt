-- ===== src/Transfer/Written.antt =====
-- What a write by an accessor sends, and that it can be read back.
use device_access_opc_ua_bac.Prelude.{
  ℕ, suc, true, false, not, ◌||◌, ◌+◌, ◌≤◌, ◌<◌, ◌≡◌, ◌⊎◌, inl, inr, refl, ap, ◌∙◌, List, [], ◌∷◌,
  map, subst, sym, none, some, get_elem?, length, if◌then◌else◌, Bool-cases, arith,
}
use device_access_opc_ua_bac.System.{System, DataValue, ok}
use device_access_opc_ua_bac.System.Safe.{bind_ok, when-false}
use device_access_opc_ua_bac.Transfer.Words.{
  read_words, write_words, write_words_lem, read_words_short,
}
use device_access_opc_ua_bac.Transfer.{
  Target, ReadAnswer, written, copied_value, check_active_exception, take_answer,
  read_synchronously, base_value, send, take_written, fill_buffer, write_transfer,
}

-- The value that the words of a write go into, where the server does not refuse to be read.
abbrev pub base_of : Target → ReadAnswer → DataValue → DataValue
base_of target ans v =
    if target.is_partial || not v.has_value then copied_value target.index_range ans v else v

check-calm : (s : System) → s.active_exception ≡ false → check_active_exception s ≡ ok tt s
unfolding check_active_exception
check-calm s calm = when-false s.active_exception _ s calm

read_synchronously-good :
    (target : Target) (ans : ReadAnswer) (v : DataValue) (s : System)
    → s.active_exception ≡ false
    → ans.refusal ≡ none
    → read_synchronously target ans v s ≡ ok (copied_value target.index_range ans v) s
unfolding read_synchronously check_active_exception take_answer
read_synchronously-good target ans v s calm good = rw (calm, good) refl

base_value-good :
    (target : Target) (ans : ReadAnswer) (v : DataValue) (s : System)
    → s.active_exception ≡ false
    → ans.refusal ≡ none
    → base_value target ans v s ≡ ok (base_of target ans v) s
unfolding base_value
base_value-good target ans v s calm good =
    elim (Bool-cases (target.is_partial || not v.has_value)) [
      | inl read ↦ rw (read) (read_synchronously-good target ans v s calm good)
      | inr kept ↦ rw (kept) refl
    ]

map_back :
    {C : Type 0} (to_ctk : ℕ → C) (to_opcua : C → ℕ)
    → ((c : C) → to_ctk (to_opcua c) ≡ c)
    → (cs : List C) → map to_ctk (map to_opcua cs) ≡ cs
map_back to_ctk to_opcua back [] = refl
map_back to_ctk to_opcua back (c ∷ cs) =
    rw (back c) (ap (λ ds. c ∷ ds) (map_back to_ctk to_opcua back cs))

length-map : {C : Type 0} (f : C → ℕ) (cs : List C) → length (map f cs) ≡ length cs
length-map f [] = refl
length-map f (c ∷ cs) = ap suc (length-map f cs)

pub fill_buffer-good :
    {C : Type 0} (to_ctk : ℕ → C) (target : Target) (w : DataValue) (old : List C) (ys : List ℕ)
    → w.has_value ≡ true
    → read_words target.number_of_words target.offset_words w.elements ≡ some ys
    → fill_buffer to_ctk target w old ≡ some (map to_ctk ys, false)
unfolding fill_buffer
fill_buffer-good to_ctk target w old ys full found = rw (full, found) refl

write_transfer-good :
    {C : Type 0} (to_opcua : C → ℕ) (target : Target) (ans : ReadAnswer) (v b : DataValue)
    (buffer : List C) (xs : List ℕ) (s : System)
    → s.active_exception ≡ false
    → base_value target ans v s ≡ ok b s
    → write_words (map to_opcua buffer) target.offset_words b.elements ≡ some xs
    → write_transfer to_opcua target ans written v buffer s ≡ ok (record b { elements = xs }) s
unfolding write_transfer send take_written
write_transfer-good to_opcua target ans v b buffer xs s calm base stored =
    bind_ok check_active_exception _ s tt s (check-calm s calm)
    ∙ bind_ok (base_value target ans v) _ s b s base
    ∙ ap (λ o. send target written b o s) stored

-- A write that the server takes sends the array as it was, with the words of the buffer, and only
-- these, replaced from the offset on; reading the sent array back fills any buffer with the words
-- that were written. The array is the one read from the server where the accessor covers a part of
-- it or has no value yet, and else its own value. Asked is that no exception is active, the server
-- does not refuse to be read, the words fit into the array, it is a value, and the converters undo
-- each other.
pub write_transfer-fill_buffer :
    {C : Type 0} (to_ctk : ℕ → C) (to_opcua : C → ℕ) (target : Target) (ans : ReadAnswer)
    (v : DataValue) (buffer old : List C) (s : System)
    → ((c : C) → to_ctk (to_opcua c) ≡ c)
    → s.active_exception ≡ false
    → ans.refusal ≡ none
    → (base_of target ans v).has_value ≡ true
    → length buffer ≡ target.number_of_words
    → target.offset_words + target.number_of_words ≤ length (base_of target ans v).elements
    → (w : DataValue) × (write_transfer to_opcua target ans written v buffer s ≡ ok w s)
      × (fill_buffer to_ctk target w old ≡ some (buffer, false))
      × (length w.elements ≡ length (base_of target ans v).elements)
      × ((j : ℕ)
          → (j < target.offset_words) ⊎ (target.offset_words + target.number_of_words ≤ j)
          → get_elem? w.elements j ≡ get_elem? (base_of target ans v).elements j)
write_transfer-fill_buffer to_ctk to_opcua target ans v buffer old s back calm good full size fits =
    let b = base_of target ans v in
    let l = length-map to_opcua buffer ∙ size in
    let (xs, (stored, same, found, apart)) =
      write_words_lem (map to_opcua buffer) target.offset_words b.elements (omega (arith, l)) in
    let read =
      subst (λ n. read_words n target.offset_words xs ≡ some (map to_opcua buffer)) l found in
    (
      record b { elements = xs },
      write_transfer-good to_opcua target ans v b buffer xs s calm
          (base_value-good target ans v s calm good) stored,
      fill_buffer-good to_ctk target (record b { elements = xs }) old (map to_opcua buffer) full
            read
          ∙ ap (λ cs. some (cs, false)) (map_back to_ctk to_opcua back buffer),
      same,
      (λ j h.
          apart j
            (subst (λ n. (j < target.offset_words) ⊎ (target.offset_words + n ≤ j)) (sym l) h)),
    )

-- An accessor whose array is shorter than the catalogue said reads beyond its end, where it has a
-- value: nothing compares the length of the array with the words that are taken out of it.
pub fill_buffer_short :
    {C : Type 0} (to_ctk : ℕ → C) (target : Target) (v : DataValue) (buffer : List C)
    → v.has_value ≡ true
    → 0 < target.number_of_words
    → length v.elements < target.offset_words + target.number_of_words
    → fill_buffer to_ctk target v buffer ≡ none
unfolding fill_buffer
fill_buffer_short to_ctk target v buffer full some_words short =
    rw
      (
        full,
        read_words_short target.number_of_words target.offset_words v.elements some_words short,
      )
      refl
