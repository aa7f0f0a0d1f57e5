-- ===== src/Transfer/Notified.antt =====
-- Reading of an accessor that waits for new data (include/OPC-UA-BackendRegisterAccessor.h): `doPreRead`,
-- the function that is attached to its queue, and `doPostRead`. The queue and the order of these calls
-- are the library's; here is one message that it hands over.
use device_access_opc_ua_bac.Prelude.{
  ltb, ◌&&◌, ℕ, true, false, not, ◌≡◌, refl, ◌∙◌, ap, codes, List, [], ◌∷◌, ◌++◌, map, Option, none,
  some, All, if◌then◌else◌, Bool-cases, inl, inr,
}
use device_access_opc_ua_bac.System.{
  System, Message, value, exception, DataValue, ok, raise, M, ◌>>=◌, ◌>>◌, get, pure, throw, fail,
  when, out_of_bounds,
}
use device_access_opc_ua_bac.System.Returns.{Returns, Returns-weaken}
use device_access_opc_ua_bac.Subscription.{push_to, response_handler}
use device_access_opc_ua_bac.Subscription.Pointers.Roster.{Inv}
use device_access_opc_ua_bac.Subscription.Board.{Entry, board_of, deliver, deliveries, is_addressed}
use device_access_opc_ua_bac.Subscription.Board.Passes.{response_handler-board}
use device_access_opc_ua_bac.Versions.{VersionMapper, get_version}
use device_access_opc_ua_bac.Transfer.{Target, Received, post_read}
use device_access_opc_ua_bac.Transfer.Written.{fill_buffer-good}
use device_access_opc_ua_bac.System.Safe.{bind_ok}
use device_access_opc_ua_bac.Transfer.Words.{read_words}

unfoldable pub pre_read : M (Unit {0})
pre_read = do
  s ← get
  when (not s.opened) (throw (codes "Read operation not allowed while device is closed."))

unfoldable pub pre_write : M (Unit {0})
pre_write = do
  s ← get
  when (not s.opened) (throw (codes "Write operation not allowed while device is closed."))

-- The function of the queue: what `data` becomes. The queue throws an exception that was pushed.
unfoldable pub take_message : Message → M DataValue
take_message (value v) =
    if v.has_value then pure v else throw (codes "No data in found in the data queue.")
take_message (exception e) = throw e

-- A read of words beyond the end of the array is undefined.
unfoldable pub received_or {ℓ} : {A : Type ℓ} → Option A → M A
received_or none = fail out_of_bounds
received_or (some r) = pure r

-- What `doPostRead` does with a value where the converter of the types throws for every word, as that of
-- a text to anything but a text does: it throws at the first word, and reads that word before.
unfoldable pub refuse_words {ℓ} : {A : Type ℓ} → Target → DataValue → M A → M A
unfolding read_words
refuse_words target v otherwise =
    if v.has_value && ltb 0 target.number_of_words
    then (elim (read_words 1 target.offset_words v.elements) [
      | none ↦ fail out_of_bounds
      | some _ ↦ throw (codes "Conversion from string is not allowed.")
    ])
    else otherwise

module _ {C V : Type 0} (unix_epoch : ℕ) (new_version : ℕ → ℕ → V) where
  -- `none` is a converter that throws.
  unfoldable pub post_read_with :
      Option (ℕ → C)
      → Target
      → DataValue
      → List C
      → VersionMapper V
      → M (Received C V × VersionMapper V)
  unfolding received_or post_read refuse_words get_version
  post_read_with (some to_ctk) target v buffer mapper =
      received_or (post_read to_ctk unix_epoch new_version target v buffer mapper)
  post_read_with none target v buffer mapper = refuse_words target v (
      pure (
        record {
          buffer = buffer;
          is_faulty = not v.has_value;
          version = (get_version unix_epoch new_version v.source_timestamp mapper).0;
        },
        (get_version unix_epoch new_version v.source_timestamp mapper).1,
      ))

  unfoldable pub read_message :
      Option (ℕ → C)
      → Target
      → Message
      → List C
      → VersionMapper V
      → M (Received C V × VersionMapper V)
  unfolding pre_read take_message post_read_with
  read_message to_ctk target message buffer mapper = do
    pre_read
    v ← take_message message
    post_read_with to_ctk target v buffer mapper

  -- A text for a user who asks for no text: the read throws.
  text-refused :
      (target : Target) (buffer : List C) (mapper : VersionMapper V) (u : System) (v : DataValue)
      (first : List ℕ)
      → u.opened ≡ true
      → v.has_value ≡ true
      → ltb 0 target.number_of_words ≡ true
      → read_words 1 target.offset_words v.elements ≡ some first
      → read_message none target (value v) buffer mapper u
        ≡ raise (codes "Conversion from string is not allowed.") u
  unfolding read_message pre_read take_message post_read_with refuse_words
  text-refused target buffer mapper u v first on has many at =
      bind_ok pre_read (λ _. take_message (value v) >>= rest) u tt u (rw on refl)
      ∙ bind_ok (take_message (value v)) rest u v u (rw has refl)
      ∙ rw (at, many, has, refuse_words) refl
    where
      rest : DataValue → M (Received C V × VersionMapper V)
      rest w = post_read_with none target w buffer mapper

module _ {C V : Type 0} (to_ctk : ℕ → C) (unix_epoch : ℕ) (new_version : ℕ → ℕ → V) where
  -- The accessor of an open device that is handed the value has its words, converted, and is valid.
  abbrev pub IsReadAs : Target → List C → VersionMapper V → System → List ℕ → ℕ × Message → Type 0
  IsReadAs target buffer mapper u words p =
      (r : Received C V × VersionMapper V) × (read_message unix_epoch new_version (some to_ctk)
          target p.1 buffer mapper u
        ≡ ok r u)
      × (r.0.buffer ≡ map to_ctk words)
      × (r.0.is_faulty ≡ false)

  unfoldable pub read_as : VersionMapper V → DataValue → List ℕ → Received C V × VersionMapper V
  read_as mapper v words = (
    record {
      buffer = map to_ctk words;
      is_faulty = false;
      version = (get_version unix_epoch new_version v.source_timestamp mapper).0;
    },
    (get_version unix_epoch new_version v.source_timestamp mapper).1,
  )

  post_read-read :
      (target : Target) (v : DataValue) (buffer : List C) (mapper : VersionMapper V)
      (words : List ℕ)
      → v.has_value ≡ true
      → read_words target.number_of_words target.offset_words v.elements ≡ some words
      → post_read to_ctk unix_epoch new_version target v buffer mapper
        ≡ some (read_as mapper v words)
  unfolding post_read read_as
  post_read-read target v buffer mapper words has at =
      rw (fill_buffer-good to_ctk target v buffer words has at, post_read) refl

  pre_read-opened : (u : System) → u.opened ≡ true → pre_read u ≡ ok tt u
  unfolding pre_read
  pre_read-opened u on = rw on refl

  take_message-value :
      (u : System) (v : DataValue) → v.has_value ≡ true → take_message (value v) u ≡ ok v u
  unfolding take_message
  take_message-value u v has = rw has refl

  value-IsReadAs :
      (target : Target) (buffer : List C) (mapper : VersionMapper V) (u : System) (v : DataValue)
      (words : List ℕ) (accessor : ℕ)
      → u.opened ≡ true
      → v.has_value ≡ true
      → read_words target.number_of_words target.offset_words v.elements ≡ some words
      → IsReadAs target buffer mapper u words (accessor, value v)
  unfolding read_message post_read_with received_or read_as
  value-IsReadAs target buffer mapper u v words accessor on has at =
      let rest : DataValue → M (Received C V × VersionMapper V) =
        λ w. received_or (post_read to_ctk unix_epoch new_version target w buffer mapper) in
      (
        read_as mapper v words,
        bind_ok pre_read (λ _. take_message (value v) >>= rest) u tt u (pre_read-opened u on)
            ∙ bind_ok (take_message (value v)) rest u v u (take_message-value u v has)
            ∙ ap (λ r. received_or r u) (post_read-read target v buffer mapper words has at),
        refl,
        refl,
      )

-- A closed device refuses the read, whatever is in the queue, and the write.
closed-refused :
    {C V : Type 0} (to_ctk : Option (ℕ → C)) (unix_epoch : ℕ) (new_version : ℕ → ℕ → V)
    (target : Target) (m : Message) (buffer : List C) (mapper : VersionMapper V) (u : System)
    → u.opened ≡ false
    → (read_message unix_epoch new_version to_ctk target m buffer mapper u
        ≡ raise (codes "Read operation not allowed while device is closed.") u)
      × (pre_write u ≡ raise (codes "Write operation not allowed while device is closed.") u)
unfolding read_message pre_read pre_write
closed-refused to_ctk unix_epoch new_version target m buffer mapper u off =
    (rw off refl, rw off refl)

-- What holds of every message with the value holds of all that is delivered.
All-append :
    (P : ℕ × Message → Type 0) (xs ys : List (ℕ × Message)) → All P xs → All P ys → All P (xs ++ ys)
All-append P [] ys h k = k
All-append P (x ∷ xs) ys h k = (h.0, All-append P xs ys h.1 k)

All-push_to :
    (P : ℕ × Message → Type 0) (m : Message) (xs : List ℕ)
    → ((a : ℕ) → P (a, m))
    → All P (push_to m xs)
All-push_to P m [] h = tt
All-push_to P m (a ∷ xs) h = (h a, All-push_to P m xs h)

All-deliveries :
    (P : ℕ × Message → Type 0) (id : ℕ) (v : DataValue) (es : List Entry)
    → ((a : ℕ) → P (a, value v))
    → All P (deliveries id v es)
unfolding deliveries
All-deliveries P id v [] h = tt
All-deliveries P id v (e ∷ es) h =
    All-append P _ _
      (elim (Bool-cases (is_addressed id e)) [
        | inl on ↦ rw on (All-push_to P (value v) e.item.accessors h)
        | inr off ↦ rw off tt
      ])
      (All-deliveries P id v es h)

pub response_handler-read_message :
    {C V : Type 0} (to_ctk : ℕ → C) (unix_epoch : ℕ) (new_version : ℕ → ℕ → V) (target : Target)
    (buffer : List C) (mapper : VersionMapper V) (id : ℕ) (v : DataValue) (words : List ℕ)
    (s u : System)
    → Inv s
    → u.opened ≡ true
    → v.has_value ≡ true
    → read_words target.number_of_words target.offset_words v.elements ≡ some words
    → Returns
        (λ t.
          (t.pushed ≡ s.pushed ++ deliveries id v (board_of s).entries)
          × All
              (λ p. IsReadAs to_ctk unix_epoch new_version target buffer mapper u words p)
              (deliveries id v (board_of s).entries))
        (response_handler id v s)
response_handler-read_message to_ctk unix_epoch new_version target buffer mapper id v words s u h on
      has at =
    Returns-weaken (λ t. board_of t ≡ deliver id v (board_of s)) _ (response_handler id v s)
      (λ t e. (
        ap (λ b. b.pushed) e,
        All-deliveries (λ p. IsReadAs to_ctk unix_epoch new_version target buffer mapper u words p)
            id v (board_of s).entries
            (λ a.
              value-IsReadAs to_ctk unix_epoch new_version target buffer mapper u v words a on has
                at),
      ))
      (response_handler-board id v s h)
