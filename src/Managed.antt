-- ===== src/Managed.antt =====
-- `ManagedDataValue` of src/ManagedTypes.cc: who frees the content of a `UA_DataValue`. The content
-- is a block of the heap, named by a number. What the functions of the OPC UA library copy is an
-- argument; `UA_DataValue_clear` frees the block and sets every field to zero.
-- The picoseconds, which only travel with the rest, are left out.
pub mod Ownership
use device_access_opc_ua_bac.Prelude.{
  ℕ, Bool, true, false, ◌&&◌, Text, List, [], ◌∷◌, ◌++◌, Option, none, some, ◌==◌, if◌then◌else◌,
  text_eq,
}

pub record Value : Type 0 where
  pub block : Option ℕ
  pub has_value : Bool
  pub has_status : Bool
  pub status : ℕ
  pub has_source_timestamp : Bool
  pub source_timestamp : ℕ
  pub has_server_timestamp : Bool
  pub server_timestamp : ℕ

-- `UA_DataValue_init`
abbrev pub empty_value : Value
empty_value = record {
  block = none;
  has_value = false;
  has_status = false;
  status = 0;
  has_source_timestamp = false;
  source_timestamp = 0;
  has_server_timestamp = false;
  server_timestamp = 0;
}

pub record ManagedDataValue : Type 0 where
  pub val : Value
  pub clear_data : Bool

-- What is left of one or more objects, and the blocks that were freed, in their order.
pub record Freeing (A : Type 0) : Type 0 where
  pub left : A
  pub freed : List ℕ

abbrev pub block_list : Option ℕ → List ℕ
block_list none = []
block_list (some b) = b ∷ []

abbrev pub managed : ManagedDataValue
managed = record { val = empty_value; clear_data = false }

-- The constructor from a `UA_DataValue*`, with the copy that the library makes.
abbrev pub managed_from : Value → ManagedDataValue
managed_from copied = record { val = copied; clear_data = false }

-- The copy constructor: the status becomes that of the copying.
abbrev pub managed_copy : ℕ → Value → ManagedDataValue
managed_copy code copied = record { val = record copied { status = code }; clear_data = false }

-- The move constructor takes every field; its argument is `const` and stays as it is.
unfoldable pub managed_move : ManagedDataValue → ManagedDataValue
managed_move other = record { val = other.val; clear_data = other.val.has_value }

unfoldable pub prepare : ManagedDataValue → Freeing ManagedDataValue
prepare m =
    if m.val.has_value
    then (record { left = record m { val = empty_value }; freed = block_list m.val.block })
    else (record { left = m; freed = [] })

-- `operator=`: the object and the one that was moved from.
unfoldable pub assign :
    ManagedDataValue → ManagedDataValue → Freeing (ManagedDataValue × ManagedDataValue)
unfolding prepare
assign m other = record {
  left = (
    record {
      val = other.val;
      clear_data = if other.val.has_value then true else (prepare m).left.clear_data;
    },
    record other { clear_data = false },
  );
  freed = (prepare m).freed;
}

-- The destructor.
unfoldable pub destroy : ManagedDataValue → List ℕ
destroy m = if m.val.has_value && m.clear_data then block_list m.val.block else []

-- What `UA_Variant_copy` or `UA_Variant_copyRange` answers.
pub record CopyAnswer : Type 0 where
  pub code : ℕ
  pub copied : Option ℕ

-- The part of `copyVariant` that both kinds of copying share; `now` is the time.
unfoldable pub stamp : ℕ → Value → Value
stamp now v =
    if v.status == 0
    then (record v { has_value = true; source_timestamp = now; has_source_timestamp = true })
    else v

unfoldable pub copy_value : Text → CopyAnswer → Value → Value
copy_value range ans v =
    if text_eq range []
    then (record v { block = ans.copied })
    else (record v { block = ans.copied; status = ans.code; has_status = true })

unfoldable pub copy_variant : Text → CopyAnswer → ℕ → ManagedDataValue → Freeing ManagedDataValue
unfolding prepare stamp copy_value
copy_variant range ans now m = record {
  left = record { val = stamp now (copy_value range ans (prepare m).left.val); clear_data = true };
  freed = (prepare m).freed;
}
