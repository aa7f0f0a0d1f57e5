-- ===== src/Subscription/Board.antt =====
-- What the subscription manager of src/SubscriptionManager.cc promises, without addresses: the items
-- in their order, each mapped or not, and what is pushed. subscriptionMap, the pointers and the deque
-- are forgotten, and each callback is one pass over the items.
pub mod Cells
pub mod Sweep
pub mod Passes
pub mod Events
pub mod Refinement
use device_access_opc_ua_bac.Prelude.{
  ℕ, Bool, true, false, ◌&&◌, Text, List, [], ◌∷◌, ◌++◌, map, Option, none, some, ◌==◌,
  if◌then◌else◌,
}
use device_access_opc_ua_bac.Prelude.Map.{lookup}
use device_access_opc_ua_bac.System.{System, MonitorItem, Message, value, exception, DataValue}
use device_access_opc_ua_bac.Subscription.{
  received, push_to, is_told, with_exception, inactive, unmonitored,
}

-- An item, and whether the server's responses reach it under its id.
pub record Entry : Type 0 where
  pub item : MonitorItem
  pub is_mapped : Bool

-- `present`: there is a manager.
pub record Board : Type 0 where
  pub entries : List Entry
  pub present : Bool
  pub pushed : List (ℕ × Message)

-- The item at address `a` is the one that the map gives for its id.
unfoldable pub is_at : ℕ → Option ℕ → Bool
is_at a none = false
is_at a (some b) = b == a

abbrev pub entry_at : List (ℕ × ℕ) → ℕ → MonitorItem → Entry
entry_at m a i = record { item = i; is_mapped = is_at a (lookup i.id m) }

unfoldable pub entries_of : List (ℕ × ℕ) → List (ℕ × MonitorItem) → List Entry
unfolding is_at
entries_of m [] = []
entries_of m ((a, i) ∷ cs) = entry_at m a i ∷ entries_of m cs

abbrev pub board_of : System → Board
board_of s = record {
  entries = entries_of s.subscription_map s.items.cells;
  present = s.has_manager;
  pushed = s.pushed;
}

-- A change of an item that leaves whether it is mapped.
abbrev pub change : (MonitorItem → MonitorItem) → Entry → Entry
change f e = record e { item = f e.item }

-- A new value for an id: it goes to the accessors of the active item that is mapped under it.
unfoldable pub is_addressed : ℕ → Entry → Bool
is_addressed id e = e.is_mapped && e.item.id == id && e.item.active

unfoldable pub accept : ℕ → Entry → Entry
unfolding is_addressed received
accept id e = if is_addressed id e then change received e else e

unfoldable pub deliveries : ℕ → DataValue → List Entry → List (ℕ × Message)
unfolding is_addressed
deliveries id v [] = []
deliveries id v (e ∷ es) =
    (if is_addressed id e then push_to (value v) e.item.accessors else []) ++ deliveries id v es

abbrev pub deliver : ℕ → DataValue → Board → Board
deliver id v b = record b {
  entries = map (accept id) b.entries;
  pushed = b.pushed ++ deliveries id v b.entries;
}

-- An exception for every active item that was not told of one.
unfoldable pub notices : Text → List Entry → List (ℕ × Message)
unfolding is_told
notices message [] = []
notices message (e ∷ es) =
    (if is_told e.item then push_to (exception message) e.item.accessors else [])
    ++ notices message es

abbrev pub tell : Text → Board → Board
tell message b = record b {
  entries = map (change with_exception) b.entries;
  pushed = b.pushed ++ notices message b.entries;
}

-- The mapped items get no data any more.
unfoldable pub silence : Entry → Entry
unfolding inactive
silence e = if e.is_mapped then change inactive e else e

abbrev pub stop : Board → Board
stop b = record b { entries = map silence b.entries }

-- No item is monitored any more.
unfoldable pub forget : Entry → Entry
unfolding unmonitored
forget e = record { item = unmonitored e.item; is_mapped = false }

abbrev pub clear : Board → Board
clear b = record b { entries = map forget b.entries }

-- What a callback of the client may do.
pub data Move : Board → Board → Type 0 where
  delivers : (id : ℕ) (v : DataValue) (b : Board) → Move b (deliver id v b)
  tells : (message : Text) (b : Board) → Move b (tell message b)
  stops : (b : Board) → Move b (stop b)
  clears : (b : Board) → Move b (clear b)

pub data Moves (b : Board) : Board → Type 0 where
  here : Moves b b
  next : {c d : Board} → Moves b c → Move c d → Moves b d

-- What no move changes.
abbrev pub IsKept : (Board → Type 0) → Type 0
IsKept P = (b c : Board) → Move b c → P b → P c
