-- ===== src/Backend/Reachable.antt =====
-- The states that a device comes to from its construction on, by any calls in any order.
use device_access_opc_ua_bac.Prelude.{ℕ, Bool, true, false, ◌≡◌, refl, Text, [], subst}
use device_access_opc_ua_bac.Prelude.Deque
use device_access_opc_ua_bac.System.{System, channel_closed, session_closed, null, ok, raise}
use device_access_opc_ua_bac.System.Safe.{Safe}
use device_access_opc_ua_bac.Subscription.Pointers.Roster.{Inv, Keeps-Inv}
use device_access_opc_ua_bac.Backend.{ConnectAnswer, connect}
use device_access_opc_ua_bac.Backend.Pointers.{connect-Held}
use device_access_opc_ua_bac.Backend.Operations.{Call, MayPerform, perform, perform-Inv}

-- The members as the constructor of `OpcUABackend` has them before it connects. Whether an exception
-- is active is a member of the library's base class.
abbrev pub new_backend : Bool → ℕ → System
new_backend excepted interval = record {
  registered = true;
  opened = false;
  active_exception = excepted;
  has_manager = false;
  channel_state = channel_closed;
  session_state = session_closed;
  publishing_interval = interval;
  run = false;
  subscription_active = false;
  subscription_needs_to_be_removed = false;
  async_read_active = false;
  thread = null;
  subscription_id = 0;
  items = Deque.empty;
  subscription_map = [];
  pushed = [];
  live = [];
}

-- With a cache file the constructor does not connect. A call that ends by an exception goes on from
-- the state that it left.
pub data Reachable (excepted : Bool) (interval : ℕ) : System → Type 0 where
  built : Reachable excepted interval (new_backend excepted interval)
  connected :
      (address : Text) (ans : ConnectAnswer) (t : System)
      → connect address ans (new_backend excepted interval) ≡ ok tt t
      → Reachable excepted interval t
  returned :
      (c : Call) (s t : System)
      → Reachable excepted interval s
      → MayPerform c s
      → perform c s ≡ ok tt t
      → Reachable excepted interval t
  thrown :
      (c : Call) (s t : System) (e : Text)
      → Reachable excepted interval s
      → MayPerform c s
      → perform c s ≡ raise e t
      → Reachable excepted interval t

new_backend-Inv : (excepted : Bool) (interval : ℕ) → Inv (new_backend excepted interval)
new_backend-Inv excepted interval = (
  record { placed = tt; points = tt; sorted = tt; addressed = refl; focus = tt; manned = tt },
  ((λ e. cc), refl),
)

Reachable-Inv :
    (excepted : Bool) (interval : ℕ) (s : System) → Reachable excepted interval s → Inv s
Reachable-Inv excepted interval s built = new_backend-Inv excepted interval
Reachable-Inv excepted interval s (connected address ans t e) = subst (Safe Inv) e (
    Keeps-Inv (connect address ans) (λ places. connect-Held places address ans)
      (new_backend excepted interval) (new_backend-Inv excepted interval))
Reachable-Inv excepted interval s (returned c r t h may e) =
    subst (Safe Inv) e (perform-Inv c r may (Reachable-Inv excepted interval r h))
Reachable-Inv excepted interval s (thrown c r t x h may e) =
    subst (Safe Inv) e (perform-Inv c r may (Reachable-Inv excepted interval r h))

pub Reachable-perform :
    (excepted : Bool) (interval : ℕ) (s : System) (c : Call)
    → Reachable excepted interval s
    → MayPerform c s
    → Inv s × Safe Inv (perform c s)
Reachable-perform excepted interval s c h may =
    let i = Reachable-Inv excepted interval s h in (i, perform-Inv c s may i)
