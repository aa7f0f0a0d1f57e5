-- ===== src/Subscription/Board/Passes.antt =====
-- `responseHandler` and `handleException` of src/SubscriptionManager.cc as passes over the items.
use device_access_opc_ua_bac.Prelude.{
  ℕ, ◌≡◌, refl, Text, List, [], ◌∷◌, map, none, arith, Bool-cases, Option-cases, inl, inr,
}
use mathlib.Core.List.{append-nil}
use device_access_opc_ua_bac.Prelude.Map.{lookup}
use device_access_opc_ua_bac.Prelude.Deque.{map_cells}
use device_access_opc_ua_bac.System.{System, MonitorItem, DataValue}
use device_access_opc_ua_bac.System.Returns.{Returns, Returns-weaken}
use device_access_opc_ua_bac.Subscription.{
  unmonitored, is_told, with_exception, exceptions, handle_exception, response_handler,
}
use device_access_opc_ua_bac.Subscription.Pointers.Roster.{Inv}
use device_access_opc_ua_bac.Subscription.Pointers.Calls.{mapped}
use device_access_opc_ua_bac.Subscription.Board.{
  board_of, entries_of, is_at, change, deliver, notices, tell, forget,
}
use device_access_opc_ua_bac.Subscription.Board.Cells.{
  unknown-IsPassed, inactive-IsPassed, active-IsTaken,
}

entries-map_cells :
    (f : MonitorItem → MonitorItem) (m : List (ℕ × ℕ)) (cs : List (ℕ × MonitorItem))
    → ((i : MonitorItem) → (f i).id ≡ i.id)
    → entries_of m (map_cells f cs) ≡ map (change f) (entries_of m cs)
unfolding entries_of map_cells
entries-map_cells f m [] k = refl
entries-map_cells f m ((a, i) ∷ cs) k = rw (k i, entries-map_cells f m cs k) refl

pub entries-cleared :
    (m : List (ℕ × ℕ)) (cs : List (ℕ × MonitorItem))
    → entries_of [] (map_cells unmonitored cs) ≡ map forget (entries_of m cs)
unfolding entries_of map_cells is_at lookup forget
entries-cleared m [] = refl
entries-cleared m ((a, i) ∷ cs) = rw (entries-cleared m cs) refl

notices-exceptions :
    (message : Text) (m : List (ℕ × ℕ)) (cs : List (ℕ × MonitorItem))
    → notices message (entries_of m cs) ≡ exceptions message cs
unfolding entries_of notices exceptions
notices-exceptions message m [] = refl
notices-exceptions message m ((a, i) ∷ cs) = rw (notices-exceptions message m cs) refl

with_exception_id : (i : MonitorItem) → (with_exception i).id ≡ i.id
unfolding with_exception is_told
with_exception_id i = ground arith

-- What `handleException` does is `tell`.
pub handle_exception-tell :
    (message : Text) (s : System)
    → Returns (λ t. board_of t ≡ tell message (board_of s)) (handle_exception message s)
unfolding handle_exception
handle_exception-tell message s =
    rw
      (
        entries-map_cells with_exception s.subscription_map s.items.cells with_exception_id,
        notices-exceptions message s.subscription_map s.items.cells,
      )
      refl

-- A response for any id and with any value returns and does what the one pass over the items does: an
-- item that is mapped, active and known under the id takes it, and its accessors are pushed the value,
-- each once and in their order. But for the items and what is pushed the whole state stays as it is.
pub response_handler-deliver :
    (id : ℕ) (v : DataValue) (s : System)
    → Inv s
    → Returns
        (λ t.
          (board_of t ≡ deliver id v (board_of s))
          × (t ≡ record s { items = t.items; pushed = t.pushed }))
        (response_handler id v s)
unfolding response_handler
response_handler-deliver id v s h = elim (Option-cases (lookup id s.subscription_map)) [
  | inl e ↦
      let p = unknown-IsPassed id s.subscription_map s.items.cells e in
      rw (e, Returns, p.0, p.1 v, append-nil s.pushed) (refl, refl)
  | inr (a, e) ↦
      let (i, at, same, _) = mapped [] none id a s.items s.subscription_map h.0.points e in
      rw (e, at, Returns)
        (elim (Bool-cases i.active) [
          | inl on ↦
              let p =
                active-IsTaken id a s.subscription_map i e same s.items.fresh s.items.cells
                  h.0.placed at on in
              rw (on, Returns, p.0, p.1 v) (refl, refl)
          | inr off ↦
              let p =
                inactive-IsPassed id a s.subscription_map i e same s.items.fresh s.items.cells
                  h.0.placed at off in
              rw (off, Returns, p.0, p.1 v, append-nil s.pushed) (refl, refl)
        ])
]

pub response_handler-board :
    (id : ℕ) (v : DataValue) (s : System)
    → Inv s
    → Returns (λ t. board_of t ≡ deliver id v (board_of s)) (response_handler id v s)
response_handler-board id v s h =
    Returns-weaken _ (λ t. board_of t ≡ deliver id v (board_of s)) (response_handler id v s)
      (λ t k. k.0) (response_handler-deliver id v s h)
