-- ===== src/Backend/Recovery/Roster.antt =====
-- The callbacks and the reset of the client keep who waits for which item.
use device_access_opc_ua_bac.Prelude.{
  ℕ, true, false, ◌≡◌, refl, ap, Text, List, [], ◌∷◌, map, none, arith, ◌∙◌, All,
}
use device_access_opc_ua_bac.System.{System, Thread, null, running, returned, when}
use device_access_opc_ua_bac.System.Returns.{
  Returns, Returns-bind, Returns-when, Returns-both, Returns-weaken,
}
use device_access_opc_ua_bac.Subscription.{
  DeleteAnswer, received, with_exception, inactive, unmonitored, remove_subscription, deactivate,
  reset_monitored_items,
}
use device_access_opc_ua_bac.Subscription.Worker.{
  Round, finish_client, run_client, join, stop_client_thread,
}
use device_access_opc_ua_bac.Subscription.Deactivation.{deactivate-AtRest}
use device_access_opc_ua_bac.Subscription.Pointers.Calls.{reset_monitored_items-Held}
use device_access_opc_ua_bac.Subscription.Pointers.Joins.{run_loop_idle}
use device_access_opc_ua_bac.Subscription.Board.{
  Entry, Board, board_of, change, accept, silence, forget, Move, IsKept, delivers, tells, stops,
  clears,
}
use device_access_opc_ua_bac.Subscription.Board.Passes.{entries-cleared}
use device_access_opc_ua_bac.Subscription.Board.Refinement.{
  Follows, remove_subscription-Follows, deactivate-Follows, handle_all-Follows,
}
use device_access_opc_ua_bac.Backend.{ResetAnswer, reset_manager, reset_client}

-- The thread that finds `_run` reset does what the callbacks do.
module _ (places : List ℕ) (P : Board → Type 0) (keeps : IsKept P) where
  abbrev F : System → Type 0
  F = Follows places P keeps

  abbrev Idle : System → Type 0
  Idle t = F t × (t.run ≡ false)

  finish_client-Follows : (d : DeleteAnswer) (s : System) → F s → Returns Idle (finish_client d s)
  unfolding finish_client
  finish_client-Follows d s h =
      Returns-bind F Idle (when s.subscription_needs_to_be_removed _) _ s
        (Returns-when F s.subscription_needs_to_be_removed _ s (λ _. h)
          (λ _.
            Returns-bind F F (remove_subscription d) _ s
              (remove_subscription-Follows places P keeps d s h) (λ _ t k. k)))
        (λ _ t k. (((k.0.0, ((λ e. cc), k.0.1.1)), k.1), refl))

  join-Follows :
      (th : Thread) (rounds : List Round) (d : DeleteAnswer) (s : System)
      → Idle s
      → Returns Idle (join th rounds d s)
  unfolding join run_client
  join-Follows null rounds d s h = h
  join-Follows returned rounds d s h = (((h.0.0.0, ((λ e. cc), h.0.0.1.1)), h.0.1), h.1)
  join-Follows running rounds d s h =
      Returns-bind Idle Idle (run_client rounds d) _ s
        (rw (run_loop_idle places rounds s h.1, Returns) (finish_client-Follows d s h.0))
        (λ _ t k. (((k.0.0.0, ((λ e. cc), k.0.0.1.1)), k.0.1), k.1))

  pub stop_client_thread-Follows :
      (rounds : List Round) (d : DeleteAnswer) (s : System)
      → Idle s
      → Returns Idle (stop_client_thread rounds d s)
  unfolding stop_client_thread
  stop_client_thread-Follows rounds d s h = join-Follows s.thread rounds d s h

-- The name and the accessors of every item, in their order, and that there is a manager.
abbrev pub key : Entry → Text × List ℕ
key e = (e.item.browse_name, e.item.accessors)

abbrev pub IsRoster : List (Text × List ℕ) → Board → Type 0
IsRoster r b = (map key b.entries ≡ r) × (b.present ≡ true)

key-map :
    (f : Entry → Entry) (es : List Entry)
    → ((e : Entry) → key (f e) ≡ key e)
    → map key (map f es) ≡ map key es
key-map f [] h = refl
key-map f (e ∷ es) h = rw (key-map f es h) (ap (λ k. k ∷ map key es) (h e))

key-accept : (id : ℕ) (e : Entry) → key (accept id e) ≡ key e
unfolding accept received
key-accept id e = ground arith

key-silence : (e : Entry) → key (silence e) ≡ key e
unfolding silence inactive
key-silence e = ground arith

key-with_exception : (e : Entry) → key (change with_exception e) ≡ key e
unfolding with_exception
key-with_exception e = ground arith

key-forget : (e : Entry) → key (forget e) ≡ key e
unfolding forget unmonitored
key-forget e = refl

pub Move-IsRoster :
    {b c : Board} (r : List (Text × List ℕ)) → Move b c → IsRoster r b → IsRoster r c
Move-IsRoster r (delivers id v b) h = (key-map (accept id) b.entries (key-accept id) ∙ h.0, h.1)
Move-IsRoster r (tells message b) h =
    (key-map (change with_exception) b.entries key-with_exception ∙ h.0, h.1)
Move-IsRoster r (stops b) h = (key-map silence b.entries key-silence ∙ h.0, h.1)
Move-IsRoster r (clears b) h = (key-map forget b.entries key-forget ∙ h.0, h.1)

-- No item is monitored.
abbrev pub IsBlank : List Entry → Type 0
IsBlank = All (λ e. e.item.is_monitored ≡ false)

map-IsBlank :
    (f : Entry → Entry) (es : List Entry)
    → ((e : Entry) → e.item.is_monitored ≡ false → (f e).item.is_monitored ≡ false)
    → IsBlank es
    → IsBlank (map f es)
map-IsBlank f [] k h = tt
map-IsBlank f (e ∷ es) k h = (k e h.0, map-IsBlank f es k h.1)

forgotten-IsBlank : (es : List Entry) → IsBlank (map forget es)
unfolding forget unmonitored
forgotten-IsBlank [] = tt
forgotten-IsBlank (e ∷ es) = (refl, forgotten-IsBlank es)

abbrev pub IsReset : List (Text × List ℕ) → Board → Type 0
IsReset r b = IsRoster r b × IsBlank b.entries

pub Move-IsReset : {b c : Board} (r : List (Text × List ℕ)) → Move b c → IsReset r b → IsReset r c
unfolding accept received with_exception silence inactive
Move-IsReset r (delivers id v b) h = (
  Move-IsRoster r (delivers id v b) h.0,
  map-IsBlank (accept id) b.entries (λ e k. ground arith) h.1,
)
Move-IsReset r (tells message b) h = (
  Move-IsRoster r (tells message b) h.0,
  map-IsBlank (change with_exception) b.entries (λ e k. ground arith) h.1,
)
Move-IsReset r (stops b) h =
    (Move-IsRoster r (stops b) h.0, map-IsBlank silence b.entries (λ e k. ground arith) h.1)
Move-IsReset r (clears b) h = (Move-IsRoster r (clears b) h.0, forgotten-IsBlank b.entries)

module _ (places : List ℕ) (r : List (Text × List ℕ)) where
  abbrev pub Kept : System → Type 0
  Kept = Follows places (IsRoster r) (λ _ _. Move-IsRoster r)

  abbrev pub Reset : System → Type 0
  Reset = Follows places (IsReset r) (λ _ _. Move-IsReset r)

  reset_monitored_items-Reset : (s : System) → Kept s → Returns Reset (reset_monitored_items s)
  unfolding reset_monitored_items
  reset_monitored_items-Reset s h = (
    reset_monitored_items-Held places none s h.0,
    rw (entries-cleared s.subscription_map s.items.cells)
        (Move-IsRoster r (clears (board_of s)) h.1, forgotten-IsBlank _),
  )

  reset_manager-Reset :
      (ans : ResetAnswer) (s : System) → Kept s → Returns Reset (reset_manager ans s)
  unfolding reset_manager
  reset_manager-Reset ans s h =
      Returns-bind (λ t. Kept t × (t.run ≡ false)) Reset (deactivate ans.deletion) _ s
        (Returns-both Kept (λ t. t.run ≡ false) (deactivate ans.deletion s)
          (deactivate-Follows places (IsRoster r) (λ _ _. Move-IsRoster r) ans.deletion s h)
          (Returns-weaken _ (λ t. t.run ≡ false) (deactivate ans.deletion s) (λ t q. q.0.0.1)
            (deactivate-AtRest places none ans.deletion s h.0)))
        λ _ t q.
          Returns-bind (λ u. Reset u × (u.run ≡ false)) Reset reset_monitored_items _ t
            (Returns-both Reset (λ u. u.run ≡ false) (reset_monitored_items t)
              (reset_monitored_items-Reset t q.0) q.1)
            λ _ u k.
              Returns-weaken _ Reset (stop_client_thread ans.rounds ans.final_deletion u)
                (λ _ w. w.0)
                (stop_client_thread-Follows places (IsReset r) (λ _ _. Move-IsReset r) ans.rounds
                  ans.final_deletion u k)

  pub reset_client-Reset :
      (ans : ResetAnswer) (s : System) → Kept s → Returns Reset (reset_client ans s)
  unfolding reset_client
  reset_client-Reset ans s h =
      Returns-bind Reset Reset (when s.has_manager (reset_manager ans)) _ s
        (Returns-when Reset s.has_manager (reset_manager ans) s (λ off. cc (off, h.1.1))
          (λ _. reset_manager-Reset ans s h))
        (λ _. handle_all-Follows places (IsReset r) (λ _ _. Move-IsReset r) ans.disconnect_events)
