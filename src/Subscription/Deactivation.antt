-- ===== src/Subscription/Deactivation.antt =====
-- After `deactivate` the manager is at rest: src/SubscriptionManager.cc.
use device_access_opc_ua_bac.Prelude.{
  ◌&&◌, ℕ, false, ◌≡◌, refl, List, [], ◌∷◌, Option, some, arith, Bool-cases, Option-cases, inl, inr,
  All, All-map, ◌==◌, ==_refl,
}
use device_access_opc_ua_bac.Prelude.Map.{lookup}
use device_access_opc_ua_bac.Prelude.Deque
use device_access_opc_ua_bac.Prelude.Deque.{lookup-update_cells, update_cells}
use device_access_opc_ua_bac.System.{System, MonitorItem, DataValue, ok, when}
use device_access_opc_ua_bac.System.Returns.{
  Returns, Returns-bind, Returns-when, Returns-if, Returns-weaken,
}
use device_access_opc_ua_bac.Subscription.{
  subscription_ends-set_inactive, DeleteAnswer, deleted_with_callback, deleted_silently,
  subscription_ends, set_inactive, delete_single, unmonitored, reset_monitored_items,
  remove_subscription, inactive, deactivate_mapped, has_thread, drop_subscription, deactivate,
  response_handler,
}
use device_access_opc_ua_bac.Subscription.Pointers.{
  Items, Points, Points-Tracks, modify-Tracks, Held, modify-Good, reset-Good,
}
use device_access_opc_ua_bac.Subscription.Pointers.Calls.{inactive-IsGentle}

-- The entry leads to an item that is not active.
abbrev pub IsQuietAt : Items → ℕ × ℕ → Type 0
IsQuietAt d e = (i : MonitorItem) × (Deque.deref d e.1 ≡ some i) × (i.active ≡ false)

abbrev pub IsQuiet : System → Type 0
IsQuiet s = All (IsQuietAt s.items) s.subscription_map

modify-IsQuietAt :
    (d : Items) (a : ℕ) (e : ℕ × ℕ) → IsQuietAt d e → IsQuietAt (Deque.modify d a inactive) e
unfolding inactive
modify-IsQuietAt d a e (i, at, off) = elim (Bool-cases (a == e.1)) [
  | inl same ↦ (inactive i, rw (lookup-update_cells a e.1 inactive d.cells, same, at), refl)
  | inr apart ↦ (i, rw (lookup-update_cells a e.1 inactive d.cells, apart, at), off)
]

module _ (places : List ℕ) (o : Option ℕ) where
  abbrev H : System → Type 0
  H = Held places o

  -- Good pointers, of which all but those of `m` are known to lead to inactive items.
  record Sweep (quiet left : List (ℕ × ℕ)) (s : System) : Type 0 where
    held : H s
    swept : All (IsQuietAt s.items) quiet
    points : Points s.items left

  sweep :
      (id a : ℕ) (m quiet : List (ℕ × ℕ)) (s : System)
      → Sweep quiet ((id, a) ∷ m) s
      → Sweep ((id, a) ∷ quiet) m (record s { items = Deque.modify s.items a inactive })
  unfolding inactive
  sweep id a m quiet s h =
      let (i, at, _, _) = h.points.0 in
      record {
        held = (
          modify-Good s.live places o s.items s.subscription_map a inactive
              (inactive-IsGentle places o) (λ i k. k) h.held.0,
          h.held.1,
        );
        swept = (
          (inactive i, rw (lookup-update_cells a a inactive s.items.cells, ==_refl a, at), refl),
          All-map _ _ (λ e. modify-IsQuietAt s.items a e) quiet h.swept,
        );
        points =
            Points-Tracks s.items (Deque.modify s.items a inactive) m
              (modify-Tracks a inactive s.items (inactive-IsGentle places o)) h.points.1;
      }

  -- What holds once all are swept.
  abbrev Swept : List (ℕ × ℕ) → List (ℕ × ℕ) → List (ℕ × ℕ) → System → Type 0
  Swept quiet m left t =
      (H t × All (IsQuietAt t.items) quiet)
      × (All (IsQuietAt t.items) m × (t.subscription_map ≡ left))

  deactivate_mapped-Returns :
      (m quiet : List (ℕ × ℕ)) (s : System)
      → Sweep quiet m s
      → Returns (Swept quiet m s.subscription_map) (deactivate_mapped m s)
  unfolding deactivate_mapped
  deactivate_mapped-Returns [] quiet s h = ((h.held, h.swept), (tt, refl))
  deactivate_mapped-Returns ((id, a) ∷ m) quiet s h =
      let (i, at, _, _) = h.points.0 in
      rw (at, Returns)
        (Returns-weaken (Swept ((id, a) ∷ quiet) m s.subscription_map)
          (Swept quiet ((id, a) ∷ m) s.subscription_map) (deactivate_mapped m _)
          (λ t q. ((q.0.0, q.0.1.1), ((q.0.1.0, q.1.0), q.1.1)))
          (deactivate_mapped-Returns m ((id, a) ∷ quiet)
            (record s { items = Deque.modify s.items a inactive }) (sweep id a m quiet s h)))

  abbrev Quiet : System → Type 0
  Quiet t = (H t × IsQuiet t) × (t.run ≡ false)

  -- At rest: no data is passed on, no thread goes on, and no subscription is active.
  abbrev pub AtRest : System → Type 0
  AtRest t = Quiet t × (t.subscription_active ≡ false)

  delete_single-AtRest :
      (d : DeleteAnswer) (s : System) → AtRest s → Returns AtRest (delete_single d s)
  unfolding delete_single subscription_ends set_inactive
  delete_single-AtRest deleted_silently s h = h
  delete_single-AtRest deleted_with_callback s h =
      rw (subscription_ends-set_inactive s, Returns)
        (Returns-when AtRest (s.has_manager && s.registered) set_inactive s (λ _. h)
          (λ _. (h.0, refl)))

  remove_subscription-AtRest :
      (d : DeleteAnswer) (s : System) → AtRest s → Returns AtRest (remove_subscription d s)
  unfolding remove_subscription reset_monitored_items
  remove_subscription-AtRest d s h =
      Returns-bind AtRest AtRest (delete_single d) _ s (delete_single-AtRest d s h) λ _ t q. (
        (
          (
            (
              reset-Good t.live places o t.items t.subscription_map unmonitored (λ i e. refl)
                  (λ i k. k) (q.0.0.0.0),
              q.0.0.0.1,
            ),
            tt,
          ),
          q.0.1,
        ),
        q.1,
      )

  drop_subscription-AtRest :
      (d : DeleteAnswer) (s : System) → Quiet s → Returns AtRest (drop_subscription d s)
  unfolding drop_subscription
  drop_subscription-AtRest d s h =
      let t : System = record s { subscription_active = false } in
      Returns-if AtRest (has_thread s.thread) _ (remove_subscription d) t (λ _. (h, refl))
        (λ _. remove_subscription-AtRest d t (h, refl))

  -- `deactivate` returns, and leaves the manager at rest with good pointers.
  pub deactivate-AtRest :
      (d : DeleteAnswer) (s : System)
      → H s
      → Returns (λ t. AtRest t × (t.async_read_active ≡ false)) (deactivate d s)
  unfolding deactivate
  deactivate-AtRest d s h =
      Returns-bind (Swept [] s.subscription_map s.subscription_map) _
        (deactivate_mapped s.subscription_map) _ s
        (deactivate_mapped-Returns s.subscription_map [] s
          (record { held = h; swept = tt; points = h.0.points }))
        λ _ t q.
          let u : System = record t { run = false } in
          let quiet : Quiet u = (((q.0.0.0, ((λ e. cc), q.0.0.1.1)), rw (q.1.1) q.1.0), refl) in
          Returns-bind AtRest _ (when t.subscription_active (drop_subscription d)) _ u
            (Returns-when AtRest t.subscription_active (drop_subscription d) u (λ off. (quiet, off))
              (λ _. drop_subscription-AtRest d u quiet))
            (λ _ v k. (k, refl))

quiet_entry :
    (id a : ℕ) (d : Items) (m : List (ℕ × ℕ))
    → All (IsQuietAt d) m
    → lookup id m ≡ some a
    → (i : MonitorItem) × (Deque.deref d a ≡ some i) × (i.active ≡ false)
unfolding lookup
quiet_entry id a d [] q e = cc
quiet_entry id a d ((j, b) ∷ m) q e = elim (Bool-cases (j == id)) [
  | inl same ↦ let (i, at, off) = q.0 in let here : b ≡ a = ground arith in (i, rw (← here) at, off)
  | inr apart ↦ quiet_entry id a d m q.1 (ground arith)
]

-- A response for an item that is not active changes nothing.
pub response-IsQuiet :
    (id : ℕ) (v : DataValue) (s : System) → IsQuiet s → response_handler id v s ≡ ok tt s
unfolding response_handler
response-IsQuiet id v s q = elim (Option-cases (lookup id s.subscription_map)) [
  | inl e ↦ ground (arith, e)
  | inr (a, e) ↦
      let (i, at, off) = quiet_entry id a s.items s.subscription_map q e in
      ground (arith, e, at, off)
]
