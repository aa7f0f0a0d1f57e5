-- ===== src/Subscription/Pointers/Requests.antt =====
-- Setting up the subscription and its monitored items keeps the pointers good, whatever the server
-- answers and whatever callbacks come between.
use device_access_opc_ua_bac.Prelude.{
  ℕ, Bool, true, false, not, ◌≡◌, refl, Text, codes, ◌++◌, List, [], ◌∷◌, ◌||◌, Option, none, some,
  arith, Bool-cases, inl, inr, All, ◌==◌, ==_iff, ==_refl, ◌∙◌, if_cases, ltb,
}
use device_access_opc_ua_bac.Prelude.Map.{lookup, assign, assign-Rising}
use device_access_opc_ua_bac.Prelude.Deque
use device_access_opc_ua_bac.Prelude.Deque.{lookup-update_cells, update_cells-Placed}
use device_access_opc_ua_bac.System.{System, MonitorItem, put, when}
use device_access_opc_ua_bac.Subscription.{remove_subscription}
use device_access_opc_ua_bac.Subscription.Accessors.{
  KeepsManned, IsManned, lookup-AllManned, first_accessor, first_accessor-IsManned,
  update_cells-AllManned,
}
use device_access_opc_ua_bac.Callbacks.{handle_all}
use device_access_opc_ua_bac.System.Safe.{Safe, Keeps, Safe-bind, Keeps-bind, Keeps-when, Safe-if}
use device_access_opc_ua_bac.Subscription.Monitor.{
  CreateAnswer, CreateResult, created, not_created, take_created, MonitorResult, take_monitored,
  MonitorAnswer, monitored, refused, create_subscription, activated_item, monitored_item,
  request_item, add_item, add_items, add_monitored_items, prepare, activate, resume_items,
  needs_monitoring,
}
use device_access_opc_ua_bac.Subscription.Pointers.{
  Items, PointsAt, Points-Tracks, Tracks, Good, Held, IsGentle, map_items-Good, modify-Good,
  addresses, addresses-update_cells, Unmonitored,
}
use device_access_opc_ua_bac.Subscription.Pointers.Calls.{
  remove_subscription-Held, handle_all-Held, handle_exception-Held,
}

unfoldable pub holds : ℕ → List ℕ → Bool
holds a [] = false
holds a (b ∷ bs) = b == a || holds a bs

pub holds-All :
    (xs ys : List ℕ)
    → ((a : ℕ) → holds a xs ≡ true → holds a ys ≡ true)
    → All (λ a. holds a ys ≡ true) xs
unfolding holds
holds-All [] ys k = tt
holds-All (x ∷ xs) ys k =
    (k x (ground (arith, ==_refl x)), holds-All xs ys (λ a h. k a (ground arith)))

lookup-holds :
    (a : ℕ) (cs : List (ℕ × MonitorItem))
    → holds a (addresses cs) ≡ true
    → (i : MonitorItem) × (lookup a cs ≡ some i)
unfolding holds lookup
lookup-holds a [] h = cc
lookup-holds a ((b, i) ∷ cs) h = elim (Bool-cases (b == a)) [
  | inl e ↦ (i, rw e)
  | inr e ↦ let (j, k) = lookup-holds a cs (ground arith) in (j, rw e k)
]

All-assign {ℓ} :
    {V : Type 0} (P : ℕ × V → Type ℓ) (k : ℕ) (v : V) (m : List (ℕ × V))
    → P (k, v)
    → All P m
    → All P (assign k v m)
unfolding assign
All-assign P k v [] p h = (p, tt)
All-assign P k v ((j, w) ∷ m) p h =
    if_cases (All P) (ltb k j) _ _ (λ _. (p, h))
      (λ _. if_cases (All P) (j == k) _ _ (λ _. (p, h.1)) (λ _. (h.0, All-assign P k v m p h.1)))

monitored-Tracks :
    (a id : ℕ) (d : Items) → Unmonitored a d → Tracks d (Deque.modify d a (monitored_item id))
monitored-Tracks a id d u b i at on = elim (Bool-cases (a == b)) [
  | inl e ↦ cc (u i (rw ((==_iff a b).0 e) at))
  | inr e ↦ (i, rw (lookup-update_cells a b (monitored_item id) d.cells, e, at), refl, on)
]

monitored-Good :
    (live places : List ℕ) (a id : ℕ) (d : Items) (m : List (ℕ × ℕ))
    → holds a places ≡ true
    → Good live places (some a) d m
    → Good live places none (Deque.modify d a (monitored_item id)) (assign id a m)
unfolding monitored_item
monitored-Good live places a id d m h g = record {
  placed = update_cells-Placed d.fresh a (monitored_item id) d.cells g.placed;
  points =
      All-assign (λ e. PointsAt (Deque.modify d a (monitored_item id)) e.0 e.1) id a m here
        (Points-Tracks d (Deque.modify d a (monitored_item id)) m (monitored-Tracks a id d g.focus)
          g.points);
  sorted = assign-Rising 0 id a m (omega arith) g.sorted;
  addressed = addresses-update_cells a (monitored_item id) d.cells ∙ g.addressed;
  focus = tt;
  manned = update_cells-AllManned live a (monitored_item id) d.cells (λ i k. k) g.manned;
}
  where
    here : PointsAt (Deque.modify d a (monitored_item id)) id a
    here =
        let (j, at) = lookup-holds a d.cells (rw g.addressed h) in
        (
          monitored_item id j,
          rw (lookup-update_cells a a (monitored_item id) d.cells, ==_refl a, at),
          refl,
          refl,
        )

module _ (places : List ℕ) where
  abbrev H : System → Type 0
  H = Held places none

  take_created-Held : (r : CreateResult) → Keeps H (take_created r)
  unfolding take_created
  take_created-Held (created id revised) s h = h
  take_created-Held not_created s h = h

  pub create_subscription-Held : (ans : CreateAnswer) → Keeps H (create_subscription ans)
  unfolding create_subscription
  create_subscription-Held ans s h =
      Safe-bind H H (when (not (s.subscription_id == 0)) (remove_subscription ans.deletion)) _ s
        (λ t k. k) (Keeps-when H _ _ (remove_subscription-Held places none ans.deletion) s h)
        (λ _.
          Keeps-bind H (handle_all ans.events) _ (handle_all-Held places none ans.events)
            (λ _. take_created-Held ans.result))

  unfocused : (a : ℕ) (s : System) → Held places (some a) s → H s
  unfocused a s h = (
    record {
      placed = h.0.placed;
      points = h.0.points;
      sorted = h.0.sorted;
      addressed = h.0.addressed;
      focus = tt;
      manned = h.0.manned;
    },
    h.1,
  )

  take_monitored-Held :
      (r : MonitorResult) (a : ℕ) (name : Text) (s : System)
      → holds a places ≡ true
      → Held places (some a) s
      → Safe H (take_monitored r a name s)
  unfolding take_monitored
  take_monitored-Held (monitored id) a name s in_place h =
      (monitored-Good s.live places a id s.items s.subscription_map in_place h.0, h.1)
  take_monitored-Held (refused reason) a name s in_place h =
      handle_exception-Held places none
        (codes "Failed to add monitored item for node: " ++ (name ++ (codes " Error: " ++ reason)))
        s (unfocused a s h)

  request_item-Held :
      (ans : MonitorAnswer) (a : ℕ) (name : Text) (s : System)
      → holds a places ≡ true
      → Held places (some a) s
      → Safe H (request_item ans a name s)
  unfolding request_item
  request_item-Held ans a name s in_place h =
      Safe-bind (Held places (some a)) H (handle_all ans.events) _ s (unfocused a)
        (handle_all-Held places (some a) ans.events s h)
        (λ _ t k. take_monitored-Held ans.result a name t in_place k)

  focused :
      (a : ℕ) (i : MonitorItem) (s : System)
      → Deque.deref s.items a ≡ some i
      → i.is_monitored ≡ false
      → H s
      → Held places (some a) s
  focused a i s at off h = (
    record {
      placed = h.0.placed;
      points = h.0.points;
      sorted = h.0.sorted;
      addressed = h.0.addressed;
      focus = λ j at'. ground (arith, at);
      manned = h.0.manned;
    },
    h.1,
  )

  activated_item-IsGentle : IsGentle activated_item
  unfolding activated_item
  activated_item-IsGentle i = (refl, refl)

  activated_item-KeepsManned : (live : List ℕ) → KeepsManned live activated_item
  unfolding activated_item
  activated_item-KeepsManned live i k = k

  activate_item-Held :
      (live : List ℕ) (o : Option ℕ) (b : Bool) (a : ℕ)
      → Keeps
          (λ t. Held places o t × (t.live ≡ live))
          (when b (put λ s. record s { items = Deque.modify s.items a activated_item }))
  activate_item-Held live o b a =
      Keeps-when (λ t. Held places o t × (t.live ≡ live)) b _
        λ s h. (
          (
            modify-Good s.live places o s.items s.subscription_map a activated_item
                activated_item-IsGentle (activated_item-KeepsManned s.live) h.0.0,
            h.0.1,
          ),
          h.1,
        )

  pub add_item-Held :
      (ans : MonitorAnswer) (a : ℕ) → holds a places ≡ true → Keeps H (add_item ans a)
  unfolding add_item
  add_item-Held ans a in_place s h =
      let (i, at) = lookup-holds a s.items.cells (rw (h.0.addressed) in_place) in
      rw (at, Safe)
        (elim (Bool-cases i.is_monitored) [
          | inl on ↦
              Safe-bind (λ t. H t × (t.live ≡ s.live)) H (when s.async_read_active _) _ s
                (λ t k. k.0) (activate_item-Held s.live none s.async_read_active a s (h, refl))
                (λ _ t k. rw (on, Safe) (k.0))
          | inr off ↦
              Safe-bind (λ t. Held places (some a) t × (t.live ≡ s.live)) H
                (when s.async_read_active _) _ s (λ t k. unfocused a t k.0)
                (activate_item-Held s.live (some a) s.async_read_active a s
                  (focused a i s at off h, refl))
                (λ _ t k.
                  let manned : IsManned t.live i =
                    rw (k.1) (lookup-AllManned s.live a i s.items.cells at h.0.manned) in
                  rw (off, Safe)
                    (Safe-bind (Held places (some a)) H (first_accessor i.accessors) _ t
                      (unfocused a) (rw (first_accessor-IsManned i t manned, Safe) (k.0))
                      (λ _ u q. request_item-Held ans a i.browse_name u in_place q)))
        ])

  add_items-Held :
      (answers : ℕ → MonitorAnswer) (cs : List (ℕ × MonitorItem))
      → All (λ a. holds a places ≡ true) (addresses cs)
      → Keeps H (add_items answers cs)
  unfolding add_items
  add_items-Held answers [] h = λ s k. k
  add_items-Held answers ((a, i) ∷ cs) h =
      Keeps-bind H (add_item (answers a) a) _ (add_item-Held (answers a) a h.0)
        (λ _. add_items-Held answers cs h.1)

  pub add_monitored_items-Held :
      (answers : ℕ → MonitorAnswer) → Keeps H (add_monitored_items answers)
  unfolding add_monitored_items
  add_monitored_items-Held answers s h =
      add_items-Held answers s.items.cells (rw (h.0.addressed) (holds-All places places (λ a k. k)))
        s h

  pub prepare-Held :
      (ans : CreateAnswer) (answers : ℕ → MonitorAnswer) → Keeps H (prepare ans answers)
  unfolding prepare
  prepare-Held ans answers =
      Keeps-bind H (create_subscription ans) _ (create_subscription-Held ans)
        (λ _. add_monitored_items-Held answers)

  activate_all-Held :
      Keeps H (put (λ s. record s { items = Deque.map_items activated_item s.items }))
  activate_all-Held s h = (
    map_items-Good s.live places none s.items s.subscription_map activated_item
        activated_item-IsGentle (activated_item-KeepsManned s.live) h.0,
    h.1,
  )

  resume_items-Held : (answers : ℕ → MonitorAnswer) → Keeps H (resume_items answers)
  unfolding resume_items
  resume_items-Held answers s h =
      Safe-if H (needs_monitoring s) (add_monitored_items answers) _ s
        (λ _. add_monitored_items-Held answers s h) (λ _. activate_all-Held s h)

  pub activate-Held :
      (ans : CreateAnswer) (answers : ℕ → MonitorAnswer) → Keeps H (activate ans answers)
  unfolding activate
  activate-Held ans answers s h =
      Safe-bind H H (when (not s.subscription_active) (create_subscription ans)) _ s (λ t k. k)
        (Keeps-when H _ _ (create_subscription-Held ans) s h)
        (λ _ t k. resume_items-Held answers (record t { async_read_active = true }) k)
