-- ===== src/Subscription/Board/Sweep.antt =====
-- `deactivate` of src/SubscriptionManager.cc goes through the pointers of subscriptionMap: that is a
-- pass over the items that stops the mapped ones.
use device_access_opc_ua_bac.Prelude.{
  ℕ, suc, true, false, ◌≡◌, refl, sym, ap, List, [], ◌∷◌, map, none, some, arith, Bool-cases,
  Option-cases, inl, inr, ◌⊎◌, ◌≤◌, ◌==◌, ==_iff, ==_refl, ◌∙◌, All,
}
use device_access_opc_ua_bac.Prelude.Map.{lookup, Rising}
use device_access_opc_ua_bac.Prelude.Deque
use device_access_opc_ua_bac.Prelude.Deque.Writes.{among, write_all, write_all_nil, write_all-cell}
use device_access_opc_ua_bac.System.{System, MonitorItem, ok}
use device_access_opc_ua_bac.Subscription.{inactive, deactivate_mapped}
use device_access_opc_ua_bac.Subscription.Pointers.{Items, Points, Points-Tracks, modify-Tracks}
use device_access_opc_ua_bac.Subscription.Pointers.Calls.{inactive-IsGentle}
use device_access_opc_ua_bac.Subscription.Board.{entries_of, is_at, silence}

abbrev pub targets : List (ℕ × ℕ) → List ℕ
targets = map λ e. e.1

abbrev pub sweep : List (ℕ × ℕ) → List (ℕ × MonitorItem) → List (ℕ × MonitorItem)
sweep m = write_all (λ _. inactive) (targets m)

pub deactivate_mapped-sweep :
    (l : List (ℕ × ℕ)) (s : System)
    → Points s.items l
    → deactivate_mapped l s
      ≡ ok tt (record s { items = record s.items { cells = sweep l s.items.cells } })
unfolding deactivate_mapped write_all
deactivate_mapped-sweep [] s p = refl
deactivate_mapped-sweep ((id, a) ∷ l) s p = rw (p.0.1) (
    deactivate_mapped-sweep l (record s { items = Deque.modify s.items a inactive })
      (Points-Tracks s.items (Deque.modify s.items a inactive) l
        (modify-Tracks a inactive s.items (inactive-IsGentle [] none)) p.1))

-- With rising keys every entry is the one that a lookup finds.
lookup-Rising :
    (n b : ℕ) (l : List (ℕ × ℕ)) (d : Items) (j : MonitorItem)
    → Rising n l
    → Points d l
    → Deque.deref d b ≡ some j
    → among b (targets l) ≡ true
    → (lookup j.id l ≡ some b) × (n ≤ j.id)
unfolding among lookup
lookup-Rising n b [] d j r p at h = cc
lookup-Rising n b ((k, a) ∷ l) d j r p at h = elim (Bool-cases (b == a)) [
  | inl e ↦
      let (i, at', named, _) = p.0 in
      let at_a : Deque.deref d a ≡ some j = rw (← (==_iff b a).0 e) at in
      let found : i ≡ j = ground arith in
      let id : j.id ≡ k = sym (ap (λ x. x.id) found) ∙ named in
      (rw (id, ==_refl k, (==_iff b a).0 e) refl, rw id (r.0))
  | inr e ↦
      let (found, above) = lookup-Rising (suc k) b l d j r.1 p.1 at (ground arith) in ground arith
]

among-lookup : (b k : ℕ) (l : List (ℕ × ℕ)) → lookup k l ≡ some b → among b (targets l) ≡ true
unfolding among lookup
among-lookup b k [] e = cc
among-lookup b k ((j, a) ∷ l) e = ground (arith, among-lookup b k l)

module _ (m : List (ℕ × ℕ)) (d : Items) (r : Rising 0 m) (p : Points d m) where
  -- An item is written to when it is mapped.
  among-is_at :
      (b : ℕ) (j : MonitorItem)
      → Deque.deref d b ≡ some j
      → among b (targets m) ≡ is_at b (lookup j.id m)
  unfolding is_at
  among-is_at b j at = elim (Bool-cases (among b (targets m))) [
    | inl on ↦ rw (on, (lookup-Rising 0 b m d j r p at on).0, ==_refl b) refl
    | inr off ↦ go (Option-cases (lookup j.id m)) off
  ]
    where
      go :
          (lookup j.id m ≡ none) ⊎ ((c : ℕ) × (lookup j.id m ≡ some c))
          → among b (targets m) ≡ false
          → among b (targets m) ≡ is_at b (lookup j.id m)
      go (inl e) off = rw (e, off) refl
      go (inr (c, e)) off = elim (Bool-cases (c == b)) [
        | inl same ↦ cc (among-lookup b j.id m (rw (e, (==_iff c b).0 same) refl))
        | inr other ↦ rw (off, e, other) refl
      ]

  -- The cells stand in the deque.
  abbrev StandIn : List (ℕ × MonitorItem) → Type 0
  StandIn = All (λ c. Deque.deref d c.0 ≡ some c.1)

  pub entries-sweep :
      (cs : List (ℕ × MonitorItem))
      → StandIn cs
      → entries_of m (sweep m cs) ≡ map silence (entries_of m cs)
  unfolding entries_of silence is_at inactive
  entries-sweep [] h = rw (write_all_nil (λ _. inactive) (targets m)) refl
  entries-sweep ((b, j) ∷ cs) h =
      rw
        (
          write_all-cell (λ _. inactive) (λ _ _. refl) (targets m) b j cs,
          among-is_at b j h.0,
          entries-sweep cs h.1,
        )
        (elim (Bool-cases (is_at b (lookup j.id m))) [
          | inl e ↦ rw e (rw e refl)
          | inr e ↦ rw e (rw e refl)
        ])
