-- ===== src/Subscription/Board/Cells.antt =====
-- A response, passed on through subscriptionMap and its pointer, is one pass over the items.
use device_access_opc_ua_bac.Prelude.{
  ℕ, true, false, ◌≡◌, ◌≢◌, refl, List, [], ◌∷◌, map, none, some, arith, Bool-cases, inl, inr, ◌==◌,
  ==_iff, ==_refl, ◌∙◌,
}
use mathlib.Core.List.{append-nil}
use device_access_opc_ua_bac.Prelude.Map.{lookup}
use device_access_opc_ua_bac.Prelude.Deque.{Absent, Placed, update_cells}
use device_access_opc_ua_bac.System.{MonitorItem, value, DataValue}
use device_access_opc_ua_bac.Subscription.{received, push_to}
use device_access_opc_ua_bac.Subscription.Board.{
  entry_at, entries_of, is_at, is_addressed, accept, deliveries,
}

entry_elsewhere :
    (id a b : ℕ) (i : MonitorItem) (m : List (ℕ × ℕ))
    → a ≢ b
    → lookup id m ≡ some b
    → is_addressed id (entry_at m a i) ≡ false
unfolding is_at is_addressed
entry_elsewhere id a b i m h e = elim (Bool-cases (i.id == id)) [
  | inl same ↦ rw ((==_iff i.id id).0 same, e) (ground arith)
  | inr other ↦ ground arith
]

entry_unknown :
    (id a : ℕ) (i : MonitorItem) (m : List (ℕ × ℕ))
    → lookup id m ≡ none
    → is_addressed id (entry_at m a i) ≡ false
unfolding is_at is_addressed
entry_unknown id a i m e = elim (Bool-cases (i.id == id)) [
  | inl same ↦ rw ((==_iff i.id id).0 same, e) refl
  | inr other ↦ ground arith
]

entry_here :
    (id a : ℕ) (i : MonitorItem) (m : List (ℕ × ℕ))
    → i.id ≡ id
    → lookup id m ≡ some a
    → is_addressed id (entry_at m a i) ≡ i.active
unfolding is_at is_addressed
entry_here id a i m same e = rw (same, e) (ground arith)

-- Nothing of the list is addressed.
abbrev pub IsPassed : ℕ → List (ℕ × ℕ) → List (ℕ × MonitorItem) → Type 0
IsPassed id m cs =
    (map (accept id) (entries_of m cs) ≡ entries_of m cs)
    × ((v : DataValue) → deliveries id v (entries_of m cs) ≡ [])

IsPassed-cons :
    (id a : ℕ) (i : MonitorItem) (m : List (ℕ × ℕ)) (cs : List (ℕ × MonitorItem))
    → is_addressed id (entry_at m a i) ≡ false
    → IsPassed id m cs
    → IsPassed id m ((a, i) ∷ cs)
unfolding entries_of accept deliveries
IsPassed-cons id a i m cs off h = (rw (off, h.0) refl, λ v. rw (off, h.1 v) refl)

pub elsewhere-IsPassed :
    (id b : ℕ) (m : List (ℕ × ℕ)) (cs : List (ℕ × MonitorItem))
    → lookup id m ≡ some b
    → Absent b cs
    → IsPassed id m cs
unfolding entries_of deliveries
elsewhere-IsPassed id b m [] e h = (refl, λ v. refl)
elsewhere-IsPassed id b m ((a, i) ∷ cs) e h =
    IsPassed-cons id a i m cs (entry_elsewhere id a b i m h.0 e)
      (elsewhere-IsPassed id b m cs e h.1)

pub unknown-IsPassed :
    (id : ℕ) (m : List (ℕ × ℕ)) (cs : List (ℕ × MonitorItem))
    → lookup id m ≡ none
    → IsPassed id m cs
unfolding entries_of deliveries
unknown-IsPassed id m [] e = (refl, λ v. refl)
unknown-IsPassed id m ((a, i) ∷ cs) e =
    IsPassed-cons id a i m cs (entry_unknown id a i m e) (unknown-IsPassed id m cs e)

pub update_cells-Absent :
    (a : ℕ) (f : MonitorItem → MonitorItem) (cs : List (ℕ × MonitorItem))
    → Absent a cs
    → update_cells a f cs ≡ cs
unfolding update_cells
update_cells-Absent a f [] h = refl
update_cells-Absent a f ((b, i) ∷ cs) h = ground (arith, update_cells-Absent a f cs h.1)

module _ (id a : ℕ) (m : List (ℕ × ℕ)) (i : MonitorItem) (e : lookup id m ≡ some a)
    (same : i.id ≡ id) where
  -- An inactive item gets nothing.
  pub inactive-IsPassed :
      (n : ℕ) (cs : List (ℕ × MonitorItem))
      → Placed n cs
      → lookup a cs ≡ some i
      → i.active ≡ false
      → IsPassed id m cs
  unfolding lookup
  inactive-IsPassed n [] p at off = cc
  inactive-IsPassed n ((b, j) ∷ cs) p at off = elim (Bool-cases (b == a)) [
    | inl here ↦
        let found : j ≡ i = ground arith in
        IsPassed-cons id b j m cs
          (rw (found, (==_iff b a).0 here) (entry_here id a i m same e ∙ off))
          (elsewhere-IsPassed id a m cs e (rw (← (==_iff b a).0 here) p.1))
    | inr other ↦
        IsPassed-cons id b j m cs (entry_elsewhere id b a j m (ground arith) e)
          (inactive-IsPassed n cs p.2 (ground arith) off)
  ]

  -- What the response does to the cells, and what it pushes.
  abbrev pub IsTaken : List (ℕ × MonitorItem) → Type 0
  IsTaken cs =
      (map (accept id) (entries_of m cs) ≡ entries_of m (update_cells a received cs))
      × ((v : DataValue) → deliveries id v (entries_of m cs) ≡ push_to (value v) i.accessors)

  IsTaken-here :
      (cs : List (ℕ × MonitorItem))
      → i.active ≡ true
      → IsPassed id m cs
      → Absent a cs
      → IsTaken ((a, i) ∷ cs)
  unfolding entries_of accept deliveries update_cells received
  IsTaken-here cs on h off =
      let now : is_addressed id (entry_at m a i) ≡ true = entry_here id a i m same e ∙ on in
      (
        rw (now, h.0, update_cells-Absent a received cs off, ==_refl a) refl,
        λ v. rw (now, h.1 v) (append-nil _),
      )

  IsTaken-after :
      (b : ℕ) (j : MonitorItem) (cs : List (ℕ × MonitorItem))
      → b == a ≡ false
      → IsTaken cs
      → IsTaken ((b, j) ∷ cs)
  unfolding entries_of accept deliveries update_cells
  IsTaken-after b j cs other h =
      let off : is_addressed id (entry_at m b j) ≡ false =
        entry_elsewhere id b a j m (ground arith) e in
      (rw (off, h.0, other) refl, λ v. rw (off, h.1 v) refl)

  pub active-IsTaken :
      (n : ℕ) (cs : List (ℕ × MonitorItem))
      → Placed n cs
      → lookup a cs ≡ some i
      → i.active ≡ true
      → IsTaken cs
  unfolding lookup
  active-IsTaken n [] p at on = cc
  active-IsTaken n ((b, j) ∷ cs) p at on = elim (Bool-cases (b == a)) [
    | inl here ↦
        let found : j ≡ i = ground arith in
        let absent : Absent a cs = rw (← (==_iff b a).0 here) p.1 in
        rw (found, (==_iff b a).0 here)
          (IsTaken-here cs on (elsewhere-IsPassed id a m cs e absent) absent)
    | inr other ↦ IsTaken-after b j cs other (active-IsTaken n cs p.2 (ground arith) on)
  ]
