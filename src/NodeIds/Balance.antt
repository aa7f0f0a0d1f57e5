-- ===== src/NodeIds/Balance.antt =====
-- Every block of a `MapElement` (src/MapFile.cc) is freed once.
use device_access_opc_ua_bac.Prelude.{
  ℕ, suc, Bool, true, false, ◌+◌, ◌≡◌, refl, List, [], ◌∷◌, Option, none, some, arith, Option-cases,
  inl, inr, ◌==◌, if◌then◌else◌,
}
use device_access_opc_ua_bac.NodeIds.{
  Objects, Memory, Ended, going, double_free, no_object, ◌>>=◌, pick, drop_block, clear, copy,
  add_object, take_object, look_at, Action, construct_numeric, construct_string, copy_construct,
  copy_assign, move_construct, move_assign, destroy, assign_copy, assign_moved, act, run, no_memory,
}

-- How often a block stands in a list, in an object, and in all objects.
abbrev pub count : ℕ → List ℕ → ℕ
count b [] = 0
count b (c ∷ l) = (if c == b then 1 else 0) + count b l

abbrev pub held : ℕ → Option ℕ → ℕ
held b none = 0
held b (some c) = if c == b then 1 else 0

abbrev pub owned : ℕ → Objects → ℕ
owned b [] = 0
owned b ((_, h) ∷ os) = held b h + owned b os

pub owned-pick :
    (b x : ℕ) (os : Objects) (h : Option ℕ) (rest : Objects)
    → pick x os ≡ some (h, rest)
    → owned b os ≡ held b h + owned b rest
unfolding pick
owned-pick b x [] h rest e = cc
owned-pick b x ((y, g) ∷ os) h rest e = elim (Option-cases (pick x os)) [
  | inl missing ↦ ground (arith, missing)
  | inr ((i, others), found) ↦ ground (arith, found, owned-pick b x os i others found)
]

count-drop_block :
    (b c : ℕ) (l k : List ℕ)
    → drop_block c l ≡ some k
    → count b l ≡ (if c == b then 1 else 0) + count b k
unfolding drop_block
count-drop_block b c [] k e = cc
count-drop_block b c (d ∷ l) k e = elim (Option-cases (drop_block c l)) [
  | inl missing ↦ ground (arith, missing)
  | inr (j, found) ↦ ground (arith, found, count-drop_block b c l j found)
]

drop_block-none : (c : ℕ) (l : List ℕ) → drop_block c l ≡ none → count c l ≡ 0
unfolding drop_block
drop_block-none c [] e = refl
drop_block-none c (d ∷ l) e = ground (arith, drop_block-none c l)

-- Every live block is owned by one object, or is one of those that `f` counts.
abbrev pub Balanced : (ℕ → ℕ) → Memory → Type 0
Balanced f m = (b : ℕ) → count b m.live ≡ f b + owned b m.objects

-- No block was freed twice, and what is left satisfies `P`.
abbrev pub Ends : (Memory → Type 0) → Ended → Type 0
Ends P (going m) = P m
Ends P double_free = ⊥
Ends P no_object = Unit {0}

abbrev with_block : Option ℕ → (ℕ → ℕ) → ℕ → ℕ
with_block h f b = held b h + f b

Ends-bind :
    (Q P : Memory → Type 0) (e : Ended) (k : Memory → Ended)
    → Ends Q e
    → ((m : Memory) → Q m → Ends P (k m))
    → Ends P (e >>= k)
Ends-bind Q P (going m) k h j = j m h
Ends-bind Q P double_free k h j = h
Ends-bind Q P no_object k h j = tt

clear-Balanced :
    (f : ℕ → ℕ) (h : Option ℕ) (m : Memory)
    → Balanced (with_block h f) m
    → Ends (Balanced f) (clear h m)
unfolding clear
clear-Balanced f none m k = λ b. omega (arith, k b)
clear-Balanced f (some c) m k = elim (Option-cases (drop_block c m.live)) [
  | inl e ↦ absurd (ground (arith, drop_block-none c m.live e, k c))
  | inr (l, e) ↦ rw (e, Ends) (λ b. ground (arith, count-drop_block b c m.live l e, k b))
]

copy-Balanced :
    (P : Memory → Type 0) (f : ℕ → ℕ) (g : Option ℕ) (k : Option ℕ → Memory → Ended) (m : Memory)
    → Balanced f m
    → ((h : Option ℕ) (n : Memory) → Balanced (with_block h f) n → Ends P (k h n))
    → Ends P (copy g k m)
unfolding copy
copy-Balanced P f none k m h j = j none m (λ b. omega (arith, h b))
copy-Balanced P f (some c) k m h j =
    j (some m.next) (record m { next = suc m.next; live = m.next ∷ m.live })
      (λ b. ground (arith, h b))

add_object-Balanced :
    (f : ℕ → ℕ) (x : ℕ) (h : Option ℕ) (m : Memory)
    → Balanced (with_block h f) m
    → Ends (Balanced f) (add_object x h m)
add_object-Balanced f x h m k = λ b. omega (arith, k b)

take_object-Balanced :
    (P : Memory → Type 0) (f : ℕ → ℕ) (x : ℕ) (k : Option ℕ → Memory → Ended) (m : Memory)
    → Balanced f m
    → ((h : Option ℕ) (n : Memory) → Balanced (with_block h f) n → Ends P (k h n))
    → Ends P (take_object x k m)
unfolding take_object
take_object-Balanced P f x k m h j = elim (Option-cases (pick x m.objects)) [
  | inl e ↦ rw (e, Ends) tt
  | inr ((g, rest), e) ↦
      rw (e, Ends)
        (j g (record m { objects = rest })
          (λ b. omega (arith, h b, owned-pick b x m.objects g rest e)))
]

look_at-Ends :
    (P : Memory → Type 0) (x : ℕ) (k : Option ℕ → Memory → Ended) (m : Memory)
    → ((g : Option ℕ) → Ends P (k g m))
    → Ends P (look_at x k m)
unfolding look_at
look_at-Ends P x k m j = elim (Option-cases (pick x m.objects)) [
  | inl e ↦ rw (e, Ends) tt
  | inr ((g, rest), e) ↦ rw (e, Ends) (j g)
]

Ends-if :
    (P : Memory → Type 0) (b : Bool) (j k : Memory → Ended) (m : Memory)
    → Ends P (j m)
    → Ends P (k m)
    → Ends P ((if b then j else k) m)
Ends-if P true j k m h i = h
Ends-if P false j k m h i = i

-- All blocks are those of the objects.
abbrev pub AllOwned : Memory → Type 0
AllOwned = Balanced (λ b. 0)

unlabelled : (f : ℕ → ℕ) (m : Memory) → Balanced (with_block none f) m → Balanced f m
unlabelled f m h = λ b. omega (arith, h b)

swapped :
    (f : ℕ → ℕ) (g h : Option ℕ) (m : Memory)
    → Balanced (with_block g (with_block h f)) m
    → Balanced (with_block h (with_block g f)) m
swapped f g h m k = λ b. omega (arith, k b)

assign_copy-AllOwned :
    (x : ℕ) (h g : Option ℕ) (m : Memory)
    → Balanced (with_block h (λ b. 0)) m
    → Ends AllOwned (assign_copy x h g m)
unfolding assign_copy
assign_copy-AllOwned x h g m k =
    Ends-bind AllOwned AllOwned (clear h m) (copy g (add_object x)) (clear-Balanced (λ b. 0) h m k)
      (λ n j.
        copy-Balanced AllOwned (λ b. 0) g (add_object x) n j
          (λ i o q. add_object-Balanced (λ b. 0) x i o q))

assign_moved-AllOwned :
    (x y : ℕ) (h g : Option ℕ) (m : Memory)
    → Balanced (with_block g (with_block h (λ b. 0))) m
    → Ends AllOwned (assign_moved x y h g m)
unfolding assign_moved
assign_moved-AllOwned x y h g m k =
    let moved : ℕ → ℕ = with_block g (λ b. 0) in
    Ends-bind (Balanced moved) AllOwned (clear h m >>= add_object y none) (add_object x g)
      (Ends-bind (Balanced moved) (Balanced moved) (clear h m) (add_object y none)
        (clear-Balanced moved h m (swapped (λ b. 0) g h m k))
        (λ n j. add_object-Balanced moved y none n (λ b. omega (arith, j b))))
      (λ n j. add_object-Balanced (λ b. 0) x g n j)

act-AllOwned : (a : Action) (m : Memory) → AllOwned m → Ends AllOwned (act a m)
unfolding act
act-AllOwned (construct_numeric x) m h =
    add_object-Balanced (λ b. 0) x none m (λ b. omega (arith, h b))
act-AllOwned (construct_string x) m h =
    copy-Balanced AllOwned (λ b. 0) (some 0) (add_object x) m h
      (λ i o q. add_object-Balanced (λ b. 0) x i o q)
act-AllOwned (copy_construct x y) m h =
    look_at-Ends AllOwned y (λ g. copy g (add_object x)) m
      (λ g.
        copy-Balanced AllOwned (λ b. 0) g (add_object x) m h
          (λ i o q. add_object-Balanced (λ b. 0) x i o q))
act-AllOwned (copy_assign x y) m h = Ends-if AllOwned (x == y) going _ m h (
    take_object-Balanced AllOwned (λ b. 0) x _ m h
      (λ i n j.
        look_at-Ends AllOwned y (λ g. assign_copy x i g) n (λ g. assign_copy-AllOwned x i g n j)))
act-AllOwned (move_construct x y) m h =
    take_object-Balanced AllOwned (λ b. 0) y (λ g n. add_object y none n >>= add_object x g) m h
      (λ g n j.
        Ends-bind (Balanced (with_block g (λ b. 0))) AllOwned (add_object y none n) (add_object x g)
          (add_object-Balanced (with_block g (λ b. 0)) y none n (λ b. omega (arith, j b)))
          (λ o q. add_object-Balanced (λ b. 0) x g o q))
act-AllOwned (move_assign x y) m h = Ends-if AllOwned (x == y) going _ m h (
    take_object-Balanced AllOwned (λ b. 0) x _ m h
      (λ i n j.
        take_object-Balanced AllOwned (with_block i (λ b. 0)) y _ n j
          (λ g o q. assign_moved-AllOwned x y i g o q)))
act-AllOwned (destroy x) m h =
    take_object-Balanced AllOwned (λ b. 0) x clear m h (λ i n j. clear-Balanced (λ b. 0) i n j)

run-AllOwned : (actions : List Action) (m : Memory) → AllOwned m → Ends AllOwned (run actions m)
unfolding run
run-AllOwned [] m h = h
run-AllOwned (a ∷ later) m h =
    Ends-bind AllOwned AllOwned (act a m) (run later) (act-AllOwned a m h) (run-AllOwned later)

-- Whatever a program does with map elements (constructing, copying, moving, assigning, also to
-- themselves, and destroying them, in any order) no block is freed twice, and every block that was taken
-- and not freed is that of one object, so that none is left when the last object is gone.
pub run-owned : (actions : List Action) → Ends AllOwned (run actions no_memory)
run-owned actions = run-AllOwned actions no_memory (λ b. refl)
