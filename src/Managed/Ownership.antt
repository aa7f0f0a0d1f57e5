-- ===== src/Managed/Ownership.antt =====
-- How often the content of a value is freed (src/ManagedTypes.cc).
use device_access_opc_ua_bac.Prelude.{
  ℕ, Bool, true, false, ◌≡◌, refl, Text, List, [], ◌∷◌, ◌++◌, ◌==◌, if◌then◌else◌, text_eq, ap,
  Bool-cases, inl, inr, ◌∙◌, sym,
}
use mathlib.Core.List.{append_assoc}
use device_access_opc_ua_bac.Managed.{
  Value, ManagedDataValue, block_list, managed, managed_move, assign, prepare, destroy, CopyAnswer,
  copy_variant, copy_value, stamp,
}

-- A value is moved by assignment through the objects of a list, one after the other. Each object is
-- destroyed when its value was moved on, and the last one in the end.
unfoldable pub pass_on : List ManagedDataValue → ManagedDataValue → List ℕ
unfolding assign destroy
pass_on [] m = destroy m
pass_on (r ∷ rs) m =
    let step = assign r m in step.freed ++ (destroy step.left.1 ++ pass_on rs step.left.0)

-- The blocks that the objects held before, in their order.
abbrev pub held : List ManagedDataValue → List ℕ
held [] = []
held (r ∷ rs) = (if r.val.has_value then block_list r.val.block else []) ++ held rs

destroy_kept :
    (v : Value) → v.has_value ≡ true → destroy (record { val = v; clear_data = false }) ≡ []
unfolding destroy
destroy_kept v h = rw (h) refl

destroy_owner :
    (v : Value)
    → v.has_value ≡ true
    → destroy (record { val = v; clear_data = true }) ≡ block_list v.block
unfolding destroy
destroy_owner v h = rw (h) refl

-- What an object frees that took over a value.
assigned_freed :
    (v : Value) (c : Bool)
    → v.has_value ≡ true
    → destroy (record { val = v; clear_data = if v.has_value then true else c })
      ≡ block_list v.block
unfolding destroy
assigned_freed v c h = rw (h) refl

prepare_freed :
    (m : ManagedDataValue)
    → (prepare m).freed ≡ (if m.val.has_value then block_list m.val.block else [])
unfolding prepare
prepare_freed m = elim (Bool-cases m.val.has_value) [ inl e ↦ rw (e) refl | inr e ↦ rw (e) refl ]

pass_on-owner :
    (rs : List ManagedDataValue) (v : Value)
    → v.has_value ≡ true
    → pass_on rs (record { val = v; clear_data = true }) ≡ held rs ++ block_list v.block
unfolding pass_on
pass_on-owner [] v h = destroy_owner v h
pass_on-owner (r ∷ rs) v h =
    let first = (if r.val.has_value then block_list r.val.block else []) in
    let e : (if v.has_value then true else (prepare r).left.clear_data) ≡ true = rw (h) refl in
    ap
      (λ c.
        (prepare r).freed
        ++ (destroy (record { val = v; clear_data = false })
            ++ pass_on rs (record { val = v; clear_data = c })))
      e
    ∙ rw (destroy_kept v h) (
        rw (prepare_freed r) (
          ap (λ ys. first ++ ys) (pass_on-owner rs v h)
          ∙ sym (append_assoc first (held rs) (block_list v.block))))

-- A value that is moved by assignment through one or more objects, of which each is destroyed after
-- it, is freed exactly once, at the end, and each object frees just what it held before.
pub pass_on_lem :
    (r : ManagedDataValue) (rs : List ManagedDataValue) (m : ManagedDataValue)
    → m.val.has_value ≡ true
    → pass_on (r ∷ rs) m ≡ held (r ∷ rs) ++ block_list m.val.block
unfolding pass_on
pass_on_lem r rs m h = pass_on-owner (r ∷ rs) m.val h

-- An object to which a value is assigned after its own value was moved out of it frees that value,
-- which the object that took it over frees again when it is destroyed: both free the same block.
pub assign_reused :
    (slot taker m next : ManagedDataValue)
    → m.val.has_value ≡ true
    → (let pushed = assign slot m in
        let popped = assign taker pushed.left.0 in
        let reused = assign popped.left.1 next in
        (reused.freed ≡ block_list m.val.block) × (destroy popped.left.0 ≡ block_list m.val.block))
unfolding assign
assign_reused slot taker m next h =
    (rw (prepare_freed _) (rw (h) refl), assigned_freed m.val (prepare taker).left.clear_data h)

-- A move constructor leaves the ownership with its argument too: where that owns its value, the two
-- destructors free the same block.
pub managed_move_twice :
    (m : ManagedDataValue)
    → m.val.has_value ≡ true
    → m.clear_data ≡ true
    → (destroy (managed_move m) ≡ block_list m.val.block) × (destroy m ≡ block_list m.val.block)
unfolding managed_move destroy
managed_move_twice m h c = (rw (h) refl, rw (h, c) refl)

-- Without a range copyVariant does not look at the answer of the copying: a new object has a value
-- even where the copying failed. With a range it has one exactly where it succeeded.
pub copy_variant_unchecked :
    (range : Text) (ans : CopyAnswer) (now : ℕ)
    → (copy_variant range ans now managed).left.val.has_value
      ≡ (if text_eq range [] then true else ans.code == 0)
unfolding copy_variant copy_value stamp prepare
copy_variant_unchecked range ans now = elim (Bool-cases (text_eq range [])) [
  | inl none_given ↦ rw (none_given) refl
  | inr given ↦ elim (Bool-cases (ans.code == 0)) [
    | inl good ↦ rw (given, good) refl
    | inr bad ↦ rw (given, bad) refl
  ]
]
