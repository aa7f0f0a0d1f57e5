-- ===== src/NodeIds.antt =====
-- Objects that own a `UA_NodeId`: `MapElement` (src/MapFile.cc) and `OpcUABackendRegisterInfo`
-- (include/RegisterInfo.h). The text of a string node is a block of the heap, which
-- `UA_NodeId_copy` and `UA_NODEID_STRING_ALLOC` take and `UA_NodeId_clear` frees; a numeric node, or one
-- that was cleared, has none. The other members of the objects free their own memory and are left out.
pub mod Balance
pub mod Registers
use device_access_opc_ua_bac.Prelude.{
  ℕ, suc, Bool, true, false, ◌+◌, ◌≡◌, refl, List, [], ◌∷◌, Option, none, some, ◌==◌, if◌then◌else◌,
}

-- The objects by their addresses, each with the block of its node.
abbrev pub Objects : Type 0
Objects = List (ℕ × Option ℕ)

pub record Memory : Type 0 where
  pub next : ℕ
  pub live : List ℕ
  pub objects : Objects

-- `no_object`: the program names an object that is not there, or one that is there already.
pub data Ended : Type 0 where
  going : Memory → Ended
  double_free : Ended
  no_object : Ended

infixl 5 ◌>>=◌
abbrev pub ◌>>=◌ : Ended → (Memory → Ended) → Ended
going m >>= f = f m
double_free >>= f = double_free
no_object >>= f = no_object

-- The first object at an address, and the others.
unfoldable pub pick : ℕ → Objects → Option (Option ℕ × Objects)
pick x [] = none
pick x ((y, h) ∷ os) =
    let rest = pick x os in
    if y == x
    then some (h, os)
    else (elim rest [ none ↦ none | some (g, others) ↦ some (g, (y, h) ∷ others) ])

unfoldable pub drop_block : ℕ → List ℕ → Option (List ℕ)
drop_block b [] = none
drop_block b (c ∷ l) =
    let rest = drop_block b l in
    if c == b then some l else (elim rest [ none ↦ none | some k ↦ some (c ∷ k) ])

-- `UA_NodeId_clear` of a node with this block.
unfoldable pub clear : Option ℕ → Memory → Ended
unfolding drop_block
clear none m = going m
clear (some b) m = elim (drop_block b m.live) [
  | none ↦ double_free
  | some l ↦ going (record m { live = l })
]

-- `UA_NodeId_copy` of such a node, and what is then done with the copy.
unfoldable pub copy : Option ℕ → (Option ℕ → Memory → Ended) → Memory → Ended
copy none k m = k none m
copy (some _) k m = k (some m.next) (record m { next = suc m.next; live = m.next ∷ m.live })

abbrev pub add_object : ℕ → Option ℕ → Memory → Ended
add_object x h m = going (record m { objects = (x, h) ∷ m.objects })

-- The object at `x`, taken out of the others.
unfoldable pub take_object : ℕ → (Option ℕ → Memory → Ended) → Memory → Ended
unfolding pick
take_object x k m = elim (pick x m.objects) [
  | none ↦ no_object
  | some (h, rest) ↦ k h (record m { objects = rest })
]

-- The object at `x`, which stays.
unfoldable pub look_at : ℕ → (Option ℕ → Memory → Ended) → Memory → Ended
unfolding pick
look_at x k m = elim (pick x m.objects) [ none ↦ no_object | some (h, _) ↦ k h m ]

-- `MapElement`, with its constructors, its destructor and its assignments.
pub data Action : Type 0 where
  construct_numeric : ℕ → Action
  construct_string : ℕ → Action
  copy_construct : ℕ → ℕ → Action
  copy_assign : ℕ → ℕ → Action
  move_construct : ℕ → ℕ → Action
  move_assign : ℕ → ℕ → Action
  destroy : ℕ → Action

-- The object at `x` gets a copy of the node with block `g`, once its own is cleared.
unfoldable pub assign_copy : ℕ → Option ℕ → Option ℕ → Memory → Ended
unfolding clear copy
assign_copy x h g m = clear h m >>= copy g (add_object x)

-- The object at `x` gets the node of the one at `y`, which has none then.
unfoldable pub assign_moved : ℕ → ℕ → Option ℕ → Option ℕ → Memory → Ended
unfolding clear
assign_moved x y h g m = (clear h m >>= add_object y none) >>= add_object x g

unfoldable pub act : Action → Memory → Ended
unfolding take_object look_at copy clear assign_copy assign_moved
act (construct_numeric x) = add_object x none
act (construct_string x) = copy (some 0) (add_object x)
act (copy_construct x y) = look_at y λ g. copy g (add_object x)
act (copy_assign x y) =
    if x == y then going else take_object x λ h. look_at y λ g. assign_copy x h g
act (move_construct x y) = take_object y λ g m. add_object y none m >>= add_object x g
act (move_assign x y) =
    if x == y then going else take_object x λ h. take_object y λ g. assign_moved x y h g
act (destroy x) = take_object x clear

unfoldable pub run : List Action → Memory → Ended
unfolding act
run [] m = going m
run (a ∷ later) m = act a m >>= run later

abbrev pub no_memory : Memory
no_memory = record { next = 0; live = []; objects = [] }
