-- ===== src/Tests/Nodes.antt =====
-- The nodes that objects own, at concrete objects.
use device_access_opc_ua_bac.Prelude.{◌+◌, ◌≡◌, refl, List, [], ◌∷◌, some, arith}
use device_access_opc_ua_bac.NodeIds.{
  Memory, pick, construct_string, copy_assign, move_construct, destroy, run, no_memory, Action,
}
use device_access_opc_ua_bac.NodeIds.Balance.{AllOwned, Ends, count, owned, run-owned}
use device_access_opc_ua_bac.NodeIds.Registers.{assign_register, assign_register_leaks}

abbrev actions : List Action
actions =
    construct_string 1
    ∷ construct_string 2
    ∷ copy_assign 1 2
    ∷ move_construct 3 1
    ∷ destroy 1
    ∷ destroy 3
    ∷ []

run-owned_example : Ends AllOwned (run actions no_memory)
run-owned_example = run-owned actions

abbrev two_registers : Memory
two_registers = record { next = 2; live = 1 ∷ 0 ∷ []; objects = (10, some 0) ∷ (11, some 1) ∷ [] }

assign_register_leaks_example :
    Ends (λ n. count 0 n.live ≡ 1 + owned 0 n.objects) (assign_register 10 11 two_registers)
unfolding pick
assign_register_leaks_example =
    assign_register_leaks 10 11 0 1 ((11, some 1) ∷ []) ((10, some 0) ∷ []) two_registers
      (λ b. omega arith) (λ e. omega arith) refl refl
