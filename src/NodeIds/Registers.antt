-- ===== src/NodeIds/Registers.antt =====
-- The copy assignment of `OpcUABackendRegisterInfo` (include/RegisterInfo.h).
use device_access_opc_ua_bac.Prelude.{ℕ, ◌+◌, ◌≡◌, ◌≢◌, List, Option, some, arith}
use device_access_opc_ua_bac.NodeIds.{Memory, Ended, pick, copy, add_object, take_object, look_at}
use device_access_opc_ua_bac.NodeIds.Balance.{count, owned, owned-pick, AllOwned, Ends}

-- The node of the object at `x` is overwritten by the copy of another one. (What the library makes of a
-- node that is copied onto itself is not modelled.)
unfoldable pub assign_register : ℕ → ℕ → Memory → Ended
unfolding look_at take_object copy
assign_register x y = look_at y λ g. take_object x λ h. copy g (add_object x)

-- Where the register at `x` has the text of a string node and is assigned another one, at `y`, which has
-- one too, the text that it had is not freed and belongs to no object any more.
pub assign_register_leaks :
    (x y b c : ℕ) (others rest : List (ℕ × Option ℕ)) (m : Memory)
    → AllOwned m
    → x ≢ y
    → pick x m.objects ≡ some (some b, others)
    → pick y m.objects ≡ some (some c, rest)
    → Ends (λ n. count b n.live ≡ 1 + owned b n.objects) (assign_register x y m)
unfolding assign_register look_at take_object copy
assign_register_leaks x y b c others rest m h apart at_x at_y =
    rw (at_y, at_x, Ends) (ground (arith, h b, owned-pick b x m.objects (some b) others at_x))
