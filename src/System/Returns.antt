-- ===== src/System/Returns.antt =====
-- Operations that return: neither a fault nor an exception.
use device_access_opc_ua_bac.Prelude.{Bool, true, false, ◌≡◌, refl, if◌then◌else◌}
use device_access_opc_ua_bac.System.{System, Outcome, ok, raise, fault, M, ◌>>=◌, when}
use device_access_opc_ua_bac.System.Safe.{Safe}

abbrev pub Returns {ℓ} : {A : Type ℓ} → (System → Type 0) → Outcome A → Type 0
Returns P (ok a s) = P s
Returns P (raise e s) = ⊥
Returns P (fault x) = ⊥

pub Safe-of_Returns {ℓ} :
    {A : Type ℓ} (Q P : System → Type 0) (r : Outcome A)
    → ((t : System) → Q t → P t)
    → Returns Q r
    → Safe P r
Safe-of_Returns Q P (ok a s) k h = k s h
Safe-of_Returns Q P (raise e s) k h = absurd h
Safe-of_Returns Q P (fault x) k h = absurd h

pub Returns-bind {ℓ κ} :
    {A : Type ℓ} {B : Type κ} (Q P : System → Type 0) (m : M A) (f : A → M B) (s : System)
    → Returns Q (m s)
    → ((a : A) (t : System) → Q t → Returns P (f a t))
    → Returns P ((m >>= f) s)
Returns-bind {A} Q P m f s h k = go (m s) h
  where
    go :
        (o : Outcome A)
        → Returns Q o
        → Returns P (elim o [ ok a t ↦ f a t | raise e t ↦ raise e t | fault x ↦ fault x ])
    go (ok a t) q = k a t q
    go (raise e t) q = q
    go (fault x) q = q

-- The same where the rest may throw.
pub Returns-Safe {ℓ κ} :
    {A : Type ℓ} {B : Type κ} (Q P : System → Type 0) (m : M A) (f : A → M B) (s : System)
    → Returns Q (m s)
    → ((a : A) (t : System) → Q t → Safe P (f a t))
    → Safe P ((m >>= f) s)
Returns-Safe {A} Q P m f s h k = go (m s) h
  where
    go :
        (o : Outcome A)
        → Returns Q o
        → Safe P (elim o [ ok a t ↦ f a t | raise e t ↦ raise e t | fault x ↦ fault x ])
    go (ok a t) q = k a t q
    go (raise e t) q = absurd q
    go (fault x) q = absurd q

pub Returns-when :
    (P : System → Type 0) (b : Bool) (m : M (Unit {0})) (s : System)
    → (b ≡ false → P s)
    → (b ≡ true → Returns P (m s))
    → Returns P (when b m s)
Returns-when P true m s p h = h refl
Returns-when P false m s p h = p refl

pub Returns-if {ℓ} :
    {A : Type ℓ} (P : System → Type 0) (b : Bool) (m n : M A) (s : System)
    → (b ≡ true → Returns P (m s))
    → (b ≡ false → Returns P (n s))
    → Returns P ((if b then m else n) s)
Returns-if P true m n s h k = h refl
Returns-if P false m n s h k = k refl

pub Returns-both {ℓ} :
    {A : Type ℓ} (P Q : System → Type 0) (r : Outcome A)
    → Returns P r
    → Returns Q r
    → Returns (λ t. P t × Q t) r
Returns-both P Q (ok a s) h k = (h, k)
Returns-both P Q (raise e s) h k = h
Returns-both P Q (fault x) h k = h

pub Returns-weaken {ℓ} :
    {A : Type ℓ} (Q P : System → Type 0) (r : Outcome A)
    → ((t : System) → Q t → P t)
    → Returns Q r
    → Returns P r
Returns-weaken Q P (ok a s) k h = k s h
Returns-weaken Q P (raise e s) k h = h
Returns-weaken Q P (fault x) k h = h
