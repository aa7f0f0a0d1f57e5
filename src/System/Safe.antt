-- ===== src/System/Safe.antt =====
-- Postconditions of the operations on the shared state.
use device_access_opc_ua_bac.Prelude.{Bool, true, false, ◌≡◌, refl, ap, if◌then◌else◌}
use device_access_opc_ua_bac.System.{
  System, Outcome, Fault, dangling_pointer, null_pointer, out_of_bounds, terminated, waits_forever,
  ok, raise, fault, M, ◌>>=◌, when,
}

-- A wait that does not end is no fault of this kind: where a wait ends is shown by itself.
abbrev pub IsWait : Fault → Type 0
IsWait dangling_pointer = ⊥
IsWait null_pointer = ⊥
IsWait out_of_bounds = ⊥
IsWait terminated = ⊥
IsWait waits_forever = Unit {0}

-- Nothing undefined or fatal happens, and the state that it leaves, by a return or an exception, has `P`.
abbrev pub Safe {ℓ} : {A : Type ℓ} → (System → Type 0) → Outcome A → Type 0
Safe P (ok a s) = P s
Safe P (raise e s) = P s
Safe P (fault x) = IsWait x

abbrev pub Keeps {ℓ} : {A : Type ℓ} → (System → Type 0) → M A → Type 0
Keeps P m = (s : System) → P s → Safe P (m s)

-- What holds after a block: its first part gives `Q`, and from `Q` the rest gives `P`.
pub Safe-bind {ℓ κ} :
    {A : Type ℓ} {B : Type κ} (Q P : System → Type 0) (m : M A) (f : A → M B) (s : System)
    → ((t : System) → Q t → P t)
    → Safe Q (m s)
    → ((a : A) (t : System) → Q t → Safe P (f a t))
    → Safe P ((m >>= f) s)
Safe-bind Q P m f s w h k = go (m s) h
  where
    go :
        (o : Outcome _)
        → Safe Q o
        → Safe P (elim o [ ok a t ↦ f a t | raise e t ↦ raise e t | fault x ↦ fault x ])
    go (ok a t) q = k a t q
    go (raise e t) q = w t q
    go (fault x) q = q

pub Keeps-bind {ℓ κ} :
    {A : Type ℓ} {B : Type κ} (P : System → Type 0) (m : M A) (f : A → M B)
    → Keeps P m
    → ((a : A) → Keeps P (f a))
    → Keeps P (m >>= f)
Keeps-bind P m f h k s p = Safe-bind P P m f s (λ t q. q) (h s p) k

pub Keeps-when :
    (P : System → Type 0) (b : Bool) (m : M (Unit {0})) → Keeps P m → Keeps P (when b m)
Keeps-when P true m h = h
Keeps-when P false m h = λ s p. p

pub Safe-if {ℓ} :
    {A : Type ℓ} (P : System → Type 0) (b : Bool) (m n : M A) (s : System)
    → (b ≡ true → Safe P (m s))
    → (b ≡ false → Safe P (n s))
    → Safe P ((if b then m else n) s)
Safe-if P true m n s h k = h refl
Safe-if P false m n s h k = k refl

-- As `Keeps-when`, with the test at hand.
pub Safe-when :
    (P : System → Type 0) (b : Bool) (m : M (Unit {0})) (s : System)
    → P s
    → (b ≡ true → Safe P (m s))
    → Safe P (when b m s)
Safe-when P true m s p h = h refl
Safe-when P false m s p h = p

pub when-false : (b : Bool) (m : M (Unit {0})) (s : System) → b ≡ false → when b m s ≡ ok tt s
when-false b m s e = rw e

-- What a bind does where the first operation is known.
pub bind_ok {ℓ κ} :
    {A : Type ℓ} {B : Type κ} (m : M A) (f : A → M B) (s : System) (a : A) (t : System)
    → m s ≡ ok a t
    → (m >>= f) s ≡ f a t
bind_ok m f s a t = ap λ o. elim o [ ok b u ↦ f b u | raise e u ↦ raise e u | fault x ↦ fault x ]

pub bind_fault {ℓ κ} :
    {A : Type ℓ} {B : Type κ} (m : M A) (f : A → M B) (s : System) (x : Fault)
    → m s ≡ fault x
    → (m >>= f) s ≡ fault x
bind_fault m f s x = ap λ o. elim o [ ok b u ↦ f b u | raise e u ↦ raise e u | fault y ↦ fault y ]

-- Whether the operation throws.
abbrev pub DoesNotThrow {ℓ} : {A : Type ℓ} → Outcome A → Type 0
DoesNotThrow (ok a s) = Unit {0}
DoesNotThrow (raise e s) = ⊥
DoesNotThrow (fault x) = Unit {0}

abbrev pub NoThrow {ℓ} : {A : Type ℓ} → M A → Type 0
NoThrow m = (s : System) → DoesNotThrow (m s)

pub NoThrow-bind {ℓ κ} :
    {A : Type ℓ} {B : Type κ} (m : M A) (f : A → M B)
    → NoThrow m
    → ((a : A) → NoThrow (f a))
    → NoThrow (m >>= f)
NoThrow-bind {A} m f h k s = go (m s) (h s)
  where
    go :
        (o : Outcome A)
        → DoesNotThrow o
        → DoesNotThrow (elim o [ ok a t ↦ f a t | raise e t ↦ raise e t | fault x ↦ fault x ])
    go (ok a t) q = k a t
    go (raise e t) q = absurd q
    go (fault x) q = tt

-- As `NoThrow-bind`, at one state.
pub DoesNotThrow-bind {ℓ κ} :
    {A : Type ℓ} {B : Type κ} (Q : System → Type 0) (m : M A) (f : A → M B) (s : System)
    → Safe Q (m s)
    → DoesNotThrow (m s)
    → ((a : A) (t : System) → Q t → DoesNotThrow (f a t))
    → DoesNotThrow ((m >>= f) s)
DoesNotThrow-bind {A} Q m f s h k q = go (m s) h k
  where
    go :
        (o : Outcome A)
        → Safe Q o
        → DoesNotThrow o
        → DoesNotThrow (elim o [ ok a t ↦ f a t | raise e t ↦ raise e t | fault x ↦ fault x ])
    go (ok a t) h k = q a t h
    go (raise e t) h k = absurd k
    go (fault x) h k = tt

pub DoesNotThrow-when :
    (b : Bool) (m : M (Unit {0})) (s : System) → DoesNotThrow (m s) → DoesNotThrow (when b m s)
DoesNotThrow-when true m s h = h
DoesNotThrow-when false m s h = tt

pub NoThrow-when : (b : Bool) (m : M (Unit {0})) → NoThrow m → NoThrow (when b m)
NoThrow-when true m h = h
NoThrow-when false m h = λ s. tt

pub NoThrow-if {ℓ} :
    {A : Type ℓ} (b : Bool) (m n : M A) → NoThrow m → NoThrow n → NoThrow (if b then m else n)
NoThrow-if true m n h k = h
NoThrow-if false m n h k = k

-- As `Safe`, with another state predicate where the operation throws.
abbrev pub Ends {ℓ} : {A : Type ℓ} → (System → Type 0) → (System → Type 0) → Outcome A → Type 0
Ends P E (ok a s) = P s
Ends P E (raise e s) = E s
Ends P E (fault x) = IsWait x

pub Ends-bind {ℓ κ} :
    {A : Type ℓ} {B : Type κ} (Q P E : System → Type 0) (m : M A) (f : A → M B) (s : System)
    → Ends Q E (m s)
    → ((a : A) (t : System) → Q t → Ends P E (f a t))
    → Ends P E ((m >>= f) s)
Ends-bind {A} Q P E m f s h k = go (m s) h
  where
    go :
        (o : Outcome A)
        → Ends Q E o
        → Ends P E (elim o [ ok a t ↦ f a t | raise e t ↦ raise e t | fault x ↦ fault x ])
    go (ok a t) q = k a t q
    go (raise e t) q = q
    go (fault x) q = q

pub Safe-Ends {ℓ} : {A : Type ℓ} (P : System → Type 0) (r : Outcome A) → Safe P r → Ends P P r
Safe-Ends P (ok a s) h = h
Safe-Ends P (raise e s) h = h
Safe-Ends P (fault x) h = h

pub Ends-Safe {ℓ} : {A : Type ℓ} (P : System → Type 0) (r : Outcome A) → Ends P P r → Safe P r
Ends-Safe P (ok a s) h = h
Ends-Safe P (raise e s) h = h
Ends-Safe P (fault x) h = h
