-- ===== src/Catalogue/Entry/Names.antt =====
-- The names that `addCatalogueEntry` makes from a node and the name of the root.
use device_access_opc_ua_bac.Prelude.{
  ℕ, zero, suc, false, ◌≡◌, ◌≤◌, refl, Text, codes, [], ◌∷◌, ◌++◌, some, ◌==◌, length, drop, arith,
  ap,
}
use device_access_opc_ua_bac.Prelude.Decimal.{to_decimal}
use device_access_opc_ua_bac.System.{numeric, string}
use device_access_opc_ua_bac.Catalogue.Entry.{derived_name, local_root_name, slash}

drop-append : (s t : Text) → drop (length s) (s ++ t) ≡ t
drop-append [] t = refl
drop-append (c ∷ s) t = drop-append s t

drop_all : (n : ℕ) (s : Text) → length s ≤ n → drop n s ≡ []
drop_all zero [] h = refl
drop_all (suc n) [] h = refl
drop_all zero (c ∷ s) h = absurd (omega arith)
drop_all (suc n) (c ∷ s) h = drop_all n s (omega arith)

drop-suc : (s t : Text) → drop (suc (length s)) (s ++ t) ≡ drop 1 t
drop-suc [] t = refl
drop-suc (c ∷ s) t = drop-suc s t

-- A node that stands under the root in its name gets the rest as its name, if the root neither
-- begins with a slash nor ends in `Dir`.
pub derived_name-append :
    (root rest : Text) (c ns : ℕ)
    → (c == slash) ≡ false
    → local_root_name (c ∷ root) ≡ c ∷ root
    → derived_name (c ∷ root) (string ns ((c ∷ root) ++ rest)) ≡ some rest
unfolding derived_name
derived_name-append root rest c ns plain whole =
    rw (plain, whole) (ap some (drop-append (c ∷ root) rest))

-- Where the root begins with a slash, the first character of the rest is cut off with it.
pub derived_name-slash :
    (root rest : Text) (ns : ℕ)
    → local_root_name (slash ∷ root) ≡ slash ∷ root
    → derived_name (slash ∷ root) (string ns ((slash ∷ root) ++ rest)) ≡ some (drop 1 rest)
unfolding derived_name
derived_name-slash root rest ns whole = rw whole (ap some (drop-suc root rest))

-- The name of a root is cut off the names of numeric nodes too, though these do not begin with it:
-- with a root that is long enough all of them get the empty name.
pub derived_name_numeric :
    (root : Text) (ns id : ℕ)
    → length (codes "numeric/" ++ to_decimal id) ≤ length (local_root_name root)
    → derived_name root (numeric ns id) ≡ some []
unfolding derived_name
derived_name_numeric root ns id long = ap some (drop_all _ _ long)
