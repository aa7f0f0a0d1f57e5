-- ===== src/Catalogue/Browse/Search.antt =====
-- The walk of `browseRecursive` against the graph of the references of the server.
use device_access_opc_ua_bac.Prelude.{
  ℕ, zero, suc, ◌<◌, ◌≡◌, ◌⊎◌, inl, inr, refl, List, [], ◌∷◌, ◌++◌, Option, none, some, arith,
}
use device_access_opc_ua_bac.System.{NodeId}
use device_access_opc_ua_bac.Catalogue.Browse.{
  NodeClass, object, variable, other_class, Reference, append?, taken, descend, visit_all,
  browse_recursive,
}

abbrev pub Has : Reference → List Reference → Type 0
Has r [] = ⊥
Has r (x ∷ xs) = (x ≡ r) ⊎ Has r xs

module _ (references : NodeId → List Reference) where
  -- The rank of a node is above those of the objects that it refers to.
  abbrev pub IsRanked : (NodeId → ℕ) → Type 0
  IsRanked rank =
      (node : NodeId) (r : Reference)
      → Has r (references node)
      → r.node_class ≡ object
      → rank r.target < rank node

  descend-some :
      (below : NodeId → Option (List NodeId)) (r : Reference)
      → (r.node_class ≡ object → (xs : List NodeId) × (below r.target ≡ some xs))
      → (c : NodeClass) → r.node_class ≡ c
      → (xs : List NodeId) × (descend c below r.target ≡ some xs)
  unfolding descend
  descend-some below r k object e = k e
  descend-some below r k variable e = ([], refl)
  descend-some below r k other_class e = ([], refl)

  visit_all-some :
      (below : NodeId → Option (List NodeId)) (rs : List Reference)
      → ((r : Reference)
          → Has r rs
          → r.node_class ≡ object
          → (xs : List NodeId) × (below r.target ≡ some xs))
      → (xs : List NodeId) × (visit_all below rs ≡ some xs)
  unfolding visit_all
  visit_all-some below [] k = ([], refl)
  visit_all-some below (r ∷ rs) k =
      let (xs, ex) = descend-some below r (k r (inl refl)) r.node_class refl in
      let (ys, ey) = visit_all-some below rs (λ q h. k q (inr h)) in
      ((xs ++ taken r.node_class r.target) ++ ys, rw (ex, ey))

  -- Where no object leads back to itself, the walk ends: fuel above the rank is enough.
  pub browse_recursive_total :
      (rank : NodeId → ℕ) (fuel : ℕ) (node : NodeId)
      → IsRanked rank
      → rank node < fuel
      → (nodes : List NodeId) × (browse_recursive references fuel node ≡ some nodes)
  unfolding browse_recursive
  browse_recursive_total rank zero node ranked enough = absurd (omega arith)
  browse_recursive_total rank (suc fuel) node ranked enough =
      visit_all-some (browse_recursive references fuel) (references node) (λ r h e.
        browse_recursive_total rank fuel r.target ranked
          (let down = ranked node r h e in omega arith))

  append?-none : (o : Option (List NodeId)) → append? o none ≡ none
  append?-none none = refl
  append?-none (some xs) = refl

  descend-none :
      (below : NodeId → Option (List NodeId)) (node : NodeId) (c : NodeClass)
      → c ≡ object
      → below node ≡ none
      → descend c below node ≡ none
  unfolding descend
  descend-none below node c e b = rw (e, b)

  visit_one_none :
      (below : NodeId → Option (List NodeId)) (x : Reference) (xs : List Reference)
      → descend x.node_class below x.target ≡ none
      → visit_all below (x ∷ xs) ≡ none
  unfolding visit_all
  visit_one_none below x xs e = rw e

  visit_all-none :
      (below : NodeId → Option (List NodeId)) (rs : List Reference) (r : Reference)
      → Has r rs
      → r.node_class ≡ object
      → below r.target ≡ none
      → visit_all below rs ≡ none
  unfolding visit_all
  visit_all-none below [] r h e b = absurd h
  visit_all-none below (x ∷ xs) r (inl p) e b =
      visit_one_none below x xs (descend-none below x.target x.node_class (rw p e) (rw p b))
  visit_all-none below (x ∷ xs) r (inr h) e b =
      rw (visit_all-none below xs r h e b) (append?-none _)

  -- Where each of some nodes refers to an object that is one of them, as on a cycle, the walk from
  -- them ends with no fuel whatever.
  pub browse_recursive_endless :
      (Among : NodeId → Type 0)
      → ((node : NodeId)
          → Among node
          → (r : Reference) × Has r (references node) × (r.node_class ≡ object) × Among r.target)
      → (fuel : ℕ) (node : NodeId) → Among node
      → browse_recursive references fuel node ≡ none
  unfolding browse_recursive
  browse_recursive_endless Among next zero node a = refl
  browse_recursive_endless Among next (suc fuel) node a =
      let (r, h, e, b) = next node a in
      visit_all-none (browse_recursive references fuel) (references node) r h e
        (browse_recursive_endless Among next fuel r.target b)
