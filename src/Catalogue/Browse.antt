-- ===== src/Catalogue/Browse.antt =====
-- `OpcUABackend::browseRecursive` of src/OPC-UA-Backend.cc: the order in which the nodes of the
-- server go to `addCatalogueEntry`. What `UA_Client_Service_browse` answers is a parameter.
pub mod Search
use device_access_opc_ua_bac.Prelude.{ℕ, zero, suc, List, [], ◌∷◌, ◌++◌, Option, none, some}
use device_access_opc_ua_bac.System.{NodeId, numeric, string}

pub data NodeClass : Type 0 where
  object variable other_class : NodeClass

pub record Reference : Type 0 where
  pub target : NodeId
  pub node_class : NodeClass

abbrev pub append? : Option (List NodeId) → Option (List NodeId) → Option (List NodeId)
append? (some xs) (some ys) = some (xs ++ ys)
append? (some xs) none = none
append? none y = none

-- Only variables with a text for an id are taken.
unfoldable pub taken : NodeClass → NodeId → List NodeId
taken variable (string ns name) = string ns name ∷ []
taken variable (numeric ns id) = []
taken object node = []
taken other_class node = []

-- An object is gone into.
unfoldable pub descend : NodeClass → (NodeId → Option (List NodeId)) → NodeId → Option (List NodeId)
descend object below node = below node
descend variable below node = some []
descend other_class below node = some []

unfoldable pub visit_all : (NodeId → Option (List NodeId)) → List Reference → Option (List NodeId)
unfolding taken descend
visit_all below [] = some []
visit_all below (r ∷ rs) =
    append? (append? (descend r.node_class below r.target) (some (taken r.node_class r.target)))
      (visit_all below rs)

module _ (references : NodeId → List Reference) where
  -- The nodes in the order of the calls; `none` where the fuel ends.
  unfoldable pub browse_recursive : ℕ → NodeId → Option (List NodeId)
  unfolding visit_all
  browse_recursive zero node = none
  browse_recursive (suc fuel) node = visit_all (browse_recursive fuel) (references node)
