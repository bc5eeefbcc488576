-- ===== src/Object/Visit.antt =====
-- The registers of a tree, and what an operation does to them.
use mqmgateway.Base.{◌≡◌, refl, ap, ap₂, true, false, List, [], ◌∷◌, arith, All}
use mqmgateway.Object.{
  MqttObjectRegisterIdent, MqttObjectRegisterValue, MqttObjectDataNode, scalar, composite,
  MqttObjectDataNodeList, single, several, Visitor, visit_node, visit_children, Test,
  every_register, every_child,
}
use mqmgateway.Object.State.{visit_nodes, every_node}

abbrev pub Property : Type 1
Property = MqttObjectRegisterIdent → MqttObjectRegisterValue → Type 0

-- A predicate on the registers of a node.
abbrev mutual
  pub AllRegisters : Property → MqttObjectDataNode → Type 0
  AllRegisters P (scalar name conv ident value) = P ident value
  AllRegisters P (composite name conv as_list nodes) = AllChildren P nodes

  pub AllChildren : Property → MqttObjectDataNodeList → Type 0
  AllChildren P (single n) = AllRegisters P n
  AllChildren P (several n ns) = AllRegisters P n × AllChildren P ns

abbrev pub AllNodes : Property → List MqttObjectDataNode → Type 0
AllNodes P ns = All (AllRegisters P) ns

-- If nothing is said to have changed, the register is as it was.
abbrev pub IsQuiet : Visitor → Property
IsQuiet f ident v = (f ident v).1 ≡ false → (f ident v).0 ≡ v

module _ (f : Visitor) where
  mutual
    unfolding visit_node visit_children

    visit_node_quiet :
        (n : MqttObjectDataNode)
        → AllRegisters (IsQuiet f) n
        → (visit_node f n).1 ≡ false
        → (visit_node f n).0 ≡ n
    visit_node_quiet (scalar name conv ident value) q h = ap (scalar name conv ident) (q h)
    visit_node_quiet (composite name conv as_list nodes) q h =
        ap (composite name conv as_list) (visit_children_quiet nodes q h)

    visit_children_quiet :
        (ns : MqttObjectDataNodeList)
        → AllChildren (IsQuiet f) ns
        → (visit_children f ns).1 ≡ false
        → (visit_children f ns).0 ≡ ns
    visit_children_quiet (single n) q h = ap single (visit_node_quiet n q h)
    visit_children_quiet (several n ns) q h =
        ap₂ several (visit_node_quiet n q.0 (ground arith))
          (visit_children_quiet ns q.1 (ground arith))

  pub visit_nodes_quiet :
      (ns : List MqttObjectDataNode)
      → AllNodes (IsQuiet f) ns
      → (visit_nodes f ns).1 ≡ false
      → (visit_nodes f ns).0 ≡ ns
  unfolding visit_nodes
  visit_nodes_quiet [] q h = refl
  visit_nodes_quiet (n ∷ ns) q h =
      ap₂ ◌∷◌ (visit_node_quiet n q.0 (ground arith)) (visit_nodes_quiet ns q.1 (ground arith))

-- What each operation on a register makes of a predicate.
module _ (f : Visitor) (P Q : Property)
    (step : (i : MqttObjectRegisterIdent) (v : MqttObjectRegisterValue)
      → P i v
      → Q i (f i v).0) where
  mutual
    unfolding visit_node visit_children

    visit_node-AllRegisters :
        (n : MqttObjectDataNode) → AllRegisters P n → AllRegisters Q (visit_node f n).0
    visit_node-AllRegisters (scalar name conv ident value) h = step ident value h
    visit_node-AllRegisters (composite name conv as_list nodes) h =
        visit_children-AllChildren nodes h

    visit_children-AllChildren :
        (ns : MqttObjectDataNodeList) → AllChildren P ns → AllChildren Q (visit_children f ns).0
    visit_children-AllChildren (single n) h = visit_node-AllRegisters n h
    visit_children-AllChildren (several n ns) h =
        (visit_node-AllRegisters n h.0, visit_children-AllChildren ns h.1)

  pub visit_nodes-AllNodes :
      (ns : List MqttObjectDataNode) → AllNodes P ns → AllNodes Q (visit_nodes f ns).0
  unfolding visit_nodes
  visit_nodes-AllNodes [] h = tt
  visit_nodes-AllNodes (n ∷ ns) h = (visit_node-AllRegisters n h.0, visit_nodes-AllNodes ns h.1)

module _ (p : Test) (P : Property)
    (holds : (i : MqttObjectRegisterIdent) (v : MqttObjectRegisterValue)
      → p i v ≡ true
      → P i v) where
  mutual
    unfolding every_register every_child

    every_register-AllRegisters :
        (n : MqttObjectDataNode) → every_register p n ≡ true → AllRegisters P n
    every_register-AllRegisters (scalar name conv ident value) h = holds ident value h
    every_register-AllRegisters (composite name conv as_list nodes) h =
        every_child-AllChildren nodes h

    every_child-AllChildren :
        (ns : MqttObjectDataNodeList) → every_child p ns ≡ true → AllChildren P ns
    every_child-AllChildren (single n) h = every_register-AllRegisters n h
    every_child-AllChildren (several n ns) h =
        (every_register-AllRegisters n (ground arith), every_child-AllChildren ns (ground arith))

  pub every_node-AllNodes : (ns : List MqttObjectDataNode) → every_node p ns ≡ true → AllNodes P ns
  unfolding every_node
  every_node-AllNodes [] h = tt
  every_node-AllNodes (n ∷ ns) h =
      (every_register-AllRegisters n (ground arith), every_node-AllNodes ns (ground arith))

-- A property of every register there can be.
module _ (P : Property)
    (holds : (i : MqttObjectRegisterIdent) (v : MqttObjectRegisterValue) → P i v) where
  mutual
    AllRegisters-of : (n : MqttObjectDataNode) → AllRegisters P n
    AllRegisters-of (scalar name conv ident value) = holds ident value
    AllRegisters-of (composite name conv as_list nodes) = AllChildren-of nodes

    AllChildren-of : (ns : MqttObjectDataNodeList) → AllChildren P ns
    AllChildren-of (single n) = AllRegisters-of n
    AllChildren-of (several n ns) = (AllRegisters-of n, AllChildren-of ns)

  pub AllNodes-of : (ns : List MqttObjectDataNode) → AllNodes P ns
  AllNodes-of [] = tt
  AllNodes-of (n ∷ ns) = (AllRegisters-of n, AllNodes-of ns)

module _ (p : Test) (P : Property)
    (holds : (i : MqttObjectRegisterIdent) (v : MqttObjectRegisterValue)
      → P i v
      → p i v ≡ true) where
  mutual
    unfolding every_register every_child

    every_register_of : (n : MqttObjectDataNode) → AllRegisters P n → every_register p n ≡ true
    every_register_of (scalar name conv ident value) h = holds ident value h
    every_register_of (composite name conv as_list nodes) h = every_child_of nodes h

    every_child_of : (ns : MqttObjectDataNodeList) → AllChildren P ns → every_child p ns ≡ true
    every_child_of (single n) h = every_register_of n h
    every_child_of (several n ns) h = rw (every_register_of n h.0) (every_child_of ns h.1)

  pub every_node_of : (ns : List MqttObjectDataNode) → AllNodes P ns → every_node p ns ≡ true
  unfolding every_node
  every_node_of [] h = refl
  every_node_of (n ∷ ns) h = rw (every_register_of n h.0) (every_node_of ns h.1)

module _ (P Q R : Property)
    (both : (i : MqttObjectRegisterIdent) (v : MqttObjectRegisterValue)
      → P i v
      → Q i v
      → R i v) where
  mutual
    AllRegisters-both :
        (n : MqttObjectDataNode) → AllRegisters P n → AllRegisters Q n → AllRegisters R n
    AllRegisters-both (scalar name conv ident value) h k = both ident value h k
    AllRegisters-both (composite name conv as_list nodes) h k = AllChildren-both nodes h k

    AllChildren-both :
        (ns : MqttObjectDataNodeList) → AllChildren P ns → AllChildren Q ns → AllChildren R ns
    AllChildren-both (single n) h k = AllRegisters-both n h k
    AllChildren-both (several n ns) h k = (AllRegisters-both n h.0 k.0, AllChildren-both ns h.1 k.1)

  pub AllNodes-both : (ns : List MqttObjectDataNode) → AllNodes P ns → AllNodes Q ns → AllNodes R ns
  AllNodes-both [] h k = tt
  AllNodes-both (n ∷ ns) h k = (AllRegisters-both n h.0 k.0, AllNodes-both ns h.1 k.1)
