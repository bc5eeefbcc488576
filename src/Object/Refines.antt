-- ===== src/Object/Refines.antt =====
-- What an object tells of the registers that it publishes, from the messages alone.
use mqmgateway.Base.{
  ℕ, ◌^◌, ◌<◌, ◌≡◌, refl, sym, ap, ◌∙◌, ◌≢◌, ◌↔◌, ◌⊎◌, inl, inr, true, false, Option, none, some,
  List, [], ◌∷◌, arith, Bool-cases, All,
}
use mqmgateway.Object.{
  not_set, unavailable, MqttObjectRegisterIdent, MqttObjectRegisterValue, new_value,
  MqttObjectDataNode, scalar, composite, MqttObjectDataNodeList, single, several, Test,
}
use mqmgateway.Object.Flag.{ObjectEvent, apply_events, IsCurrent, apply_events-IsCurrent}
use mqmgateway.Object.History.{Status, initial_status, status_from, IsMessage, HoldsValue, Matches}
use mqmgateway.Object.State.{MqttObject, every_node, get_available_flag, availability_flag}
use mqmgateway.Object.Total.{Converts, apply_events_total}
use mqmgateway.Object.Tracks.{Tracks, apply_events-Tracks}
use mqmgateway.Object.Visit.{
  Property, AllRegisters, AllChildren, AllNodes, every_node-AllNodes, AllNodes-of, every_node_of,
  AllNodes-both,
}

-- What an object is before any message: it has a register, and no register has a value.
pub record IsFresh (o : MqttObject) : Type 0 where
  pub fresh_flag : o.is_available ≡ not_set
  pub fresh_state : AllNodes (λ i v. (i.register_number < 2 ^ 16) × (v ≡ new_value)) o.state.nodes
  pub fresh_availability :
      AllNodes (λ i v. (i.register_number < 2 ^ 16) × (v ≡ new_value)) o.availability.nodes
  pub has_register : (o.state.nodes ≢ []) ⊎ (o.availability.nodes ≢ [])

abbrev pub IsOk : Status → Type 0
IsOk t = t.ok ≡ true

abbrev pub HasValue : Status → Type 0
HasValue t = t.value ≢ none

module _ (s : MqttObjectRegisterIdent → Status) (o : MqttObject) where
  -- A predicate on what is known of each register.
  abbrev pub Every : (Status → Type 0) → Type 0
  Every P = AllNodes (λ i v. P (s i)) o.state.nodes × AllNodes (λ i v. P (s i)) o.availability.nodes

  -- The availability flag that belongs to what is known of the registers.
  abbrev pub Tells : Type 0
  Tells =
      ((¬ Every IsOk) × (o.is_available ≡ unavailable))
      ⊎ (Every IsOk × (¬ Every HasValue) × (o.is_available ≡ not_set))
      ⊎ (Every IsOk
          × Every HasValue
          × (get_available_flag o.available_value o.availability ≡ some o.is_available))

holds-HasValue :
    (value : Option ℕ) (v : MqttObjectRegisterValue)
    → HoldsValue value v
    → v.has_value ≡ true
    → value ≢ none
holds-HasValue none v h k = λ e. ground (arith, h, k)
holds-HasValue (some x) v h k = λ e. cc

HasValue-holds :
    (value : Option ℕ) (v : MqttObjectRegisterValue)
    → HoldsValue value v
    → value ≢ none
    → v.has_value ≡ true
HasValue-holds none v h k = absurd (k refl)
HasValue-holds (some x) v h k = h.0

-- A test of the registers against a predicate on what is known of them.
module _ (p : Test) (P : Status → Type 0)
    (test : (t : Status) (i : MqttObjectRegisterIdent) (v : MqttObjectRegisterValue)
      → Matches t i v
      → (p i v ≡ true) ↔ P t)
    (s : MqttObjectRegisterIdent → Status) where
  abbrev Known : Property
  Known i v = Matches (s i) i v

  every_node_iff :
      (ns : List MqttObjectDataNode)
      → AllNodes Known ns
      → (every_node p ns ≡ true) ↔ AllNodes (λ i v. P (s i)) ns
  every_node_iff ns m = (
    (λ e.
        AllNodes-both Known (λ i v. p i v ≡ true) (λ i v. P (s i))
          (λ i v a b. (test (s i) i v a).0 b) ns m
          (every_node-AllNodes p (λ i v. p i v ≡ true) (λ i v h. h) ns e)),
    (λ k.
        every_node_of p (λ i v. p i v ≡ true) (λ i v h. h) ns
          (AllNodes-both Known (λ i v. P (s i)) (λ i v. p i v ≡ true)
            (λ i v a b. (test (s i) i v a).1 b) ns m k)),
  )

  Every_cases :
      (o : MqttObject)
      → Tracks s o
      → (Every s o P
          × (every_node p o.state.nodes ≡ true)
          × (every_node p o.availability.nodes ≡ true))
        ⊎ ((¬ Every s o P)
            × ((every_node p o.availability.nodes ≡ false) ⊎ (every_node p o.state.nodes ≡ false)))
  Every_cases o t =
      let a = every_node_iff o.state.nodes t.0 in
      let b = every_node_iff o.availability.nodes t.1 in
      elim (Bool-cases (every_node p o.state.nodes)) [
        | inr e ↦ inr ((λ h. ground (arith, a.1 h.0, e)), inr e)
        | inl e ↦ elim (Bool-cases (every_node p o.availability.nodes)) [
          | inr f ↦ inr ((λ h. ground (arith, b.1 h.1, f)), inl f)
          | inl f ↦ inl ((a.0 e, b.0 f), e, f)
        ]
      ]

IsOk-test :
    (t : Status) (i : MqttObjectRegisterIdent) (v : MqttObjectRegisterValue)
    → Matches t i v
    → (v.read_ok ≡ true) ↔ IsOk t
IsOk-test t i v m = ((λ e. sym m.1 ∙ e), (λ e. m.1 ∙ e))

value_test :
    (t : Status) (i : MqttObjectRegisterIdent) (v : MqttObjectRegisterValue)
    → Matches t i v
    → (v.has_value ≡ true) ↔ HasValue t
value_test t i v m = (holds-HasValue t.value v m.2, HasValue-holds t.value v m.2)

IsCurrent-Tells :
    (s : MqttObjectRegisterIdent → Status) (o : MqttObject) → IsCurrent o → Tracks s o → Tells s o
unfolding availability_flag
IsCurrent-Tells s o c t = elim (Every_cases (λ i v. v.read_ok) IsOk IsOk-test s o t) [
  | inr (no_ok, e) ↦ inl (no_ok, ground (arith, c, e))
  | inl (ok, e, f) ↦ elim (Every_cases (λ i v. v.has_value) HasValue value_test s o t) [
    | inr (no_value, g) ↦ inr (inl (ok, no_value, ground (arith, c, e, f, g)))
    | inl (valued, g, h) ↦ inr (inr (ok, valued, ground (arith, c, e, f, g, h)))
  ]
]

new_value-Matches :
    (i : MqttObjectRegisterIdent) (v : MqttObjectRegisterValue)
    → (i.register_number < 2 ^ 16) × (v ≡ new_value)
    → Matches initial_status i v
new_value-Matches i v h = (h.0, ap (λ x. x.read_ok) h.1, ap (λ x. x.has_value) h.1)

-- No node is without registers.
module _ (P : Property)
    (never : (i : MqttObjectRegisterIdent) (v : MqttObjectRegisterValue) → ¬ P i v) where
  mutual
    no_registers : (n : MqttObjectDataNode) → ¬ AllRegisters P n
    no_registers (scalar name conv ident value) h = never ident value h
    no_registers (composite name conv as_list nodes) h = no_children nodes h

    no_children : (ns : MqttObjectDataNodeList) → ¬ AllChildren P ns
    no_children (single n) h = no_registers n h
    no_children (several n ns) h = no_registers n h.0

  no_nodes : (ns : List MqttObjectDataNode) → AllNodes P ns → ns ≡ []
  no_nodes [] h = refl
  no_nodes (n ∷ ns) h = absurd (no_registers n h.0)

AllNodes-mono :
    (P Q : Property)
    → ((i : MqttObjectRegisterIdent) (v : MqttObjectRegisterValue) → P i v → Q i v)
    → (ns : List MqttObjectDataNode) → AllNodes P ns
    → AllNodes Q ns
AllNodes-mono P Q f ns h = AllNodes-both P P Q (λ i v a b. f i v a) ns h h

IsFresh-Tracks : (o : MqttObject) → IsFresh o → Tracks (λ i. initial_status) o
IsFresh-Tracks o f = (
  AllNodes-mono _ _ new_value-Matches o.state.nodes f.fresh_state,
  AllNodes-mono _ _ new_value-Matches o.availability.nodes f.fresh_availability,
)

fresh_unvalued : (o : MqttObject) → IsFresh o → ¬ Every (λ i. initial_status) o HasValue
fresh_unvalued o f h =
    let never =
      λ (i : MqttObjectRegisterIdent) (v : MqttObjectRegisterValue) (k : HasValue initial_status).
        k refl in
    elim f.has_register [
      | inl some_state ↦ some_state (no_nodes _ never o.state.nodes h.0)
      | inr some_avail ↦ some_avail (no_nodes _ never o.availability.nodes h.1)
    ]

IsFresh-IsCurrent : (o : MqttObject) → IsFresh o → IsCurrent o
unfolding availability_flag
IsFresh-IsCurrent o f =
    let s : MqttObjectRegisterIdent → Status = λ i. initial_status in
    let t = IsFresh-Tracks o f in
    elim (Every_cases (λ i v. v.read_ok) IsOk IsOk-test s o t) [
      | inr (no_ok, e) ↦
          absurd (no_ok (AllNodes-of _ (λ i v. refl) _, AllNodes-of _ (λ i v. refl) _))
      | inl (ok, e, g) ↦ elim (Every_cases (λ i v. v.has_value) HasValue value_test s o t) [
        | inl (valued, a, b) ↦ absurd (fresh_unvalued o f valued)
        | inr (no_value, a) ↦ ground (arith, f.fresh_flag, e, g, a)
      ]
    ]

-- An object none of whose registers has a value yet, and whose availability registers convert to an
-- integer. It takes any messages without an exception. Then each of its registers holds the value that
-- was delivered last, and counts as polled unless its last news is a failure or a network that is
-- down. The availability flag is 0 if some register is not polled, else not set if some register has
-- no value, and otherwise the one that the availability registers give.
pub apply_events_lem :
    (es : List ObjectEvent) (o : MqttObject)
    → All IsMessage es
    → IsFresh o
    → Converts o
    → let s : MqttObjectRegisterIdent → Status = λ i. status_from es i initial_status in
      (after : MqttObject) × (apply_events es o ≡ some after) × Tracks s after × Tells s after
apply_events_lem es o l f c =
    let s : MqttObjectRegisterIdent → Status = λ i. status_from es i initial_status in
    let (after, h) = apply_events_total es o c in
    let t : Tracks s after =
      apply_events-Tracks es (λ i. initial_status) o after l h (IsFresh-Tracks o f) in
    (
      after,
      h,
      t,
      IsCurrent-Tells s after (apply_events-IsCurrent es o after (IsFresh-IsCurrent o f) h) t,
    )
