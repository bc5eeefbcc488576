-- ===== src/Object/Flag.antt =====
-- The availability flag of an object is always the one that its registers give.
use Prim.Native.String.{String}
use mqmgateway.Address.{ModbusMessageBase}
use mqmgateway.Base.{
  ◌≡◌, sym, ap₂, subst, ◌∙◌, inl, inr, Bool, true, false, ◌||◌, Option, some, List, [], ◌∷◌, arith,
  if◌then◌else◌, Bool-cases, Option-cases, ◌>>=◌,
}
use mqmgateway.Command.{MsgRegisterValues}
use mqmgateway.Object.{
  is_unavailable, MqttObjectRegisterIdent, MqttObjectRegisterValue, set_value, Visitor,
  update_value, update_read_failed, set_network_state,
}
use mqmgateway.Object.State.{
  MqttObject, is_polling, availability_flag, update_availability_flag, visit_object,
  update_register_values, update_registers_read_failed, set_modbus_network_state,
}
use mqmgateway.Object.Visit.{AllNodes, IsQuiet, visit_nodes_quiet, every_node-AllNodes, AllNodes-of}

-- The messages that change an object.
pub data ObjectEvent : Type 0 where
  values_received : String → MsgRegisterValues → ObjectEvent
  operation_failed : String → ModbusMessageBase → ObjectEvent
  network_changed : String → Bool → ObjectEvent

unfoldable pub apply_event : ObjectEvent → MqttObject → Option MqttObject
apply_event (values_received network msg) o = update_register_values network msg o
apply_event (operation_failed network base) o = update_registers_read_failed network base o
apply_event (network_changed network is_up) o =
    set_modbus_network_state network is_up o >>= λ r. some r.0

unfoldable pub apply_events : List ObjectEvent → MqttObject → Option MqttObject
apply_events [] o = some o
apply_events (e ∷ es) o = apply_event e o >>= apply_events es

-- The flag is the one that would be computed now.
abbrev pub IsCurrent : MqttObject → Type 0
IsCurrent o = availability_flag o ≡ some o.is_available

pub update_availability_flag-IsCurrent :
    (o after : MqttObject) → update_availability_flag o ≡ some after → IsCurrent after
unfolding update_availability_flag availability_flag
update_availability_flag-IsCurrent o after h = elim (Option-cases (availability_flag o)) [
  | inl e ↦ absurd (ground (arith, h, e))
  | inr (flag, e) ↦
      let same : record o { is_available = flag } ≡ after = ground (arith, h, e) in
      subst IsCurrent same e
]

-- An operation that changes no register of an object leaves it as it is.
visit_object_quiet :
    (f : Visitor) (o : MqttObject)
    → AllNodes (IsQuiet f) o.state.nodes
    → AllNodes (IsQuiet f) o.availability.nodes
    → (visit_object f o).1 ≡ false
    → (visit_object f o).0 ≡ o
visit_object_quiet f o s a h =
    ap₂
      (λ x y. record o {
        state = record (o.state) { nodes = x };
        availability = record (o.availability) { nodes = y };
      })
      (visit_nodes_quiet f o.state.nodes s (ground arith))
      (visit_nodes_quiet f o.availability.nodes a (ground arith))

update_value-IsQuiet :
    (network : String) (msg : MsgRegisterValues) (i : MqttObjectRegisterIdent)
    (v : MqttObjectRegisterValue)
    → v.read_ok ≡ true
    → IsQuiet (update_value network msg) i v
unfolding update_value set_value
update_value-IsQuiet network msg i v ok q = ground (arith)

update_read_failed-IsQuiet :
    (network : String) (base : ModbusMessageBase) (i : MqttObjectRegisterIdent)
    (v : MqttObjectRegisterValue)
    → IsQuiet (update_read_failed network base) i v
unfolding update_read_failed
update_read_failed-IsQuiet network base i v q = ground arith

set_network_state-IsQuiet :
    (network : String) (is_up : Bool) (i : MqttObjectRegisterIdent) (v : MqttObjectRegisterValue)
    → IsQuiet (set_network_state network is_up) i v
unfolding set_network_state
set_network_state-IsQuiet network is_up i v q = ground arith

-- A flag that is current is 0 if a register is not polled.
current-polling :
    (o : MqttObject)
    → IsCurrent o
    → is_unavailable o.is_available ≡ false
    → (is_polling o.state ≡ true) × (is_polling o.availability ≡ true)
unfolding availability_flag
current-polling o c h = ground arith

module _ (o : MqttObject) (c : IsCurrent o) where
  pub update_register_values-IsCurrent :
      (network : String) (msg : MsgRegisterValues) (after : MqttObject)
      → update_register_values network msg o ≡ some after
      → IsCurrent after
  unfolding update_register_values
  update_register_values-IsCurrent network msg after h =
      let f = update_value network msg in
      let next = (visit_object f o).0 in
      let changed = (visit_object f o).1 in
      elim (Bool-cases (changed || is_unavailable o.is_available)) [
        | inl e ↦ update_availability_flag-IsCurrent next after (ground (arith, e, h))
        | inr e ↦
            let polled = current-polling o c (ground (arith, e)) in
            let quiet =
              λ (i : MqttObjectRegisterIdent) (v : MqttObjectRegisterValue) (k : v.read_ok ≡ true).
                update_value-IsQuiet network msg i v k in
            let same =
              visit_object_quiet f o (every_node-AllNodes _ _ quiet o.state.nodes polled.0)
                (every_node-AllNodes _ _ quiet o.availability.nodes polled.1) (ground (arith, e)) in
            let result : next ≡ after = ground (arith, e, h) in
            subst IsCurrent (sym same ∙ result) c
      ]

  -- What holds for the two operations that compute the flag only if a register has changed.
  visit_object-IsCurrent :
      (f : Visitor) (after : MqttObject)
      → ((i : MqttObjectRegisterIdent) (v : MqttObjectRegisterValue) → IsQuiet f i v)
      → (let (next, changed) = visit_object f o in
          if changed then update_availability_flag next else some next)
        ≡ some after
      → IsCurrent after
  visit_object-IsCurrent f after quiet h =
      let next = (visit_object f o).0 in
      elim (Bool-cases (visit_object f o).1) [
        | inl e ↦ update_availability_flag-IsCurrent next after (ground (arith, e, h))
        | inr e ↦
            let same =
              visit_object_quiet f o (AllNodes-of _ quiet o.state.nodes)
                (AllNodes-of _ quiet o.availability.nodes) e in
            let result : next ≡ after = ground (arith, e, h) in
            subst IsCurrent (sym same ∙ result) c
      ]

  pub update_registers_read_failed-IsCurrent :
      (network : String) (base : ModbusMessageBase) (after : MqttObject)
      → update_registers_read_failed network base o ≡ some after
      → IsCurrent after
  unfolding update_registers_read_failed
  update_registers_read_failed-IsCurrent network base after h =
      visit_object-IsCurrent (update_read_failed network base) after
        (update_read_failed-IsQuiet network base) h

  pub set_modbus_network_state-IsCurrent :
      (network : String) (is_up : Bool) (after : MqttObject) (changed : Bool)
      → set_modbus_network_state network is_up o ≡ some (after, changed)
      → IsCurrent after
  unfolding set_modbus_network_state
  set_modbus_network_state-IsCurrent network is_up after changed h =
      let f = set_network_state network is_up in
      let next = (visit_object f o).0 in
      visit_object-IsCurrent f after (set_network_state-IsQuiet network is_up)
        (elim (Bool-cases (visit_object f o).1) [
          | inl e ↦ elim (Option-cases (update_availability_flag next)) [
            | inl n ↦ ground (arith, e, h, n)
            | inr (a, n) ↦ ground (arith, e, h, n)
          ]
          | inr e ↦ ground (arith, e, h)
        ])

  apply_event-IsCurrent :
      (e : ObjectEvent) (after : MqttObject) → apply_event e o ≡ some after → IsCurrent after
  unfolding apply_event
  apply_event-IsCurrent (values_received network msg) after h =
      update_register_values-IsCurrent network msg after h
  apply_event-IsCurrent (operation_failed network base) after h =
      update_registers_read_failed-IsCurrent network base after h
  apply_event-IsCurrent (network_changed network is_up) after h =
      elim (Option-cases (set_modbus_network_state network is_up o)) [
        | inl e ↦ absurd (ground (arith, e, h))
        | inr ((a, changed), e) ↦
            let result : a ≡ after = ground (arith, e, h) in
            set_modbus_network_state-IsCurrent network is_up after changed
              (subst (λ x. set_modbus_network_state network is_up o ≡ some (x, changed)) result e)
      ]

pub apply_events-IsCurrent :
    (es : List ObjectEvent) (o after : MqttObject)
    → IsCurrent o
    → apply_events es o ≡ some after
    → IsCurrent after
unfolding apply_events
apply_events-IsCurrent [] o after c h =
    let same : o ≡ after = ground (arith, h) in subst IsCurrent same c
apply_events-IsCurrent (e ∷ es) o after c h = elim (Option-cases (apply_event e o)) [
  | inl n ↦ absurd (ground (arith, n, h))
  | inr (next, n) ↦
      apply_events-IsCurrent es next after (apply_event-IsCurrent o c e next n)
        (ground (arith, n, h))
]
