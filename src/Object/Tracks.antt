-- ===== src/Object/Tracks.antt =====
-- An object keeps what is known of its registers, through any messages.
use mqmgateway.Base.{◌≡◌, sym, subst, inl, inr, some, List, [], ◌∷◌, arith, Option-cases, All}
use mqmgateway.Object.{
  MqttObjectRegisterIdent, MqttObjectRegisterValue, update_value, update_read_failed,
  set_network_state,
}
use mqmgateway.Object.Flag.{
  ObjectEvent, values_received, operation_failed, network_changed, apply_event, apply_events,
}
use mqmgateway.Object.History.{
  Status, next_status, status_from, IsMessage, Matches, visitor_of, visitor-Matches,
}
use mqmgateway.Object.State.{
  MqttObject, visit_nodes, availability_flag, update_availability_flag, visit_object,
  update_register_values, update_registers_read_failed, set_modbus_network_state,
}
use mqmgateway.Object.Visit.{Property, AllNodes, visit_nodes-AllNodes}

-- An object after a message: its trees, and the value that it compares the availability with.
update_availability_flag-nodes :
    (o after : MqttObject)
    → update_availability_flag o ≡ some after
    → (after.state.nodes ≡ o.state.nodes)
      × (after.availability.nodes ≡ o.availability.nodes)
      × (after.available_value ≡ o.available_value)
unfolding update_availability_flag
update_availability_flag-nodes o after h = elim (Option-cases (availability_flag o)) [
  | inl e ↦ absurd (ground (arith, h, e))
  | inr (flag, e) ↦ ground (arith, h, e)
]

pub apply_event-nodes :
    (e : ObjectEvent) (o after : MqttObject)
    → apply_event e o ≡ some after
    → (after.state.nodes ≡ (visit_nodes (visitor_of e) o.state.nodes).0)
      × (after.availability.nodes ≡ (visit_nodes (visitor_of e) o.availability.nodes).0)
      × (after.available_value ≡ o.available_value)
unfolding apply_event visitor_of update_register_values update_registers_read_failed
    set_modbus_network_state
apply_event-nodes (values_received network msg) o after h =
    let next = (visit_object (update_value network msg) o).0 in
    ground (arith, h, update_availability_flag-nodes next after)
apply_event-nodes (operation_failed network base) o after h =
    let next = (visit_object (update_read_failed network base) o).0 in
    ground (arith, h, update_availability_flag-nodes next after)
apply_event-nodes (network_changed network is_up) o after h =
    let next = (visit_object (set_network_state network is_up) o).0 in
    elim (Option-cases (update_availability_flag next)) [
      | inl n ↦ ground (arith, h, n)
      | inr (a, n) ↦ ground (arith, h, n, update_availability_flag-nodes next a n)
    ]

-- Every register of an object holds what is known of it.
abbrev pub Tracks : (MqttObjectRegisterIdent → Status) → MqttObject → Type 0
Tracks s o =
    AllNodes (λ i v. Matches (s i) i v) o.state.nodes
    × AllNodes (λ i v. Matches (s i) i v) o.availability.nodes

apply_event-Tracks :
    (e : ObjectEvent) (s : MqttObjectRegisterIdent → Status) (o after : MqttObject)
    → IsMessage e
    → apply_event e o ≡ some after
    → Tracks s o
    → Tracks (λ i. next_status e i (s i)) after
apply_event-Tracks e s o after l h t =
    let n = apply_event-nodes e o after h in
    let step =
      λ (i : MqttObjectRegisterIdent) (v : MqttObjectRegisterValue) (m : Matches (s i) i v).
        visitor-Matches e (s i) i v l m in
    let P : Property = λ i v. Matches (s i) i v in
    let Q : Property = λ i v. Matches (next_status e i (s i)) i v in
    (
      subst (AllNodes Q) (sym n.0) (visit_nodes-AllNodes (visitor_of e) P Q step o.state.nodes t.0),
      subst (AllNodes Q) (sym n.1)
          (visit_nodes-AllNodes (visitor_of e) P Q step o.availability.nodes t.1),
    )

pub apply_events-Tracks :
    (es : List ObjectEvent) (s : MqttObjectRegisterIdent → Status) (o after : MqttObject)
    → All IsMessage es
    → apply_events es o ≡ some after
    → Tracks s o
    → Tracks (λ i. status_from es i (s i)) after
unfolding apply_events
apply_events-Tracks [] s o after l h t =
    let same : o ≡ after = ground (arith, h) in subst (Tracks s) same t
apply_events-Tracks (e ∷ es) s o after l h t = elim (Option-cases (apply_event e o)) [
  | inl n ↦ absurd (ground (arith, n, h))
  | inr (next, n) ↦
      apply_events-Tracks es (λ i. next_status e i (s i)) next after l.1 (ground (arith, n, h))
        (apply_event-Tracks e s o next l.0 n t)
]
