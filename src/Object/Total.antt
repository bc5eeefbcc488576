-- ===== src/Object/Total.antt =====
-- An object whose availability registers convert to an integer takes every message.
use mqmgateway.Base.{
  ℤ, pos, ℕ, ◌≡◌, refl, sym, ap, subst, ◌∙◌, inl, inr, Bool, true, false, not, Option, none, some,
  List, [], ◌∷◌, arith, if◌then◌else◌, Option-cases, ◌>>=◌, All,
}
use mqmgateway.Object.{
  not_set, unavailable, available, DataConverter, MqttObjectDataNode, scalar, composite,
  MqttObjectDataNodeList, single, several, Visitor, visit_node, visit_children, update_value,
  update_read_failed, set_network_state, raw_values, get_converted_value,
}
use mqmgateway.Object.Flag.{
  ObjectEvent, values_received, operation_failed, network_changed, apply_event, apply_events,
}
use mqmgateway.Object.History.{visitor_of}
use mqmgateway.Object.State.{
  MqttObject, visit_nodes, get_available_flag, availability_flag, update_availability_flag,
  visit_object, update_register_values, update_registers_read_failed, set_modbus_network_state,
}
use mqmgateway.Object.Tracks.{apply_event-nodes}
use mqmgateway.Value.{MqttValue, get_int, same_int}

-- A converter that gives an integer for every list of registers.
abbrev pub GivesInt : DataConverter → Type 0
GivesInt conv =
    (regs : List ℕ)
    → (v : MqttValue) × (a : ℤ) × (conv.to_mqtt regs ≡ some v) × (get_int v ≡ some a)

abbrev pub IsScalar : MqttObjectDataNode → Type 0
IsScalar (scalar name conv ident value) = Unit
IsScalar (composite name conv as_list nodes) = ⊥

abbrev pub AllScalar : MqttObjectDataNodeList → Type 0
AllScalar (single n) = IsScalar n
AllScalar (several n ns) = IsScalar n × AllScalar ns

-- A node that always has an integer as its converted value.
abbrev pub NodeConverts : MqttObjectDataNode → Type 0
NodeConverts (scalar name none ident value) = Unit
NodeConverts (scalar name (some conv) ident value) = GivesInt conv
NodeConverts (composite name none as_list nodes) = Unit
NodeConverts (composite name (some conv) as_list nodes) = GivesInt conv × AllScalar nodes

abbrev pub Converts : MqttObject → Type 0
Converts o =
    All NodeConverts o.availability.nodes × ((b : ℤ) × (get_int o.available_value ≡ some b))

IsScalar-visit : (f : Visitor) (n : MqttObjectDataNode) → IsScalar n → IsScalar (visit_node f n).0
unfolding visit_node
IsScalar-visit f (scalar name conv ident value) h = tt
IsScalar-visit f (composite name conv as_list nodes) h = h

AllScalar-visit :
    (f : Visitor) (ns : MqttObjectDataNodeList) → AllScalar ns → AllScalar (visit_children f ns).0
unfolding visit_node
AllScalar-visit f (single n) h = IsScalar-visit f n h
AllScalar-visit f (several n ns) h = (IsScalar-visit f n h.0, AllScalar-visit f ns h.1)

NodeConverts-visit :
    (f : Visitor) (n : MqttObjectDataNode) → NodeConverts n → NodeConverts (visit_node f n).0
unfolding visit_node
NodeConverts-visit f (scalar name none ident value) h = tt
NodeConverts-visit f (scalar name (some conv) ident value) h = h
NodeConverts-visit f (composite name none as_list nodes) h = tt
NodeConverts-visit f (composite name (some conv) as_list nodes) h =
    (h.0, AllScalar-visit f nodes h.1)

visit_nodes-Converts :
    (f : Visitor) (ns : List MqttObjectDataNode)
    → All NodeConverts ns
    → All NodeConverts (visit_nodes f ns).0
unfolding visit_nodes
visit_nodes-Converts f [] h = tt
visit_nodes-Converts f (n ∷ ns) h = (NodeConverts-visit f n h.0, visit_nodes-Converts f ns h.1)

raw_values_total :
    (ns : MqttObjectDataNodeList) → AllScalar ns → (vs : List ℕ) × (raw_values ns ≡ some vs)
unfolding raw_values
raw_values_total (single (scalar name conv ident value)) h = (value.raw_value ∷ [], refl)
raw_values_total (single (composite name conv as_list nodes)) h = elim h [ ]
raw_values_total (several (scalar name conv ident value) ns) h =
    let (vs, e) = raw_values_total ns h.1 in (value.raw_value ∷ vs, rw e refl)
raw_values_total (several (composite name conv as_list nodes) ns) h = elim h.0 [ ]

converted_total :
    (n : MqttObjectDataNode)
    → NodeConverts n
    → (a : ℤ) × ((get_converted_value n >>= get_int) ≡ some a)
unfolding get_converted_value
converted_total (scalar name none ident value) h = (pos value.raw_value, unfold get_int in refl)
converted_total (scalar name (some conv) ident value) h =
    let (v, a, e, g) = h (value.raw_value ∷ []) in (a, rw e g)
converted_total (composite name none as_list nodes) h = (pos 0, unfold get_int in refl)
converted_total (composite name (some conv) as_list nodes) h =
    let (vs, q) = raw_values_total nodes h.1 in let (v, a, e, g) = h.0 vs in (a, rw q (rw e g))

-- An operation that returns.
abbrev pub Returns {ℓ} : {A : Type ℓ} → Option A → Type ℓ
Returns {A} o = (a : A) × (o ≡ some a)

if-Returns {ℓ} :
    {A : Type ℓ} (b : Bool) (x y : Option A) → Returns x → Returns y → Returns (if b then x else y)
if-Returns true x y h k = h
if-Returns false x y h k = k

bind-Returns {ℓ κ} :
    {A : Type ℓ} {B : Type κ} (o : Option A) (f : A → Option B)
    → Returns o
    → ((a : A) → Returns (f a))
    → Returns (o >>= f)
bind-Returns o f (a, e) k = let (b, h) = k a in (b, rw e h)

flag_of_node_total :
    (b : ℤ) (available_value : MqttValue) (n : MqttObjectDataNode)
    → get_int available_value ≡ some b
    → NodeConverts n
    → Returns (
        get_converted_value n >>= λ v. get_int v >>= λ a. get_int available_value >>= λ b.
        some (if not (same_int a b) then unavailable else available))
flag_of_node_total b available_value n e h =
    let (a, q) = converted_total n h in
    elim (Option-cases (get_converted_value n)) [
      | inl none_given ↦ absurd (ground (arith, none_given, q))
      | inr (v, given) ↦
          let g : get_int v ≡ some a = ground (arith, given, q) in
          (if not (same_int a b) then unavailable else available, rw given (rw g (rw e refl)))
    ]

get_available_flag_total :
    (b : ℤ) (available_value : MqttValue) (ns : List MqttObjectDataNode) (as_list : Bool)
    → get_int available_value ≡ some b
    → All NodeConverts ns
    → Returns (get_available_flag available_value (record { nodes = ns; output_as_list = as_list }))
unfolding get_available_flag
get_available_flag_total b available_value [] as_list e h = (available, refl)
get_available_flag_total b available_value (n ∷ ns) as_list e h =
    if-Returns _ _ _ (not_set, refl) (flag_of_node_total b available_value n e h.0)

update_availability_flag-Returns :
    (o : MqttObject) → Converts o → Returns (update_availability_flag o)
unfolding update_availability_flag availability_flag
update_availability_flag-Returns o c =
    bind-Returns (availability_flag o) _
      (if-Returns _ _ _ (unavailable, refl)
        (if-Returns _ _ _ (not_set, refl)
          (get_available_flag_total c.1.0 o.available_value o.availability.nodes
            o.availability.output_as_list c.1.1 c.0)))
      (λ flag. (record o { is_available = flag }, refl))

visit_object-Converts : (f : Visitor) (o : MqttObject) → Converts o → Converts (visit_object f o).0
visit_object-Converts f o c = (visit_nodes-Converts f o.availability.nodes c.0, c.1)

apply_event-Returns : (e : ObjectEvent) (o : MqttObject) → Converts o → Returns (apply_event e o)
unfolding apply_event update_register_values update_registers_read_failed set_modbus_network_state
apply_event-Returns (values_received network msg) o c =
    let f = update_value network msg in
    let next = (visit_object f o).0 in
    if-Returns _ _ _ (update_availability_flag-Returns next (visit_object-Converts f o c))
      (next, refl)
apply_event-Returns (operation_failed network base) o c =
    let f = update_read_failed network base in
    let next = (visit_object f o).0 in
    if-Returns _ _ _ (update_availability_flag-Returns next (visit_object-Converts f o c))
      (next, refl)
apply_event-Returns (network_changed network is_up) o c =
    let f = set_network_state network is_up in
    let next = (visit_object f o).0 in
    let flagged = update_availability_flag-Returns next (visit_object-Converts f o c) in
    bind-Returns (set_modbus_network_state network is_up o) _
      (if-Returns _ _ _
        (bind-Returns (update_availability_flag next) _ flagged (λ a. ((a, true), refl)))
        ((next, false), refl))
      (λ r. (r.0, refl))

-- An event keeps what the object converts.
apply_event-Converts :
    (e : ObjectEvent) (o after : MqttObject)
    → apply_event e o ≡ some after
    → Converts o
    → Converts after
apply_event-Converts e o after h c =
    let n = apply_event-nodes e o after h in
    (
      subst (All NodeConverts) (sym n.1)
          (visit_nodes-Converts (visitor_of e) o.availability.nodes c.0),
      (c.1.0, ap get_int n.2 ∙ c.1.1),
    )

pub apply_events_total :
    (es : List ObjectEvent) (o : MqttObject) → Converts o → Returns (apply_events es o)
unfolding apply_events
apply_events_total [] o c = (o, refl)
apply_events_total (e ∷ es) o c =
    let (next, h) = apply_event-Returns e o c in
    let (after, k) = apply_events_total es next (apply_event-Converts e o next h c) in
    (after, rw h k)
