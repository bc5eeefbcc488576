-- ===== src/Object/State.antt =====
-- `MqttObjectState`, `MqttObjectAvailability` and `MqttObject` of mqttobject.hpp and mqttobject.cpp.
use Prim.Native.String.{String, ◌++◌ as append}
use mqmgateway.Address.{ModbusMessageBase}
use mqmgateway.Base.{
  pos, ℕ, ◌+◌, Bool, true, false, not, ◌&&◌, ◌||◌, Option, none, some, List, [], ◌∷◌, ◌++◌, ltb,
  leb, if◌then◌else◌, ◌>>=◌, length,
}
use mqmgateway.Command.{MsgRegisterValues}
use mqmgateway.Object.{
  AvailableFlag, not_set, unavailable, available, is_unavailable, MqttObjectDataNode, Visitor,
  visit_node, Test, every_register, some_register, update_value, update_read_failed,
  set_network_state, is_register_in, get_converted_value,
}
use mqmgateway.Poll.{PublishMode, on_change, every_poll, once}
use mqmgateway.Value.{MqttValue, int, get_int, same_int}

pub record MqttObjectState : Type 0 where
  pub nodes : List MqttObjectDataNode
  pub output_as_list : Bool

pub record MqttObject : Type 0 where
  pub topic : String
  pub state_topic : String
  pub availability_topic : String
  pub state : MqttObjectState
  pub availability : MqttObjectState
  pub available_value : MqttValue
  pub is_available : AvailableFlag
  pub retain : Bool
  pub publish_mode : PublishMode
  pub last_published_payload : List ℕ
  pub last_publish_time : Option ℕ
  pub every_poll_period : ℕ

-- The loops over `mNodes`, and whether a register has changed.
unfoldable pub visit_nodes : Visitor → List MqttObjectDataNode → List MqttObjectDataNode × Bool
visit_nodes f [] = ([], false)
visit_nodes f (n ∷ ns) =
    let (next, ret) = visit_node f n in
    let (rest, others) = visit_nodes f ns in (next ∷ rest, ret || others)

abbrev pub visit_state : Visitor → MqttObjectState → MqttObjectState × Bool
visit_state f s = let (next, ret) = visit_nodes f s.nodes in (record s { nodes = next }, ret)

unfoldable pub every_node : Test → List MqttObjectDataNode → Bool
every_node p [] = true
every_node p (n ∷ ns) = every_register p n && every_node p ns

unfoldable pub some_node : Test → List MqttObjectDataNode → Bool
some_node p [] = false
some_node p (n ∷ ns) = some_register p n || some_node p ns

abbrev pub is_polling : MqttObjectState → Bool
is_polling s = every_node (λ ident v. v.read_ok) s.nodes

abbrev pub has_all_values : MqttObjectState → Bool
has_all_values s = every_node (λ ident v. v.has_value) s.nodes

-- `MqttObjectAvailability::getAvailableFlag`. Only the first node is looked at.
unfoldable pub get_available_flag : MqttValue → MqttObjectState → Option AvailableFlag
unfolding get_converted_value get_int
get_available_flag available_value s = elim s.nodes [
  | [] ↦ some available
  | n ∷ ns ↦
      if not (has_all_values s) || not (is_polling s)
      then some not_set
      else (get_converted_value n >>= λ v. get_int v >>= λ a. get_int available_value >>= λ b.
          some (if not (same_int a b) then unavailable else available))
]

-- What `updateAvailablityFlag` computes.
unfoldable pub availability_flag : MqttObject → Option AvailableFlag
unfolding get_available_flag
availability_flag o =
    if not (is_polling o.availability) || not (is_polling o.state)
    then some unavailable
    else (if not (has_all_values o.availability) || not (has_all_values o.state)
        then some not_set
        else get_available_flag o.available_value o.availability)

unfoldable pub update_availability_flag : MqttObject → Option MqttObject
unfolding availability_flag
update_availability_flag o = availability_flag o >>= λ flag. some (record o { is_available = flag })

-- The constructor, with the publish mode that is set at once.
unfoldable pub new_object : String → PublishMode → ℕ → MqttObject
new_object topic mode period = record {
  topic = topic;
  state_topic = append topic "/state";
  availability_topic = append topic "/availability";
  state = record { nodes = []; output_as_list = false };
  availability = record { nodes = []; output_as_list = false };
  available_value = int (pos 1);
  is_available = not_set;
  retain = true;
  publish_mode = mode;
  last_published_payload = [];
  last_publish_time = none;
  every_poll_period = period;
}

unfoldable pub add_data_node : MqttObjectDataNode → Bool → MqttObjectState → MqttObjectState
add_data_node node force_list s = record {
  nodes = s.nodes ++ node ∷ [];
  output_as_list = force_list || ltb 1 (length (s.nodes ++ node ∷ []));
}

unfoldable pub has_register_in : String → ModbusMessageBase → MqttObject → Bool
unfolding some_node is_register_in
has_register_in network base o =
    some_node (is_register_in network base) o.state.nodes
    || some_node (is_register_in network base) o.availability.nodes

-- Both parts of an object after an operation on its registers, and whether one of them has changed.
abbrev pub visit_object : Visitor → MqttObject → MqttObject × Bool
visit_object f o =
    let (state, state_changed) = visit_state f o.state in
    let (availability, avail_changed) = visit_state f o.availability in
    (record o { state = state; availability = availability }, state_changed || avail_changed)

-- The flag is computed anew if a register has changed, or if it is 0 in the source: `!mIsAvailable`
-- does not hold of `NotSet`, which is -1.
unfoldable pub update_register_values : String → MsgRegisterValues → MqttObject → Option MqttObject
unfolding visit_nodes update_availability_flag
update_register_values network msg o =
    let (next, changed) = visit_object (update_value network msg) o in
    if changed || is_unavailable next.is_available then update_availability_flag next else some next

unfoldable pub update_registers_read_failed :
    String → ModbusMessageBase → MqttObject → Option MqttObject
unfolding visit_nodes update_availability_flag
update_registers_read_failed network base o =
    let (next, changed) = visit_object (update_read_failed network base) o in
    if changed then update_availability_flag next else some next

-- The result tells whether a register has changed.
unfoldable pub set_modbus_network_state : String → Bool → MqttObject → Option (MqttObject × Bool)
unfolding visit_nodes update_availability_flag
set_modbus_network_state network is_up o =
    let (next, changed) = visit_object (set_network_state network is_up) o in
    if changed
    then (update_availability_flag next >>= λ after. some (after, true))
    else some (next, false)

unfoldable pub need_state_republish : ℕ → MqttObject → Bool
need_state_republish now o = elim o.publish_mode [
  | on_change ↦ false
  | once ↦ false
  | every_poll ↦ elim o.last_publish_time [
    | none ↦ true
    | some time ↦ leb (time + o.every_poll_period) now
  ]
]
