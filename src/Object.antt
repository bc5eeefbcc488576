-- ===== src/Object.antt =====
-- libmodmqttsrv/mqttobject.hpp and mqttobject.cpp: the objects that are published, trees of registers
-- with their last values. A node with child nodes has at least one, and every other node has a
-- register: a node with neither, on which each operation dereferences a null pointer, has no value
-- here. The objects themselves are in Object/State. `none` is an exception of a converter. A time of
-- `time_point::min()` is `none`. A topic is a text, a payload a list of bytes.
pub mod State
pub mod Payload
pub mod Visit
pub mod Flag
pub mod History
pub mod Tracks
pub mod Total
pub mod Marks
pub mod Refines
use Prim.Native.String.{String}
use text.Mathlib.Text.{◌==◌ as str_eq}
use mqmgateway.Address.{
  RegisterType, same_type, ModbusAddressRange, last_register, overlaps, ModbusMessageBase,
}
use mqmgateway.Base.{
  pos, ℕ, ◌-◌, ◌%◌, ◌^◌, Bool, true, false, not, ◌&&◌, ◌||◌, Option, none, some, List, [], ◌∷◌, ltb,
  leb, ◌==◌, if◌then◌else◌, ◌>>=◌, get_elem?,
}
use mqmgateway.Command.{MsgRegisterValues}
use mqmgateway.Queues.{abs_diff}
use mqmgateway.Value.{MqttValue, int}

pub data AvailableFlag : Type 0 where
  not_set unavailable available : AvailableFlag

abbrev pub is_unavailable : AvailableFlag → Bool
is_unavailable unavailable = true
is_unavailable available = false
is_unavailable not_set = false

-- The virtual operations of a `DataConverter`; `none` is an exception.
pub record DataConverter : Type 0 where
  pub to_mqtt : List ℕ → Option MqttValue
  pub to_modbus : MqttValue → ℕ → Option (List ℕ)

pub record MqttObjectRegisterIdent : Type 0 where
  pub network_name : String
  pub slave_id : ℕ
  pub register_number : ℕ
  pub register_type : RegisterType

-- `MqttObjectRegisterIdent(network, slaveData)`.
abbrev pub ident_of : String → ModbusMessageBase → MqttObjectRegisterIdent
ident_of network base = record {
  network_name = network;
  slave_id = base.slave_id;
  register_number = base.range.register;
  register_type = base.range.register_type;
}

-- `Equal`, which is also what `Compare` tells of equal keys.
abbrev pub same_ident : MqttObjectRegisterIdent → MqttObjectRegisterIdent → Bool
same_ident a b =
    (a.slave_id == b.slave_id)
    && (a.register_number == b.register_number)
    && same_type a.register_type b.register_type
    && str_eq a.network_name b.network_name

abbrev pub as_modbus_address_range : MqttObjectRegisterIdent → ModbusAddressRange
as_modbus_address_range i = record {
  register = i.register_number;
  count = 1;
  register_type = i.register_type;
}

pub record MqttObjectRegisterValue : Type 0 where
  pub read_ok : Bool
  pub has_value : Bool
  pub raw_value : ℕ

-- The constructor.
abbrev pub new_value : MqttObjectRegisterValue
new_value = record { read_ok = true; has_value = false; raw_value = 0 }

unfoldable pub set_value : ℕ → MqttObjectRegisterValue → MqttObjectRegisterValue × Bool
set_value val v =
    if not (v.raw_value == val)
    then (record v { has_value = true; raw_value = val }, true)
    else (record v { has_value = true }, not v.has_value)

abbrev pub set_read_error : Bool → MqttObjectRegisterValue → MqttObjectRegisterValue
set_read_error flag v = record v { read_ok = not flag }

mutual
  pub data MqttObjectDataNode : Type 0 where
    scalar :
        String
        → Option DataConverter
        → MqttObjectRegisterIdent
        → MqttObjectRegisterValue
        → MqttObjectDataNode
    composite : String → Option DataConverter → Bool → MqttObjectDataNodeList → MqttObjectDataNode

  -- The children, at least one.
  pub data MqttObjectDataNodeList : Type 0 where
    single : MqttObjectDataNode → MqttObjectDataNodeList
    several : MqttObjectDataNode → MqttObjectDataNodeList → MqttObjectDataNodeList

-- What an operation does to the register of a node: the new value and whether it counts as a change.
abbrev pub Visitor : Type 0
Visitor = MqttObjectRegisterIdent → MqttObjectRegisterValue → MqttObjectRegisterValue × Bool

-- The recursion of the three operations that change a node: over all registers, and whether one of
-- them has changed.
unfoldable mutual
  pub visit_node : Visitor → MqttObjectDataNode → MqttObjectDataNode × Bool
  visit_node f (scalar name conv ident value) =
      let (next, ret) = f ident value in (scalar name conv ident next, ret)
  visit_node f (composite name conv as_list nodes) =
      let (next, ret) = visit_children f nodes in (composite name conv as_list next, ret)

  pub visit_children : Visitor → MqttObjectDataNodeList → MqttObjectDataNodeList × Bool
  visit_children f (single n) = let (next, ret) = visit_node f n in (single next, ret)
  visit_children f (several n ns) =
      let (next, ret) = visit_node f n in
      let (rest, others) = visit_children f ns in (several next rest, ret || others)

-- The recursion of `isPolling` and `hasAllValues`.
abbrev pub Test : Type 0
Test = MqttObjectRegisterIdent → MqttObjectRegisterValue → Bool

unfoldable mutual
  pub every_register : Test → MqttObjectDataNode → Bool
  every_register p (scalar name conv ident value) = p ident value
  every_register p (composite name conv as_list nodes) = every_child p nodes

  pub every_child : Test → MqttObjectDataNodeList → Bool
  every_child p (single n) = every_register p n
  every_child p (several n ns) = every_register p n && every_child p ns

-- The recursion of `hasRegisterIn`.
unfoldable mutual
  pub some_register : Test → MqttObjectDataNode → Bool
  some_register p (scalar name conv ident value) = p ident value
  some_register p (composite name conv as_list nodes) = some_child p nodes

  pub some_child : Test → MqttObjectDataNodeList → Bool
  some_child p (single n) = some_register p n
  some_child p (several n ns) = some_register p n || some_child p ns

abbrev pub is_of_slave : String → ModbusMessageBase → MqttObjectRegisterIdent → Bool
is_of_slave network base ident =
    (base.slave_id == ident.slave_id)
    && same_type base.range.register_type ident.register_type
    && str_eq network ident.network_name

-- `updateRegisterValues` on a register. The message has as many registers as its range.
unfoldable pub update_value : String → MsgRegisterValues → Visitor
unfolding set_value
update_value network msg ident v =
    if is_of_slave network msg.base ident
      && leb msg.base.range.register ident.register_number
      && leb ident.register_number (last_register msg.base.range)
    then elim (get_elem? msg.registers (ident.register_number - msg.base.range.register)) [
      | none ↦ (v, false)
      | some val ↦ let (next, ret) = set_value val v in (set_read_error false next, ret)
    ]
    else (v, false)

-- `updateRegistersReadFailed` on a register: the distance to the first register of the range is an
-- absolute value, cut to 16 bits.
unfoldable pub update_read_failed : String → ModbusMessageBase → Visitor
update_read_failed network base ident v =
    if is_of_slave network base ident
      && ltb (abs_diff ident.register_number base.range.register % 2 ^ 16) base.range.count
    then (set_read_error true v, true)
    else (v, false)

abbrev pub differ : Bool → Bool → Bool
differ a b = if a then not b else b

-- `setModbusNetworkState` on a register.
unfoldable pub set_network_state : String → Bool → Visitor
set_network_state network is_up ident v =
    if str_eq network ident.network_name && differ v.read_ok is_up
    then (set_read_error (not is_up) v, true)
    else (v, false)

-- `hasRegisterIn` on a register.
unfoldable pub is_register_in : String → ModbusMessageBase → Test
unfolding overlaps
is_register_in network base ident v =
    (ident.slave_id == base.slave_id)
    && overlaps base.range (as_modbus_address_range ident)
    && str_eq ident.network_name network

abbrev pub node_name : MqttObjectDataNode → String
node_name (scalar name conv ident value) = name
node_name (composite name conv as_list nodes) = name

-- `getRawValue`: on a composite node an assertion fails.
abbrev pub get_raw_value : MqttObjectDataNode → Option ℕ
get_raw_value (scalar name conv ident value) = some value.raw_value
get_raw_value (composite name conv as_list nodes) = none

unfoldable pub raw_values : MqttObjectDataNodeList → Option (List ℕ)
raw_values (single n) = get_raw_value n >>= λ v. some (v ∷ [])
raw_values (several n ns) = get_raw_value n >>= λ v. raw_values ns >>= λ vs. some (v ∷ vs)

-- Without a converter a composite node gives the raw value 0 that it was made with.
unfoldable pub get_converted_value : MqttObjectDataNode → Option MqttValue
unfolding raw_values
get_converted_value (scalar name (some conv) ident value) = conv.to_mqtt (value.raw_value ∷ [])
get_converted_value (scalar name none ident value) = some (int (pos value.raw_value))
get_converted_value (composite name (some conv) as_list nodes) = raw_values nodes >>= conv.to_mqtt
get_converted_value (composite name none as_list nodes) = some (int (pos 0))
