-- ===== src/Client/Commands.antt =====
-- Commands: `onMessage` and `addCommand` of mqttclient.cpp, `sendCommand` of modbus_client.hpp, and
-- default_command_converter.cpp. The functions of `Outside` are the code that this library does not
-- model: what rapidjson reads, and `createConverterFromString`.
use Prim.Native.String.{String}
use text.Mathlib.Text.{◌==◌ as str_eq}
use mqmgateway.Base.{
  ℤ, pos, negsuc, ℕ, Bool, true, false, not, ◌&&◌, Option, none, some, List, [], ◌∷◌, ◌++◌, ltb,
  leb, ◌==◌, if◌then◌else◌, ◌>>=◌, length,
}
use mqmgateway.Client.{
  RpcMode, rpc_disabled, rpc_read, rpc_read_write, MqttObjectCommand, MqttClient, Outcome, returned,
  failed,
}
use mqmgateway.Client.Message.{handle_rpc_request}
use mqmgateway.Client.Rpc.{RpcPayload, has_client, send_to}
use mqmgateway.Object.{DataConverter}
use mqmgateway.Thread.Dispatch.{ThreadMessage, write_values}
use mqmgateway.Value.{binary, c_str, fits, get_int}

-- `read_array` reads a JSON array, in which `none` is an element that is no integer; its result is
-- `none` if the text is anything else.
pub record Outside : Type 0 where
  pub read_request_payload : List ℕ → RpcPayload
  pub read_array : List ℕ → Option (List (Option ℤ))
  pub create_converter : String → Option DataConverter

-- What a conversion gives: registers, a `ConvException`, or a failed assertion.
pub data Converted : Type 0 where
  converted : List ℕ → Converted
  conversion_refused : Converted
  assertion_failed : Converted

abbrev pub to_uint16 : ℤ → Option ℕ
to_uint16 (pos n) = if leb n 65535 then some n else none
to_uint16 (negsuc n) = none

abbrev pub prepend_register : ℕ → Converted → Converted
prepend_register v (converted vs) = converted (v ∷ vs)
prepend_register v conversion_refused = conversion_refused
prepend_register v assertion_failed = assertion_failed

-- The loop of `parseAsJson`; `GetInt` wants a signed integer of 32 bits.
unfoldable pub elements_to_registers : List (Option ℤ) → Converted
elements_to_registers [] = converted []
elements_to_registers (none ∷ es) = assertion_failed
elements_to_registers (some z ∷ es) =
    let rest = elements_to_registers es in
    if not (fits 32 z)
    then assertion_failed
    else elim (to_uint16 z) [ none ↦ conversion_refused | some v ↦ prepend_register v rest ]

-- `DefaultCommandConverter::toModbus`.
unfoldable pub default_to_modbus : Outside → List ℕ → ℕ → Converted
unfolding elements_to_registers get_int c_str
default_to_modbus out text count =
    if ltb 1 count
    then elim (out.read_array (c_str text)) [
      | none ↦ conversion_refused
      | some es ↦ if not (length es == count) then conversion_refused else elements_to_registers es
    ]
    else elim (get_int (binary text) >>= to_uint16) [
      | none ↦ conversion_refused
      | some v ↦ converted (v ∷ [])
    ]

-- The converter of the command, or the default one. The payload is a text.
abbrev pub command_registers : Outside → MqttObjectCommand → List ℕ → Converted
command_registers out cmd payload = elim cmd.converter [
  | none ↦ default_to_modbus out payload cmd.base.range.count
  | some conv ↦ elim (conv.to_modbus (binary payload) cmd.base.range.count) [
    | none ↦ conversion_refused
    | some regs ↦ converted regs
  ]
]

-- `ModbusClient::sendCommand`: the message has as many registers as it gives.
abbrev pub command_message : ℕ → MqttObjectCommand → List ℕ → ThreadMessage
command_message now cmd registers = write_values (record {
  base = record (cmd.base) { range = record (cmd.base.range) { count = length registers } };
  registers = registers;
  creation_time = now;
  write_mode = cmd.write_mode;
})

abbrev pub find_command : String → List MqttObjectCommand → Option MqttObjectCommand
find_command topic [] = none
find_command topic (cmd ∷ cmds) =
    if str_eq cmd.topic topic then some cmd else find_command topic cmds

-- `addCommand`: `insert` keeps the command that the topic has. The order of the map is left open.
unfoldable pub add_command : MqttObjectCommand → MqttClient → MqttClient
add_command cmd c = elim (find_command cmd.topic c.commands) [
  | none ↦ record c { commands = c.commands ++ cmd ∷ [] }
  | some old ↦ c
]

-- A message on the topic of a command. A network without a client, a refused conversion and a wrong
-- number of registers are logged.
unfoldable pub process_command : Outside → ℕ → MqttObjectCommand → List ℕ → MqttClient → Outcome
unfolding default_to_modbus send_to
process_command out now cmd payload c =
    if not (has_client cmd.network_name c.modbus_clients)
    then returned c
    else elim (command_registers out cmd payload) [
      | assertion_failed ↦ failed
      | conversion_refused ↦ returned c
      | converted regs ↦
          if not (length regs == cmd.base.range.count)
          then returned c
          else returned (record c {
            modbus_clients =
                send_to cmd.network_name (command_message now cmd regs) c.modbus_clients;
          })
    ]

abbrev pub rpc_enabled : RpcMode → Bool
rpc_enabled rpc_disabled = false
rpc_enabled rpc_read = true
rpc_enabled rpc_read_write = true

-- The callback `onMessage`; `none` is an RPC request that is out of the model.
unfoldable pub on_message :
    Outside → ℕ → String → List ℕ → Option String → List ℕ → MqttClient → Option Outcome
unfolding process_command handle_rpc_request
on_message out now topic payload response_topic correlation c =
    elim (find_command topic c.commands) [
      | some cmd ↦ some (process_command out now cmd payload c)
      | none ↦
          if rpc_enabled c.rpc_mode && str_eq c.rpc_request_topic topic
          then (handle_rpc_request out.create_converter now (out.read_request_payload payload)
                response_topic correlation c
              >>= λ next. some (returned next))
          else some (returned c)
    ]
