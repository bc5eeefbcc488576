-- ===== src/Client/Responses.antt =====
-- The answers to RPC requests: `publishRpcResponse` and both `publishRpcError` of mqttclient.cpp.
use Prim.Native.String.{String}
use mqmgateway.Address.{ModbusMessageBase}
use mqmgateway.Base.{ℤ, pos, ℕ, Option, none, some, List, [], ◌∷◌, if◌then◌else◌, ◌>>=◌}
use mqmgateway.Client.{MqttCall, publish_response, PendingRpcRequest, MqttClient, call}
use mqmgateway.Command.{MsgRegisterValues}
use mqmgateway.Object.Payload.{Json, json_int, json_array, JsonItems, no_items, next_item}
use mqmgateway.Value.{digits, get_string, same_int}

abbrev pub find_pending : ℤ → List (ℤ × PendingRpcRequest) → Option PendingRpcRequest
find_pending id [] = none
find_pending id ((key, p) ∷ entries) = if same_int key id then some p else find_pending id entries

abbrev pub erase_pending : ℤ → List (ℤ × PendingRpcRequest) → List (ℤ × PendingRpcRequest)
erase_pending id [] = []
erase_pending id ((key, p) ∷ entries) =
    if same_int key id then entries else (key, p) ∷ erase_pending id entries

-- A call whose exception is logged.
abbrev pub logged_call : MqttCall → MqttClient → MqttClient
logged_call k c = if c.accepts k then call k c else c

-- `publishRpcError(responseTopic, correlationData, errorMsg)`.
abbrev pub publish_error : String → List ℕ → String → MqttClient → MqttClient
publish_error topic correlation message c =
    logged_call (publish_response topic [] correlation (some message)) c

abbrev pub json_numbers : List ℕ → JsonItems
json_numbers [] = no_items
json_numbers (v ∷ vs) = next_item (json_int (pos v)) (json_numbers vs)

-- The values of registers without a converter.
unfoldable pub raw_payload : (Json → List ℕ) → List ℕ → List ℕ
unfolding digits
raw_payload text [] = text (json_array no_items)
raw_payload text (v ∷ []) = digits v
raw_payload text (v ∷ w ∷ vs) = text (json_array (json_numbers (v ∷ w ∷ vs)))

-- The payload of the answer to a request; `none` is an exception, of the converter or of a value
-- that has no text.
unfoldable pub response_payload : (Json → List ℕ) → PendingRpcRequest → List ℕ → Option (List ℕ)
unfolding get_string raw_payload
response_payload text pending registers =
    if pending.is_write then some (raw_payload text registers) else elim pending.converter [
      | some conv ↦ conv.to_mqtt registers >>= get_string
      | none ↦ some (raw_payload text registers)
    ]

-- `publishRpcResponse`.
unfoldable pub publish_rpc_response : MsgRegisterValues → MqttClient → MqttClient
unfolding response_payload
publish_rpc_response msg c = elim (find_pending msg.base.command_id c.pending_rpc) [
  | none ↦ c
  | some pending ↦
      let next = record c { pending_rpc = erase_pending msg.base.command_id c.pending_rpc } in
      elim (response_payload c.json_text pending msg.registers) [
        | none ↦ publish_error pending.response_topic pending.correlation_data "internal error" next
        | some payload ↦
            logged_call
              (publish_response pending.response_topic payload pending.correlation_data none) next
      ]
]

-- `publishRpcError(networkName, slaveData)`.
unfoldable pub publish_rpc_error : ModbusMessageBase → MqttClient → MqttClient
publish_rpc_error base c = elim (find_pending base.command_id c.pending_rpc) [
  | none ↦ c
  | some pending ↦
      publish_error pending.response_topic pending.correlation_data
        (if pending.is_write then "modbus write failed" else "modbus read failed")
        (record c { pending_rpc = erase_pending base.command_id c.pending_rpc })
]
