-- ===== src/Client/Message.antt =====
-- `handleRpcRequest` of mqttclient.cpp. What rapidjson reads in a payload is an argument. The messages
-- to the modbus thread have slave ids and register numbers that are not negative: `none` is a request
-- with another one, which is out of the model.
use Prim.Native.String.{String, ◌++◌ as append}
use text.Mathlib.Text.{◌==◌ as str_eq}
use mqmgateway.Address.{RegisterType, coil, bit, holding, input, ModbusMessageBase}
use mqmgateway.Base.{
  ℤ, pos, negsuc, ℕ, suc, ◌-◌, ◌^◌, Bool, true, false, not, ◌||◌, Option, none, some, List, ◌∷◌,
  ltb, ◌==◌, if◌then◌else◌, length,
}
use mqmgateway.Client.{
  RpcMode, rpc_disabled, rpc_read, rpc_read_write, ModbusClient, PendingRpcRequest, MqttClient,
}
use mqmgateway.Client.Responses.{erase_pending, publish_error}
use mqmgateway.Client.Rpc.{
  codes, register_number_from_string, RpcValue, RpcDocument, RpcPayload, parse_error, no_object,
  document, Checked, passed, refused, bind_checked, check, text_member, int_member,
  register_type_of, converter_of, register_of, has_client, send_to, raw_write_values,
  rpc_write_value_from_json,
}
use mqmgateway.Command.{auto}
use mqmgateway.Object.{DataConverter}
use mqmgateway.Thread.Dispatch.{ThreadMessage, write_values, read_request}

-- A request that was checked. A write has the values of its registers.
pub record RpcRequest : Type 0 where
  pub network_name : String
  pub slave : ℤ
  pub register_number : ℤ
  pub register_type : RegisterType
  pub converter : Option DataConverter
  pub count : ℕ
  pub values_to_write : Option (List ℕ)

abbrev pub is_read_only : RegisterType → Bool
is_read_only coil = false
is_read_only bit = true
is_read_only holding = false
is_read_only input = true

-- The limits of libmodbus.
abbrev pub max_count : RegisterType → ℕ
max_count coil = 2000
max_count bit = 2000
max_count holding = 125
max_count input = 125

abbrev pub range_message : RegisterType → String
range_message coil = "count out of range [1, 2000]"
range_message bit = "count out of range [1, 2000]"
range_message holding = "count out of range [1, 125]"
range_message input = "count out of range [1, 125]"

abbrev pub count_in_range : RegisterType → ℤ → Checked ℕ
count_in_range type (pos n) =
    if ltb n 1 || ltb (max_count type) n then refused (range_message type) else passed n
count_in_range type (negsuc n) = refused (range_message type)

abbrev pub count_of : RegisterType → Option RpcValue → Checked ℕ
count_of type none = passed 1
count_of type (some v) =
    bind_checked (int_member (some v) "invalid field: count") (count_in_range type)

abbrev pub can_write : RpcMode → Bool
can_write rpc_disabled = false
can_write rpc_read = false
can_write rpc_read_write = true

-- The registers that a converter makes of the value.
abbrev pub converted_values : DataConverter → RpcValue → ℕ → Checked (List ℕ)
converted_values conv v count = bind_checked (rpc_write_value_from_json v) (λ value.
    elim (conv.to_modbus value count) [
      | none ↦ refused ""
      | some regs ↦
          if not (length regs == count)
          then refused "converter produced a wrong number of registers"
          else passed regs
    ])

-- The count of a request and, for a write, its values.
unfoldable pub count_and_values :
    RegisterType
    → Option DataConverter
    → Option RpcValue
    → Option RpcValue
    → Checked (ℕ × Option (List ℕ))
unfolding raw_write_values rpc_write_value_from_json
count_and_values type none count (some v) =
    bind_checked (raw_write_values v) (λ values. passed (length values, some values))
count_and_values type none count none = bind_checked (count_of type count) (λ n. passed (n, none))
count_and_values type (some conv) count none =
    bind_checked (count_of type count) (λ n. passed (n, none))
count_and_values type (some conv) count (some v) =
    bind_checked (count_of type count)
      (λ n. bind_checked (converted_values conv v n) (λ values. passed (n, some values)))

abbrev pub is_some {ℓ} : {A : Type ℓ} → Option A → Bool
is_some none = false
is_some (some a) = true

-- The checks of `handleRpcRequest` from the network on, for the fields that were read.
unfoldable pub check_target :
    RpcMode
    → List ModbusClient
    → RpcDocument
    → String
    → ℤ
    → ℤ
    → RegisterType
    → Option DataConverter
    → Checked RpcRequest
unfolding count_and_values
check_target mode clients d network slave number type conv =
    bind_checked (check (has_client network clients) (append "network not found: " network)) (λ _.
      bind_checked
        (check (not (is_some d.value) || can_write mode) "writes are disabled (mode: read)")
        (λ _.
          bind_checked
            (check (not (is_some d.value) || not (is_read_only type)) "register_type is read-only")
            (λ _. bind_checked (count_and_values type conv d.count d.value) (λ r. passed (record {
              network_name = network;
              slave = slave;
              register_number = number;
              register_type = type;
              converter = conv;
              count = r.0;
              values_to_write = r.1;
            })))))

-- All the checks, in their order.
unfoldable pub check_request :
    RpcMode → (String → Option DataConverter) → List ModbusClient → RpcDocument → Checked RpcRequest
unfolding register_number_from_string check_target
check_request mode create clients d =
    bind_checked (text_member d.network "missing or invalid field: network") (λ network.
      bind_checked (int_member d.slave "missing or invalid field: slave") (λ slave.
        bind_checked (text_member d.register "missing or invalid field: register") (λ register.
          bind_checked (register_of (codes register)) (λ number.
            bind_checked (register_type_of d.register_type) (λ type.
              bind_checked (converter_of create d.converter)
                (λ conv. check_target mode clients d network slave number type conv))))))

-- The id of the next request, from -1 down to the least integer of 32 bits.
unfoldable pub next_id : ℤ → ℤ
next_id (pos n) = negsuc 0
next_id (negsuc n) = if n == 2 ^ 31 - 1 then negsuc 0 else negsuc (suc n)

-- `mPendingRpc[id] = ...`, which replaces an entry with the same id.
abbrev pub put_pending :
    ℤ → PendingRpcRequest → List (ℤ × PendingRpcRequest) → List (ℤ × PendingRpcRequest)
put_pending id p pending = (id, p) ∷ erase_pending id pending

-- The message to the modbus thread.
abbrev pub request_message : ℕ → ModbusMessageBase → Option (List ℕ) → ThreadMessage
request_message now base none = read_request base
request_message now base (some registers) =
    write_values
      (record { base = base; registers = registers; creation_time = now; write_mode = auto })

-- A request that passed the checks gets an id, waits for its answer and goes to the thread.
unfoldable pub enqueue_request : ℕ → String → List ℕ → ℕ → ℕ → RpcRequest → MqttClient → MqttClient
unfolding next_id send_to
enqueue_request now topic correlation slave number r c =
    let id = next_id c.next_rpc_id in
    let base : ModbusMessageBase = record {
      range = record { register = number; count = r.count; register_type = r.register_type };
      slave_id = slave;
      command_id = id;
    } in
    let pending : PendingRpcRequest = record {
      network_name = r.network_name;
      response_topic = topic;
      correlation_data = correlation;
      base = base;
      is_write = is_some r.values_to_write;
      converter = r.converter;
    } in
    record c {
      next_rpc_id = id;
      pending_rpc = put_pending id pending c.pending_rpc;
      modbus_clients =
          send_to r.network_name (request_message now base r.values_to_write) c.modbus_clients;
    }

-- The two numbers of a request as numbers of the modbus messages.
abbrev pub enqueue_checked : ℕ → String → List ℕ → RpcRequest → MqttClient → Option MqttClient
enqueue_checked now topic correlation r c = elim r.slave [
  | negsuc s ↦ none
  | pos slave ↦ elim r.register_number [
    | negsuc n ↦ none
    | pos number ↦ some (enqueue_request now topic correlation slave number r c)
  ]
]

-- `handleRpcRequest`. The request has no response topic if the pointer is null.
unfoldable pub handle_rpc_request :
    (String → Option DataConverter)
    → ℕ
    → RpcPayload
    → Option String
    → List ℕ
    → MqttClient
    → Option MqttClient
unfolding check_request enqueue_request
handle_rpc_request create now payload response_topic correlation c = elim response_topic [
  | none ↦ some c
  | some topic ↦ if str_eq topic "" then some c else elim payload [
    | parse_error message ↦ some (publish_error topic correlation message c)
    | no_object ↦ some (publish_error topic correlation "object expected" c)
    | document d ↦ elim (check_request c.rpc_mode create c.modbus_clients d) [
      | refused message ↦ some (publish_error topic correlation message c)
      | passed r ↦ enqueue_checked now topic correlation r c
    ]
  ]
]
