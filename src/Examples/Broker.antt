-- ===== src/Examples/Broker.antt =====
-- The client of the broker.
use Prim.Native.String.{String}
use text.Mathlib.Text.{◌==◌ as str_eq}
use mqmgateway.Address.{holding}
use mqmgateway.Base.{
  pos, negsuc, ℕ, ◌+◌, ◌≡◌, refl, ◌≢◌, ◌⊎◌, true, false, none, some, List, [], ◌∷◌, ◌++◌, arith,
  if◌then◌else◌,
}
use mqmgateway.Client.{
  connecting, connected_state, rpc_read, rpc_read_write, MqttCall, reconnect_call, ModbusClient,
  MqttClient, returned, publish_failed, failed,
}
use mqmgateway.Client.Announces.{announcement, flag_announced}
use mqmgateway.Client.Answers.{answered, waiting, Account}
use mqmgateway.Client.Checks.{IsRead, IsWrite, check_request_lem}
use mqmgateway.Client.Commands.{Outside}
use mqmgateway.Client.Ends.{Ends}
use mqmgateway.Client.Message.{RpcRequest, count_and_values, check_request}
use mqmgateway.Client.Process.{process_object}
use mqmgateway.Client.Reports.{Reports, handle_event, handle_event-Reports}
use mqmgateway.Client.Requests.{
  ClientEvent, rpc_request, from_thread, connection_made, connection_lost,
}
use mqmgateway.Client.Responses.{publish_rpc_response}
use mqmgateway.Client.Rpc.{
  register_number_from_string, rpc_text, rpc_integer, RpcDocument, no_object, document, passed,
  has_client,
}
use mqmgateway.Client.Runs.{client_run, requests, forgotten, client_run_answers}
use mqmgateway.Client.Shutdown.{after_shutdown, IsOver, on_disconnect-shutdown}
use mqmgateway.Command.{register_values, register_read_failed}
use mqmgateway.Examples.Data.{base_at}
use mqmgateway.Examples.Objects.{ident_at, sensor, values_at}
use mqmgateway.Object.{
  AvailableFlag, not_set, available, MqttObjectRegisterValue, new_value, scalar, visit_node,
  every_register, update_value, get_converted_value,
}
use mqmgateway.Object.Flag.{ObjectEvent, values_received, apply_event}
use mqmgateway.Object.State.{MqttObject, every_node, get_available_flag, update_register_values}
use mqmgateway.Value.{digits, strtol, get_int, get_string}

abbrev outside : Outside
outside = record {
  read_request_payload = λ text. no_object;
  read_array = λ text. none;
  create_converter = λ spec. none;
}

abbrev thread_client : ModbusClient
thread_client = record { network_name = "tcptest"; sent = [] }

abbrev client : MqttClient
client = record {
  connection_state = connected_state;
  is_started = true;
  modbus_clients = thread_client ∷ [];
  objects = (ident_at 10, 0 ∷ []) ∷ [];
  command_objects = [];
  commands = [];
  rpc_mode = rpc_read_write;
  rpc_request_topic = "gateway/rpc/modbus_request";
  next_rpc_id = pos 0;
  pending_rpc = [];
  store = λ ref. sensor;
  calls = [];
  json_text = λ json. 91 ∷ 93 ∷ [];
  accepts = λ k. true;
}

abbrev request : RpcDocument
request = record {
  network = some (rpc_text "tcptest");
  slave = some (rpc_integer (pos 1));
  register = some (rpc_text "11");
  register_type = none;
  converter = none;
  count = some (rpc_integer (pos 2));
  value = none;
}

-- A read that is answered, one that is refused, one that fails, one that waits when the connection is lost,
-- and one that waits at the end.
abbrev meets : List (ClientEvent × ℕ)
meets =
    (rpc_request (document request) (some "reply/a") (1 ∷ []), 10)
    ∷ (rpc_request no_object (some "reply/b") [], 11)
    ∷ (from_thread "tcptest" (register_values (values_at 10 (7 ∷ 8 ∷ []) (negsuc 0))), 12)
    ∷ (rpc_request (document request) (some "reply/c") [], 13)
    ∷ (from_thread "tcptest" (register_read_failed (base_at 1 10 2 (negsuc 1))), 14)
    ∷ (rpc_request (document request) (some "reply/d") [], 15)
    ∷ (connection_lost, 16)
    ∷ (connection_made, 17)
    ∷ (rpc_request (document request) (some "reply/c") [], 18)
    ∷ []

abbrev by_topic : String → List ℕ → ℕ
by_topic topic correlation =
    if str_eq topic "reply/c" then 1 else (if str_eq topic "reply/d" then 10 else 0)

abbrev met : MqttClient
met = elim (client_run outside meets client) [ none ↦ client | some d ↦ d ]

met_lem : client_run outside meets client ≡ some met
unfolding client_run register_number_from_string digits publish_rpc_response get_string
    update_register_values every_register visit_node update_value every_node
met_lem = refl

account : Account by_topic 0 0 client
account = record {
  balance = refl;
  used = refl;
  fresh = tt;
  takes_responses = λ topic payload correlation err. refl;
}

client_run_answers_example :
    answered by_topic met.calls
      + waiting by_topic met.pending_rpc
      + forgotten by_topic outside meets client
    ≡ requests by_topic meets
client_run_answers_example =
    client_run_answers by_topic outside meets client met (omega arith) account met_lem

-- A sensor that lacks the value of its availability register, and the one that has it.
abbrev known : ℕ → MqttObjectRegisterValue
known v = record { read_ok = true; has_value = true; raw_value = v }

abbrev sensor_with : MqttObjectRegisterValue → AvailableFlag → MqttObject
sensor_with v flag = record sensor {
  state = record { nodes = scalar "" none (ident_at 10) (known 7) ∷ []; output_as_list = false };
  availability = record { nodes = scalar "" none (ident_at 20) v ∷ []; output_as_list = false };
  is_available = flag;
}

abbrev waiting_client : MqttClient
waiting_client = record client { store = λ ref. sensor_with new_value not_set }

abbrev turned_on : ObjectEvent
turned_on = values_received "tcptest" (values_at 20 (1 ∷ []) (pos 0))

turned_on_lem :
    apply_event turned_on (sensor_with new_value not_set) ≡ some (sensor_with (known 1) available)
unfolding apply_event update_register_values visit_node update_value every_node every_register
    get_available_flag get_converted_value get_int
turned_on_lem = refl

handle_event-Reports_example :
    Ends
      (Reports waiting_client 0 (sensor_with (known 1) available))
      (handle_event turned_on 5 0 waiting_client)
handle_event-Reports_example =
    handle_event-Reports turned_on 5 0 waiting_client (sensor_with (known 1) available)
      turned_on_lem

abbrev announced : MqttClient
announced = elim (handle_event turned_on 5 0 waiting_client) [
  | returned d ↦ d
  | publish_failed d ↦ d
  | failed ↦ client
]

announced_lem : handle_event turned_on 5 0 waiting_client ≡ returned announced
unfolding handle_event process_object visit_node update_value every_node every_register
announced_lem = refl

flag_announced_example :
    (before : List MqttCall) × (announced.calls
      ≡ before ++ announcement (sensor_with (known 1) available) ∷ [])
flag_announced_example =
    flag_announced turned_on 5 0 waiting_client announced (sensor_with (known 1) available)
      turned_on_lem announced_lem (λ e. cc) (λ e. cc) refl

on_disconnect-shutdown_example :
    let d = after_shutdown client in
    (d.is_started ≡ false)
    × (d.modbus_clients ≡ [])
    × (d.pending_rpc ≡ [])
    × (((client.connection_state ≢ connecting) × IsOver client d)
        ⊎ ((client.connection_state ≡ connecting)
            × (d.connection_state ≡ connecting)
            × (d.calls ≡ client.calls ++ reconnect_call ∷ [])))
on_disconnect-shutdown_example = on_disconnect-shutdown client

abbrev checked_read : RpcRequest
checked_read = record {
  network_name = "tcptest";
  slave = pos 1;
  register_number = pos 10;
  register_type = holding;
  converter = none;
  count = 2;
  values_to_write = none;
}

checked_read_lem :
    check_request rpc_read (λ spec. none) (thread_client ∷ []) request ≡ passed checked_read
unfolding check_request register_number_from_string strtol count_and_values
checked_read_lem = refl

check_request_lem_example :
    (has_client "tcptest" (thread_client ∷ []) ≡ true)
    × (IsRead checked_read ⊎ IsWrite rpc_read checked_read)
check_request_lem_example =
    check_request_lem rpc_read (λ spec. none) (thread_client ∷ []) request checked_read
      checked_read_lem
