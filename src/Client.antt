-- ===== src/Client.antt =====
-- libmodmqttsrv/mqttclient.hpp and mqttclient.cpp: the client of the MQTT broker, which runs in the
-- main thread: its state, the callbacks of the connection, and what it publishes of one object. What
-- comes from the modbus threads is in Client/Process, requests of other clients in Client/Rpc. The calls of the MQTT library are recorded in their order. Objects are shared: a reference
-- stands for a `std::shared_ptr`. The clock is read once in each operation. Maps keep the order of their keys.
pub mod Publish
pub mod Responses
pub mod Process
pub mod Rpc
pub mod Message
pub mod Commands
pub mod Ends
pub mod Objects
pub mod Frame
pub mod Answers
pub mod Connection
pub mod Requests
pub mod Runs
pub mod Reports
pub mod Announces
pub mod Shutdown
pub mod Checks
use Prim.Native.String.{String}
use mqmgateway.Address.{ModbusMessageBase}
use mqmgateway.Base.{ℤ, ℕ, Bool, true, false, Option, List, [], ◌∷◌, ◌++◌, map, if◌then◌else◌}
use mqmgateway.Command.{ModbusWriteMode, put}
use mqmgateway.Object.{
  AvailableFlag, not_set, unavailable, available, DataConverter, MqttObjectRegisterIdent,
}
use mqmgateway.Object.Payload.{Json}
use mqmgateway.Object.State.{MqttObject}
use mqmgateway.Thread.Dispatch.{ThreadMessage, mqtt_network_state}

pub data ConnectionState : Type 0 where
  disconnected connecting connected_state disconnecting : ConnectionState

pub data RpcMode : Type 0 where
  rpc_disabled rpc_read rpc_read_write : RpcMode

-- A call of `IMqttImpl`. A response has a topic, a payload, the correlation data of its request and, on
-- error, the value of the user property `error`.
pub data MqttCall : Type 0 where
  connect_call reconnect_call disconnect_call stop_call : MqttCall
  subscribe : String → MqttCall
  publish : String → List ℕ → Bool → MqttCall
  publish_response : String → List ℕ → List ℕ → Option String → MqttCall

pub record ModbusClient : Type 0 where
  pub network_name : String
  pub sent : List ThreadMessage

pub record MqttObjectCommand : Type 0 where
  pub base : ModbusMessageBase
  pub open base use *
  pub topic : String
  pub network_name : String
  pub write_mode : ModbusWriteMode
  pub converter : Option DataConverter

pub record PendingRpcRequest : Type 0 where
  pub network_name : String
  pub response_topic : String
  pub correlation_data : List ℕ
  pub base : ModbusMessageBase
  pub is_write : Bool
  pub converter : Option DataConverter

-- `json_text` is what rapidjson writes, `accepts` tells whether the MQTT library takes a call: it
-- throws a `MosquittoException` if not.
pub record MqttClient : Type 0 where
  pub connection_state : ConnectionState
  pub is_started : Bool
  pub modbus_clients : List ModbusClient
  pub objects : List (MqttObjectRegisterIdent × List ℕ)
  pub command_objects : List (ℕ × List ℕ)
  pub commands : List MqttObjectCommand
  pub rpc_mode : RpcMode
  pub rpc_request_topic : String
  pub next_rpc_id : ℤ
  pub pending_rpc : List (ℤ × PendingRpcRequest)
  pub store : ℕ → MqttObject
  pub calls : List MqttCall
  pub json_text : Json → List ℕ
  pub accepts : MqttCall → Bool

-- How an operation ends: it returns, or by a `MosquittoException` in the state that it has then, or
-- by another exception or a failed assertion, after which the program ends.
pub data Outcome : Type 0 where
  returned : MqttClient → Outcome
  publish_failed : MqttClient → Outcome
  failed : Outcome

-- The next statement runs only if the one before has returned.
abbrev pub and_then : Outcome → (MqttClient → Outcome) → Outcome
and_then (returned c) f = f c
and_then (publish_failed c) f = publish_failed c
and_then failed f = failed

-- `catch (const MosquittoException&)`.
abbrev pub catch_publish : Outcome → Outcome
catch_publish (returned c) = returned c
catch_publish (publish_failed c) = returned c
catch_publish failed = failed

abbrev pub call : MqttCall → MqttClient → MqttClient
call k c = record c { calls = c.calls ++ k ∷ [] }

abbrev pub try_call : MqttCall → MqttClient → Outcome
try_call k c = if c.accepts k then returned (call k c) else publish_failed c

abbrev pub is_connected : MqttClient → Bool
is_connected c = elim c.connection_state [
  | disconnected ↦ false
  | connecting ↦ false
  | connected_state ↦ true
  | disconnecting ↦ false
]

abbrev pub set_object : ℕ → MqttObject → MqttClient → MqttClient
set_object ref o c = record c { store = put ref o c.store }

-- `start`; the call of `connect` may throw.
unfoldable pub start_client : MqttClient → Outcome
start_client c =
    if is_connected c
    then returned c
    else try_call connect_call (record c { is_started = true; connection_state = connecting })

-- `shutdown`; the call of `disconnect` is taken to succeed.
unfoldable pub shutdown : MqttClient → MqttClient
shutdown c =
    let quiet = record c { modbus_clients = [] } in
    elim c.connection_state [
      | connected_state ↦ call disconnect_call (record quiet { connection_state = disconnecting })
      | connecting ↦ record quiet { is_started = false }
      | disconnecting ↦ quiet
      | disconnected ↦ record quiet { is_started = false; connection_state = disconnected }
    ]

abbrev pub enqueue : ThreadMessage → ModbusClient → ModbusClient
enqueue m client = record client { sent = client.sent ++ m ∷ [] }

abbrev pub send_mqtt_network_is_up : Bool → MqttClient → MqttClient
send_mqtt_network_is_up up c = record c {
  modbus_clients = map (enqueue (mqtt_network_state up)) c.modbus_clients;
}

-- The callback `onDisconnect`; the call of `reconnect` is taken to return.
unfoldable pub on_disconnect : MqttClient → MqttClient
on_disconnect c =
    let told = send_mqtt_network_is_up false (record c { pending_rpc = [] }) in
    elim c.connection_state [
      | connected_state ↦ call reconnect_call told
      | connecting ↦ call reconnect_call told
      | disconnecting ↦ record (call stop_call (record told { connection_state = disconnected })) {
        is_started = false;
      }
      | disconnected ↦ told
    ]

abbrev pub same_flag : AvailableFlag → AvailableFlag → Bool
same_flag not_set not_set = true
same_flag unavailable unavailable = true
same_flag available available = true
same_flag _ _ = false
