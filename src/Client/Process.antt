-- ===== src/Client/Process.antt =====
-- The messages of the modbus threads: `processRegisterValues`, `processRegistersOperationFailed` and
-- `processModbusNetworkState` of mqttclient.cpp, and the loop of
-- `processModbusMessages` of modmqtt.cpp.
use Prim.Native.String.{String}
use text.Mathlib.Text.{◌==◌ as str_eq}
use mqmgateway.Address.{ModbusMessageBase, has_command_id, is_rpc}
use mqmgateway.Base.{
  ℤ, pos, negsuc, ℕ, Bool, true, false, not, Option, none, some, List, [], ◌∷◌, if◌then◌else◌,
  ◌>>=◌, find,
}
use mqmgateway.Client.{
  publish, MqttClient, Outcome, returned, failed, and_then, catch_publish, try_call, is_connected,
  set_object, same_flag,
}
use mqmgateway.Client.Publish.{
  publish_state, publish_availability_change, once_each, refs_where, each_object,
}
use mqmgateway.Client.Responses.{publish_rpc_response, publish_rpc_error}
use mqmgateway.Command.{
  MsgRegisterValues, QueueItem, register_values, register_read_failed, register_write_failed,
  modbus_network_state,
}
use mqmgateway.Object.{
  AvailableFlag, not_set, available, MqttObjectRegisterIdent, ident_of, same_ident,
}
use mqmgateway.Object.Payload.{generate}
use mqmgateway.Object.State.{
  update_register_values, update_registers_read_failed, set_modbus_network_state,
  need_state_republish,
}
use mqmgateway.Poll.{on_change, every_poll, once}

abbrev pub find_objects :
    MqttObjectRegisterIdent → List (MqttObjectRegisterIdent × List ℕ) → Option (List ℕ)
find_objects ident [] = none
find_objects ident ((key, refs) ∷ entries) =
    if same_ident key ident then some refs else find_objects ident entries

-- The objects of a command. A negative command id is no key of the map.
abbrev pub find_command_objects : ℤ → MqttClient → Option (List ℕ)
find_command_objects (pos n) c = find n c.command_objects
find_command_objects (negsuc n) c = none

-- A new value for the topic of an object that becomes available, which is published at once if it is
-- retained. Otherwise the retained message is deleted after the first read, and the payload is
-- only remembered.
unfoldable pub publish_new_state : ℕ → ℕ → AvailableFlag → MqttClient → Outcome
unfolding publish_state generate
publish_new_state now ref old c =
    let o = c.store ref in
    if o.retain
    then publish_state now ref true c
    else (let deleted : Outcome =
          if same_flag old not_set
          then and_then (try_call (publish o.state_topic [] true) c) (λ next.
            elim (generate next.json_text o) [
              | none ↦ failed
              | some message ↦
                  returned (set_object ref (record o { last_published_payload = message }) next)
            ])
          else returned c in
        and_then deleted (λ next. elim o.publish_mode [
          | every_poll ↦ publish_state now ref true next
          | on_change ↦ returned next
          | once ↦ returned next
        ]))

-- The body of the loop of `processRegisterValues`.
unfoldable pub process_object : String → MsgRegisterValues → ℕ → ℕ → MqttClient → Outcome
unfolding update_register_values publish_new_state publish_availability_change publish_state
    need_state_republish
process_object network msg now ref c =
    let old = (c.store ref).is_available in
    elim (update_register_values network msg (c.store ref)) [
      | none ↦ failed
      | some o ↦
          let next = set_object ref o c in
          if not (same_flag old o.is_available)
          then and_then
              (if same_flag o.is_available available
                then publish_new_state now ref old next
                else returned next)
              (λ after. returned (publish_availability_change (after.store ref) after))
          else publish_state now ref (need_state_republish now o) next
    ]

-- The objects that a message of register values concerns, and the client after an RPC answer. Without
-- a command id the entry of the map has to be there.
unfoldable pub affected_objects :
    String → MsgRegisterValues → MqttClient → Option (List ℕ × MqttClient)
unfolding publish_rpc_response
affected_objects network msg c =
    let polled = find_objects (ident_of network msg.base) c.objects in
    if has_command_id msg.base
    then elim (find_command_objects msg.base.command_id c) [
      | some refs ↦ some (refs, c)
      | none ↦
          if is_rpc msg.base
          then some (elim polled [ none ↦ [] | some refs ↦ refs ], publish_rpc_response msg c)
          else some ([], c)
    ]
    else (polled >>= λ refs. some (refs, c))

unfoldable pub process_register_values : String → MsgRegisterValues → ℕ → MqttClient → Outcome
unfolding process_object affected_objects each_object
process_register_values network msg now c =
    if not (is_connected c) then returned c else elim (affected_objects network msg c) [
      | none ↦ failed
      | some (refs, next) ↦ catch_publish (each_object (process_object network msg now) refs next)
    ]

-- The body of the loop of `processRegistersOperationFailed`.
unfoldable pub fail_object : String → ModbusMessageBase → ℕ → ℕ → MqttClient → Outcome
unfolding update_registers_read_failed publish_state publish_availability_change
fail_object network base now ref c =
    let old = (c.store ref).is_available in
    elim (update_registers_read_failed network base (c.store ref)) [
      | none ↦ failed
      | some o ↦ and_then (publish_state now ref false (set_object ref o c)) (λ after. returned (
          if not (same_flag old o.is_available)
          then publish_availability_change (after.store ref) after
          else after))
    ]

unfoldable pub process_registers_operation_failed :
    String → ModbusMessageBase → ℕ → MqttClient → Outcome
unfolding fail_object each_object
process_registers_operation_failed network base now c =
    elim (find_objects (ident_of network base) c.objects) [
      | none ↦ returned c
      | some refs ↦ each_object (fail_object network base now) refs c
    ]

-- The body of the loop of `processModbusNetworkState`.
unfoldable pub take_object_down : String → Bool → ℕ → MqttClient → Outcome
unfolding set_modbus_network_state publish_availability_change
take_object_down network is_up ref c =
    let old = (c.store ref).is_available in
    elim (set_modbus_network_state network is_up (c.store ref)) [
      | none ↦ failed
      | some (o, changed) ↦
          let next = set_object ref o c in
          returned (
            if not (same_flag old o.is_available) then publish_availability_change o next else next)
    ]

unfoldable pub process_modbus_network_state : String → Bool → MqttClient → Outcome
unfolding take_object_down each_object once_each refs_where
process_modbus_network_state network is_up c =
    if is_up
    then returned c
    else each_object (take_object_down network is_up)
        (once_each [] (refs_where (λ ident. str_eq ident.network_name network) c.objects)) c

-- One message of the queue of the modbus thread of a network: the body of the inner loop of
-- `ModMqtt::processModbusMessages`.
unfoldable pub process_message : String → QueueItem → ℕ → MqttClient → Outcome
unfolding process_register_values publish_rpc_error process_registers_operation_failed
    process_modbus_network_state
process_message network (register_values msg) now c = process_register_values network msg now c
process_message network (register_read_failed base) now c =
    if is_rpc base
    then returned (publish_rpc_error base c)
    else process_registers_operation_failed network base now c
process_message network (register_write_failed base) now c =
    if is_rpc base
    then returned (publish_rpc_error base c)
    else process_registers_operation_failed network base now c
process_message network (modbus_network_state name is_up) now c =
    process_modbus_network_state name is_up c

-- The messages of a queue, each with the time at which it is processed.
unfoldable pub process_messages : String → List (QueueItem × ℕ) → MqttClient → Outcome
unfolding process_message
process_messages network [] c = returned c
process_messages network ((m, now) ∷ ms) c =
    and_then (process_message network m now c) (process_messages network ms)
