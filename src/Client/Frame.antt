-- ===== src/Client/Frame.antt =====
-- What holds after the messages of the modbus threads, whatever is published.
use Prim.Native.String.{String}
use mqmgateway.Address.{ModbusMessageBase}
use mqmgateway.Base.{
  ℕ, ◌≡◌, sym, subst, ◌⊎◌, inl, inr, Bool, true, not, some, List, arith, Option-cases,
}
use mqmgateway.Client.{publish, MqttClient, call, is_connected, set_object}
use mqmgateway.Client.Ends.{
  Ends, on_return, on_failed, Ends-and_then, Ends-catch_publish, Ends-each_object, if-Ends,
}
use mqmgateway.Client.Objects.{
  publish_state-Ends, publish_availability_change-P, process_object-Ends, fail_object-Ends,
  take_object_down-Ends,
}
use mqmgateway.Client.Process.{
  find_objects, find_command_objects, process_object, affected_objects, process_register_values,
  fail_object, process_registers_operation_failed, take_object_down, process_modbus_network_state,
}
use mqmgateway.Client.Publish.{publish_object, publish_all}
use mqmgateway.Client.Responses.{publish_rpc_response}
use mqmgateway.Command.{MsgRegisterValues}
use mqmgateway.Object.{ident_of}
use mqmgateway.Object.State.{MqttObject}

affected_objects_cases :
    (network : String) (msg : MsgRegisterValues) (c : MqttClient) (refs : List ℕ)
    (next : MqttClient)
    → affected_objects network msg c ≡ some (refs, next)
    → (next ≡ c) ⊎ (next ≡ publish_rpc_response msg c)
unfolding affected_objects
affected_objects_cases network msg c refs next e =
    elim (Option-cases (find_command_objects msg.base.command_id c)) [
      | inl n ↦ elim (Option-cases (find_objects (ident_of network msg.base) c.objects)) [
        | inl m ↦ ground (arith, e, n, m)
        | inr (qs, m) ↦ ground (arith, e, n, m)
      ]
      | inr (rs, n) ↦ elim (Option-cases (find_objects (ident_of network msg.base) c.objects)) [
        | inl m ↦ ground (arith, e, n, m)
        | inr (qs, m) ↦ ground (arith, e, n, m)
      ]
    ]

-- A predicate that neither a call of `publish` nor a change of an object touches.
module _ (P : MqttClient → Type 0)
    (on_publish : (topic : String) (payload : List ℕ) (retain : Bool) (c : MqttClient)
      → P c
      → P (call (publish topic payload retain) c))
    (on_set : (ref : ℕ) (o : MqttObject) (c : MqttClient) → P c → P (set_object ref o c)) where
  process_each :
      (network : String) (msg : MsgRegisterValues) (now ref : ℕ) (c : MqttClient)
      → P c
      → Ends P (process_object network msg now ref c)
  process_each network msg now ref c h =
      process_object-Ends P ref (λ o. Unit {0}) (λ d k. tt) (λ o m k. tt) (λ o m t k. tt)
        (λ payload retain d k a. on_publish _ payload retain d k)
        (λ o d k q e. on_publish _ _ true d k) (λ o d k q. on_set ref o d k) network msg now c
        (λ o e. on_set ref o c h)

  fail_each :
      (network : String) (base : ModbusMessageBase) (now ref : ℕ) (c : MqttClient)
      → P c
      → Ends P (fail_object network base now ref c)
  fail_each network base now ref c h =
      fail_object-Ends P ref (λ o. Unit {0}) (λ d k. tt) (λ o m k. tt) (λ o m t k. tt)
        (λ payload retain d k a. on_publish _ payload retain d k)
        (λ o d k q e. on_publish _ _ true d k) (λ o d k q. on_set ref o d k) network base now c
        (λ o e. on_set ref o c h)

  take_each_down :
      (network : String) (is_up : Bool) (ref : ℕ) (c : MqttClient)
      → P c
      → Ends P (take_object_down network is_up ref c)
  take_each_down network is_up ref c h =
      take_object_down-Ends P ref (λ o. Unit {0}) (λ d k. tt) (λ o m k. tt) (λ o m t k. tt)
        (λ payload retain d k a. on_publish _ payload retain d k)
        (λ o d k q e. on_publish _ _ true d k) (λ o d k q. on_set ref o d k) network is_up c
        (λ o changed e. on_set ref o c h)

  publish_each : (now ref : ℕ) (c : MqttClient) → P c → Ends P (publish_object now ref c)
  publish_each now ref c h =
      Ends-and_then P _
        (λ d k. on_return (
          publish_availability_change-P P ref (λ o. Unit {0}) (λ d k. tt) (λ o m k. tt)
            (λ o m t k. tt) (λ payload retain d k a. on_publish _ payload retain d k)
            (λ o d k q e. on_publish _ _ true d k) (λ o d k q. on_set ref o d k) (d.store ref) d k
            tt))
        (if-Ends _
          (publish_state-Ends P ref (λ o. Unit {0}) (λ d k. tt) (λ o m k. tt) (λ o m t k. tt)
            (λ payload retain d k a. on_publish _ payload retain d k)
            (λ o d k q e. on_publish _ _ true d k) (λ o d k q. on_set ref o d k) now true c h)
          (on_return h))

  pub publish_all-Ends : (now : ℕ) (c : MqttClient) → P c → Ends P (publish_all now c)
  unfolding publish_all
  publish_all-Ends now c h = Ends-each_object P _ (publish_each now) _ c h

  pub process_registers_operation_failed-Ends :
      (network : String) (base : ModbusMessageBase) (now : ℕ) (c : MqttClient)
      → P c
      → Ends P (process_registers_operation_failed network base now c)
  unfolding process_registers_operation_failed
  process_registers_operation_failed-Ends network base now c h =
      elim (Option-cases (find_objects (ident_of network base) c.objects)) [
        | inl e ↦ rw (e, process_registers_operation_failed) (on_return h)
        | inr (refs, e) ↦
            rw (e, process_registers_operation_failed)
              (Ends-each_object P _ (fail_each network base now) refs c h)
      ]

  pub process_modbus_network_state-Ends :
      (network : String) (is_up : Bool) (c : MqttClient)
      → P c
      → Ends P (process_modbus_network_state network is_up c)
  unfolding process_modbus_network_state
  process_modbus_network_state-Ends network is_up c h =
      if-Ends is_up (on_return h) (Ends-each_object P _ (take_each_down network is_up) _ c h)

  -- What an answer to an RPC request establishes, the objects keep.
  pub process_register_values-Ends :
      (network : String) (msg : MsgRegisterValues) (now : ℕ) (c : MqttClient)
      → P c
      → P (publish_rpc_response msg c)
      → Ends P (process_register_values network msg now c)
  unfolding process_register_values
  process_register_values-Ends network msg now c h k =
      if-Ends (not (is_connected c)) (on_return h)
        (elim (Option-cases (affected_objects network msg c)) [
          | inl e ↦ rw e on_failed
          | inr ((refs, next), e) ↦
              let kept : P next = elim (affected_objects_cases network msg c refs next e) [
                | inl same ↦ subst P (sym same) h
                | inr replied ↦ subst P (sym replied) k
              ] in
              rw e (
                Ends-catch_publish P
                  (Ends-each_object P _ (process_each network msg now) refs next kept))
        ])
