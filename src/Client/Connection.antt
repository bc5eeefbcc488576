-- ===== src/Client/Connection.antt =====
-- The account of RPC requests when a connection to the broker is made, and when one ends.
use Prim.Native.String.{String}
use mqmgateway.Base.{ℕ, true, List, [], ◌∷◌, arith}
use mqmgateway.Client.{
  ConnectionState, disconnected, connecting, connected_state, disconnecting, RpcMode, rpc_disabled,
  rpc_read, rpc_read_write, reconnect_call, stop_call, subscribe, ModbusClient, MqttObjectCommand,
  MqttClient, returned, and_then, call, send_mqtt_network_is_up, on_disconnect,
}
use mqmgateway.Client.Answers.{
  Weight, answered, answered-call, Account, Account-publish, Account-set,
}
use mqmgateway.Client.Ends.{Ends, on_return, Ends-and_then}
use mqmgateway.Client.Frame.{publish_all-Ends}
use mqmgateway.Client.Publish.{publish_all, subscribe_all, on_connect}

module _ (w : Weight) where
  -- The requests that wait are forgotten, without an answer.
  lose_connection :
      (s : ConnectionState) (asked_for n : ℕ) (c : MqttClient)
      → Account w asked_for n c
      → Account w (answered w c.calls) n (on_disconnect (record c { connection_state = s }))
  unfolding on_disconnect
  lose_connection connected_state asked_for n c h = record {
    balance = omega (arith, answered-call w c.calls reconnect_call);
    used = h.used;
    fresh = tt;
    takes_responses = h.takes_responses;
  }
  lose_connection connecting asked_for n c h = record {
    balance = omega (arith, answered-call w c.calls reconnect_call);
    used = h.used;
    fresh = tt;
    takes_responses = h.takes_responses;
  }
  lose_connection disconnecting asked_for n c h = record {
    balance = omega (arith, answered-call w c.calls stop_call);
    used = h.used;
    fresh = tt;
    takes_responses = h.takes_responses;
  }
  lose_connection disconnected asked_for n c h = record {
    balance = omega arith;
    used = h.used;
    fresh = tt;
    takes_responses = h.takes_responses;
  }

  pub on_disconnect-Account :
      (asked_for n : ℕ) (c : MqttClient)
      → Account w asked_for n c
      → Account w (answered w c.calls) n (on_disconnect c)
  on_disconnect-Account asked_for n c h = lose_connection c.connection_state asked_for n c h

  module _ (asked_for n : ℕ) where
    subscribe-Account :
        (topic : String) (c : MqttClient)
        → Account w asked_for n c
        → Account w asked_for n (call (subscribe topic) c)
    subscribe-Account topic c h = record {
      balance = omega (arith, h.balance, answered-call w c.calls (subscribe topic));
      used = h.used;
      fresh = h.fresh;
      takes_responses = h.takes_responses;
    }

    subscribe_all-Account :
        (cmds : List MqttObjectCommand) (c : MqttClient)
        → Account w asked_for n c
        → Account w asked_for n (subscribe_all cmds c)
    subscribe_all-Account [] c h = h
    subscribe_all-Account (cmd ∷ cmds) c h =
        subscribe_all-Account cmds (call (subscribe cmd.topic) c) (subscribe-Account cmd.topic c h)

    -- The fields that the account does not speak of.
    connected-Account :
        (s : ConnectionState) (clients : List ModbusClient) (c : MqttClient)
        → Account w asked_for n c
        → Account w asked_for n (record c { connection_state = s; modbus_clients = clients })
    connected-Account s clients c h = record {
      balance = h.balance;
      used = h.used;
      fresh = h.fresh;
      takes_responses = h.takes_responses;
    }

    connects :
        (now : ℕ) (c : MqttClient)
        → Account w asked_for n c
        → Ends (Account w asked_for n) (
            and_then
              (publish_all now (record c { connection_state = connected_state }))
              (λ next. returned (send_mqtt_network_is_up true next)))
    connects now c h =
        Ends-and_then (Account w asked_for n) _
          (λ d k. on_return (connected-Account d.connection_state _ d k))
          (publish_all-Ends (Account w asked_for n) (Account-publish w asked_for n)
            (Account-set w asked_for n) now _
            (connected-Account connected_state c.modbus_clients c h))

    make_connection :
        (mode : RpcMode) (now : ℕ) (c : MqttClient)
        → Account w asked_for n (record c { rpc_mode = mode })
        → Ends (Account w asked_for n) (on_connect now (record c { rpc_mode = mode }))
    unfolding on_connect
    make_connection rpc_disabled now c h = connects now _ (subscribe_all-Account c.commands _ h)
    make_connection rpc_read now c h =
        connects now _
          (subscribe-Account c.rpc_request_topic _ (subscribe_all-Account c.commands _ h))
    make_connection rpc_read_write now c h =
        connects now _
          (subscribe-Account c.rpc_request_topic _ (subscribe_all-Account c.commands _ h))

    pub on_connect-Account :
        (now : ℕ) (c : MqttClient)
        → Account w asked_for n c
        → Ends (Account w asked_for n) (on_connect now c)
    on_connect-Account now c h = make_connection c.rpc_mode now c h
