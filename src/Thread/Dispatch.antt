-- ===== src/Thread/Dispatch.antt =====
-- The messages to the thread: `dispatchMessages` of modbus_thread.cpp and its handlers. A result `none`
-- is a fault of the executor.
use mqmgateway.Address.{ModbusMessageBase}
use mqmgateway.Base.{
  pos, ℕ, ◌*◌, ◌^◌, Bool, true, false, ◌&&◌, Option, none, some, List, [], ◌∷◌, ◌++◌, ltb,
  if◌then◌else◌, ◌>>=◌, length, update, find,
}
use mqmgateway.Command.{
  ModbusWriteMode, auto, force_multiple_registers, MsgRegisterValues, Store, set_poll,
}
use mqmgateway.Executor.Queueing.{setup_initial_poll, add_read_command, add_write_command}
use mqmgateway.Poll.{once, MsgRegisterPoll, MsgRegisterPollSpecification}
use mqmgateway.Scheduler.{RegisterMap, get_min_poll_time}
use mqmgateway.Thread.{
  ModbusSlaveConfig, ModbusNetworkConfig, ModbusThread, use_slave_config, apply_slave_config,
  new_command, new_poll, new_write, add_poll, add_write,
}
use mqmgateway.Watchdog.{init, set_watch_period}

pub data ThreadMessage : Type 0 where
  network_config : ModbusNetworkConfig → ThreadMessage
  poll_specification : MsgRegisterPollSpecification → ThreadMessage
  end_work : ThreadMessage
  write_values : MsgRegisterValues → ThreadMessage
  read_request : ModbusMessageBase → ThreadMessage
  mqtt_network_state : Bool → ThreadMessage
  slave_config : ModbusSlaveConfig → ThreadMessage

-- The context of the network is a new one, which is not connected.
unfoldable pub configure : ℕ → ModbusNetworkConfig → ModbusThread → ModbusThread
configure now config t = record t {
  network_name = config.name;
  modbus = true;
  connected = false;
  watchdog = init config.watchdog_config now t.watchdog;
  delay_before_command = elim config.delay_before_command [
    | none ↦ t.delay_before_command
    | some d ↦ some d
  ];
  delay_before_first_command = elim config.delay_before_first_command [
    | none ↦ t.delay_before_first_command
    | some d ↦ some d
  ];
  max_read_retry_count = config.max_read_retry_count;
  max_write_retry_count = config.max_write_retry_count;
}

-- The loop over the registers of a specification. One without a refresh time is not polled.
unfoldable pub add_registers :
    ℕ → ℕ → List MsgRegisterPoll → ModbusThread × RegisterMap → ModbusThread × RegisterMap
unfolding new_poll
add_registers epoch now [] acc = acc
add_registers epoch now (p ∷ ps) (t, m) = add_registers epoch now ps (elim p.refresh [
  | none ↦ (t, m)
  | some refresh ↦
      let base = record (p.base) { command_id = pos 0 } in
      let command = apply_slave_config t p.slave_id (new_command base) in
      (
        add_poll (new_poll epoch now command refresh p.publish_mode) t,
        update p.slave_id [] (λ refs. refs ++ t.next_ref ∷ []) m,
      )
])

-- The watch period in auto mode: twice the shortest refresh time, unless the present one is not
-- shorter. The product is a signed 64-bit integer, which is negative from 2 ^ 63 on.
unfoldable pub auto_watch : ModbusThread → ModbusThread
auto_watch t =
    let period = get_min_poll_time t.executor.store t.scheduler * 2 in
    if t.watchdog.config.auto_watch_period
    then (if ltb period (2 ^ 63) && ltb t.watchdog.config.watch_period period
        then record t { watchdog = set_watch_period period t.watchdog }
        else t)
    else t

unfoldable pub set_poll_specification :
    ℕ → ℕ → MsgRegisterPollSpecification → ModbusThread → Option ModbusThread
set_poll_specification epoch now spec t =
    let (added, m) = add_registers epoch now spec.registers (t, []) in
    setup_initial_poll now m added.executor >>= λ x.
    some (auto_watch (record added { scheduler = m; executor = x }))

unfoldable pub process_read_request : ℕ → ℕ → ModbusMessageBase → ModbusThread → Option ModbusThread
process_read_request epoch now msg t =
    let command = apply_slave_config t msg.slave_id (new_command msg) in
    let added = add_poll (new_poll epoch now command 0 once) t in
    add_read_command t.next_ref added.executor >>= λ x. some (record added { executor = x })

-- The mode of the message has precedence over that of the slave.
unfoldable pub slave_write_mode : ModbusThread → ℕ → ModbusWriteMode → ModbusWriteMode
slave_write_mode t slave auto = elim (find slave t.slaves) [ none ↦ auto | some s ↦ s.write_mode ]
slave_write_mode t slave force_multiple_registers = force_multiple_registers

unfoldable pub process_write : MsgRegisterValues → ModbusThread → Option ModbusThread
process_write msg t =
    let base = record (msg.base) {
      range = record (msg.base.range) { count = length msg.registers };
    } in
    let command = apply_slave_config t msg.slave_id (new_command base) in
    let write = record (new_write msg command) {
      write_mode = slave_write_mode t msg.slave_id msg.write_mode;
    } in
    let added = add_write write t in
    add_write_command t.next_ref added.executor >>= λ x. some (record added { executor = x })

-- `setCommandDelays` and `setMaxRetryCounts` on each scheduled poll of the slave.
unfoldable pub configure_polls : ModbusSlaveConfig → List ℕ → Store → Store
configure_polls s [] store = store
configure_polls s (r ∷ rs) store =
    let poll = store.polls r in
    configure_polls s rs
      (set_poll r (record poll { command = use_slave_config s poll.command }) store)

unfoldable pub update_from_slave_config : ModbusSlaveConfig → ModbusThread → ModbusThread
unfolding configure_polls
update_from_slave_config s t =
    let store : Store = elim (find s.address t.scheduler) [
      | none ↦ t.executor.store
      | some refs ↦ configure_polls s refs t.executor.store
    ] in
    record t {
      slaves = update s.address s (λ _. s) t.slaves;
      executor = record (t.executor) { store = store };
    }

-- One round of the loop of `dispatchMessages`.
unfoldable pub dispatch_message : ℕ → ℕ → ThreadMessage → ModbusThread → Option ModbusThread
dispatch_message epoch now (network_config c) t = some (configure now c t)
dispatch_message epoch now (poll_specification s) t = set_poll_specification epoch now s t
dispatch_message epoch now end_work t = some (record t { should_run = false })
dispatch_message epoch now (write_values msg) t = process_write msg t
dispatch_message epoch now (read_request msg) t = process_read_request epoch now msg t
dispatch_message epoch now (mqtt_network_state up) t = some (record t { mqtt_connected = up })
dispatch_message epoch now (slave_config s) t = some (update_from_slave_config s t)

-- The messages that the queue holds, in their order.
unfoldable pub dispatch_messages : ℕ → ℕ → List ThreadMessage → ModbusThread → Option ModbusThread
dispatch_messages epoch now [] t = some t
dispatch_messages epoch now (m ∷ ms) t =
    dispatch_message epoch now m t >>= λ u. dispatch_messages epoch now ms u
