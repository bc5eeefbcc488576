-- ===== src/Examples/Running.antt =====
-- The thread.
use mqmgateway.Base.{pos, ℕ, ◌≡◌, ◌↔◌, ◌⊎◌, true, false, none, some, List, [], ◌∷◌, Any}
use mqmgateway.Command.{auto, RegisterPoll}
use mqmgateway.Examples.Data.{base_at, poll_at, spec_of, store_of, busy_executor, reply_of}
use mqmgateway.Executor.Accounts.{IsAccounted}
use mqmgateway.Thread.{
  ModbusSlaveConfig, ModbusNetworkConfig, ModbusThread, apply_slave_config, new_command,
}
use mqmgateway.Thread.Dispatch.{
  ThreadMessage, network_config, poll_specification, mqtt_network_state, slave_config,
  add_registers,
}
use mqmgateway.Thread.Registers.{Makes, Schedules, add_registers_lem}
use mqmgateway.Thread.Rounds.{run, first_loop, FaultsLater, run_safe}
use mqmgateway.Thread.Run.{Turn, Loop}
use mqmgateway.Thread.Settings.{apply_slave_config_lem}
use mqmgateway.Watchdog.{ModbusWatchdog}

abbrev watch : ModbusWatchdog
watch = record {
  config = record { auto_watch_period = true; watch_period = 10000; device_path = none };
  last_successful_command_time = 0;
  last_device_check_time = 0;
  last_command_ok = true;
  device_removed = false;
}

abbrev network : ModbusNetworkConfig
network = record {
  name = "tcptest";
  delay_before_command = some 15;
  delay_before_first_command = none;
  max_write_retry_count = 2;
  max_read_retry_count = 1;
  watchdog_config = watch.config;
}

abbrev slave : ModbusSlaveConfig
slave = record {
  address = 1;
  write_mode = auto;
  delay_before_command = none;
  delay_before_first_command = some 30;
  max_write_retry_count = 0;
  max_read_retry_count = 3;
}

-- A round in which the thread is configured, and one that polls a register.
abbrev turn_with : List ThreadMessage → Turn
turn_with messages = record {
  epoch = 0;
  connects = true;
  connect_time = 1000;
  now = 1200;
  election_time = 1201;
  io = reply_of (some (7 ∷ 8 ∷ []));
  inspect_time = 1300;
  exists = true;
  watch_time = 1310;
  reset_time = 1320;
  incoming = messages;
  dispatch_time = 1330;
}

abbrev turns : List Turn
turns =
    turn_with (
      network_config network
      ∷ slave_config slave
      ∷ poll_specification (spec_of (poll_at 1 10 2 1000 ∷ []))
      ∷ mqtt_network_state true
      ∷ [])
    ∷ turn_with []
    ∷ []

run_safe_example :
    ((l : Loop) × (run turns (first_loop "tcptest" 0 900 store_of watch) ≡ some l)
      × IsAccounted l.thread.executor)
    ⊎ FaultsLater turns (first_loop "tcptest" 0 900 store_of watch)
run_safe_example = run_safe turns "tcptest" 0 900 store_of watch

abbrev thread : ModbusThread
thread = record {
  network_name = "tcptest";
  delay_before_command = some 15;
  delay_before_first_command = none;
  max_read_retry_count = 1;
  max_write_retry_count = 2;
  slaves = (1, slave) ∷ [];
  should_run = true;
  mqtt_connected = true;
  modbus = true;
  connected = true;
  scheduler = (1, 0 ∷ []) ∷ [];
  executor = busy_executor;
  watchdog = watch;
  next_ref = 9;
}

apply_slave_config_lem_example :
    let after = apply_slave_config thread 1 (new_command (base_at 1 10 2 (pos 0))) in
    (after.delay_before_command ≡ 15000000)
    × (after.delay_before_first_command ≡ 30000000)
    × (after.max_read_retry_count ≡ 3)
    × (after.max_write_retry_count ≡ 2)
    × (after.base ≡ base_at 1 10 2 (pos 0))
apply_slave_config_lem_example =
    apply_slave_config_lem thread 1 (new_command (base_at 1 10 2 (pos 0)))

-- A poll of slave 1 whose refresh time is a second, in nanoseconds.
abbrev IsSlow : ℕ → RegisterPoll → Type 0
IsSlow s p = (s ≡ 1) × (p.refresh ≡ 1000000000)

add_registers_lem_example :
    let (u, after) = add_registers 0 900 (poll_at 1 10 2 1000 ∷ []) (thread, []) in
    Schedules IsSlow 0 900 u.executor.store after ↔ (
      Schedules IsSlow 0 900 thread.executor.store []
      ⊎ Any (Makes IsSlow 0 900 thread) (poll_at 1 10 2 1000 ∷ []))
add_registers_lem_example = add_registers_lem IsSlow 0 900 (poll_at 1 10 2 1000 ∷ []) thread [] tt
