-- ===== src/Thread.antt =====
-- libmodmqttsrv/modbus_thread.hpp and modbus_thread.cpp: the thread of one modbus network, which owns
-- the scheduler, the executor and the watchdog. This file has the state and the configuration of
-- commands; the messages are in Thread/Dispatch, the control loop in Thread/Run.
-- The connection to the devices is a Boolean that `connect` and `disconnect` change. Delays and
-- refresh times of the configuration are milliseconds. New commands get the next free reference of
-- the store. Logging, the thread's name and the settings of libmodbus are left out.
pub mod Dispatch
pub mod Run
pub mod Settings
pub mod Registers
pub mod Safe
pub mod Rounds
pub mod Work
use Prim.Native.String.{String}
use mqmgateway.Address.{ModbusMessageBase}
use mqmgateway.Base.{
  ℕ, zero, suc, ◌-◌, ◌*◌, Bool, true, false, Option, none, some, List, [], ◌∷◌, find,
}
use mqmgateway.Command.{
  ModbusWriteMode, MsgRegisterValues, RegisterCommand, set_max_retry_counts, RegisterPoll,
  RegisterWrite, Store, set_poll, set_write,
}
use mqmgateway.Executor.{ModbusExecutor, new_executor}
use mqmgateway.Poll.{PublishMode}
use mqmgateway.Scheduler.{RegisterMap}
use mqmgateway.Watchdog.{ModbusWatchdogConfig, ModbusWatchdog}

pub record ModbusSlaveConfig : Type 0 where
  pub address : ℕ
  pub write_mode : ModbusWriteMode
  pub delay_before_command : Option ℕ
  pub delay_before_first_command : Option ℕ
  pub max_write_retry_count : ℕ
  pub max_read_retry_count : ℕ

-- The part of the configuration of a network that the thread itself uses.
pub record ModbusNetworkConfig : Type 0 where
  pub name : String
  pub delay_before_command : Option ℕ
  pub delay_before_first_command : Option ℕ
  pub max_write_retry_count : ℕ
  pub max_read_retry_count : ℕ
  pub watchdog_config : ModbusWatchdogConfig

-- `modbus` tells whether there is a context, `connected` whether that is connected.
pub record ModbusThread : Type 0 where
  pub network_name : String
  pub delay_before_command : Option ℕ
  pub delay_before_first_command : Option ℕ
  pub max_read_retry_count : ℕ
  pub max_write_retry_count : ℕ
  pub slaves : List (ℕ × ModbusSlaveConfig)
  pub should_run : Bool
  pub mqtt_connected : Bool
  pub modbus : Bool
  pub connected : Bool
  pub scheduler : RegisterMap
  pub executor : ModbusExecutor
  pub watchdog : ModbusWatchdog
  pub next_ref : ℕ

-- A duration of milliseconds in nanoseconds.
abbrev pub from_msec : ℕ → ℕ
from_msec n = n * 1000000

unfoldable pub set_command_delays : Option ℕ → Option ℕ → RegisterCommand → RegisterCommand
set_command_delays every_time changed c = record c {
  delay_before_command = elim every_time [ none ↦ c.delay_before_command | some d ↦ from_msec d ];
  delay_before_first_command = elim changed [
    | none ↦ c.delay_before_first_command
    | some d ↦ from_msec d
  ];
}

-- What a slave's configuration changes in a command.
unfoldable pub use_slave_config : ModbusSlaveConfig → RegisterCommand → RegisterCommand
unfolding set_command_delays set_max_retry_counts
use_slave_config s c =
    set_max_retry_counts s.max_read_retry_count s.max_write_retry_count false
      (set_command_delays s.delay_before_command s.delay_before_first_command c)

-- `applySlaveConfig`: first the settings of the network, then those of the slave.
unfoldable pub apply_slave_config : ModbusThread → ℕ → RegisterCommand → RegisterCommand
unfolding set_command_delays set_max_retry_counts use_slave_config
apply_slave_config t slave c =
    let network =
      set_max_retry_counts t.max_read_retry_count t.max_write_retry_count true
        (set_command_delays t.delay_before_command t.delay_before_first_command c) in
    elim (find slave t.slaves) [ none ↦ network | some s ↦ use_slave_config s network ]

-- The constructor of a command, before it is configured.
abbrev pub new_command : ModbusMessageBase → RegisterCommand
new_command base = record {
  base = base;
  max_read_retry_count = 0;
  max_write_retry_count = 0;
  delay_before_first_command = 0;
  delay_before_command = 0;
}

abbrev pub zeros : ℕ → List ℕ
zeros zero = []
zeros (suc n) = 0 ∷ zeros n

abbrev pub day : ℕ
day = 86400000000000

-- The constructor of `RegisterPoll`. A time point starts at the epoch of the clock.
unfoldable pub new_poll : ℕ → ℕ → RegisterCommand → ℕ → PublishMode → RegisterPoll
new_poll epoch now command refresh_msec mode = record {
  command = command;
  refresh = from_msec refresh_msec;
  last_read_ok = false;
  last_read_start_time = epoch;
  last_read_finish_time = now - day;
  read_errors = 0;
  first_error_time = now;
  publish_mode = mode;
  last_values = zeros command.base.range.count;
}

-- `RegisterWrite(const MsgRegisterValues&)`, with the message as the one to return.
unfoldable pub new_write : MsgRegisterValues → RegisterCommand → RegisterWrite
new_write msg command = record {
  command = command;
  values = msg.registers;
  write_mode = msg.write_mode;
  last_write_ok = false;
  creation_time = msg.creation_time;
  return_message = some msg;
}

-- A new object in the store.
abbrev pub add_poll : RegisterPoll → ModbusThread → ModbusThread
add_poll p t = record t {
  executor = record (t.executor) { store = set_poll t.next_ref p t.executor.store };
  next_ref = suc t.next_ref;
}

abbrev pub add_write : RegisterWrite → ModbusThread → ModbusThread
add_write w t = record t {
  executor = record (t.executor) { store = set_write t.next_ref w t.executor.store };
  next_ref = suc t.next_ref;
}

-- The constructor. `watchdog` is the watchdog before `init`; the retry counts are set by `configure`.
unfoldable pub new_thread : String → ℕ → Store → ModbusWatchdog → ModbusThread
unfolding new_executor
new_thread name past store watchdog = record {
  network_name = name;
  delay_before_command = none;
  delay_before_first_command = none;
  max_read_retry_count = 0;
  max_write_retry_count = 0;
  slaves = [];
  should_run = true;
  mqtt_connected = false;
  modbus = false;
  connected = false;
  scheduler = [];
  executor = new_executor past store;
  watchdog = watchdog;
  next_ref = 0;
}
