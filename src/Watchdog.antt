-- ===== src/Watchdog.antt =====
-- libmodmqttsrv/modbus_watchdog.hpp and modbus_watchdog.cpp: when the modbus thread must reconnect.
-- The readings of the clock and the answer of `std::filesystem::exists` are arguments. An empty
-- device path is `none`. Logging is left out.
pub mod Trace
use Prim.Native.String.{String}
use mqmgateway.Base.{
  ℕ, ◌+◌, Bool, true, false, not, ◌&&◌, ◌||◌, Option, none, some, ltb, if◌then◌else◌,
}
use mqmgateway.Command.{executed_ok}

pub record ModbusWatchdogConfig : Type 0 where
  pub auto_watch_period : Bool
  pub watch_period : ℕ
  pub device_path : Option String

pub record ModbusWatchdog : Type 0 where
  pub config : ModbusWatchdogConfig
  pub last_successful_command_time : ℕ
  pub last_device_check_time : ℕ
  pub last_command_ok : Bool
  pub device_removed : Bool

-- `sDeviceCheckPeriod`, 300 ms.
abbrev pub device_check_period : ℕ
device_check_period = 300000000

unfoldable pub reset : ℕ → ModbusWatchdog → ModbusWatchdog
reset now w = record w {
  last_successful_command_time = now;
  device_removed = false;
  last_command_ok = true;
}

unfoldable pub init : ModbusWatchdogConfig → ℕ → ModbusWatchdog → ModbusWatchdog
unfolding reset
init config now w = reset now (record w { config = config })

unfoldable pub set_watch_period : ℕ → ModbusWatchdog → ModbusWatchdog
set_watch_period period w = record w { config = record (w.config) { watch_period = period } }

-- `(now - mLastDeviceCheckTime) > sDeviceCheckPeriod`.
abbrev pub is_check_due : ℕ → ModbusWatchdog → Bool
is_check_due now w =
    not w.device_removed
    && (w.last_command_ok || ltb (w.last_device_check_time + device_check_period) now)

-- The branch for a failed command with a device path.
unfoldable pub check_device : ℕ → Bool → ModbusWatchdog → ModbusWatchdog
check_device now exists w =
    if is_check_due now w
    then record w { device_removed = not exists; last_device_check_time = now }
    else w

-- `inspectCommand`; `now` is the clock where the branch reads it, `exists` the answer of the file
-- system if it is asked.
unfoldable pub inspect_command : Bool → ℕ → Bool → ModbusWatchdog → ModbusWatchdog
unfolding reset check_device
inspect_command executed_ok now exists w =
    let inspected =
      if executed_ok
      then reset now w
      else elim w.config.device_path [ none ↦ w | some path ↦ check_device now exists w ] in
    record inspected { last_command_ok = executed_ok }

-- `error_p > mConfig.mWatchPeriod`, where `error_p` is the time since the last success.
unfoldable pub is_reconnect_required : ℕ → ModbusWatchdog → Bool
is_reconnect_required now w =
    if w.device_removed
    then true
    else ltb (w.last_successful_command_time + w.config.watch_period) now
