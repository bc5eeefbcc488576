-- ===== src/Examples/Scheduling.antt =====
-- The scheduler and the watchdog.
use mqmgateway.Base.{
  ◌+◌, ◌≤◌, ◌<◌, ◌≡◌, refl, ◌≢◌, ◌↔◌, ◌⊎◌, inl, true, false, ◌&&◌, none, some, List, [], ◌∷◌,
  if◌then◌else◌, Any,
}
use mqmgateway.Command.{duration_max, RegisterPoll}
use mqmgateway.Examples.Data.{write_at, poll_of, store_of}
use mqmgateway.Scheduler.{RegisterMap, get_registers_to_poll, notify_rpc_read}
use mqmgateway.Scheduler.Due.{
  AnyRef, AllRef, IsDue, get_registers_to_poll_iff, IsNotLate, IsWaitOf, get_registers_to_poll_wait,
}
use mqmgateway.Scheduler.Rpc.{
  with_times, covers, is_listed, notify_rpc_read_lem, notify_rpc_read_silences,
}
use mqmgateway.Watchdog.{
  ModbusWatchdogConfig, ModbusWatchdog, init, inspect_command, is_reconnect_required,
}
use mqmgateway.Watchdog.Trace.{
  Event, inspect_all, last_success, failures, reconnect_iff, inspect_command_detects,
}

abbrev schedule : RegisterMap
schedule = (1, 0 ∷ []) ∷ (2, 1 ∷ 3 ∷ []) ∷ []

get_registers_to_poll_iff_example :
    AnyRef (λ s r. (s ≡ 2) × (r ≡ 3)) (get_registers_to_poll store_of 1600 schedule).0
    ↔ AnyRef (λ s r. ((s ≡ 2) × (r ≡ 3)) × IsDue store_of 1600 r) schedule
get_registers_to_poll_iff_example =
    get_registers_to_poll_iff store_of 1600 (λ s r. (s ≡ 2) × (r ≡ 3)) schedule

get_registers_to_poll_wait_example :
    AllRef (IsNotLate store_of 1200 (get_registers_to_poll store_of 1200 schedule).1) schedule
    × (((get_registers_to_poll store_of 1200 schedule).1 ≡ duration_max)
        ⊎ AnyRef (IsWaitOf store_of 1200 (get_registers_to_poll store_of 1200 schedule).1) schedule)
get_registers_to_poll_wait_example = get_registers_to_poll_wait store_of 1200 schedule

-- The RPC read 2 covers poll 0.
abbrev completed : RegisterPoll
completed = record (poll_of 2) { last_read_start_time = 2000; last_read_finish_time = 2005 }

notify_rpc_read_lem_example :
    ((notify_rpc_read completed schedule store_of).polls 0 ≡ (
      if is_listed 1 0 schedule && covers completed (poll_of 0)
      then with_times completed (poll_of 0)
      else poll_of 0))
    × ((notify_rpc_read completed schedule store_of).writes 0 ≡ write_at 1 0)
notify_rpc_read_lem_example = notify_rpc_read_lem completed schedule store_of 0

notify_rpc_read_silences_example :
    ((is_listed 1 0 schedule && covers completed (poll_of 0) ≡ true)
      × ((3000 ≤ 2600) ⊎ (¬ IsDue (notify_rpc_read completed schedule store_of) 2600 0)))
    ⊎ ((is_listed 1 0 schedule && covers completed (poll_of 0) ≡ false)
        × (IsDue (notify_rpc_read completed schedule store_of) 2600 0 ↔ IsDue store_of 2600 0))
notify_rpc_read_silences_example = notify_rpc_read_silences completed schedule store_of 0 2600

abbrev config : ModbusWatchdogConfig
config = record {
  auto_watch_period = false;
  watch_period = 10000;
  device_path = some "/dev/ttyUSB0";
}

abbrev watchdog : ModbusWatchdog
watchdog = record {
  config = config;
  last_successful_command_time = 0;
  last_device_check_time = 0;
  last_command_ok = true;
  device_removed = false;
}

-- A success at 100 and failures at 200 and 300, with the device in place.
abbrev events : List Event
events =
    record { ok = true; time = 100; exists = true }
    ∷ record { ok = false; time = 200; exists = true }
    ∷ record { ok = false; time = 300; exists = true }
    ∷ []

reconnect_iff_example :
    ((is_reconnect_required 20000 (inspect_all events (init config 50 watchdog)) ≡ true) ↔ (
      ((inspect_all events (init config 50 watchdog)).device_removed ≡ true)
      ⊎ (last_success 50 events + config.watch_period < 20000)))
    × (((inspect_all events (init config 50 watchdog)).device_removed ≡ false)
        ⊎ ((config.device_path ≢ none) × Any (λ e. e.exists ≡ false) (failures [] events)))
reconnect_iff_example = reconnect_iff config watchdog 50 20000 events

inspect_command_detects_example :
    is_reconnect_required 600 (
      inspect_all
        (record { ok = false; time = 500; exists = true } ∷ [])
        (inspect_command false 400 false watchdog))
    ≡ true
inspect_command_detects_example =
    inspect_command_detects watchdog 400 600 (record { ok = false; time = 500; exists = true } ∷ [])
      (λ e. cc e) (inl refl) (refl, tt)
