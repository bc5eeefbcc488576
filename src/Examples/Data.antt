-- ===== src/Examples/Data.antt =====
-- The data of the examples.
use mqmgateway.Address.{holding, ModbusAddressRange, ModbusMessageBase}
use mqmgateway.Base.{ℤ, pos, negsuc, ℕ, zero, suc, true, false, Option, none, some, List, [], ◌∷◌}
use mqmgateway.Command.{auto, RegisterCommand, RegisterPoll, RegisterWrite, poll_ref, Store}
use mqmgateway.Executor.{ModbusExecutor}
use mqmgateway.Executor.Perform.{Io}
use mqmgateway.Poll.{on_change, MsgRegisterPoll, MsgRegisterPollSpecification}
use mqmgateway.Queues.{ModbusRequestsQueues}

abbrev pub range_at : ℕ → ℕ → ModbusAddressRange
range_at first count = record { register = first; count = count; register_type = holding }

abbrev pub base_at : ℕ → ℕ → ℕ → ℤ → ModbusMessageBase
base_at slave first count id = record {
  range = range_at first count;
  slave_id = slave;
  command_id = id;
}

-- A poll of the configuration, read every `period` milliseconds.
abbrev pub poll_at : ℕ → ℕ → ℕ → ℕ → MsgRegisterPoll
poll_at slave first count period = record {
  base = base_at slave first count (pos 0);
  refresh = some period;
  publish_mode = on_change;
}

abbrev pub spec_of : List MsgRegisterPoll → MsgRegisterPollSpecification
spec_of polls = record { network_name = "tcptest"; registers = polls }

abbrev pub command_at : ModbusMessageBase → ℕ → ℕ → RegisterCommand
command_at base retries delay = record {
  base = base;
  max_read_retry_count = retries;
  max_write_retry_count = retries;
  delay_before_first_command = 0;
  delay_before_command = delay;
}

abbrev pub register_at : ModbusMessageBase → ℕ → ℕ → ℕ → RegisterPoll
register_at base retries delay errors = record {
  command = command_at base retries delay;
  refresh = 1000;
  last_read_ok = true;
  last_read_start_time = 500;
  last_read_finish_time = 510;
  read_errors = errors;
  first_error_time = 100;
  publish_mode = on_change;
  last_values = 7 ∷ 8 ∷ [];
}

abbrev pub write_at : ℕ → ℕ → RegisterWrite
write_at slave first = record {
  command = command_at (base_at slave first 1 (pos 0)) 0 0;
  values = 42 ∷ [];
  write_mode = auto;
  last_write_ok = true;
  creation_time = 900;
  return_message = none;
}

-- Poll 0 has a delay of 50, poll 1 one of 20; poll 2 is an RPC read with two retries; all others are
-- of slave 2 without a delay.
abbrev pub poll_of : ℕ → RegisterPoll
poll_of zero = register_at (base_at 1 10 2 (pos 0)) 0 50 0
poll_of (suc zero) = register_at (base_at 2 20 2 (pos 0)) 0 20 1
poll_of (suc (suc zero)) = register_at (base_at 1 8 8 (negsuc 4)) 2 0 0
poll_of (suc (suc (suc r))) = register_at (base_at 2 30 2 (pos 0)) 0 0 0

abbrev pub store_of : Store
store_of = record { polls = poll_of; writes = λ r. write_at 1 r }

abbrev pub queues_holding : List ℕ → List ℕ → ModbusRequestsQueues
queues_holding polls writes = record {
  poll_queue = polls;
  write_queue = writes;
  last_poll_found = none;
  pop_from_poll = true;
}

-- An executor at work on slave 2, with a write for slave 1 queued.
abbrev pub busy_executor : ModbusExecutor
busy_executor = record {
  slave_queues = (1, queues_holding (0 ∷ []) (5 ∷ [])) ∷ (2, queues_holding (1 ∷ 3 ∷ []) []) ∷ [];
  current_slave_queue = some 2;
  commands_left = 4;
  write_commands_queued = 1;
  max_read_retry_count = 0;
  max_write_retry_count = 0;
  write_retry_count = 0;
  read_retry_count = 0;
  last_command_time = 1000;
  waiting_command = none;
  last_command = some (poll_ref 3);
  initial_poll = false;
  initial_poll_start = 0;
  from_modbus_queue = [];
  store = store_of;
}

-- An executor with an RPC read to send.
abbrev pub rpc_executor : ModbusExecutor
rpc_executor = record busy_executor { waiting_command = some (poll_ref 2) }

abbrev pub reply_of : Option (List ℕ) → Io
reply_of reply = record {
  delay_check = 1010;
  start = 1100;
  reply = reply;
  message_time = 1105;
  error_check = 300000000200;
  error_time = 1110;
  written = true;
  finish = 1120;
}
