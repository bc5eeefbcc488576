-- ===== src/Executor.antt =====
-- libmodmqttsrv/modbus_executor.hpp and modbus_executor.cpp: the executor of one modbus network. Its
-- operations are in the children Perform, Queueing and Next; the others hold proofs.
-- The state has the members of the class, the queue of messages to the main thread and the store of
-- command objects. `std::map` iterators are keys, `none` is the end iterator. A result `none` of an
-- operation is a fault: undefined behaviour, a failed assertion or an endless loop. Readings of
-- the clock and the answers of the modbus library are arguments. Logging is left out.
pub mod Perform
pub mod Queueing
pub mod Next
pub mod Search
pub mod Passing
pub mod Messages
pub mod Reading
pub mod Retry
pub mod Attempts
pub mod Accounts
pub mod Safe
pub mod Lost
pub mod Delay
pub mod Reach
use mqmgateway.Base.{
  ℕ, ◌*◌, Bool, true, false, not, ◌&&◌, Option, none, some, List, [], ◌∷◌, ◌++◌, if◌then◌else◌,
  length, value_at,
}
use mqmgateway.Command.{QueueItem, CommandRef, poll_ref, write_ref, Store}
use mqmgateway.Queues.{ModbusRequestsQueues, no_requests, is_nil, is_empty}

pub record ModbusExecutor : Type 0 where
  pub slave_queues : List (ℕ × ModbusRequestsQueues)
  pub current_slave_queue : Option ℕ
  pub commands_left : ℕ
  pub write_commands_queued : ℕ
  pub max_read_retry_count : ℕ
  pub max_write_retry_count : ℕ
  pub write_retry_count : ℕ
  pub read_retry_count : ℕ
  pub last_command_time : ℕ
  pub waiting_command : Option CommandRef
  pub last_command : Option CommandRef
  pub initial_poll : Bool
  pub initial_poll_start : ℕ
  pub from_modbus_queue : List QueueItem
  pub store : Store

abbrev pub write_batch_size : ℕ
write_batch_size = 10

-- The constructor; the last command time is `now` less 100000 hours.
unfoldable pub new_executor : ℕ → Store → ModbusExecutor
new_executor past store = record {
  slave_queues = [];
  current_slave_queue = none;
  commands_left = 0;
  write_commands_queued = 0;
  max_read_retry_count = 0;
  max_write_retry_count = 0;
  write_retry_count = 0;
  read_retry_count = 0;
  last_command_time = past;
  waiting_command = none;
  last_command = none;
  initial_poll = false;
  initial_poll_start = 0;
  from_modbus_queue = [];
  store = store;
}

unfoldable pub send_message : QueueItem → ModbusExecutor → ModbusExecutor
send_message item x = record x { from_modbus_queue = x.from_modbus_queue ++ item ∷ [] }

-- The queues that an iterator which is not the end points at.
abbrev pub queues_at : ℕ → List (ℕ × ModbusRequestsQueues) → ModbusRequestsQueues
queues_at k qs = value_at k no_requests qs

abbrev pub all_empty : List (ℕ × ModbusRequestsQueues) → Bool
all_empty [] = true
all_empty ((k, q) ∷ qs) = is_empty q && all_empty qs

abbrev pub all_polls_empty : List (ℕ × ModbusRequestsQueues) → Bool
all_polls_empty [] = true
all_polls_empty ((k, q) ∷ qs) = is_nil q.poll_queue && all_polls_empty qs

abbrev pub is_none {ℓ} : {A : Type ℓ} → Option A → Bool
is_none none = true
is_none (some a) = false

unfoldable pub all_done : ModbusExecutor → Bool
all_done x = is_none x.waiting_command && all_empty x.slave_queues

abbrev pub is_poll_waiting : Option CommandRef → Bool
is_poll_waiting none = false
is_poll_waiting (some (poll_ref r)) = true
is_poll_waiting (some (write_ref r)) = false

unfoldable pub poll_done : ModbusExecutor → Bool
poll_done x = not (is_poll_waiting x.waiting_command) && all_polls_empty x.slave_queues

-- The iterator is dereferenced before it is compared with the end.
unfoldable pub reset_commands_counter : ModbusExecutor → Option ModbusExecutor
reset_commands_counter x = elim x.current_slave_queue [
  | none ↦ none
  | some k ↦
      let polls = (queues_at k x.slave_queues).poll_queue in
      some
        (record x { commands_left = if is_nil polls then write_batch_size else length polls * 2 })
]
