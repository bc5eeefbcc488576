-- ===== src/Command.antt =====
-- libmodmqttsrv/register_poll.hpp and register_poll.cpp, and the register messages of
-- modbus_messages.hpp: the commands that the executor runs and the messages that it sends.
-- Commands are shared objects: `std::shared_ptr` is a reference into a store, and what mutates a
-- command writes to the store. Time points and durations are nanoseconds; the clock is counted from
-- an origin that lies before every time the program computes. 16-bit register values are numbers.
use Prim.Native.String.{String}
use mqmgateway.Address.{ModbusMessageBase}
use mqmgateway.Base.{ℕ, Bool, false, not, ◌||◌, Option, List, ◌==◌, if◌then◌else◌, length}
use mqmgateway.Poll.{PublishMode}

pub data ModbusWriteMode : Type 0 where
  auto force_multiple_registers : ModbusWriteMode

-- `steady_clock::duration::max()`, the greatest value of a signed 64-bit integer.
abbrev pub duration_max : ℕ
duration_max = 9223372036854775807

pub record MsgRegisterValues : Type 0 where
  pub base : ModbusMessageBase
  pub open base use *
  pub registers : List ℕ
  pub creation_time : ℕ
  pub write_mode : ModbusWriteMode

-- The messages of the modbus thread to the main thread. A failure carries the range, the slave and the
-- command id of the command that failed; the state of the network is its name and whether it is up.
pub data QueueItem : Type 0 where
  register_values : MsgRegisterValues → QueueItem
  register_read_failed : ModbusMessageBase → QueueItem
  register_write_failed : ModbusMessageBase → QueueItem
  modbus_network_state : String → Bool → QueueItem

pub record RegisterCommand : Type 0 where
  pub base : ModbusMessageBase
  pub open base use *
  pub max_read_retry_count : ℕ
  pub max_write_retry_count : ℕ
  pub delay_before_first_command : ℕ
  pub delay_before_command : ℕ

abbrev pub has_delay_before_first_command : RegisterCommand → Bool
has_delay_before_first_command c = not (c.delay_before_first_command == 0)

abbrev pub has_delay_before_command : RegisterCommand → Bool
has_delay_before_command c = not (c.delay_before_command == 0)

abbrev pub has_delay : RegisterCommand → Bool
has_delay c = not (c.delay_before_command == 0) || not (c.delay_before_first_command == 0)

-- A count of 0 leaves the old value, unless it is forced.
unfoldable pub set_max_retry_counts : ℕ → ℕ → Bool → RegisterCommand → RegisterCommand
set_max_retry_counts max_read max_write force c = record c {
  max_read_retry_count = if not (max_read == 0) || force then max_read else c.max_read_retry_count;
  max_write_retry_count =
      if not (max_write == 0) || force then max_write else c.max_write_retry_count;
}

pub record RegisterPoll : Type 0 where
  pub command : RegisterCommand
  pub open command use *
  pub refresh : ℕ
  pub last_read_ok : Bool
  pub last_read_start_time : ℕ
  pub last_read_finish_time : ℕ
  pub read_errors : ℕ
  pub first_error_time : ℕ
  pub publish_mode : PublishMode
  pub last_values : List ℕ

-- `DurationBetweenLogError`, five minutes.
abbrev pub duration_between_log_error : ℕ
duration_between_log_error = 300000000000

abbrev pub default_read_error_count : ℕ
default_read_error_count = 3

abbrev pub get_poll_count : RegisterPoll → ℕ
get_poll_count p = length p.last_values

abbrev pub set_count : ℕ → RegisterCommand → RegisterCommand
set_count n c = record c { base = record (c.base) { range = record (c.base.range) { count = n } } }

-- `RegisterPoll::update`.
abbrev pub update_values : List ℕ → RegisterPoll → RegisterPoll
update_values values p = record p {
  command = set_count (length values) p.command;
  last_values = values;
}

pub record RegisterWrite : Type 0 where
  pub command : RegisterCommand
  pub open command use *
  pub values : List ℕ
  pub write_mode : ModbusWriteMode
  pub last_write_ok : Bool
  pub creation_time : ℕ
  pub return_message : Option MsgRegisterValues

abbrev pub get_write_count : RegisterWrite → ℕ
get_write_count w = length w.values

-- A `std::shared_ptr<RegisterCommand>`; the constructor is what `typeid` tells.
pub data CommandRef : Type 0 where
  poll_ref write_ref : ℕ → CommandRef

-- The command objects, by their references.
pub record Store : Type 0 where
  pub polls : ℕ → RegisterPoll
  pub writes : ℕ → RegisterWrite

abbrev pub command_of : Store → CommandRef → RegisterCommand
command_of s (poll_ref r) = (s.polls r).command
command_of s (write_ref r) = (s.writes r).command

-- The virtual `executedOk`.
abbrev pub executed_ok : Store → CommandRef → Bool
executed_ok s (poll_ref r) = (s.polls r).last_read_ok
executed_ok s (write_ref r) = (s.writes r).last_write_ok

abbrev pub same_ref : CommandRef → CommandRef → Bool
same_ref (poll_ref a) (poll_ref b) = a == b
same_ref (write_ref a) (write_ref b) = a == b
same_ref (poll_ref a) (write_ref b) = false
same_ref (write_ref a) (poll_ref b) = false

abbrev pub put {ℓ} : {A : Type ℓ} → ℕ → A → (ℕ → A) → ℕ → A
put r v m q = if q == r then v else m q

abbrev pub set_poll : ℕ → RegisterPoll → Store → Store
set_poll r p s = record s { polls = put r p s.polls }

abbrev pub set_write : ℕ → RegisterWrite → Store → Store
set_write r w s = record s { writes = put r w s.writes }
