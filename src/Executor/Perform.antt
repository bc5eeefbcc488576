-- ===== src/Executor/Perform.antt =====
-- `sendCommand` of modbus_executor.cpp, and the reads and writes that it performs.
use mqmgateway.Address.{ModbusMessageBase, is_rpc}
use mqmgateway.Base.{
  ℤ, pos, ℕ, suc, ◌+◌, ◌-◌, Bool, true, false, not, ◌&&◌, ◌||◌, Option, none, some, List, [], ◌∷◌,
  ◌++◌, ltb, ◌==◌, if◌then◌else◌, ◌>>=◌, length,
}
use mqmgateway.Command.{
  auto, QueueItem, register_values, register_read_failed, register_write_failed, RegisterCommand,
  RegisterPoll, duration_between_log_error, default_read_error_count, get_poll_count, update_values,
  RegisterWrite, get_write_count, CommandRef, poll_ref, write_ref, command_of, same_ref, set_poll,
  set_write,
}
use mqmgateway.Executor.{ModbusExecutor, send_message}
use mqmgateway.Poll.{PublishMode, on_change, every_poll, once}

-- What the world answers during one `executeNext`: the readings of the clock in the order of the
-- source, and the answers of `readModbusRegisters` (`none` is a `ModbusReadException`) and of
-- `writeModbusRegisters` (`false` is a `ModbusWriteException`). A reading that a branch does not
-- take is not used.
pub record Io : Type 0 where
  pub delay_check : ℕ
  pub start : ℕ
  pub reply : Option (List ℕ)
  pub message_time : ℕ
  pub error_check : ℕ
  pub error_time : ℕ
  pub written : Bool
  pub finish : ℕ

abbrev pub same_values : List ℕ → List ℕ → Bool
same_values [] [] = true
same_values (x ∷ xs) (y ∷ ys) = (x == y) && same_values xs ys
same_values [] (y ∷ ys) = false
same_values (x ∷ xs) [] = false

abbrev pub is_every_poll : PublishMode → Bool
is_every_poll every_poll = true
is_every_poll on_change = false
is_every_poll once = false

-- A message about the registers of a command, with a count and a command id of its own.
abbrev pub message_about : RegisterCommand → ℕ → ℤ → ModbusMessageBase
message_about c n id = record (c.base) {
  range = record (c.base.range) { count = n };
  command_id = id;
}

unfoldable pub values_message : Io → RegisterPoll → List ℕ → QueueItem
values_message io reg values = register_values (record {
  base = message_about reg.command (length values) reg.command_id;
  registers = values;
  creation_time = io.message_time;
  write_mode = auto;
})

-- The counters after a failed read.
unfoldable pub count_read_error : Io → RegisterPoll → RegisterPoll
count_read_error io reg =
    let failed = record reg { read_errors = suc reg.read_errors; last_read_ok = false } in
    if is_rpc reg.command.base
    then failed
    else (if (failed.read_errors == 1)
          || ltb (reg.first_error_time + duration_between_log_error) io.error_check
        then record failed {
          first_error_time = io.error_time;
          read_errors = if failed.read_errors == 1 then 1 else 0;
        }
        else failed)

-- The message that `handleRegisterReadError` sends, if any.
unfoldable pub read_error_message : Io → RegisterPoll → List QueueItem
unfolding count_read_error
read_error_message io reg =
    if is_rpc reg.command.base
    then []
    else (if ltb default_read_error_count (count_read_error io reg).read_errors
        then register_read_failed (message_about reg.command (get_poll_count reg) (pos 0)) ∷ []
        else [])

-- What a successful read does to the poll, and the message it sends.
unfoldable pub must_publish : Bool → RegisterPoll → List ℕ → Bool
must_publish force_send reg values =
    not (same_values reg.last_values values)
    || (is_every_poll reg.publish_mode || force_send)
    || not (reg.read_errors == 0)

unfoldable pub poll_result : Io → Bool → RegisterPoll → RegisterPoll × List QueueItem
unfolding values_message must_publish count_read_error read_error_message
poll_result io force_send reg = elim io.reply [
  | none ↦ (count_read_error io reg, read_error_message io reg)
  | some values ↦
      let ok = record reg { last_read_ok = true } in
      if must_publish force_send reg values
      then (record (update_values values ok) { read_errors = 0 }, values_message io reg values ∷ [])
      else (ok, [])
]

unfoldable pub poll_registers : Io → ℕ → Bool → ModbusExecutor → ModbusExecutor
poll_registers io r force_send x =
    let reg = record (x.store.polls r) { last_read_start_time = io.start } in
    let (polled, messages) = poll_result io force_send reg in
    record x {
      store = set_poll r (record polled { last_read_finish_time = io.finish }) x.store;
      from_modbus_queue = x.from_modbus_queue ++ messages;
      last_command_time = io.finish;
    }

-- The write command and the message after the attempt. The returned message gets the values of the
-- command.
unfoldable pub write_result : Io → RegisterWrite → RegisterWrite × List QueueItem
write_result io cmd =
    if io.written
    then elim cmd.return_message [
      | none ↦ (record cmd { last_write_ok = true }, [])
      | some msg ↦
          let answer = record msg { registers = cmd.values } in
          (
            record cmd { last_write_ok = true; return_message = some answer },
            register_values answer ∷ [],
          )
    ]
    else (
      record cmd { last_write_ok = false },
      register_write_failed (message_about cmd.command (get_write_count cmd) cmd.command_id) ∷ [],
    )

unfoldable pub write_registers : Io → ℕ → ModbusExecutor → ModbusExecutor
write_registers io r x =
    let (cmd, messages) = write_result io (x.store.writes r) in
    record x {
      store = set_write r cmd x.store;
      from_modbus_queue = x.from_modbus_queue ++ messages;
      last_command_time = io.finish;
    }

abbrev pub same_command : CommandRef → Option CommandRef → Bool
same_command c none = false
same_command c (some d) = same_ref c d

-- The retry counters are set anew when another command is sent than before.
unfoldable pub start_retries : CommandRef → ModbusExecutor → ModbusExecutor
start_retries c x =
    let command = command_of x.store c in
    if same_command c x.last_command then x else record x {
      max_read_retry_count = command.max_read_retry_count;
      read_retry_count = command.max_read_retry_count;
      max_write_retry_count = command.max_write_retry_count;
      write_retry_count = command.max_write_retry_count;
    }

-- What follows a read, which may be for an RPC client: whether to retry, and the state.
abbrev pub retry_poll : ℕ → Bool → ModbusExecutor → Bool × ModbusExecutor
retry_poll r rpc y =
    let reg = y.store.polls r in
    if not reg.last_read_ok
    then (if not (y.read_retry_count == 0)
        then (true, record y { read_retry_count = y.read_retry_count - 1 })
        else (if rpc
            then (
              false,
              send_message
                  (register_read_failed
                    (message_about reg.command (get_poll_count reg) reg.command_id))
                  y,
            )
            else (false, y)))
    else (false, record y { read_retry_count = y.max_read_retry_count })

-- The branch for a `RegisterPoll`.
unfoldable pub send_poll : Io → ℕ → ModbusExecutor → Bool × ModbusExecutor
send_poll io r x =
    let rpc = is_rpc (x.store.polls r).command.base in
    retry_poll r rpc (poll_registers io r (x.initial_poll || rpc) x)

-- The branch for a `RegisterWrite`. The assertion on the number of queued writes fails as `none`.
unfoldable pub send_write : Io → ℕ → ModbusExecutor → Option (Bool × ModbusExecutor)
send_write io r x =
    let y = write_registers io r x in
    if not (y.store.writes r).last_write_ok
    then some (
        if not (y.write_retry_count == 0)
        then (true, record y { write_retry_count = y.write_retry_count - 1 })
        else (false, y))
    else (if y.write_commands_queued == 0
        then none
        else some (
          false,
          record y {
            write_retry_count = y.max_write_retry_count;
            write_commands_queued = y.write_commands_queued - 1;
          },
        ))

abbrev pub send_by_kind : Io → CommandRef → ModbusExecutor → Option (Bool × ModbusExecutor)
send_by_kind io (poll_ref r) x = some (send_poll io r x)
send_by_kind io (write_ref r) x = send_write io r x

-- A command that is not retried leaves the place of the waiting command.
unfoldable pub finish_command : CommandRef → Bool × ModbusExecutor → ModbusExecutor
finish_command c (retry, x) =
    let y = record x { last_command = some c } in
    if retry then y else record y { waiting_command = none; commands_left = y.commands_left - 1 }

-- `sendCommand` for the waiting command.
unfoldable pub send_command : Io → CommandRef → ModbusExecutor → Option ModbusExecutor
send_command io c x = send_by_kind io c (start_retries c x) >>= λ sent. some (finish_command c sent)
