-- ===== src/Executor/Attempts.antt =====
-- One attempt of a read in `sendCommand`, and what is set before the first.
use mqmgateway.Base.{
  ℕ, suc, ◌≡◌, refl, ap, Bool, true, false, Option, none, some, List, [], ◌∷◌, ◌++◌, arith, ◌==◌,
  ◌>>=◌,
}
use mqmgateway.Command.{
  QueueItem, register_read_failed, RegisterPoll, get_poll_count, CommandRef, command_of,
}
use mqmgateway.Executor.{ModbusExecutor, send_message}
use mqmgateway.Executor.Perform.{
  Io, message_about, same_command, start_retries, retry_poll, send_command,
}

-- The loop of the thread for the waiting command: one `sendCommand` for each answer of the world, as
-- long as a command waits. The count is the number of commands sent.
unfoldable pub send_until_done : List Io → ModbusExecutor → Option (ℕ × ModbusExecutor)
send_until_done [] x = some (0, x)
send_until_done (io ∷ ios) x = elim x.waiting_command [
  | none ↦ some (0, x)
  | some c ↦ send_command io c x >>= λ y. (send_until_done ios y >>= λ (n, z). some (suc n, z))
]

-- What the client of an RPC read is told when the read is given up.
abbrev pub read_failure : RegisterPoll → QueueItem
read_failure reg =
    register_read_failed (message_about reg.command (get_poll_count reg) reg.command.command_id)

-- After a failed read there is a retry or the read is given up.
pub retry_poll_again :
    (r n : ℕ) (rpc : Bool) (y : ModbusExecutor)
    → (y.store.polls r).last_read_ok ≡ false
    → y.read_retry_count ≡ suc n
    → retry_poll r rpc y ≡ (true, record y { read_retry_count = n })
retry_poll_again r n rpc y failed left =
    let some_left : (y.read_retry_count == 0) ≡ false = ground (arith, left) in
    rw (failed, some_left)
      (ap (λ k. (true, record y { read_retry_count = k })) (omega (arith, left)))

pub retry_poll_over :
    (r : ℕ) (y : ModbusExecutor)
    → (y.store.polls r).last_read_ok ≡ false
    → y.read_retry_count ≡ 0
    → retry_poll r true y ≡ (
      false,
      record y { from_modbus_queue = y.from_modbus_queue ++ read_failure (y.store.polls r) ∷ [] },
    )
unfolding send_message
retry_poll_over r y failed left = rw (failed, left) refl

pub start_retries_same :
    (c : CommandRef) (x : ModbusExecutor)
    → same_command c x.last_command ≡ true
    → start_retries c x ≡ x
unfolding start_retries
start_retries_same c x h = rw h refl

pub start_retries_other :
    (c : CommandRef) (x : ModbusExecutor)
    → same_command c x.last_command ≡ false
    → let y = start_retries c x in
      (y.read_retry_count ≡ (command_of x.store c).max_read_retry_count)
      × (y.waiting_command ≡ x.waiting_command)
      × (y.store ≡ x.store)
      × (y.from_modbus_queue ≡ x.from_modbus_queue)
unfolding start_retries
start_retries_other c x h = rw h (refl, refl, refl, refl)
