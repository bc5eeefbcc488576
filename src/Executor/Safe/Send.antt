-- ===== src/Executor/Safe/Send.antt =====
-- Sending a command: the queues stay, and the number of queued writes covers those that are left.
use mqmgateway.Address.{is_rpc}
use mqmgateway.Base.{
  ℕ, ◌+◌, ◌-◌, ◌≤◌, ◌<◌, ◌≡◌, refl, sym, ap, subst, ◌∙◌, ◌⊎◌, inl, inr, Bool, true, false, ◌||◌,
  none, some, arith, ◌==◌, if◌then◌else◌, Bool-cases, find, Ascends, total,
}
use mqmgateway.Command.{CommandRef, poll_ref, write_ref}
use mqmgateway.Executor.{ModbusExecutor, send_message, is_none, all_done}
use mqmgateway.Executor.Accounts.{
  write_count, waiting_writes, IsAccounted, HasCurrent-at, HasCurrent-key, HasCurrent-busy,
}
use mqmgateway.Executor.Next.{finish_initial_poll}
use mqmgateway.Executor.Perform.{
  Io, poll_registers, write_registers, start_retries, send_poll, send_write, send_by_kind,
  finish_command, send_command,
}

-- The part of the state that a command which is sent leaves alone.
pub record SameQueues (x y : ModbusExecutor) : Type 0 where
  pub queues : y.slave_queues ≡ x.slave_queues
  pub current : y.current_slave_queue ≡ x.current_slave_queue
  pub waiting : y.waiting_command ≡ x.waiting_command

start_retries-SameQueues :
    (c : CommandRef) (x : ModbusExecutor)
    → SameQueues x (start_retries c x)
      × ((start_retries c x).write_commands_queued ≡ x.write_commands_queued)
unfolding start_retries
start_retries-SameQueues c x = ground arith

poll_registers-SameQueues :
    (io : Io) (r : ℕ) (force : Bool) (x : ModbusExecutor)
    → SameQueues x (poll_registers io r force x)
      × ((poll_registers io r force x).write_commands_queued ≡ x.write_commands_queued)
unfolding poll_registers
poll_registers-SameQueues io r force x =
    (record { queues = refl; current = refl; waiting = refl }, refl)

pub send_poll-SameQueues :
    (io : Io) (r : ℕ) (x : ModbusExecutor)
    → let sent = send_poll io r x in
      SameQueues x sent.1 × (sent.1.write_commands_queued ≡ x.write_commands_queued)
unfolding send_poll send_message
send_poll-SameQueues io r x = ground (
  arith,
  poll_registers-SameQueues io r (x.initial_poll || is_rpc (x.store.polls r).command.base) x,
)

-- A write that ends with success is counted off.
abbrev CountsOff : ModbusExecutor → Bool × ModbusExecutor → Type 0
CountsOff x (retry, y) =
    x.write_commands_queued ≤ y.write_commands_queued + (if retry then 0 else 1)

write_registers-SameQueues :
    (io : Io) (r : ℕ) (x : ModbusExecutor)
    → SameQueues x (write_registers io r x)
      × ((write_registers io r x).write_commands_queued ≡ x.write_commands_queued)
unfolding write_registers
write_registers-SameQueues io r x = (record { queues = refl; current = refl; waiting = refl }, refl)

send_write_lem :
    (io : Io) (r : ℕ) (x : ModbusExecutor)
    → 0 < x.write_commands_queued
    → (sent : Bool × ModbusExecutor) × (send_write io r x ≡ some sent)
      × SameQueues x sent.1
      × CountsOff x sent
unfolding send_write
send_write_lem io r x h =
    let y = write_registers io r x in
    let same = write_registers-SameQueues io r x in
    let pos_count : (y.write_commands_queued == 0) ≡ false = ground (arith, same.1) in
    elim (Bool-cases (y.store.writes r).last_write_ok) [
      | inl ok ↦ (
        (
          false,
          record y {
            write_retry_count = y.max_write_retry_count;
            write_commands_queued = y.write_commands_queued - 1;
          },
        ),
        rw (ok, pos_count) refl,
        ground (arith, same),
        omega (arith, same.1),
      )
      | inr failed ↦ elim (Bool-cases (y.write_retry_count == 0)) [
        | inl out ↦ ((false, y), rw (failed, out) refl, same.0, omega (arith, same.1))
        | inr left ↦ (
          (true, record y { write_retry_count = y.write_retry_count - 1 }),
          rw (failed, left) refl,
          ground (arith, same),
          omega (arith, same.1),
        )
      ]
    ]

-- What the two kinds of commands have in common.
send_by_kind_lem :
    (io : Io) (c : CommandRef) (x : ModbusExecutor)
    → waiting_writes (some c) ≤ x.write_commands_queued
    → (sent : Bool × ModbusExecutor) × (send_by_kind io c x ≡ some sent)
      × SameQueues x sent.1
      × (x.write_commands_queued
          ≤ sent.1.write_commands_queued + (if sent.0 then 0 else waiting_writes (some c)))
send_by_kind_lem io (poll_ref r) x h =
    let same = send_poll-SameQueues io r x in
    (send_poll io r x, refl, same.0, omega (arith, same.1))
send_by_kind_lem io (write_ref r) x h = send_write_lem io r x h

finish_command_lem :
    (c : CommandRef) (sent : Bool × ModbusExecutor)
    → let y = finish_command c sent in
      (y.slave_queues ≡ sent.1.slave_queues)
      × (y.current_slave_queue ≡ sent.1.current_slave_queue)
      × (y.write_commands_queued ≡ sent.1.write_commands_queued)
      × (y.waiting_command ≡ (if sent.0 then sent.1.waiting_command else none))
unfolding finish_command
finish_command_lem c sent = ground arith

-- The invariant of a state with the queues of another one, and a current queue.
pub same-IsAccounted :
    (k : ℕ) (x y : ModbusExecutor)
    → IsAccounted x
    → y.slave_queues ≡ x.slave_queues
    → y.current_slave_queue ≡ x.current_slave_queue
    → x.current_slave_queue ≡ some k
    → total write_count x.slave_queues + waiting_writes y.waiting_command ≤ y.write_commands_queued
    → IsAccounted y
same-IsAccounted k x y a queues current at counted = record {
  keys = subst (Ascends 0) (sym queues) a.keys;
  counted = omega (arith, ap (total write_count) queues, counted);
  current =
      HasCurrent-at y k (current ∙ at)
        (subst (λ qs. is_none (find k qs) ≡ false) (sym queues) (HasCurrent-key x k a.current at));
}

all_done-waiting :
    (x : ModbusExecutor) (c : CommandRef) → x.waiting_command ≡ some c → all_done x ≡ false
unfolding all_done
all_done-waiting x c w = ground arith

finish_command-IsAccounted :
    (c : CommandRef) (x : ModbusExecutor) (sent : Bool × ModbusExecutor)
    → IsAccounted x
    → x.waiting_command ≡ some c
    → SameQueues x sent.1
    → x.write_commands_queued
      ≤ sent.1.write_commands_queued + (if sent.0 then 0 else waiting_writes (some c))
    → IsAccounted (finish_command c sent)
finish_command-IsAccounted c x sent a w same h =
    let (k, at) = HasCurrent-busy x a.current (all_done-waiting x c w) in
    let (queues, current, queued, waiting) = finish_command_lem c sent in
    let held : total write_count x.slave_queues + waiting_writes (some c)
        ≤ x.write_commands_queued =
      ground (arith, a.counted, ap waiting_writes w) in
    same-IsAccounted k x (finish_command c sent) a (queues ∙ same.queues) (current ∙ same.current)
      at
      (elim (Bool-cases sent.0) [
        | inl again ↦
            let e : (finish_command c sent).waiting_command ≡ some c =
              ground (arith, waiting, same.waiting) in
            ground (arith, held, queued, ap waiting_writes e)
        | inr over ↦
            let e : (finish_command c sent).waiting_command ≡ none = ground (arith, waiting) in
            ground (arith, held, queued, ap waiting_writes e)
      ])

-- With the invariant, `sendCommand` returns, and the invariant holds again.
pub send_command_lem :
    (io : Io) (c : CommandRef) (x : ModbusExecutor)
    → IsAccounted x
    → x.waiting_command ≡ some c
    → (y : ModbusExecutor) × (send_command io c x ≡ some y) × IsAccounted y
unfolding send_command
send_command_lem io c x a w =
    let (k, at) = HasCurrent-busy x a.current (all_done-waiting x c w) in
    let y = start_retries c x in
    let (same, queued) = start_retries-SameQueues c x in
    let held : total write_count x.slave_queues + waiting_writes (some c)
        ≤ x.write_commands_queued =
      ground (arith, a.counted, ap waiting_writes w) in
    let ay =
      same-IsAccounted k x y a same.queues same.current at
        (omega (arith, held, queued, ap waiting_writes (same.waiting ∙ w))) in
    let (sent, e, kept, off) = send_by_kind_lem io c y (omega (arith, held, queued)) in
    (
      finish_command c sent,
      rw e refl,
      finish_command-IsAccounted c y sent ay (same.waiting ∙ w) kept off,
    )

finish_initial_poll_cases :
    (x : ModbusExecutor)
    → (finish_initial_poll x ≡ x) ⊎ (finish_initial_poll x ≡ record x { initial_poll = false })
unfolding finish_initial_poll
finish_initial_poll_cases x = ground arith

pub finish_initial_poll-IsAccounted :
    (x : ModbusExecutor) → IsAccounted x → IsAccounted (finish_initial_poll x)
unfolding all_done
finish_initial_poll-IsAccounted x a = elim (finish_initial_poll_cases x) [
  | inl e ↦ subst IsAccounted (sym e) a
  | inr e ↦
      subst IsAccounted (sym e) (record { keys = a.keys; counted = a.counted; current = a.current })
]
