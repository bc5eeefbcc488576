-- ===== src/Executor/Delay.antt =====
-- `executeNext` keeps the delays that the commands ask for.
use mqmgateway.Base.{
  ℕ, ◌+◌, ◌≤◌, ◌<◌, ◌≡◌, refl, subst, ◌∙◌, ◌⊎◌, inl, inr, Bool, true, false, some, arith,
  Bool-cases, Option-cases,
}
use mqmgateway.Command.{CommandRef, poll_ref, write_ref}
use mqmgateway.Executor.{ModbusExecutor, send_message, all_done}
use mqmgateway.Executor.Accounts.{IsAccounted}
use mqmgateway.Executor.Next.{command_delay, delay_left, finish_initial_poll, execute_next}
use mqmgateway.Executor.Perform.{
  Io, poll_registers, write_registers, start_retries, send_poll, send_write, send_by_kind,
  finish_command, send_command,
}
use mqmgateway.Executor.Safe.{must_wait, execute_next_step}
use mqmgateway.Executor.Safe.Choose.{choose_waiting_lem}
use mqmgateway.Executor.Safe.Send.{send_command_lem}

-- What a command that is sent records.
abbrev pub IsPerformed : Io → ModbusExecutor → Type 0
IsPerformed io y = y.last_command_time ≡ io.finish

send_poll_time : (io : Io) (r : ℕ) (x : ModbusExecutor) → IsPerformed io (send_poll io r x).1
unfolding send_poll poll_registers send_message
send_poll_time io r x = ground arith

send_write_time :
    (io : Io) (r : ℕ) (x : ModbusExecutor) {sent : Bool × ModbusExecutor}
    → send_write io r x ≡ some sent
    → IsPerformed io sent.1
unfolding send_write write_registers
send_write_time io r x h = ground arith

finish_command_time :
    (io : Io) (c : CommandRef) (sent : Bool × ModbusExecutor)
    → IsPerformed io sent.1
    → IsPerformed io (finish_command c sent) × ((finish_command c sent).last_command ≡ some c)
unfolding finish_command
finish_command_time io c sent h = ground (arith, h)

send_by_kind_time :
    (io : Io) (c : CommandRef) (x : ModbusExecutor) {sent : Bool × ModbusExecutor}
    → send_by_kind io c x ≡ some sent
    → IsPerformed io sent.1
send_by_kind_time io (poll_ref r) x {sent} h = ground (arith, send_poll_time io r x)
send_by_kind_time io (write_ref r) x {sent} h = send_write_time io r x h

pub send_command_time :
    (io : Io) (c : CommandRef) (x y : ModbusExecutor)
    → send_command io c x ≡ some y
    → IsPerformed io y × (y.last_command ≡ some c)
unfolding send_command
send_command_time io c x y h = elim (Option-cases (send_by_kind io c (start_retries c x))) [
  | inl e ↦ absurd (ground (arith, e))
  | inr (sent, e) ↦
      let t = finish_command_time io c sent (send_by_kind_time io c (start_retries c x) e) in
      let q : finish_command c sent ≡ y = ground (arith, e) in
      subst (λ z. IsPerformed io z × (z.last_command ≡ some c)) q t
]

command_delay-same :
    (c : CommandRef) (x y : ModbusExecutor)
    → y.store ≡ x.store
    → y.last_command ≡ x.last_command
    → command_delay c y ≡ command_delay c x
unfolding command_delay
command_delay-same c x y s l = ground arith

-- The wait: nothing is sent, and the rest of the delay is returned.
abbrev pub Waited : Io → CommandRef → ModbusExecutor → ModbusExecutor → ℕ → Type 0
Waited io c x y d =
    (io.delay_check + d ≡ x.last_command_time + command_delay c x)
    × (0 < d)
    × (y.waiting_command ≡ some c)
    × (y.store ≡ x.store)
    × (y.from_modbus_queue ≡ x.from_modbus_queue)
    × (y.last_command_time ≡ x.last_command_time)

-- The command is sent: its delay has passed since the last command.
abbrev pub Sent : Io → CommandRef → ModbusExecutor → ModbusExecutor → ℕ → Type 0
Sent io c x y d =
    (d ≡ 0)
    × (x.last_command_time + command_delay c x ≤ io.delay_check ⊎ (command_delay c x ≡ 0))
    × (y.last_command ≡ some c)
    × (y.last_command_time ≡ io.finish)

finish_initial_poll_keeps :
    (x : ModbusExecutor)
    → ((finish_initial_poll x).last_command ≡ x.last_command)
      × ((finish_initial_poll x).last_command_time ≡ x.last_command_time)
unfolding finish_initial_poll
finish_initial_poll_keeps x = ground arith

delay_waited :
    (now : ℕ) (c : CommandRef) (x : ModbusExecutor)
    → must_wait now c x ≡ true
    → (now + delay_left now c x ≡ x.last_command_time + command_delay c x)
      × (0 < delay_left now c x)
unfolding delay_left
delay_waited now c x h = ground arith

delay_passed :
    (now : ℕ) (c : CommandRef) (x : ModbusExecutor)
    → must_wait now c x ≡ false
    → (x.last_command_time + command_delay c x ≤ now) ⊎ (command_delay c x ≡ 0)
unfolding delay_left
delay_passed now c x h = ground arith

-- With something to do, `executeNext` chooses one command. If the delay that the command asks for has
-- not passed since the last command, nothing is sent and the returned duration is exactly what is
-- left; otherwise the command is sent.
pub execute_next_delay :
    (io : Io) (x : ModbusExecutor)
    → IsAccounted x
    → all_done x ≡ false
    → (c : CommandRef) × (y : ModbusExecutor) × (d : ℕ) × (execute_next io x ≡ some (y, d))
      × (Waited io c x y d ⊎ Sent io c x y d)
execute_next_delay io x a busy =
    let h = choose_waiting_lem x a busy in
    let y = h.state in
    let c = h.command in
    let same = command_delay-same c x y h.same_store h.same_last in
    let step = execute_next_step io x h in
    elim (Bool-cases (must_wait io.delay_check c y)) [
      | inl wait ↦
          let w = delay_waited io.delay_check c y wait in
          (
            c,
            y,
            delay_left io.delay_check c y,
            step ∙ rw wait refl,
            inl (
              omega (arith, w.0, same, h.same_time),
              w.1,
              h.waiting,
              h.same_store,
              h.same_messages,
              h.same_time,
            ),
          )
      | inr go ↦
          let (z, sent, accounted) = send_command_lem io c y h.accounted h.waiting in
          let t = send_command_time io c y z sent in
          let f = finish_initial_poll_keeps z in
          let p = delay_passed io.delay_check c y go in
          (
            c,
            finish_initial_poll z,
            0,
            step ∙ rw (go, sent) refl,
            inr (refl, ground (arith, p, same, h.same_time), f.0 ∙ t.1, f.1 ∙ t.0),
          )
    ]
