-- ===== src/Executor/Safe.antt =====
-- `executeNext` on a state of the invariant, and in the children its parts and the operations that
-- queue commands.
pub mod Choose
pub mod Send
pub mod Queue
pub mod Reads
pub mod Added
pub mod Elect
pub mod Polls
use mqmgateway.Base.{
  ℕ, ◌≡◌, refl, ◌∙◌, inl, inr, Bool, false, not, ◌&&◌, some, arith, ltb, ◌==◌, if◌then◌else◌,
  Bool-cases, ◌>>=◌,
}
use mqmgateway.Command.{CommandRef}
use mqmgateway.Executor.{ModbusExecutor, all_done}
use mqmgateway.Executor.Accounts.{IsAccounted}
use mqmgateway.Executor.Next.{command_delay, delay_left, finish_initial_poll, execute_next}
use mqmgateway.Executor.Perform.{Io, send_command}
use mqmgateway.Executor.Safe.Choose.{Chooses, choose_waiting_lem}
use mqmgateway.Executor.Safe.Send.{send_command_lem, finish_initial_poll-IsAccounted}

-- Whether the delay before a command has not passed yet.
abbrev pub must_wait : ℕ → CommandRef → ModbusExecutor → Bool
must_wait now c x = not (command_delay c x == 0) && ltb 0 (delay_left now c x)

-- After the choice `executeNext` waits or sends.
pub execute_next_step :
    (io : Io) (x : ModbusExecutor) (h : Chooses x)
    → execute_next io x ≡ (
        if must_wait io.delay_check h.command h.state
        then some (h.state, delay_left io.delay_check h.command h.state)
        else (send_command io h.command h.state >>= λ z. some (finish_initial_poll z, 0)))
unfolding execute_next
execute_next_step io x h = ground (arith, h.chosen, h.waiting)

-- Between two operations, with something to do, `executeNext` returns, and the invariant holds again.
pub execute_next_safe :
    (io : Io) (x : ModbusExecutor)
    → IsAccounted x
    → all_done x ≡ false
    → (y : ModbusExecutor) × (d : ℕ) × (execute_next io x ≡ some (y, d)) × IsAccounted y
execute_next_safe io x a busy =
    let chosen = choose_waiting_lem x a busy in
    let y = chosen.state in
    let c = chosen.command in
    let (z, sent, accounted) = send_command_lem io c y chosen.accounted chosen.waiting in
    let step = execute_next_step io x chosen in
    elim (Bool-cases (must_wait io.delay_check c y)) [
      | inl wait ↦ (y, delay_left io.delay_check c y, step ∙ rw wait refl, chosen.accounted)
      | inr go ↦ (
        finish_initial_poll z,
        0,
        step ∙ rw (go, sent) refl,
        finish_initial_poll-IsAccounted z accounted,
      )
    ]
