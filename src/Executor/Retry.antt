-- ===== src/Executor/Retry.antt =====
-- The retries of a read in `sendCommand`, and the answer to a read that an RPC client asked for.
use mqmgateway.Address.{is_rpc}
use mqmgateway.Base.{
  ℕ, zero, suc, ◌<◌, ◌≡◌, refl, sym, ap, ap₂, subst, ◌∙◌, true, false, ◌||◌, none, some, List, [],
  ◌∷◌, ◌++◌, arith, ◌>>=◌, length, All,
}
use mqmgateway.Command.{QueueItem, register_read_failed, RegisterCommand, poll_ref}
use mqmgateway.Executor.{ModbusExecutor}
use mqmgateway.Executor.Attempts.{
  send_until_done, read_failure, retry_poll_again, retry_poll_over, start_retries_same,
  start_retries_other,
}
use mqmgateway.Executor.Perform.{
  Io, message_about, poll_registers, same_command, start_retries, retry_poll, send_poll,
  finish_command, send_command,
}
use mqmgateway.Executor.Reading.{IsFailedRead, same-==, poll_registers_failed}
use mqmgateway.Executor.Safe.Send.{send_poll-SameQueues}

-- A poll that waits, was the last command sent, and has a number of retries left. What identifies it
-- is not changed by its failures.
record Retrying (r : ℕ) (cmd : RegisterCommand) (values : List ℕ) (queue : List QueueItem) (n : ℕ)
    (x : ModbusExecutor) : Type 0 where
  left : x.read_retry_count ≡ n
  command : (x.store.polls r).command ≡ cmd
  last_values : (x.store.polls r).last_values ≡ values
  messages : x.from_modbus_queue ≡ queue

module _ (r : ℕ) (cmd : RegisterCommand) (values : List ℕ) (queue : List QueueItem)
    (rpc : is_rpc cmd.base ≡ true) where
  abbrev failure : QueueItem
  failure = register_read_failed (message_about cmd (length values) cmd.command_id)

  send_poll_again :
      (io : Io) (n : ℕ) (x : ModbusExecutor)
      → IsFailedRead io
      → Retrying r cmd values queue (suc n) x
      → (send_poll io r x).0 ≡ true × Retrying r cmd values queue n (send_poll io r x).1
  unfolding send_poll
  send_poll_again io n x failed h =
      let is : is_rpc (x.store.polls r).command.base ≡ true =
        ap (λ c. is_rpc c.base) h.command ∙ rpc in
      let force = x.initial_poll || is_rpc (x.store.polls r).command.base in
      let p = poll_registers_failed io r force x failed is in
      let y = poll_registers io r force x in
      let e = retry_poll_again r n (is_rpc (x.store.polls r).command.base) y p.1 (p.4 ∙ h.left) in
      (
        ap (λ q. q.0) e,
        subst (λ q. Retrying r cmd values queue n q.1) (sym e)
            (record {
              left = refl;
              command = p.0 ∙ h.command;
              last_values = p.2 ∙ h.last_values;
              messages = p.3 ∙ h.messages;
            }),
      )

  send_poll_over :
      (io : Io) (x : ModbusExecutor)
      → IsFailedRead io
      → Retrying r cmd values queue 0 x
      → ((send_poll io r x).0 ≡ false)
        × ((send_poll io r x).1.from_modbus_queue ≡ queue ++ failure ∷ [])
  unfolding send_poll
  send_poll_over io x failed h =
      let is : is_rpc (x.store.polls r).command.base ≡ true =
        ap (λ c. is_rpc c.base) h.command ∙ rpc in
      let force = x.initial_poll || is_rpc (x.store.polls r).command.base in
      let p = poll_registers_failed io r force x failed is in
      let y = poll_registers io r force x in
      let e = ap (λ b. retry_poll r b y) is ∙ retry_poll_over r y p.1 (p.4 ∙ h.left) in
      let f : read_failure (y.store.polls r) ≡ failure =
        ap₂ (λ c v. register_read_failed (message_about c (length v) c.command_id))
          (p.0 ∙ h.command) (p.2 ∙ h.last_values) in
      (
        ap (λ q. q.0) e,
        ap (λ q. q.1.from_modbus_queue) e ∙ ap₂ (λ q i. q ++ i ∷ []) (p.3 ∙ h.messages) f,
      )

  -- A command that waits, with a number of retries left when it is sent.
  record Attempts (n : ℕ) (x : ModbusExecutor) : Type 0 where
    retries : Retrying r cmd values queue n (start_retries (poll_ref r) x)
    waiting : x.waiting_command ≡ some (poll_ref r)
    still_waiting : (start_retries (poll_ref r) x).waiting_command ≡ some (poll_ref r)

  finish_command-Attempts :
      (n : ℕ) (y : ModbusExecutor)
      → Retrying r cmd values queue n y
      → y.waiting_command ≡ some (poll_ref r)
      → Attempts n (finish_command (poll_ref r) (true, y))
  unfolding finish_command
  finish_command-Attempts n y h w =
      let z = record y { last_command = some (poll_ref r) } in
      let e : start_retries (poll_ref r) z ≡ z = start_retries_same (poll_ref r) z (same-== r) in
      record {
        retries = subst (Retrying r cmd values queue n) (sym e) (record {
          left = h.left;
          command = h.command;
          last_values = h.last_values;
          messages = h.messages;
        });
        waiting = w;
        still_waiting = ap (λ q. q.waiting_command) e ∙ w;
      }

  send_command_again :
      (io : Io) (n : ℕ) (x : ModbusExecutor)
      → IsFailedRead io
      → Attempts (suc n) x
      → (y : ModbusExecutor) × (send_command io (poll_ref r) x ≡ some y) × Attempts n y
  unfolding send_command
  send_command_again io n x failed h =
      let s = start_retries (poll_ref r) x in
      let (again, kept) = send_poll_again io n s failed h.retries in
      let same = send_poll-SameQueues io r s in
      let y = finish_command (poll_ref r) (true, (send_poll io r s).1) in
      (
        y,
        ap (λ b. some (finish_command (poll_ref r) (b, (send_poll io r s).1))) again,
        finish_command-Attempts n (send_poll io r s).1 kept (same.0.waiting ∙ h.still_waiting),
      )

  send_command_over :
      (io : Io) (x : ModbusExecutor)
      → IsFailedRead io
      → Attempts 0 x
      → (y : ModbusExecutor) × (send_command io (poll_ref r) x ≡ some y)
        × (y.waiting_command ≡ none)
        × (y.from_modbus_queue ≡ queue ++ failure ∷ [])
  unfolding send_command finish_command
  send_command_over io x failed h =
      let s = start_retries (poll_ref r) x in
      let (over, told) = send_poll_over io s failed h.retries in
      (
        finish_command (poll_ref r) (false, (send_poll io r s).1),
        ap (λ b. some (finish_command (poll_ref r) (b, (send_poll io r s).1))) over,
        refl,
        told,
      )

  send_until_done_nothing :
      (ios : List Io) (x : ModbusExecutor)
      → x.waiting_command ≡ none
      → send_until_done ios x ≡ some (0, x)
  unfolding send_until_done
  send_until_done_nothing [] x h = refl
  send_until_done_nothing (io ∷ ios) x h = rw h refl

  send_until_done-some :
      (io : Io) (ios : List Io) (n : ℕ) (x y z : ModbusExecutor)
      → x.waiting_command ≡ some (poll_ref r)
      → send_command io (poll_ref r) x ≡ some y
      → send_until_done ios y ≡ some (n, z)
      → send_until_done (io ∷ ios) x ≡ some (suc n, z)
  unfolding send_until_done
  send_until_done-some io ios n x y z w s d =
      ap
        (λ q. elim q [
          | none ↦ some (0, x)
          | some c ↦
              send_command io c x >>= λ y. (send_until_done ios y >>= λ (n, z). some (suc n, z))
        ])
        w
      ∙ rw (s, d) refl

  attempts_lem :
      (ios : List Io) (n : ℕ) (x : ModbusExecutor)
      → All IsFailedRead ios
      → n < length ios
      → Attempts n x
      → (z : ModbusExecutor) × (send_until_done ios x ≡ some (suc n, z))
        × (z.waiting_command ≡ none)
        × (z.from_modbus_queue ≡ queue ++ failure ∷ [])
  attempts_lem [] n x failed many h = absurd (omega (arith, many))
  attempts_lem (io ∷ ios) zero x (f, failed) many h =
      let (y, sent, done, told) = send_command_over io x f h in
      (
        y,
        send_until_done-some io ios 0 x y y h.waiting sent (send_until_done_nothing ios y done),
        done,
        told,
      )
  attempts_lem (io ∷ ios) (suc n) x (f, failed) many h =
      let (y, sent, hy) = send_command_again io n x f h in
      let (z, e, done, told) = attempts_lem ios n y failed (omega (arith, many)) hy in
      (z, send_until_done-some io ios (suc n) x y z h.waiting sent e, done, told)

-- An RPC read that waits, is not the command that was sent last, and fails each time, is sent once more
-- than its retry count. Then no command waits, and the client was sent one message for all of it: the
-- failure, with the command id of the read.
pub send_until_done_rpc :
    (ios : List Io) (r : ℕ) (x : ModbusExecutor)
    → x.waiting_command ≡ some (poll_ref r)
    → same_command (poll_ref r) x.last_command ≡ false
    → is_rpc (x.store.polls r).command.base ≡ true
    → All IsFailedRead ios
    → (x.store.polls r).command.max_read_retry_count < length ios
    → (z : ModbusExecutor) × (send_until_done ios x
        ≡ some (suc (x.store.polls r).command.max_read_retry_count, z))
      × (z.waiting_command ≡ none)
      × (z.from_modbus_queue ≡ x.from_modbus_queue ++ read_failure (x.store.polls r) ∷ [])
send_until_done_rpc ios r x w other rpc failed many =
    let cmd = (x.store.polls r).command in
    let s = start_retries_other (poll_ref r) x other in
    attempts_lem r cmd (x.store.polls r).last_values x.from_modbus_queue rpc ios
      cmd.max_read_retry_count x failed many
      (record {
        retries = record {
          left = s.0;
          command = ap (λ q. (q.polls r).command) s.2;
          last_values = ap (λ q. (q.polls r).last_values) s.2;
          messages = s.3;
        };
        waiting = w;
        still_waiting = s.1 ∙ w;
      })
