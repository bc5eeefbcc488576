-- ===== src/Executor/Messages.antt =====
-- The messages that `pollRegisters` and `handleRegisterReadError` send to the main thread.
use mqmgateway.Address.{is_rpc}
use mqmgateway.Base.{
  ℕ, ◌+◌, ◌<◌, ◌≡◌, sym, ap, ◌∙◌, ◌≢◌, ◌↔◌, ◌⊎◌, inl, inr, Bool, true, false, some, List, [], ◌∷◌,
  ◌++◌, append-nil, arith, Bool-cases,
}
use mqmgateway.Command.{RegisterPoll, duration_between_log_error, update_values}
use mqmgateway.Executor.{ModbusExecutor}
use mqmgateway.Executor.Perform.{
  Io, same_values, is_every_poll, values_message, count_read_error, must_publish, poll_result,
  poll_registers,
}
use mqmgateway.Executor.Reading.{
  IsFailedRead, poll_read, poll_result_failed, poll_registers_lem, poll_result_ok, same_values_lem,
  must_publish_not,
}

-- A poll that answers: afterwards the poll holds just the values that were read and counts no errors.
-- Either one message was sent, with these values, or nothing: then the values are those the poll had,
-- it counted no errors and is not published on every poll, and sending was not forced.
pub poll_registers_ok :
    (io : Io) (r : ℕ) (force : Bool) (x : ModbusExecutor) (values : List ℕ)
    → io.reply ≡ some values
    → let reg = x.store.polls r in
      let y = poll_registers io r force x in
      ((y.store.polls r).last_values ≡ values)
      × ((y.store.polls r).read_errors ≡ 0)
      × ((y.store.polls r).last_read_ok ≡ true)
      × ((y.from_modbus_queue ≡ x.from_modbus_queue ++ values_message io reg values ∷ [])
          ⊎ ((y.from_modbus_queue ≡ x.from_modbus_queue)
              × (reg.last_values ≡ values)
              × (reg.read_errors ≡ 0)
              × (is_every_poll reg.publish_mode ≡ false)
              × (force ≡ false)))
unfolding values_message
poll_registers_ok io r force x values reply =
    let reg = poll_read io r x in
    let ok = record reg { last_read_ok = true } in
    let p = poll_registers_lem io r force x in
    let res = poll_result_ok io force reg values reply in
    elim (Bool-cases (must_publish force reg values)) [
      | inl publish ↦
          let e : poll_result io force reg ≡ (
            record (update_values values ok) { read_errors = 0 },
            values_message io reg values ∷ [],
          ) =
            rw publish at res in
          (
            ap (λ q. q.last_values) p.0 ∙ ap (λ q. q.0.last_values) e,
            ap (λ q. q.read_errors) p.0 ∙ ap (λ q. q.0.read_errors) e,
            ap (λ q. q.last_read_ok) p.0 ∙ ap (λ q. q.0.last_read_ok) e,
            inl (p.1 ∙ ap (λ q. x.from_modbus_queue ++ q.1) e),
          )
      | inr silent ↦
          let e : poll_result io force reg ≡ (ok, []) = rw silent at res in
          let (same, forced, mode, errors) = must_publish_not force reg values silent in
          let equal = same_values_lem reg.last_values values same in
          (
            ap (λ q. q.last_values) p.0 ∙ ap (λ q. q.0.last_values) e ∙ equal,
            ap (λ q. q.read_errors) p.0 ∙ ap (λ q. q.0.read_errors) e ∙ errors,
            ap (λ q. q.last_read_ok) p.0 ∙ ap (λ q. q.0.last_read_ok) e,
            inr (
              p.1 ∙ ap (λ q. x.from_modbus_queue ++ q.1) e ∙ append-nil x.from_modbus_queue,
              equal,
              errors,
              mode,
              forced,
            ),
          )
    ]

must_publish_when :
    (reg : RegisterPoll) (values : List ℕ)
    → same_values reg.last_values values ≡ true
    → is_every_poll reg.publish_mode ≡ false
    → reg.read_errors ≡ 0
    → must_publish false reg values ≡ false
unfolding must_publish
must_publish_when reg values same mode z = ground (arith, same, mode, z)

-- The messages of a poll that answers with the values it had.
same_values_messages :
    (io : Io) (reg : RegisterPoll) (values : List ℕ)
    → io.reply ≡ some values
    → same_values reg.last_values values ≡ true
    → is_every_poll reg.publish_mode ≡ false
    → ((poll_result io false reg).1 ≡ []) ↔ (reg.read_errors ≡ 0)
same_values_messages io reg values reply same mode =
    let res = poll_result_ok io false reg values reply in
    elim (Bool-cases (must_publish false reg values)) [
      | inl publish ↦
          let e : (poll_result io false reg).1 ≡ values_message io reg values ∷ [] =
            ap (λ q. q.1) (rw publish at res) in
          (
            λ h. absurd (ground (arith, e, h)),
            λ z. absurd (ground (arith, must_publish_when reg values same mode z)),
          )
      | inr silent ↦
          (λ h. (must_publish_not false reg values silent).3, λ h. ap (λ q. q.1) (rw silent at res))
    ]

count_read_error_zero :
    (io : Io) (reg : RegisterPoll)
    → is_rpc reg.command.base ≡ false
    → let after = count_read_error io reg in
      (after.publish_mode ≡ reg.publish_mode)
      × (after.last_values ≡ reg.last_values)
      × ((after.read_errors ≡ 0) ↔ (
          (reg.read_errors ≢ 0)
          × (reg.first_error_time + duration_between_log_error < io.error_check)))
unfolding count_read_error
count_read_error_zero io reg rpc = ground arith

-- Two reads in a row, neither of them forced, for a poll that is no RPC request and is not published on
-- every poll: the first fails, and the second returns the values that the poll has already. The second
-- sends no message exactly if errors were counted before the first, and more than five minutes have
-- passed from the first error that was counted to the failure.
pub poll_result_recovers :
    (io next : Io) (reg : RegisterPoll) (values : List ℕ)
    → IsFailedRead io
    → next.reply ≡ some values
    → same_values reg.last_values values ≡ true
    → is_rpc reg.command.base ≡ false
    → is_every_poll reg.publish_mode ≡ false
    → ((poll_result next false (poll_result io false reg).0).1 ≡ []) ↔ (
        (reg.read_errors ≢ 0)
        × (reg.first_error_time + duration_between_log_error < io.error_check))
poll_result_recovers io next reg values failed reply same rpc mode =
    let (m, v, errors) = count_read_error_zero io reg rpc in
    let e = ap (λ q. q.0) (poll_result_failed io false reg failed) in
    let after = count_read_error io reg in
    let messages =
      same_values_messages next after values reply (ap (λ q. same_values q values) v ∙ same)
        (ap is_every_poll m ∙ mode) in
    (
      λ h. errors.0 (messages.0 (ap (λ q. (poll_result next false q).1) (sym e) ∙ h)),
      λ h. ap (λ q. (poll_result next false q).1) e ∙ messages.1 (errors.1 h),
    )
