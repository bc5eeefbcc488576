-- ===== src/Executor/Reading.antt =====
-- The poll and the messages after one read of `pollRegisters`.
use mqmgateway.Address.{is_rpc}
use mqmgateway.Base.{
  ℕ, ◌≡◌, refl, ap, ◌∙◌, Bool, true, false, none, some, List, [], ◌∷◌, ◌++◌, append-nil, arith,
  ◌==◌, if◌then◌else◌, ==_iff,
}
use mqmgateway.Command.{RegisterPoll, update_values}
use mqmgateway.Executor.{ModbusExecutor}
use mqmgateway.Executor.Perform.{
  Io, same_values, is_every_poll, values_message, count_read_error, read_error_message,
  must_publish, poll_result, poll_registers,
}

abbrev pub IsFailedRead : Io → Type 0
IsFailedRead io = io.reply ≡ none

abbrev pub poll_read : Io → ℕ → ModbusExecutor → RegisterPoll
poll_read io r x = record (x.store.polls r) { last_read_start_time = io.start }

pub count_read_error_lem :
    (io : Io) (reg : RegisterPoll)
    → ((count_read_error io reg).command ≡ reg.command)
      × ((count_read_error io reg).last_read_ok ≡ false)
      × ((count_read_error io reg).last_values ≡ reg.last_values)
unfolding count_read_error
count_read_error_lem io reg = ground arith

read_error_message_rpc :
    (io : Io) (reg : RegisterPoll) → is_rpc reg.command.base ≡ true → read_error_message io reg ≡ []
unfolding read_error_message
read_error_message_rpc io reg h = rw h refl

pub poll_result_failed :
    (io : Io) (force : Bool) (reg : RegisterPoll)
    → IsFailedRead io
    → poll_result io force reg ≡ (count_read_error io reg, read_error_message io reg)
unfolding poll_result
poll_result_failed io force reg h =
    ap
      (λ q. elim q [
        | none ↦ (count_read_error io reg, read_error_message io reg)
        | some values ↦
            let ok = record reg { last_read_ok = true } in
            if must_publish force reg values
            then (
              record (update_values values ok) { read_errors = 0 },
              values_message io reg values ∷ [],
            )
            else (ok, [])
      ])
      h

pub same-== : (r : ℕ) → (r == r) ≡ true
same-== r = (==_iff r r).1 refl

-- The poll and the messages after `pollRegisters`.
pub poll_registers_lem :
    (io : Io) (r : ℕ) (force : Bool) (x : ModbusExecutor)
    → let y = poll_registers io r force x in
      let res = poll_result io force (poll_read io r x) in
      (y.store.polls r ≡ record (res.0) { last_read_finish_time = io.finish })
      × (y.from_modbus_queue ≡ x.from_modbus_queue ++ res.1)
      × (y.read_retry_count ≡ x.read_retry_count)
      × (y.max_read_retry_count ≡ x.max_read_retry_count)
unfolding poll_registers
poll_registers_lem io r force x = (rw (same-== r) refl, refl, refl, refl)

pub poll_registers_failed :
    (io : Io) (r : ℕ) (force : Bool) (x : ModbusExecutor)
    → IsFailedRead io
    → is_rpc (x.store.polls r).command.base ≡ true
    → let y = poll_registers io r force x in
      ((y.store.polls r).command ≡ (x.store.polls r).command)
      × ((y.store.polls r).last_read_ok ≡ false)
      × ((y.store.polls r).last_values ≡ (x.store.polls r).last_values)
      × (y.from_modbus_queue ≡ x.from_modbus_queue)
      × (y.read_retry_count ≡ x.read_retry_count)
poll_registers_failed io r force x failed rpc =
    let reg = poll_read io r x in
    let c = count_read_error_lem io reg in
    let e = poll_result_failed io force reg failed in
    let p = poll_registers_lem io r force x in
    (
      ap (λ q. q.command) p.0 ∙ ap (λ q. q.0.command) e ∙ c.0,
      ap (λ q. q.last_read_ok) p.0 ∙ ap (λ q. q.0.last_read_ok) e ∙ c.1,
      ap (λ q. q.last_values) p.0 ∙ ap (λ q. q.0.last_values) e ∙ c.2,
      p.1
          ∙ ap (λ q. x.from_modbus_queue ++ q.1) e
          ∙ ap (λ q. x.from_modbus_queue ++ q) (read_error_message_rpc io reg rpc)
          ∙ append-nil x.from_modbus_queue,
      p.2,
    )

pub poll_result_ok :
    (io : Io) (force : Bool) (reg : RegisterPoll) (values : List ℕ)
    → io.reply ≡ some values
    → let ok = record reg { last_read_ok = true } in
      poll_result io force reg ≡ (
        if must_publish force reg values
        then (
          record (update_values values ok) { read_errors = 0 },
          values_message io reg values ∷ [],
        )
        else (ok, []))
unfolding poll_result
poll_result_ok io force reg values h =
    ap
      (λ q. elim q [
        | none ↦ (count_read_error io reg, read_error_message io reg)
        | some values ↦
            let ok = record reg { last_read_ok = true } in
            if must_publish force reg values
            then (
              record (update_values values ok) { read_errors = 0 },
              values_message io reg values ∷ [],
            )
            else (ok, [])
      ])
      h

pub same_values_lem : (a b : List ℕ) → same_values a b ≡ true → a ≡ b
same_values_lem [] [] h = refl
same_values_lem [] (y ∷ ys) h = absurd (ground arith)
same_values_lem (x ∷ xs) [] h = absurd (ground arith)
same_values_lem (x ∷ xs) (y ∷ ys) h = ground (arith, same_values_lem xs ys)

pub must_publish_not :
    (force : Bool) (reg : RegisterPoll) (values : List ℕ)
    → must_publish force reg values ≡ false
    → (same_values reg.last_values values ≡ true)
      × (force ≡ false)
      × (is_every_poll reg.publish_mode ≡ false)
      × (reg.read_errors ≡ 0)
unfolding must_publish
must_publish_not force reg values h = ground arith
