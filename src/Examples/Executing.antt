-- ===== src/Examples/Executing.antt =====
-- The executor.
use mqmgateway.Base.{
  ℕ, ◌+◌, ◌≤◌, ◌<◌, ◌≡◌, refl, ◌≢◌, ◌↔◌, ◌⊎◌, true, false, none, some, [], ◌∷◌, arith,
}
use mqmgateway.Command.{duration_max, duration_between_log_error, CommandRef, poll_ref}
use mqmgateway.Examples.Data.{
  poll_of, store_of, queues_holding, busy_executor, rpc_executor, reply_of,
}
use mqmgateway.Executor.{ModbusExecutor, new_executor, is_none, all_done, reset_commands_counter}
use mqmgateway.Executor.Accounts.{IsAccounted}
use mqmgateway.Executor.Attempts.{send_until_done, read_failure}
use mqmgateway.Executor.Delay.{Waited, Sent, execute_next_delay}
use mqmgateway.Executor.Lost.{queue_of, elect_loses}
use mqmgateway.Executor.Messages.{poll_registers_ok, poll_result_recovers}
use mqmgateway.Executor.Next.{find_next_queue, execute_next}
use mqmgateway.Executor.Perform.{is_every_poll, values_message, poll_result, poll_registers}
use mqmgateway.Executor.Queueing.{
  first_added, elect, add_poll_list, start_queue, add_read_command, add_write_command,
}
use mqmgateway.Executor.Reach.{read_added, IsReachable, constructed, advanced, reachable_safe}
use mqmgateway.Executor.Retry.{send_until_done_rpc}
use mqmgateway.Executor.Safe.Polls.{is_refused, add_poll_list_safe}
use mqmgateway.Executor.Safe.Queue.{WriteFaults, add_write_command_safe}
use mqmgateway.Executor.Search.{IsNext, find_next_queue_lem}
use mqmgateway.Queues.{add_poll_refs, queue_poll_list, silence_delay}

busy_executor-IsAccounted : IsAccounted busy_executor
busy_executor-IsAccounted = record {
  keys = (omega arith, (omega arith, tt));
  counted = omega arith;
  current = refl;
}

busy_executor-busy : all_done busy_executor ≡ false
unfolding all_done
busy_executor-busy = refl

-- The state after the construction and an `addReadCommand` for poll 3.
abbrev read_executor : ModbusExecutor
read_executor = record busy_executor {
  slave_queues = (2, queues_holding (3 ∷ []) []) ∷ [];
  current_slave_queue = some 2;
  commands_left = 2;
  write_commands_queued = 0;
  last_command_time = 10;
  last_command = none;
}

read_executor-IsReachable : IsReachable read_executor
unfolding add_read_command new_executor queue_poll_list add_poll_refs start_queue
    reset_commands_counter
read_executor-IsReachable = advanced (constructed 10 store_of) (read_added 3 refl)

reachable_safe_example :
    (0 + 0 ≤ 0)
    × ((y : ModbusExecutor) × (add_poll_list 900 ((1, 0 ∷ []) ∷ []) false read_executor ≡ some y))
    × ((y : ModbusExecutor) × (add_read_command 5 read_executor ≡ some y))
    × (WriteFaults 5 read_executor
        ⊎ ((y : ModbusExecutor) × (add_write_command 5 read_executor ≡ some y)))
    × ((all_done read_executor ≡ true)
        ⊎ ((y : ModbusExecutor) × (d : ℕ) × (execute_next
                (reply_of (some (7 ∷ 8 ∷ [])))
                read_executor
              ≡ some (y, d))))
reachable_safe_example =
    reachable_safe read_executor (reply_of (some (7 ∷ 8 ∷ []))) 900 ((1, 0 ∷ []) ∷ []) false 5
      read_executor-IsReachable

execute_next_delay_example :
    (c : CommandRef) × (y : ModbusExecutor) × (d : ℕ) × (execute_next (reply_of none) busy_executor
      ≡ some (y, d))
    × (Waited (reply_of none) c busy_executor y d ⊎ Sent (reply_of none) c busy_executor y d)
execute_next_delay_example =
    execute_next_delay (reply_of none) busy_executor busy_executor-IsAccounted busy_executor-busy

add_poll_list_safe_example :
    (y : ModbusExecutor) × (add_poll_list 900 ((1, 2 ∷ []) ∷ []) false busy_executor ≡ some y)
    × IsAccounted y
    × (((is_refused busy_executor ≡ true) × (y ≡ busy_executor))
        ⊎ ((is_refused busy_executor ≡ false)
            × ((all_done busy_executor ≡ false)
                ⊎ (first_added ((1, 2 ∷ []) ∷ []) ≡ none)
                ⊎ (is_none y.waiting_command ≡ false))))
add_poll_list_safe_example =
    add_poll_list_safe 900 ((1, 2 ∷ []) ∷ []) false busy_executor busy_executor-IsAccounted

add_write_command_safe_example :
    (WriteFaults 6 busy_executor × (add_write_command 6 busy_executor ≡ none))
    ⊎ ((¬ WriteFaults 6 busy_executor)
        × ((y : ModbusExecutor) × (add_write_command 6 busy_executor ≡ some y) × IsAccounted y))
add_write_command_safe_example = add_write_command_safe 6 busy_executor busy_executor-IsAccounted

-- The RPC read fails three times: the command has two retries.
send_until_done_rpc_example :
    (z : ModbusExecutor) × (send_until_done
        (reply_of none ∷ reply_of none ∷ reply_of none ∷ [])
        rpc_executor
      ≡ some (3, z))
    × (z.waiting_command ≡ none)
    × (z.from_modbus_queue ≡ read_failure (poll_of 2) ∷ [])
send_until_done_rpc_example =
    send_until_done_rpc (reply_of none ∷ reply_of none ∷ reply_of none ∷ []) 2 rpc_executor refl
      refl refl (refl, (refl, (refl, tt))) (omega arith)

poll_registers_ok_example :
    let y = poll_registers (reply_of (some (7 ∷ 9 ∷ []))) 3 false busy_executor in
    ((y.store.polls 3).last_values ≡ 7 ∷ 9 ∷ [])
    × ((y.store.polls 3).read_errors ≡ 0)
    × ((y.store.polls 3).last_read_ok ≡ true)
    × ((y.from_modbus_queue
          ≡ values_message (reply_of (some (7 ∷ 9 ∷ []))) (poll_of 3) (7 ∷ 9 ∷ []) ∷ [])
        ⊎ ((y.from_modbus_queue ≡ [])
            × ((poll_of 3).last_values ≡ 7 ∷ 9 ∷ [])
            × ((poll_of 3).read_errors ≡ 0)
            × (is_every_poll (poll_of 3).publish_mode ≡ false)
            × (false ≡ false)))
poll_registers_ok_example =
    poll_registers_ok (reply_of (some (7 ∷ 9 ∷ []))) 3 false busy_executor (7 ∷ 9 ∷ []) refl

-- Poll 1 counts an error; the next one comes more than five minutes after the first.
poll_result_recovers_example :
    ((poll_result
        (reply_of (some (7 ∷ 8 ∷ [])))
        false
        (poll_result (reply_of none) false (poll_of 1)).0).1
      ≡ [])
    ↔ (((poll_of 1).read_errors ≢ 0)
        × ((poll_of 1).first_error_time + duration_between_log_error < 300000000200))
poll_result_recovers_example =
    poll_result_recovers (reply_of none) (reply_of (some (7 ∷ 8 ∷ []))) (poll_of 1) (7 ∷ 8 ∷ [])
      refl refl refl refl refl

find_next_queue_lem_example :
    (n : ℕ) × (find_next_queue busy_executor.slave_queues 1 ≡ some n)
    × IsNext busy_executor.slave_queues 1 n
find_next_queue_lem_example = find_next_queue_lem busy_executor.slave_queues 1 (omega arith) refl

elect_loses_example :
    elect store_of 5
      ((1, queue_of (0 ∷ [])) ∷ (2, queue_of (1 ∷ [])) ∷ [])
      (record { current_diff = duration_max; elected = none; current = 1 })
    ≡ some (
      (1, queue_of []) ∷ (2, queue_of []) ∷ [],
      record { current_diff = 20; elected = some (poll_ref 1); current = 2 },
    )
unfolding silence_delay
elect_loses_example =
    elect_loses store_of 5 1 2 0 1 (λ e. omega (arith, e)) (λ e. omega (arith, e)) (omega arith)
      (omega arith) (omega arith)
