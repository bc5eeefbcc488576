-- ===== src/Executor/Queueing.antt =====
-- `addPollList`, `addReadCommand` and `addWriteCommand` of modbus_executor.cpp.
use mqmgateway.Base.{
  ℕ, suc, ◌-◌, Bool, true, false, not, ◌&&◌, Option, none, some, List, [], ◌∷◌, ltb, ◌==◌,
  if◌then◌else◌, ◌>>=◌, update, find,
}
use mqmgateway.Command.{duration_max, CommandRef, write_ref, Store}
use mqmgateway.Executor.{ModbusExecutor, queues_at, all_done, poll_done, reset_commands_counter}
use mqmgateway.Queues.{
  ModbusRequestsQueues, no_requests, queue_poll_list, queue_write_command, readd_command, pop_next,
  find_for_silence_period, pop_first_with_delay,
}
use mqmgateway.Scheduler.{RegisterMap}

abbrev pub Queues : Type 0
Queues = List (ℕ × ModbusRequestsQueues)

-- The loop that adds the polls of each slave.
unfoldable pub add_slave_polls : RegisterMap → Queues → Queues
add_slave_polls [] qs = qs
add_slave_polls ((slave, refs) ∷ m) qs =
    add_slave_polls m (update slave no_requests (queue_poll_list refs) qs)

-- `first_added`: the first slave with polls to add.
abbrev pub first_added : RegisterMap → Option ℕ
first_added [] = none
first_added ((slave, []) ∷ m) = first_added m
first_added ((slave, r ∷ rs) ∷ m) = some slave

-- The variables of the election loop: `currentDiff`, `mWaitingCommand` and `mCurrentSlaveQueue`.
pub record Election : Type 0 where
  pub current_diff : ℕ
  pub elected : Option CommandRef
  pub current : ℕ

-- One round of the election loop: the queues of the slave, the variables, and whether the loop ends.
-- A search with a delay below the best so far takes its poll out of the queue and elects it; what
-- was elected before is overwritten.
unfoldable pub elect_step :
    Store
    → ℕ
    → ℕ
    → ModbusRequestsQueues
    → Election
    → Option (ModbusRequestsQueues × Election × Bool)
elect_step store silence k q e =
    let ignore = k == e.current in
    let (delay, q1) = find_for_silence_period store silence ignore q in
    if e.current_diff == 0
    then some (q, e, false)
    else (if ltb delay e.current_diff
        then (pop_first_with_delay store silence ignore q1 >>= λ (c, q2).
            some (q2, record { current_diff = delay; elected = some c; current = k }, delay == 0))
        else some (q1, e, false))

unfoldable pub elect : Store → ℕ → Queues → Election → Option (Queues × Election)
elect store silence [] e = some ([], e)
elect store silence ((k, q) ∷ qs) e = elect_step store silence k q e >>= λ (q', e', stop).
    (let rest = elect store silence qs e' >>= λ (qs', e''). some ((k, q') ∷ qs', e'') in
      if stop then some ((k, q') ∷ qs, e') else rest)

-- The next command of the current queue becomes the waiting one.
unfoldable pub take_next : ℕ → ModbusExecutor → Option ModbusExecutor
take_next k x = pop_next (queues_at k x.slave_queues) >>= λ (c, q). some (record x {
  waiting_command = some c;
  slave_queues = update k no_requests (λ _. q) x.slave_queues;
})

-- The part of `addPollList` from the choice of the first slave on.
unfoldable pub start_election : ℕ → ℕ → ModbusExecutor → Option ModbusExecutor
start_election now first x =
    let silence = now - x.last_command_time in
    reset_commands_counter (record x { current_slave_queue = some first }) >>= λ y.
    (elect y.store silence y.slave_queues
        (record { current_diff = duration_max; elected = none; current = first })
      >>= λ (qs, e).
          (let z = record y {
            slave_queues = qs;
            waiting_command = e.elected;
            current_slave_queue = some e.current;
          } in
            elim e.elected [ none ↦ take_next e.current z | some c ↦ some z ]))

unfoldable pub add_poll_list : ℕ → RegisterMap → Bool → ModbusExecutor → Option ModbusExecutor
add_poll_list now m initial x =
    let begun = if initial then record x { initial_poll = true; initial_poll_start = now } else x in
    let added = record begun { slave_queues = add_slave_polls m begun.slave_queues } in
    if x.initial_poll && not (poll_done x)
    then some x
    else (if not (all_done x) then some added else elim (first_added m) [
      | none ↦ some added
      | some first ↦ start_election now first added
    ])

unfoldable pub setup_initial_poll : ℕ → RegisterMap → ModbusExecutor → Option ModbusExecutor
setup_initial_poll now m x = add_poll_list now m true x

-- `mCurrentSlaveQueue = mSlaveQueues.find(slave)`.
abbrev pub iterator_to : ℕ → Queues → Option ℕ
iterator_to slave qs = elim (find slave qs) [ none ↦ none | some q ↦ some slave ]

-- If there is no current queue, the one of the slave becomes it.
unfoldable pub start_queue : ℕ → ModbusExecutor → Option ModbusExecutor
start_queue slave x = elim x.current_slave_queue [
  | some k ↦ some x
  | none ↦
      reset_commands_counter (record x { current_slave_queue = iterator_to slave x.slave_queues })
]

unfoldable pub add_read_command : ℕ → ModbusExecutor → Option ModbusExecutor
add_read_command r x =
    let slave = (x.store.polls r).command.slave_id in
    start_queue slave (record x {
      slave_queues = update slave no_requests (queue_poll_list (r ∷ [])) x.slave_queues;
    })

-- Without a queued write the command goes to the front. The command that waited is put back, into the
-- queues of the slave of the write.
unfoldable pub add_write_command : ℕ → ModbusExecutor → Option ModbusExecutor
add_write_command r x =
    let slave = (x.store.writes r).command.slave_id in
    let readded : ModbusExecutor = elim x.waiting_command [
      | none ↦ x
      | some c ↦ record x {
        slave_queues = update slave no_requests (readd_command c) x.slave_queues;
      }
    ] in
    (if x.write_commands_queued == 0
      then reset_commands_counter (record readded {
        waiting_command = some (write_ref r);
        current_slave_queue = iterator_to slave readded.slave_queues;
      })
      else start_queue slave (record x {
        slave_queues = update slave no_requests (queue_write_command r) x.slave_queues;
      }))
    >>= λ y. some (record y { write_commands_queued = suc y.write_commands_queued })
