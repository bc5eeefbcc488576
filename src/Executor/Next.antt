-- ===== src/Executor/Next.antt =====
-- `executeNext` of modbus_executor.cpp.
use mqmgateway.Base.{
  ℕ, zero, suc, ◌+◌, ◌-◌, Bool, true, false, not, ◌&&◌, ◌||◌, Option, none, some, [], ◌∷◌, ltb,
  ◌==◌, if◌then◌else◌, ◌>>=◌, length, get_elem?,
}
use mqmgateway.Command.{duration_max, has_delay_before_first_command, CommandRef, command_of}
use mqmgateway.Executor.{ModbusExecutor, queues_at, poll_done, reset_commands_counter}
use mqmgateway.Executor.Perform.{Io, send_command}
use mqmgateway.Executor.Queueing.{Queues, take_next}
use mqmgateway.Queues.{is_empty}

-- The `while` loop that looks for the next queue with commands, on fuel. Positions in the map stand for
-- iterators, its length for the end. `none` means that the fuel ran out.
unfoldable pub next_queue_loop : ℕ → Queues → ℕ → ℕ → Option ℕ
next_queue_loop zero qs current next = none
next_queue_loop (suc fuel) qs current next =
    let at = if next == length qs then 0 else next in
    let rest = next_queue_loop fuel qs current (suc at) in
    if next == current then some next else elim (get_elem? qs at) [
      | none ↦ none
      | some (k, q) ↦ if not (is_empty q) then some at else rest
    ]

-- The fuel is one more round than there are queues.
unfoldable pub find_next_queue : Queues → ℕ → Option ℕ
find_next_queue qs current = next_queue_loop (suc (length qs)) qs current (suc current)

abbrev pub position : ℕ → Queues → ℕ
position k [] = 0
position k ((j, q) ∷ qs) = if j == k then 0 else suc (position k qs)

abbrev pub key_at : ℕ → Queues → Option ℕ
key_at i qs = elim (get_elem? qs i) [ none ↦ none | some (k, q) ↦ some k ]

-- The search for a waiting command in the queues, with the current one at key `k`. The second
-- component tells that there is nothing to do.
unfoldable pub choose_command : ℕ → ModbusExecutor → Option (ModbusExecutor × Bool)
choose_command k x =
    if (x.commands_left == 0) || is_empty (queues_at k x.slave_queues)
    then (find_next_queue x.slave_queues (position k x.slave_queues) >>= λ next.
        (key_at next x.slave_queues >>= λ n.
        (if not (n == k) || not (is_empty (queues_at k x.slave_queues))
          then (take_next n (record x { current_slave_queue = some n }) >>= λ y.
              (reset_commands_counter y >>= λ z. some (z, false)))
          else some (x, true))))
    else (take_next k x >>= λ y. some (y, false))

unfoldable pub choose_waiting : ModbusExecutor → Option (ModbusExecutor × Bool)
choose_waiting x = elim x.waiting_command [
  | some c ↦ some (x, false)
  | none ↦ elim x.current_slave_queue [ none ↦ some (x, false) | some k ↦ choose_command k x ]
]

-- The delay before the waiting command: that of a change of slave, if it has one and the slave of the
-- last command is another one.
unfoldable pub command_delay : CommandRef → ModbusExecutor → ℕ
command_delay c x =
    let command = command_of x.store c in
    let slave_change : Bool = elim x.last_command [
      | none ↦ false
      | some d ↦ not (command.slave_id == (command_of x.store d).slave_id)
    ] in
    if has_delay_before_first_command command && slave_change
    then command.delay_before_first_command
    else command.delay_before_command

-- What is left of the delay at a time; 0 is no wait.
unfoldable pub delay_left : ℕ → CommandRef → ModbusExecutor → ℕ
unfolding command_delay
delay_left now c x = (command_delay c x + x.last_command_time) - now

unfoldable pub finish_initial_poll : ModbusExecutor → ModbusExecutor
finish_initial_poll x =
    if x.initial_poll && poll_done x
    then elim x.current_slave_queue [ none ↦ x | some k ↦ record x { initial_poll = false } ]
    else x

-- `executeNext`: the new state and the returned duration, 0 after a command was sent.
unfoldable pub execute_next : Io → ModbusExecutor → Option (ModbusExecutor × ℕ)
execute_next io x = choose_waiting x >>= λ (y, idle).
    (if idle then some (y, duration_max) else elim y.waiting_command [
      | none ↦ some (finish_initial_poll y, 0)
      | some c ↦
          if (not (command_delay c y == 0)) && ltb 0 (delay_left io.delay_check c y)
          then some (y, delay_left io.delay_check c y)
          else (send_command io c y >>= λ z. some (finish_initial_poll z, 0))
    ])
