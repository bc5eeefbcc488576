-- ===== src/Executor/Reach.antt =====
-- The executor as its owner, `ModbusThread`, drives it: the operations in any order.
use mqmgateway.Base.{
  ℕ, ◌+◌, ◌≤◌, ◌≡◌, refl, ap, subst, ◌⊎◌, inl, inr, Bool, true, false, Option, some, arith,
  Bool-cases, total,
}
use mqmgateway.Command.{Store}
use mqmgateway.Executor.{ModbusExecutor, new_executor, all_done}
use mqmgateway.Executor.Accounts.{write_count, waiting_writes, IsAccounted}
use mqmgateway.Executor.Next.{execute_next}
use mqmgateway.Executor.Perform.{Io}
use mqmgateway.Executor.Queueing.{add_poll_list, add_read_command, add_write_command}
use mqmgateway.Executor.Safe.{execute_next_safe}
use mqmgateway.Executor.Safe.Polls.{add_poll_list_safe}
use mqmgateway.Executor.Safe.Queue.{WriteFaults, add_write_command_safe}
use mqmgateway.Executor.Safe.Reads.{add_read_command_safe}
use mqmgateway.Scheduler.{RegisterMap}

-- What the owner calls. `executeNext` is called only while there is something to do, as `run` in
-- libmodmqttsrv/modbus_thread.cpp does; the objects of new commands join the store at any time.
pub data Step : ModbusExecutor → ModbusExecutor → Type 0 where
  polls_added :
      {x y : ModbusExecutor} (now : ℕ) (m : RegisterMap) (initial : Bool)
      → add_poll_list now m initial x ≡ some y
      → Step x y
  read_added : {x y : ModbusExecutor} (r : ℕ) → add_read_command r x ≡ some y → Step x y
  write_added : {x y : ModbusExecutor} (r : ℕ) → add_write_command r x ≡ some y → Step x y
  executed :
      {x y : ModbusExecutor} (io : Io) (d : ℕ)
      → all_done x ≡ false
      → execute_next io x ≡ some (y, d)
      → Step x y
  allocated : {x : ModbusExecutor} (s : Store) → Step x (record x { store = s })

pub data IsReachable : ModbusExecutor → Type 0 where
  constructed : (past : ℕ) (s : Store) → IsReachable (new_executor past s)
  advanced : {x y : ModbusExecutor} → IsReachable x → Step x y → IsReachable y

pub new_executor-IsAccounted : (past : ℕ) (s : Store) → IsAccounted (new_executor past s)
unfolding new_executor all_done
new_executor-IsAccounted past s = record { keys = tt; counted = omega arith; current = refl }

same_result : {A : Type 0} {op : Option A} (y z : A) → op ≡ some y → op ≡ some z → z ≡ y
same_result y z e f = ground (arith, e, f)

Step-IsAccounted : (x y : ModbusExecutor) → Step x y → IsAccounted x → IsAccounted y
unfolding all_done
Step-IsAccounted x y (polls_added now m initial e) a =
    let s = add_poll_list_safe now m initial x a in subst IsAccounted (same_result y s.0 e s.1) s.2
Step-IsAccounted x y (read_added r e) a =
    let s = add_read_command_safe r x a in subst IsAccounted (same_result y s.0 e s.1) s.2
Step-IsAccounted x y (write_added r e) a = elim (add_write_command_safe r x a) [
  | inl (faults, f) ↦ absurd (ground (arith, e, f))
  | inr (safe, s) ↦ subst IsAccounted (same_result y s.0 e s.1) s.2
]
Step-IsAccounted x y (executed io d busy e) a =
    let s = execute_next_safe io x a busy in
    subst IsAccounted (ap (λ q. q.0) (same_result (y, d) (s.0, s.1) e s.2)) s.3
Step-IsAccounted x y (allocated s) a = record {
  keys = a.keys;
  counted = a.counted;
  current = a.current;
}

IsReachable-IsAccounted : (x : ModbusExecutor) → IsReachable x → IsAccounted x
IsReachable-IsAccounted x (constructed past s) = new_executor-IsAccounted past s
IsReachable-IsAccounted y (advanced {x = x} h e) =
    Step-IsAccounted x y e (IsReachable-IsAccounted x h)

-- Whatever operations the owner has called in whatever order, from the construction on: the queued
-- writes and the write that waits are at most as many as are counted, `addPollList` and
-- `addReadCommand` return, `addWriteCommand` returns unless no command waits, no write is counted and
-- there are no queues for the slave, and `executeNext` returns unless there is nothing to do.
pub reachable_safe :
    (x : ModbusExecutor) (io : Io) (now : ℕ) (m : RegisterMap) (initial : Bool) (r : ℕ)
    → IsReachable x
    → (total write_count x.slave_queues + waiting_writes x.waiting_command
        ≤ x.write_commands_queued)
      × ((y : ModbusExecutor) × (add_poll_list now m initial x ≡ some y))
      × ((y : ModbusExecutor) × (add_read_command r x ≡ some y))
      × (WriteFaults r x ⊎ ((y : ModbusExecutor) × (add_write_command r x ≡ some y)))
      × ((all_done x ≡ true) ⊎ ((y : ModbusExecutor) × (d : ℕ) × (execute_next io x ≡ some (y, d))))
reachable_safe x io now m initial r h =
    let a = IsReachable-IsAccounted x h in
    let polls = add_poll_list_safe now m initial x a in
    let read = add_read_command_safe r x a in
    (
      a.counted,
      (polls.0, polls.1),
      (read.0, read.1),
      elim (add_write_command_safe r x a) [
        | inl (faults, f) ↦ inl faults
        | inr (safe, s) ↦ inr (s.0, s.1)
      ],
      elim (Bool-cases (all_done x)) [
        | inl done ↦ inl done
        | inr busy ↦ let s = execute_next_safe io x a busy in inr (s.0, s.1, s.2)
      ],
    )
