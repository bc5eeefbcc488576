-- ===== src/Executor/Safe/Reads.antt =====
-- `addReadCommand` on a state of the invariant, and what the operations on queues do to its counts.
use mqmgateway.Base.{
  ℕ, suc, ◌+◌, ◌*◌, ◌≤◌, ◌≡◌, refl, sym, ap, subst, ◌⊎◌, inl, inr, false, some, List, [], ◌∷◌,
  arith, if◌then◌else◌, Option-cases, length, length-append, update, find, Ascends, update-Ascends,
  total, total-update,
}
use mqmgateway.Command.{CommandRef, poll_ref, write_ref}
use mqmgateway.Executor.{
  ModbusExecutor, write_batch_size, queues_at, is_none, reset_commands_counter,
}
use mqmgateway.Executor.Accounts.{
  write_count, waiting_writes, IsAccounted, HasCurrent-at, HasCurrent-key, has_key-update,
}
use mqmgateway.Executor.Queueing.{start_queue, add_read_command}
use mqmgateway.Queues.{
  ModbusRequestsQueues, no_requests, is_nil, queue_poll_list, queue_write_command, readd_command,
}

-- A change of the queues of one slave, measured by what it does to the number of writes.
pub update-IsAccounted_at :
    (k slave : ℕ) (f : ModbusRequestsQueues → ModbusRequestsQueues) (x y : ModbusExecutor)
    → IsAccounted x
    → y.slave_queues ≡ update slave no_requests f x.slave_queues
    → y.current_slave_queue ≡ some k
    → (slave ≡ k) ⊎ (is_none (find k x.slave_queues) ≡ false)
    → total write_count y.slave_queues + waiting_writes y.waiting_command ≤ y.write_commands_queued
    → IsAccounted y
update-IsAccounted_at k slave f x y a e c key counted = record {
  keys =
      subst (Ascends 0) (sym e)
        (update-Ascends 0 slave no_requests f x.slave_queues (omega arith) a.keys);
  counted = counted;
  current = HasCurrent-at y k c (
      subst (λ qs. is_none (find k qs) ≡ false) (sym e)
        (has_key-update slave k f x.slave_queues a.keys key));
}

-- `start_queue` on queues that hold the slave: it returns, with a current queue.
pub record Starts (slave : ℕ) (x : ModbusExecutor) : Type 0 where
  pub state : ModbusExecutor
  pub key : ℕ
  pub started : start_queue slave x ≡ some state
  pub at_key : state.current_slave_queue ≡ some key
  pub known : (key ≡ slave) ⊎ (x.current_slave_queue ≡ some key)
  pub same_queues : state.slave_queues ≡ x.slave_queues
  pub same_waiting : state.waiting_command ≡ x.waiting_command
  pub same_queued : state.write_commands_queued ≡ x.write_commands_queued

pub start_queue_lem :
    (slave : ℕ) (x : ModbusExecutor) → is_none (find slave x.slave_queues) ≡ false → Starts slave x
start_queue_lem slave x h = elim (Option-cases x.current_slave_queue) [
  | inr (k, e) ↦ record {
    state = x;
    key = k;
    started = unfold start_queue in ground arith;
    at_key = e;
    known = inr e;
    same_queues = refl;
    same_waiting = refl;
    same_queued = refl;
  }
  | inl e ↦
      let polls = (queues_at slave x.slave_queues).poll_queue in
      record {
        state = record x {
          current_slave_queue = some slave;
          commands_left = if is_nil polls then write_batch_size else length polls * 2;
        };
        key = slave;
        started = unfold start_queue reset_commands_counter in ground arith;
        at_key = refl;
        known = inl refl;
        same_queues = refl;
        same_waiting = refl;
        same_queued = refl;
      }
]

pub queue_poll_list_writes :
    (refs : List ℕ) (q : ModbusRequestsQueues)
    → write_count (queue_poll_list refs q) ≡ write_count q
unfolding queue_poll_list
queue_poll_list_writes refs q = refl

pub queue_write_command_writes :
    (r : ℕ) (q : ModbusRequestsQueues) → write_count (queue_write_command r q) ≡ suc (write_count q)
unfolding queue_write_command
queue_write_command_writes r q = omega (arith, length-append q.write_queue (r ∷ []))

pub readd_command_writes :
    (c : CommandRef) (q : ModbusRequestsQueues)
    → write_count (readd_command c q) ≡ write_count q + waiting_writes (some c)
unfolding readd_command
readd_command_writes (poll_ref r) q = omega arith
readd_command_writes (write_ref r) q = omega arith

-- `addReadCommand` returns, and keeps the invariant.
pub add_read_command_safe :
    (r : ℕ) (x : ModbusExecutor)
    → IsAccounted x
    → (y : ModbusExecutor) × (add_read_command r x ≡ some y) × IsAccounted y
unfolding add_read_command
add_read_command_safe r x a =
    let slave = (x.store.polls r).command.slave_id in
    let f = queue_poll_list (r ∷ []) in
    let added = record x { slave_queues = update slave no_requests f x.slave_queues } in
    let s =
      start_queue_lem slave added (has_key-update slave slave f x.slave_queues a.keys (inl refl)) in
    let t = total-update write_count 0 slave no_requests f x.slave_queues a.keys refl in
    (
      s.state,
      s.started,
      update-IsAccounted_at s.key slave f x s.state a s.same_queues s.at_key
          (elim s.known [ inl e ↦ inl (sym e) | inr e ↦ inr (HasCurrent-key x s.key a.current e) ])
          (omega (
            arith,
            t,
            a.counted,
            ap (total write_count) s.same_queues,
            ap waiting_writes s.same_waiting,
            s.same_queued,
            queue_poll_list_writes (r ∷ []) (queues_at slave x.slave_queues),
          )),
    )
