-- ===== src/Executor/Safe/Queue.antt =====
-- `addWriteCommand` on a state of the invariant.
use mqmgateway.Base.{
  ℕ, suc, ◌*◌, ◌≡◌, refl, sym, ap, ◌≢◌, ◌⊎◌, inl, inr, false, none, some, arith, ℕ_discrete, ◌==◌,
  if◌then◌else◌, Option-cases, length, update, find, total, total-update,
}
use mqmgateway.Command.{CommandRef, write_ref}
use mqmgateway.Executor.{ModbusExecutor, write_batch_size, queues_at, reset_commands_counter}
use mqmgateway.Executor.Accounts.{
  write_count, waiting_writes, IsAccounted, find-some, HasCurrent-key, has_key-update,
}
use mqmgateway.Executor.Queueing.{Queues, add_write_command}
use mqmgateway.Executor.Safe.Reads.{
  update-IsAccounted_at, start_queue_lem, queue_write_command_writes, readd_command_writes,
}
use mqmgateway.Queues.{
  ModbusRequestsQueues, no_requests, is_nil, queue_write_command, readd_command,
}

-- The write is queued behind others.
add_write_behind :
    (r : ℕ) (x : ModbusExecutor)
    → IsAccounted x
    → x.write_commands_queued ≢ 0
    → (y : ModbusExecutor) × (add_write_command r x ≡ some y) × IsAccounted y
unfolding add_write_command
add_write_behind r x a some_queued =
    let slave = (x.store.writes r).command.slave_id in
    let f = queue_write_command r in
    let added = record x { slave_queues = update slave no_requests f x.slave_queues } in
    let s =
      start_queue_lem slave added (has_key-update slave slave f x.slave_queues a.keys (inl refl)) in
    let t = total-update write_count 0 slave no_requests f x.slave_queues a.keys refl in
    let y = record (s.state) { write_commands_queued = suc s.state.write_commands_queued } in
    let tested : (x.write_commands_queued == 0) ≡ false = ground arith in
    (
      y,
      rw (tested, s.started) refl,
      update-IsAccounted_at s.key slave f x y a s.same_queues s.at_key
          (elim s.known [ inl e ↦ inl (sym e) | inr e ↦ inr (HasCurrent-key x s.key a.current e) ])
          (omega (
            arith,
            t,
            a.counted,
            ap (total write_count) s.same_queues,
            ap waiting_writes s.same_waiting,
            s.same_queued,
            queue_write_command_writes r (queues_at slave x.slave_queues),
          )),
    )

-- The queues of the slave of a write that goes to the front of a waiting command.
abbrev readded_queues : ℕ → CommandRef → Queues → Queues
readded_queues slave c qs = update slave no_requests (readd_command c) qs

-- The write goes to the front, and there are queues for its slave.
abbrev fronted : ℕ → ℕ → Queues → ModbusExecutor → ModbusExecutor
fronted r slave qs x =
    let polls = (queues_at slave qs).poll_queue in
    record x {
      slave_queues = qs;
      waiting_command = some (write_ref r);
      current_slave_queue = some slave;
      commands_left = if is_nil polls then write_batch_size else length polls * 2;
      write_commands_queued = suc x.write_commands_queued;
    }

add_write_front_waiting :
    (r : ℕ) (c : CommandRef) (x : ModbusExecutor)
    → IsAccounted x
    → x.write_commands_queued ≡ 0
    → x.waiting_command ≡ some c
    → (y : ModbusExecutor) × (add_write_command r x ≡ some y) × IsAccounted y
unfolding add_write_command reset_commands_counter
add_write_front_waiting r c x a z w =
    let slave = (x.store.writes r).command.slave_id in
    let qs = readded_queues slave c x.slave_queues in
    let key = has_key-update slave slave (readd_command c) x.slave_queues a.keys (inl refl) in
    let (q, found) = find-some slave qs key in
    let y = fronted r slave qs x in
    let t =
      total-update write_count 0 slave no_requests (readd_command c) x.slave_queues a.keys refl in
    (
      y,
      ground (arith, found),
      update-IsAccounted_at slave slave (readd_command c) x y a refl refl (inl refl) (
          omega (
            arith,
            t,
            a.counted,
            readd_command_writes c (queues_at slave x.slave_queues),
            ap waiting_writes w,
            z,
          )),
    )

add_write_front_idle :
    (r : ℕ) (x : ModbusExecutor) (q : ModbusRequestsQueues)
    → IsAccounted x
    → x.write_commands_queued ≡ 0
    → x.waiting_command ≡ none
    → find (x.store.writes r).command.slave_id x.slave_queues ≡ some q
    → (y : ModbusExecutor) × (add_write_command r x ≡ some y) × IsAccounted y
unfolding add_write_command reset_commands_counter
add_write_front_idle r x q a z w found =
    let slave = (x.store.writes r).command.slave_id in
    let y = fronted r slave x.slave_queues x in
    (
      y,
      ground (arith, found),
      record {
        keys = a.keys;
        counted = omega (arith, a.counted, z);
        current = ground (arith, found);
      },
    )

add_write_front_fault :
    (r : ℕ) (x : ModbusExecutor)
    → x.write_commands_queued ≡ 0
    → x.waiting_command ≡ none
    → find (x.store.writes r).command.slave_id x.slave_queues ≡ none
    → add_write_command r x ≡ none
unfolding add_write_command reset_commands_counter
add_write_front_fault r x z w lost = ground arith

-- The call for a write faults: the count of writes is 0, no command waits, and there are no queues for
-- the slave of the write yet. The count may be above the number of writes that are queued.
abbrev pub WriteFaults : ℕ → ModbusExecutor → Type 0
WriteFaults r x =
    (x.write_commands_queued ≡ 0)
    × (x.waiting_command ≡ none)
    × (find (x.store.writes r).command.slave_id x.slave_queues ≡ none)

-- `addWriteCommand` dereferences the end iterator exactly if the count of writes is 0, no command waits,
-- and there are no queues for the slave. In every other case it returns and keeps the invariant.
pub add_write_command_safe :
    (r : ℕ) (x : ModbusExecutor)
    → IsAccounted x
    → (WriteFaults r x × (add_write_command r x ≡ none))
      ⊎ ((¬ WriteFaults r x)
          × ((y : ModbusExecutor) × (add_write_command r x ≡ some y) × IsAccounted y))
add_write_command_safe r x a = elim (ℕ_discrete x.write_commands_queued 0) [
  | no queued ↦ inr ((λ f. queued f.0), add_write_behind r x a queued)
  | yes z ↦ elim (Option-cases x.waiting_command) [
    | inr (c, w) ↦ inr ((λ f. cc (f.1)), add_write_front_waiting r c x a z w)
    | inl w ↦ elim (Option-cases (find (x.store.writes r).command.slave_id x.slave_queues)) [
      | inl lost ↦ inl ((z, w, lost), add_write_front_fault r x z w lost)
      | inr (q, found) ↦ inr ((λ f. cc (f.2)), add_write_front_idle r x q a z w found)
    ]
  ]
]
