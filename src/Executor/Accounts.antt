-- ===== src/Executor/Accounts.antt =====
-- What holds of the executor between two operations.
use mqmgateway.Base.{
  ℕ, ◌+◌, ◌≤◌, ◌≡◌, refl, ap, ◌⊎◌, inl, inr, true, false, Option, none, some, [], ◌∷◌, arith,
  Option-cases, length, update, find, Ascends, find-update, total, total-update,
}
use mqmgateway.Command.{CommandRef, poll_ref, write_ref}
use mqmgateway.Executor.{ModbusExecutor, queues_at, all_empty, is_none, all_done}
use mqmgateway.Executor.Queueing.{Queues, take_next}
use mqmgateway.Queues.{ModbusRequestsQueues, no_requests, is_empty}
use mqmgateway.Queues.Pop.{TakesFirst, pop_next_lem}

abbrev pub write_count : ModbusRequestsQueues → ℕ
write_count q = length q.write_queue

abbrev pub waiting_writes : Option CommandRef → ℕ
waiting_writes none = 0
waiting_writes (some (poll_ref r)) = 0
waiting_writes (some (write_ref r)) = 1

-- The iterator to the current queues points into the map. It is the end only while there is nothing to
-- do.
abbrev pub HasCurrent : ModbusExecutor → Type 0
HasCurrent x = elim x.current_slave_queue [
  | none ↦ all_done x ≡ true
  | some k ↦ is_none (find k x.slave_queues) ≡ false
]

pub record IsAccounted (x : ModbusExecutor) : Type 0 where
  pub keys : Ascends 0 x.slave_queues
  pub counted :
      total write_count x.slave_queues + waiting_writes x.waiting_command ≤ x.write_commands_queued
  pub current : HasCurrent x

pub find-some :
    (k : ℕ) (qs : Queues)
    → is_none (find k qs) ≡ false
    → (q : ModbusRequestsQueues) × (find k qs ≡ some q)
find-some k qs h = elim (Option-cases (find k qs)) [
  | inl e ↦ absurd (ground arith)
  | inr (q, e) ↦ (q, e)
]

-- A queue with commands is a queue of the map, and the map is not empty.
pub all_empty-find :
    (k : ℕ) (qs : Queues) {q : ModbusRequestsQueues}
    → find k qs ≡ some q
    → is_empty q ≡ false
    → all_empty qs ≡ false
all_empty-find k [] e h = cc
all_empty-find k ((j, u) ∷ qs) {q} e h = ground (arith, all_empty-find k qs {q = q})

abbrev pub put_queue : ℕ → ModbusRequestsQueues → Queues → Queues
put_queue k q qs = update k no_requests (λ _. q) qs

-- What `take_next` does at queues with commands.
pub record Takes (k : ℕ) (x : ModbusExecutor) : Type 0 where
  pub command : CommandRef
  pub rest : ModbusRequestsQueues
  pub taken :
      take_next k x
      ≡ some (record x {
        waiting_command = some command;
        slave_queues = put_queue k rest x.slave_queues;
      })
  pub writes :
      total write_count (put_queue k rest x.slave_queues) + waiting_writes (some command)
      ≡ total write_count x.slave_queues

TakesFirst-writes :
    (q q' : ModbusRequestsQueues) (c : CommandRef)
    → TakesFirst q c q'
    → write_count q ≡ write_count q' + waiting_writes (some c)
TakesFirst-writes q q' (poll_ref r) t = omega (arith, ap length t.1)
TakesFirst-writes q q' (write_ref r) t = omega (arith, ap length t.0)

pub take_next_lem :
    (k : ℕ) (x : ModbusExecutor)
    → Ascends 0 x.slave_queues
    → is_empty (queues_at k x.slave_queues) ≡ false
    → Takes k x
take_next_lem k x keys busy =
    let q = queues_at k x.slave_queues in
    let p = pop_next_lem q busy in
    record {
      command = p.command;
      rest = p.rest;
      taken = unfold take_next in rw p.popped refl;
      writes =
          let t = total-update write_count 0 k no_requests (λ _. p.rest) x.slave_queues keys refl in
          omega (arith, t, TakesFirst-writes q p.rest p.command p.first);
    }

pub HasCurrent-at :
    (x : ModbusExecutor) (k : ℕ)
    → x.current_slave_queue ≡ some k
    → is_none (find k x.slave_queues) ≡ false
    → HasCurrent x
HasCurrent-at x k c h = rw (c, HasCurrent) h

pub HasCurrent-key :
    (x : ModbusExecutor) (k : ℕ)
    → HasCurrent x
    → x.current_slave_queue ≡ some k
    → is_none (find k x.slave_queues) ≡ false
HasCurrent-key x k h c = rw (c, HasCurrent) at h

pub HasCurrent-end :
    (x : ModbusExecutor) → HasCurrent x → x.current_slave_queue ≡ none → all_done x ≡ true
HasCurrent-end x h c = rw (c, HasCurrent) at h

-- With something to do there is a current queue.
pub HasCurrent-busy :
    (x : ModbusExecutor)
    → HasCurrent x
    → all_done x ≡ false
    → (k : ℕ) × (x.current_slave_queue ≡ some k)
HasCurrent-busy x h busy = elim (Option-cases x.current_slave_queue) [
  | inl e ↦ let done = HasCurrent-end x h e in absurd (ground arith)
  | inr (k, e) ↦ (k, e)
]

pub has_key-update :
    (k s : ℕ) (f : ModbusRequestsQueues → ModbusRequestsQueues) (qs : Queues)
    → Ascends 0 qs
    → (k ≡ s) ⊎ (is_none (find s qs) ≡ false)
    → is_none (find s (update k no_requests f qs)) ≡ false
has_key-update k s f qs a h = ground (arith, find-update 0 k s no_requests f qs a)
