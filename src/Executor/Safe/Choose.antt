-- ===== src/Executor/Safe/Choose.antt =====
-- The choice of the waiting command.
use mqmgateway.Base.{
  ℕ, zero, suc, ◌*◌, ◌≤◌, ◌<◌, ◌≡◌, refl, ◌∙◌, ◌≢◌, ◌⊎◌, inl, inr, true, false, not, ◌||◌, none,
  some, [], ◌∷◌, arith, ℕ_discrete, ◌==◌, if◌then◌else◌, Bool-cases, Option-cases, length,
  get_elem?, find, Ascends, update-Ascends,
}
use mqmgateway.Command.{CommandRef}
use mqmgateway.Executor.{
  ModbusExecutor, write_batch_size, queues_at, all_empty, is_none, all_done, reset_commands_counter,
}
use mqmgateway.Executor.Accounts.{
  IsAccounted, put_queue, Takes, take_next_lem, HasCurrent-at, HasCurrent-key, HasCurrent-busy,
  has_key-update,
}
use mqmgateway.Executor.Next.{find_next_queue, position, choose_command, choose_waiting}
use mqmgateway.Executor.Passing.{get_elem?-some}
use mqmgateway.Executor.Queueing.{Queues}
use mqmgateway.Executor.Search.{find_next_queue_lem}
use mqmgateway.Queues.{ModbusRequestsQueues, no_requests, is_nil, is_empty}

position-lt : (k : ℕ) (qs : Queues) → is_none (find k qs) ≡ false → position k qs < length qs
position-lt k [] h = absurd (ground arith)
position-lt k ((j, q) ∷ qs) h = ground (arith, position-lt k qs)

get_elem?-find :
    (n i : ℕ) (qs : Queues) {k : ℕ} {q : ModbusRequestsQueues}
    → Ascends n qs
    → get_elem? qs i ≡ some (k, q)
    → (n ≤ k) × (find k qs ≡ some q)
get_elem?-find n i [] a e = cc
get_elem?-find n zero ((j, u) ∷ qs) a e = ground arith
get_elem?-find n (suc i) ((j, u) ∷ qs) {k} {q} a e =
    let ih = get_elem?-find (suc j) i qs {k = k} {q = q} a.1 e in ground (arith, ih)

-- The choice succeeds: a command waits, and only the queues, the current one and the counter change.
pub record Chooses (x : ModbusExecutor) : Type 0 where
  pub state : ModbusExecutor
  pub command : CommandRef
  pub chosen : choose_waiting x ≡ some (state, false)
  pub waiting : state.waiting_command ≡ some command
  pub accounted : IsAccounted state
  pub same_store : state.store ≡ x.store
  pub same_last : state.last_command ≡ x.last_command
  pub same_time : state.last_command_time ≡ x.last_command_time
  pub same_messages : state.from_modbus_queue ≡ x.from_modbus_queue

-- A command of the queues at key `k` waits.
abbrev taken_state : (k : ℕ) (x : ModbusExecutor) → Takes k x → ModbusExecutor
taken_state k x t = record x {
  waiting_command = some t.command;
  slave_queues = put_queue k t.rest x.slave_queues;
}

taken-IsAccounted :
    (k : ℕ) (x : ModbusExecutor) (t : Takes k x)
    → IsAccounted x
    → x.waiting_command ≡ none
    → x.current_slave_queue ≡ some k
    → IsAccounted (taken_state k x t)
taken-IsAccounted k x t a w c = record {
  keys = update-Ascends 0 k no_requests (λ _. t.rest) x.slave_queues (omega arith) a.keys;
  counted = omega (arith, t.writes, a.counted);
  current =
      HasCurrent-at (taken_state k x t) k c
        (has_key-update k k (λ _. t.rest) x.slave_queues a.keys (inl refl));
}

choose_waiting-none :
    (k : ℕ) (x : ModbusExecutor)
    → x.waiting_command ≡ none
    → x.current_slave_queue ≡ some k
    → choose_waiting x ≡ choose_command k x
unfolding choose_waiting
choose_waiting-none k x w c = ground arith

choose_waiting-some :
    (c : CommandRef) (x : ModbusExecutor)
    → x.waiting_command ≡ some c
    → choose_waiting x ≡ some (x, false)
unfolding choose_waiting
choose_waiting-some c x w = ground arith

-- The current queues have commands, and the batch is not used up.
choose_here :
    (k : ℕ) (x : ModbusExecutor)
    → IsAccounted x
    → x.waiting_command ≡ none
    → x.current_slave_queue ≡ some k
    → x.commands_left ≢ 0
    → is_empty (queues_at k x.slave_queues) ≡ false
    → Chooses x
unfolding choose_command
choose_here k x a w c left busy =
    let t = take_next_lem k x a.keys busy in
    record {
      state = taken_state k x t;
      command = t.command;
      chosen = choose_waiting-none k x w c ∙ ground (arith, t.taken);
      waiting = refl;
      accounted = taken-IsAccounted k x t a w c;
      same_store = refl;
      same_last = refl;
      same_time = refl;
      same_messages = refl;
    }

-- The state after the switch to the queues at another key.
abbrev switched_state :
    (n : ℕ) (x : ModbusExecutor)
    → Takes n (record x { current_slave_queue = some n })
    → ModbusExecutor
switched_state n x t =
    let y = taken_state n (record x { current_slave_queue = some n }) t in
    let polls = (queues_at n y.slave_queues).poll_queue in
    record y { commands_left = if is_nil polls then write_batch_size else length polls * 2 }

-- The search goes on to the queues at position `n`, key `k'`.
choose_next :
    (k n k' : ℕ) (q : ModbusRequestsQueues) (x : ModbusExecutor)
    → IsAccounted x
    → x.waiting_command ≡ none
    → x.current_slave_queue ≡ some k
    → (x.commands_left ≡ 0) ⊎ (is_empty (queues_at k x.slave_queues) ≡ true)
    → find_next_queue x.slave_queues (position k x.slave_queues) ≡ some n
    → get_elem? x.slave_queues n ≡ some (k', q)
    → is_empty q ≡ false
    → Chooses x
unfolding choose_command reset_commands_counter
choose_next k n k' q x a w c cause found at busy =
    let here : find k' x.slave_queues ≡ some q =
      (get_elem?-find 0 n x.slave_queues {k = k'} {q = q} a.keys at).1 in
    let busy' : is_empty (queues_at k' x.slave_queues) ≡ false = ground (arith, here) in
    let y = record x { current_slave_queue = some k' } in
    let t = take_next_lem k' y a.keys busy' in
    let ay : IsAccounted y = record {
      keys = a.keys;
      counted = a.counted;
      current = ground (arith, here);
    } in
    let taken = taken-IsAccounted k' y t ay w refl in
    let moved : not (k' == k) || not (is_empty (queues_at k x.slave_queues)) ≡ true =
      ground (arith, here) in
    record {
      state = switched_state k' x t;
      command = t.command;
      chosen = choose_waiting-none k x w c ∙ ground (arith, found, at, t.taken, moved);
      waiting = refl;
      accounted = record { keys = taken.keys; counted = taken.counted; current = taken.current };
      same_store = refl;
      same_last = refl;
      same_time = refl;
      same_messages = refl;
    }

-- With something to do, the choice succeeds.
pub choose_waiting_lem : (x : ModbusExecutor) → IsAccounted x → all_done x ≡ false → Chooses x
choose_waiting_lem x a busy = elim (Option-cases x.waiting_command) [
  | inr (c, w) ↦ record {
    state = x;
    command = c;
    chosen = choose_waiting-some c x w;
    waiting = w;
    accounted = a;
    same_store = refl;
    same_last = refl;
    same_time = refl;
    same_messages = refl;
  }
  | inl w ↦
      let (k, c) = HasCurrent-busy x a.current busy in
      let key = HasCurrent-key x k a.current c in
      let some_busy : all_empty x.slave_queues ≡ false = unfold all_done in ground arith in
      let (n, found, (below, here_busy, passed)) =
        find_next_queue_lem x.slave_queues (position k x.slave_queues)
          (position-lt k x.slave_queues key) some_busy in
      let (e, at) = get_elem?-some x.slave_queues n below in
      let next = λ (cause : (x.commands_left ≡ 0) ⊎ (is_empty (queues_at k x.slave_queues) ≡ true)).
        choose_next k n e.0 e.1 x a w c cause found at (ground (arith, at)) in
      elim (ℕ_discrete x.commands_left 0) [
        | yes z ↦ next (inl z)
        | no left ↦ elim (Bool-cases (is_empty (queues_at k x.slave_queues))) [
          | inl empty ↦ next (inr empty)
          | inr full ↦ choose_here k x a w c left full
        ]
      ]
]
