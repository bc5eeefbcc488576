-- ===== src/Queues.antt =====
-- libmodmqttsrv/modbus_request_queues.hpp and modbus_request_queues.cpp: the two queues of one slave.
-- The cached iterator is a position in the poll queue; `none` is an iterator that must not be used:
-- never assigned, or left behind by a change of the queue.
pub mod Pop
pub mod Silence
use mqmgateway.Base.{
  ℕ, zero, suc, ◌-◌, Bool, true, false, not, ◌&&◌, ◌||◌, Option, none, some, List, [], ◌∷◌, ◌++◌,
  ltb, leb, ◌==◌, if◌then◌else◌, length, get_elem?,
}
use mqmgateway.Command.{
  duration_max, RegisterCommand, has_delay_before_first_command, CommandRef, poll_ref, write_ref,
  Store,
}

pub record ModbusRequestsQueues : Type 0 where
  pub poll_queue : List ℕ
  pub write_queue : List ℕ
  pub last_poll_found : Option ℕ
  pub pop_from_poll : Bool

abbrev pub no_requests : ModbusRequestsQueues
no_requests = record {
  poll_queue = [];
  write_queue = [];
  last_poll_found = none;
  pop_from_poll = true;
}

abbrev pub is_nil {ℓ} : {A : Type ℓ} → List A → Bool
is_nil [] = true
is_nil (x ∷ xs) = false

abbrev pub is_empty : ModbusRequestsQueues → Bool
is_empty q = is_nil q.poll_queue && is_nil q.write_queue

-- `std::find` of a shared pointer: the same object.
abbrev pub is_queued : ℕ → List ℕ → Bool
is_queued r [] = false
is_queued r (x ∷ xs) = (x == r) || is_queued r xs

unfoldable pub add_poll_refs : List ℕ → List ℕ → List ℕ
add_poll_refs [] queue = queue
add_poll_refs (r ∷ rs) queue =
    add_poll_refs rs (if is_queued r queue then queue else queue ++ r ∷ [])

unfoldable pub queue_poll_list : List ℕ → ModbusRequestsQueues → ModbusRequestsQueues
queue_poll_list refs q =
    let queue = add_poll_refs refs q.poll_queue in
    record q {
      poll_queue = queue;
      last_poll_found = if length queue == length q.poll_queue then q.last_poll_found else none;
    }

unfoldable pub queue_write_command : ℕ → ModbusRequestsQueues → ModbusRequestsQueues
queue_write_command r q = record q { write_queue = q.write_queue ++ r ∷ [] }

unfoldable pub readd_command : CommandRef → ModbusRequestsQueues → ModbusRequestsQueues
readd_command (poll_ref r) q = record q {
  poll_queue = r ∷ q.poll_queue;
  last_poll_found = none;
  pop_from_poll = true;
}
readd_command (write_ref r) q = record q { write_queue = r ∷ q.write_queue; pop_from_poll = false }

-- `popNext(T& queue)`: the source asserts that the queue is not empty; `none` is that fault.
unfoldable pub pop_poll : ModbusRequestsQueues → Option (CommandRef × ModbusRequestsQueues)
pop_poll q = elim q.poll_queue [
  | [] ↦ none
  | r ∷ rest ↦ some (poll_ref r, record q { poll_queue = rest; last_poll_found = none })
]

unfoldable pub pop_write : ModbusRequestsQueues → Option (CommandRef × ModbusRequestsQueues)
pop_write q = elim q.write_queue [
  | [] ↦ none
  | r ∷ rest ↦ some (write_ref r, record q { write_queue = rest })
]

unfoldable pub pop_next : ModbusRequestsQueues → Option (CommandRef × ModbusRequestsQueues)
unfolding pop_poll pop_write
pop_next q =
    if q.pop_from_poll
    then (if is_nil q.poll_queue
        then pop_write q
        else pop_poll (record q { pop_from_poll = false }))
    else (if is_nil q.write_queue
        then pop_poll q
        else pop_write (record q { pop_from_poll = true }))

-- The delay that a poll asks for, as `findForSilencePeriod` reads it.
unfoldable pub silence_delay : Bool → RegisterCommand → ℕ
silence_delay ignore_first_read c =
    if ignore_first_read || not (has_delay_before_first_command c)
    then c.delay_before_command
    else c.delay_before_first_command

-- `std::chrono::abs(delay - pPeriod)`.
abbrev pub abs_diff : ℕ → ℕ → ℕ
abs_diff a b = if leb b a then a - b else b - a

-- The loop of `findForSilencePeriod` from position `i`; `ret` and `found` are the variables `ret`
-- and `mLastPollFound`. `diff` is compared with `ret`, a delay.
unfoldable pub find_silence_from : Store → ℕ → Bool → ℕ → List ℕ → ℕ × Option ℕ → ℕ × Option ℕ
find_silence_from store period ignore i [] (ret, found) = (ret, found)
find_silence_from store period ignore i (r ∷ rs) (ret, found) =
    let delay = silence_delay ignore (store.polls r).command in
    let diff = abs_diff delay period in
    let next =
      if delay == 0
      then (ret, found)
      else (if ltb diff ret then (delay, some i) else (ret, found)) in
    let rest = find_silence_from store period ignore (suc i) rs next in
    if not (delay == 0) && (diff == 0) then (delay, some i) else rest

unfoldable pub find_for_silence_period :
    Store → ℕ → Bool → ModbusRequestsQueues → ℕ × ModbusRequestsQueues
find_for_silence_period store period ignore q =
    let (ret, found) =
      find_silence_from store period ignore 0 q.poll_queue (duration_max, q.last_poll_found) in
    (ret, record q { last_poll_found = found })

abbrev pub remove_at {ℓ} : {A : Type ℓ} → ℕ → List A → List A
remove_at i [] = []
remove_at zero (x ∷ xs) = xs
remove_at (suc i) (x ∷ xs) = x ∷ remove_at i xs

-- The element that the cached iterator points at is taken out. `none` is a fault: the iterator must
-- not be read.
unfoldable pub pop_found : ModbusRequestsQueues → Option (CommandRef × ModbusRequestsQueues)
pop_found q = elim q.last_poll_found [
  | none ↦ none
  | some i ↦ elim (get_elem? q.poll_queue i) [
    | none ↦ none
    | some r ↦
        some
          (poll_ref r, record q { poll_queue = remove_at i q.poll_queue; last_poll_found = none })
  ]
]

-- `popFirstWithDelay`. With the end iterator it searches and looks again; if that finds nothing the
-- source goes round for ever, which is `none` too.
unfoldable pub pop_first_with_delay :
    Store → ℕ → Bool → ModbusRequestsQueues → Option (CommandRef × ModbusRequestsQueues)
unfolding pop_found
pop_first_with_delay store period ignore q = elim q.last_poll_found [
  | none ↦ none
  | some i ↦
      if i == length q.poll_queue
      then pop_found (find_for_silence_period store period ignore q).1
      else pop_found q
]
