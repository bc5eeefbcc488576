-- ===== src/Executor/Safe/Added.antt =====
-- The loop of `addPollList` that adds the polls of each slave.
use mqmgateway.Base.{
  ℕ, ◌≡◌, refl, subst, ◌∙◌, inl, inr, true, false, none, some, List, [], ◌∷◌, ◌++◌, arith, ◌==◌,
  ==_iff, Bool-cases, update, find, Ascends, update-Ascends, find-update, total, total-update,
}
use mqmgateway.Executor.{queues_at, all_empty, is_none}
use mqmgateway.Executor.Accounts.{write_count, has_key-update}
use mqmgateway.Executor.Queueing.{Queues, add_slave_polls, first_added}
use mqmgateway.Executor.Safe.Reads.{queue_poll_list_writes}
use mqmgateway.Queues.{
  ModbusRequestsQueues, no_requests, is_nil, is_empty, add_poll_refs, queue_poll_list,
}
use mqmgateway.Scheduler.{RegisterMap}

add_poll_refs-busy :
    (refs queue : List ℕ) → is_nil queue ≡ false → is_nil (add_poll_refs refs queue) ≡ false
unfolding add_poll_refs
add_poll_refs-busy [] queue h = h
add_poll_refs-busy (r ∷ rs) queue h =
    ground (arith, add_poll_refs-busy rs queue, add_poll_refs-busy rs (queue ++ r ∷ []))

queue_poll_list-busy :
    (refs : List ℕ) (q : ModbusRequestsQueues)
    → is_empty q ≡ false
    → is_empty (queue_poll_list refs q) ≡ false
unfolding queue_poll_list
queue_poll_list-busy refs q h = ground (arith, add_poll_refs-busy refs q.poll_queue)

queue_poll_list-added :
    (r : ℕ) (rs : List ℕ) (q : ModbusRequestsQueues) → is_empty (queue_poll_list (r ∷ rs) q) ≡ false
unfolding queue_poll_list add_poll_refs
queue_poll_list-added r rs q =
    ground
      (arith, add_poll_refs-busy rs q.poll_queue, add_poll_refs-busy rs (q.poll_queue ++ r ∷ []))

queue_poll_list-nothing : (q : ModbusRequestsQueues) → is_empty (queue_poll_list [] q) ≡ is_empty q
unfolding queue_poll_list add_poll_refs
queue_poll_list-nothing q = refl

update-all_empty :
    (k : ℕ) (qs : Queues)
    → all_empty qs ≡ true
    → all_empty (update k no_requests (queue_poll_list []) qs) ≡ true
update-all_empty k [] h = ground (arith, queue_poll_list-nothing no_requests)
update-all_empty k ((j, q) ∷ qs) h =
    ground
      (arith, update-all_empty k qs, queue_poll_list-nothing q, queue_poll_list-nothing no_requests)

-- What the loop does to the queues.
pub record Adds (m : RegisterMap) (qs : Queues) : Type 0 where
  pub keys : Ascends 0 (add_slave_polls m qs)
  pub writes : total write_count (add_slave_polls m qs) ≡ total write_count qs
  pub kept : (k : ℕ) → is_none (find k qs) ≡ false → is_none (find k (add_slave_polls m qs)) ≡ false
  pub busy :
      (k : ℕ)
      → is_empty (queues_at k qs) ≡ false
      → is_empty (queues_at k (add_slave_polls m qs)) ≡ false
  pub first :
      (k : ℕ) → first_added m ≡ some k → is_empty (queues_at k (add_slave_polls m qs)) ≡ false
  pub nothing : first_added m ≡ none → all_empty qs ≡ true → all_empty (add_slave_polls m qs) ≡ true

update-busy :
    (slave k : ℕ) (refs : List ℕ) (qs : Queues)
    → Ascends 0 qs
    → is_empty (queues_at k qs) ≡ false
    → is_empty (queues_at k (update slave no_requests (queue_poll_list refs) qs)) ≡ false
update-busy slave k refs qs a h = elim (Bool-cases (slave == k)) [
  | inl e ↦
      let q = (==_iff slave k).0 e in
      ground (
        arith,
        find-update 0 slave k no_requests (queue_poll_list refs) qs a,
        q,
        queue_poll_list-busy refs (queues_at k qs) h,
      )
  | inr e ↦ ground (arith, find-update 0 slave k no_requests (queue_poll_list refs) qs a)
]

update-added :
    (slave r : ℕ) (rs : List ℕ) (qs : Queues)
    → Ascends 0 qs
    → is_empty (queues_at slave (update slave no_requests (queue_poll_list (r ∷ rs)) qs)) ≡ false
update-added slave r rs qs a = ground (
  arith,
  find-update 0 slave slave no_requests (queue_poll_list (r ∷ rs)) qs a,
  queue_poll_list-added r rs (queues_at slave qs),
)

added_first :
    (slave : ℕ) (refs : List ℕ) (m : RegisterMap) (qs : Queues)
    → Ascends 0 qs
    → Adds m (update slave no_requests (queue_poll_list refs) qs)
    → (k : ℕ) → first_added ((slave, refs) ∷ m) ≡ some k
    → is_empty (queues_at k (add_slave_polls ((slave, refs) ∷ m) qs)) ≡ false
unfolding add_slave_polls
added_first slave [] m qs a rest k f = rest.first k f
added_first slave (r ∷ rs) m qs a rest k f = rest.busy k (
    subst
      (λ s. is_empty (queues_at s (update slave no_requests (queue_poll_list (r ∷ rs)) qs)) ≡ false)
      (ground arith) (update-added slave r rs qs a))

added_nothing :
    (slave : ℕ) (refs : List ℕ) (m : RegisterMap) (qs : Queues)
    → Adds m (update slave no_requests (queue_poll_list refs) qs)
    → first_added ((slave, refs) ∷ m) ≡ none
    → all_empty qs ≡ true
    → all_empty (add_slave_polls ((slave, refs) ∷ m) qs) ≡ true
unfolding add_slave_polls
added_nothing slave [] m qs rest f h = rest.nothing f (update-all_empty slave qs h)
added_nothing slave (r ∷ rs) m qs rest f h = absurd (ground arith)

pub add_slave_polls_lem : (m : RegisterMap) (qs : Queues) → Ascends 0 qs → Adds m qs
unfolding add_slave_polls
add_slave_polls_lem [] qs a = record {
  keys = a;
  writes = refl;
  kept = λ k h. h;
  busy = λ k h. h;
  first = λ k h. cc;
  nothing = λ f h. h;
}
add_slave_polls_lem ((slave, refs) ∷ m) qs a =
    let here = update slave no_requests (queue_poll_list refs) qs in
    let keys = update-Ascends 0 slave no_requests (queue_poll_list refs) qs (omega arith) a in
    let rest = add_slave_polls_lem m here keys in
    record {
      keys = rest.keys;
      writes =
          let t = total-update write_count 0 slave no_requests (queue_poll_list refs) qs a refl in
          rest.writes ∙ omega (arith, t, queue_poll_list_writes refs (queues_at slave qs));
      kept = λ k h. rest.kept k (has_key-update slave k (queue_poll_list refs) qs a (inr h));
      busy = λ k h. rest.busy k (update-busy slave k refs qs a h);
      first = λ k f. added_first slave refs m qs a rest k f;
      nothing = λ f h. added_nothing slave refs m qs rest f h;
    }
