-- ===== src/Queues/Pop.antt =====
-- `addPollList`, `popNext` and `readdCommand`: nothing is lost or doubled, and neither queue starves.
use mqmgateway.Base.{
  ℕ, ◌≡◌, refl, sym, ◌∙◌, ◌≢◌, ◌↔◌, ◌⊎◌, inl, inr, Bool, true, false, not, Option, none, some, List,
  [], ◌∷◌, ◌++◌, append-nil, append_assoc, arith, if◌then◌else◌, Bool-cases, All, Any, Pairs,
  All-mono, Any-mono, Pairs-append, Any-snoc,
}
use mqmgateway.Command.{CommandRef, poll_ref, write_ref}
use mqmgateway.Queues.{
  ModbusRequestsQueues, is_nil, is_empty, is_queued, add_poll_refs, queue_poll_list, readd_command,
  pop_next,
}

-- The command is the first of one queue, which loses it, and the other queue stays as it was.
abbrev pub TakesFirst : ModbusRequestsQueues → CommandRef → ModbusRequestsQueues → Type 0
TakesFirst q (poll_ref r) q' = (q.poll_queue ≡ r ∷ q'.poll_queue) × (q'.write_queue ≡ q.write_queue)
TakesFirst q (write_ref r) q' =
    (q.write_queue ≡ r ∷ q'.write_queue) × (q'.poll_queue ≡ q.poll_queue)

-- Whether the next command is a poll: the queue whose turn it is, unless it is empty.
abbrev pub takes_poll : ModbusRequestsQueues → Bool
takes_poll q = if q.pop_from_poll then not (is_nil q.poll_queue) else is_nil q.write_queue

abbrev pub is_poll : CommandRef → Bool
is_poll (poll_ref r) = true
is_poll (write_ref r) = false

abbrev pub queues_of : List ℕ → List ℕ → Option ℕ → Bool → ModbusRequestsQueues
queues_of polls writes found turn = record {
  poll_queue = polls;
  write_queue = writes;
  last_poll_found = found;
  pop_from_poll = turn;
}

-- What `popNext` does with queues that are not both empty.
pub record PopsNext (q : ModbusRequestsQueues) : Type 0 where
  pub command : CommandRef
  pub rest : ModbusRequestsQueues
  pub popped : pop_next q ≡ some (command, rest)
  pub first : TakesFirst q command rest
  pub of_turn : is_poll command ≡ takes_poll q

pop_next_cases :
    (polls writes : List ℕ) (found : Option ℕ) (turn : Bool)
    → is_empty (queues_of polls writes found turn) ≡ false
    → PopsNext (queues_of polls writes found turn)
unfolding pop_next
pop_next_cases [] [] found turn h = cc
pop_next_cases [] (w ∷ ws) found true h = record {
  command = write_ref w;
  rest = queues_of [] ws found true;
  popped = refl;
  first = (refl, refl);
  of_turn = refl;
}
pop_next_cases [] (w ∷ ws) found false h = record {
  command = write_ref w;
  rest = queues_of [] ws found true;
  popped = refl;
  first = (refl, refl);
  of_turn = refl;
}
pop_next_cases (r ∷ rs) [] found true h = record {
  command = poll_ref r;
  rest = queues_of rs [] none false;
  popped = refl;
  first = (refl, refl);
  of_turn = refl;
}
pop_next_cases (r ∷ rs) [] found false h = record {
  command = poll_ref r;
  rest = queues_of rs [] none false;
  popped = refl;
  first = (refl, refl);
  of_turn = refl;
}
pop_next_cases (r ∷ rs) (w ∷ ws) found true h = record {
  command = poll_ref r;
  rest = queues_of rs (w ∷ ws) none false;
  popped = refl;
  first = (refl, refl);
  of_turn = refl;
}
pop_next_cases (r ∷ rs) (w ∷ ws) found false h = record {
  command = write_ref w;
  rest = queues_of (r ∷ rs) ws found true;
  popped = refl;
  first = (refl, refl);
  of_turn = refl;
}

-- If a queue is not empty, `popNext` returns: it takes the first command of the queue whose turn it
-- is, or of the other one if that is empty, and leaves everything else queued in its order.
pub pop_next_lem : (q : ModbusRequestsQueues) → is_empty q ≡ false → PopsNext q
pop_next_lem q h = pop_next_cases q.poll_queue q.write_queue q.last_poll_found q.pop_from_poll h

-- Two calls of `popNext` in a row.
abbrev pub pop_two : ModbusRequestsQueues → Option (CommandRef × CommandRef × ModbusRequestsQueues)
pop_two q = elim (pop_next q) [
  | none ↦ none
  | some (c, q') ↦ elim (pop_next q') [ none ↦ none | some (d, q'') ↦ some (c, d, q'') ]
]

-- Neither queue starves: while both have commands, two calls of `popNext` in a row return the first
-- poll and the first write, in the order that the turn gives, and the turn is as before.
pub pop_next_fair :
    (r w : ℕ) (rs ws : List ℕ) (found : Option ℕ) (turn : Bool)
    → pop_two (queues_of (r ∷ rs) (w ∷ ws) found turn)
      ≡ some (
        if turn then poll_ref r else write_ref w,
        if turn then write_ref w else poll_ref r,
        queues_of rs ws none turn,
      )
unfolding pop_next
pop_next_fair r w rs ws found true = refl
pop_next_fair r w rs ws found false = refl

-- A command that is put back is the next one popped, and the queues are then as before, but for the
-- turn and the cached iterator.
pub pop_next-readd_command :
    (c : CommandRef) (q : ModbusRequestsQueues)
    → (q' : ModbusRequestsQueues) × (pop_next (readd_command c q) ≡ some (c, q'))
      × (q'.poll_queue ≡ q.poll_queue)
      × (q'.write_queue ≡ q.write_queue)
      × (q'.pop_from_poll ≡ not (is_poll c))
unfolding pop_next readd_command
pop_next-readd_command (poll_ref r) q =
    (queues_of q.poll_queue q.write_queue none false, refl, refl, refl, refl)
pop_next-readd_command (write_ref r) q =
    (queues_of q.poll_queue q.write_queue q.last_poll_found true, refl, refl, refl, refl)

is_queued_iff : (r : ℕ) (xs : List ℕ) → (is_queued r xs ≡ true) ↔ Any (λ x. x ≡ r) xs
is_queued_iff r [] = ((λ h. cc), (λ h. elim h [ ]))
is_queued_iff r (x ∷ xs) =
    let ih = is_queued_iff r xs in ((λ h. ground (arith, ih)), (λ h. ground (arith, ih)))

not_queued-All : (r : ℕ) (xs : List ℕ) → is_queued r xs ≡ false → All (λ x. x ≢ r) xs
not_queued-All r [] h = tt
not_queued-All r (x ∷ xs) h = ((λ e. ground arith), not_queued-All r xs (ground arith))

-- No reference is in the list twice.
abbrev pub AreDistinct : List ℕ → Type 0
AreDistinct = Pairs (λ x y. x ≢ y)

add_poll_refs-Any :
    (a : ℕ) (refs queue : List ℕ)
    → Any (λ x. x ≡ a) (add_poll_refs refs queue) ↔ (Any (λ x. x ≡ a) queue ⊎ Any (λ x. x ≡ a) refs)
unfolding add_poll_refs
add_poll_refs-Any a [] queue = ((λ h. inl h), (λ h. elim h [ inl x ↦ x | inr x ↦ elim x [ ] ]))
add_poll_refs-Any a (r ∷ rs) queue = elim (Bool-cases (is_queued r queue)) [
  | inl e ↦
      let ih = add_poll_refs-Any a rs queue in
      let old = λ (p : r ≡ a).
        Any-mono (λ x. x ≡ r) (λ x. x ≡ a) (λ x q. q ∙ p) queue ((is_queued_iff r queue).0 e) in
      rw e (
        (λ h. ground (arith, ih.0 h)),
        (λ h. ih.1 (elim h [ inl q ↦ inl q | inr (inl p) ↦ inl (old p) | inr (inr q) ↦ inr q ])),
      )
  | inr e ↦
      let ih = add_poll_refs-Any a rs (queue ++ r ∷ []) in
      let snoc = Any-snoc (λ x. x ≡ a) queue r in
      rw e ((λ h. ground (arith, ih.0 h, snoc.0)), (λ h. ih.1 (ground (arith, snoc.1))))
]

add_poll_refs-AreDistinct :
    (refs queue : List ℕ) → AreDistinct queue → AreDistinct (add_poll_refs refs queue)
unfolding add_poll_refs
add_poll_refs-AreDistinct [] queue d = d
add_poll_refs-AreDistinct (r ∷ rs) queue d = elim (Bool-cases (is_queued r queue)) [
  | inl e ↦ rw e (add_poll_refs-AreDistinct rs queue d)
  | inr e ↦ rw e (
      add_poll_refs-AreDistinct rs (queue ++ r ∷ []) (
        Pairs-append _ queue (r ∷ []) d (tt, tt)
          (All-mono (λ x (n : x ≢ r). (n, tt)) queue (not_queued-All r queue e))))
]

-- The old queue stays in front.
add_poll_refs_prefix :
    (refs queue : List ℕ) → (new : List ℕ) × (add_poll_refs refs queue ≡ queue ++ new)
unfolding add_poll_refs
add_poll_refs_prefix [] queue = ([], sym (append-nil queue))
add_poll_refs_prefix (r ∷ rs) queue = elim (Bool-cases (is_queued r queue)) [
  | inl e ↦ rw e (add_poll_refs_prefix rs queue)
  | inr e ↦
      let (new, p) = add_poll_refs_prefix rs (queue ++ r ∷ []) in
      rw e (r ∷ new, p ∙ append_assoc queue (r ∷ []) new)
]

-- `addPollList` on a queue without repeated references gives such a queue: the old one, followed by
-- new references, and holding exactly the old and the given references.
pub queue_poll_list_lem :
    (refs : List ℕ) (q : ModbusRequestsQueues)
    → AreDistinct q.poll_queue
    → AreDistinct (queue_poll_list refs q).poll_queue
      × ((new : List ℕ) × ((queue_poll_list refs q).poll_queue ≡ q.poll_queue ++ new))
      × ((a : ℕ)
          → Any (λ x. x ≡ a) (queue_poll_list refs q).poll_queue
            ↔ (Any (λ x. x ≡ a) q.poll_queue ⊎ Any (λ x. x ≡ a) refs))
      × ((queue_poll_list refs q).write_queue ≡ q.write_queue)
unfolding queue_poll_list
queue_poll_list_lem refs q d = (
  add_poll_refs-AreDistinct refs q.poll_queue d,
  add_poll_refs_prefix refs q.poll_queue,
  (λ a. add_poll_refs-Any a refs q.poll_queue),
  refl,
)
