-- ===== src/Executor/Lost.antt =====
-- Two delayed polls of different slaves in the election of `addPollList`.
use mqmgateway.Base.{
  ℕ, ◌≤◌, ◌<◌, ◌≡◌, refl, ◌≢◌, Bool, true, false, none, some, List, [], ◌∷◌, arith, ltb, ◌==◌,
  ==_iff,
}
use mqmgateway.Command.{duration_max, poll_ref, Store}
use mqmgateway.Executor.Queueing.{Election, elect_step, elect}
use mqmgateway.Queues.{
  ModbusRequestsQueues, no_requests, silence_delay, find_silence_from, find_for_silence_period,
  pop_first_with_delay,
}

abbrev pub queue_of : List ℕ → ModbusRequestsQueues
queue_of rs = record no_requests { poll_queue = rs }

-- The election among the only polls of a slave when it begins with this one.
find_alone :
    (store : Store) (period : ℕ) (ignore : Bool) (r : ℕ)
    → silence_delay ignore (store.polls r).command ≢ 0
    → silence_delay ignore (store.polls r).command < duration_max
    → period < duration_max
    → find_for_silence_period store period ignore (queue_of (r ∷ [])) ≡ (
      silence_delay ignore (store.polls r).command,
      record (queue_of (r ∷ [])) { last_poll_found = some 0 },
    )
unfolding find_for_silence_period find_silence_from
find_alone store period ignore r nz below k = ground arith

pop_alone :
    (store : Store) (period : ℕ) (ignore : Bool) (r : ℕ)
    → pop_first_with_delay store period ignore
        (record (queue_of (r ∷ [])) { last_poll_found = some 0 })
      ≡ some (poll_ref r, queue_of [])
unfolding pop_first_with_delay
pop_alone store period ignore r = refl

elect_step_alone :
    (store : Store) (silence k r : ℕ) (ignore : Bool) (e : Election)
    → (k == e.current) ≡ ignore
    → silence_delay ignore (store.polls r).command ≢ 0
    → silence_delay ignore (store.polls r).command < e.current_diff
    → e.current_diff ≤ duration_max
    → silence < duration_max
    → elect_step store silence k (queue_of (r ∷ [])) e
      ≡ some (
        queue_of [],
        record {
          current_diff = silence_delay ignore (store.polls r).command;
          elected = some (poll_ref r);
          current = k;
        },
        false,
      )
unfolding elect_step
elect_step_alone store silence k r ignore e i nz lt small sil =
    let delay = silence_delay ignore (store.polls r).command in
    let f = find_alone store silence ignore r nz (omega (arith, lt, small)) sil in
    let some_diff : (e.current_diff == 0) ≡ false = ground (arith, lt) in
    let better : ltb delay e.current_diff ≡ true = ground (arith, lt) in
    let goes : (delay == 0) ≡ false = ground (arith, nz) in
    rw (i, f, some_diff, better, pop_alone store silence ignore r, goes) refl

-- Two slaves have one poll each, each with a delay; the election starts at the first. If the poll of
-- the second slave asks for the shorter delay, the election takes both polls out of their queues and
-- returns only the second: the first poll is lost.
pub elect_loses :
    (store : Store) (silence k j a b : ℕ)
    → k ≢ j
    → silence_delay false (store.polls b).command ≢ 0
    → silence_delay false (store.polls b).command < silence_delay true (store.polls a).command
    → silence_delay true (store.polls a).command < duration_max
    → silence < duration_max
    → elect store silence
        ((k, queue_of (a ∷ [])) ∷ (j, queue_of (b ∷ [])) ∷ [])
        (record { current_diff = duration_max; elected = none; current = k })
      ≡ some (
        (k, queue_of []) ∷ (j, queue_of []) ∷ [],
        record {
          current_diff = silence_delay false (store.polls b).command;
          elected = some (poll_ref b);
          current = j;
        },
      )
unfolding elect
elect_loses store silence k j a b other nz lt below sil =
    let d = silence_delay true (store.polls a).command in
    let first =
      elect_step_alone store silence k a true
        (record { current_diff = duration_max; elected = none; current = k }) ((==_iff k k).1 refl)
        (λ z. ground (arith, z, lt)) below (omega arith) sil in
    let second =
      elect_step_alone store silence j b false
        (record { current_diff = d; elected = some (poll_ref a); current = k })
        (ground (arith, other)) nz lt (omega (arith, below)) sil in
    rw (first, second) refl
