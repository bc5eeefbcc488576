-- ===== src/Executor/Safe/Polls.antt =====
-- `addPollList` and the invariant.
use mqmgateway.Base.{
  ℕ, ◌-◌, ◌*◌, ◌≤◌, ◌≡◌, refl, sym, ap, subst, ◌∙◌, ◌⊎◌, inl, inr, Bool, true, false, not, ◌&&◌,
  Option, none, some, arith, if◌then◌else◌, Bool-cases, Option-cases, length, find, Ascends,
  update-Ascends, total,
}
use mqmgateway.Command.{duration_max, CommandRef}
use mqmgateway.Executor.{
  ModbusExecutor, write_batch_size, queues_at, all_empty, is_none, all_done, poll_done,
  reset_commands_counter,
}
use mqmgateway.Executor.Accounts.{
  write_count, waiting_writes, HasCurrent, IsAccounted, put_queue, take_next_lem, HasCurrent-at,
  HasCurrent-key, HasCurrent-end, has_key-update,
}
use mqmgateway.Executor.Queueing.{
  add_slave_polls, first_added, take_next, start_election, add_poll_list,
}
use mqmgateway.Executor.Safe.Added.{add_slave_polls_lem}
use mqmgateway.Executor.Safe.Elect.{
  SameWrites, Pointwise-Ascends, Pointwise-writes, Pointwise-find, Pointwise-empty, elect_lem,
}
use mqmgateway.Queues.{no_requests, is_nil, is_empty}
use mqmgateway.Scheduler.{RegisterMap}

HasCurrent-none :
    (y : ModbusExecutor) → y.current_slave_queue ≡ none → all_done y ≡ true → HasCurrent y
HasCurrent-none y c h = rw (c, HasCurrent) h

all_done-added :
    (x y : ModbusExecutor)
    → all_done x ≡ true
    → y.waiting_command ≡ x.waiting_command
    → (all_empty x.slave_queues ≡ true → all_empty y.slave_queues ≡ true)
    → all_done y ≡ true
unfolding all_done
all_done-added x y done w h = ground (arith, w, h)

all_done-waiting_none : (x : ModbusExecutor) → all_done x ≡ true → x.waiting_command ≡ none
unfolding all_done
all_done-waiting_none x h = ground arith

-- The invariant after the polls were added, with the queues that were current.
added-IsAccounted :
    (m : RegisterMap) (x y : ModbusExecutor)
    → IsAccounted x
    → y.slave_queues ≡ add_slave_polls m x.slave_queues
    → y.current_slave_queue ≡ x.current_slave_queue
    → y.waiting_command ≡ x.waiting_command
    → y.write_commands_queued ≡ x.write_commands_queued
    → (all_done x ≡ false) ⊎ (first_added m ≡ none)
    → IsAccounted y
added-IsAccounted m x y a queues current waiting queued cause =
    let h = add_slave_polls_lem m x.slave_queues a.keys in
    record {
      keys = subst (Ascends 0) (sym queues) h.keys;
      counted = omega (
        arith,
        ap (total write_count) queues,
        h.writes,
        ap waiting_writes waiting,
        a.counted,
        queued,
      );
      current = elim (Option-cases x.current_slave_queue) [
        | inr (k, at) ↦ HasCurrent-at y k (current ∙ at) (
            subst (λ qs. is_none (find k qs) ≡ false) (sym queues)
              (h.kept k (HasCurrent-key x k a.current at)))
        | inl at ↦
            let done = HasCurrent-end x a.current at in
            elim cause [
              | inl busy ↦ absurd (ground (arith, done, busy))
              | inr none_added ↦ HasCurrent-none y (current ∙ at) (
                  all_done-added x y done waiting
                    (λ e. subst (λ qs. all_empty qs ≡ true) (sym queues) (h.nothing none_added e)))
            ]
      ];
    }

-- The election starts at the queues of `first`, which have commands, and no command waits.
start_election_lem :
    (now first : ℕ) (x : ModbusExecutor)
    → Ascends 0 x.slave_queues
    → total write_count x.slave_queues ≤ x.write_commands_queued
    → is_empty (queues_at first x.slave_queues) ≡ false
    → (z : ModbusExecutor) × (start_election now first x ≡ some z)
      × IsAccounted z
      × (is_none z.waiting_command ≡ false)
unfolding start_election reset_commands_counter
start_election_lem now first x keys counted busy =
    let s =
      elect_lem x.store (now - x.last_command_time) x.slave_queues
        (record { current_diff = duration_max; elected = none; current = first }) (omega arith) in
    let polls = (queues_at first x.slave_queues).poll_queue in
    let z : ModbusExecutor = record x {
      current_slave_queue = some s.result.current;
      commands_left = if is_nil polls then write_batch_size else length polls * 2;
      slave_queues = s.queues;
      waiting_command = s.result.elected;
    } in
    let keys' = Pointwise-Ascends SameWrites 0 x.slave_queues s.queues s.writes keys in
    let writes = Pointwise-writes x.slave_queues s.queues s.writes in
    let ends = λ (o : Option CommandRef). elim o as (λ o. Option ModbusExecutor) [
      | none ↦ take_next s.result.current z
      | some c ↦ some z
    ] in
    let e : start_election now first x ≡ ends s.result.elected = rw s.elects refl in
    elim s.outcome [
      | inr (r, elected, at) ↦ (
        z,
        e ∙ ap ends elected,
        record {
          keys = keys';
          counted = omega (arith, writes, ap waiting_writes elected, counted);
          current =
              Pointwise-find SameWrites s.result.current x.slave_queues s.queues s.writes ∙ at;
        },
        ap is_none elected,
      )
      | inl (same, kept) ↦
          let at : s.result.current ≡ first = ap (λ e. e.current) same in
          let still =
            ap (λ k. is_empty (queues_at k s.queues)) at
            ∙ Pointwise-empty first x.slave_queues s.queues kept
            ∙ busy in
          let t = take_next_lem s.result.current z keys' still in
          let taken = record z {
            waiting_command = some t.command;
            slave_queues = put_queue s.result.current t.rest s.queues;
          } in
          (
            taken,
            e ∙ ap ends (ap (λ e. e.elected) same) ∙ t.taken,
            record {
              keys =
                  update-Ascends 0 s.result.current no_requests (λ _. t.rest) s.queues (omega arith)
                    keys';
              counted = omega (arith, t.writes, writes, counted);
              current =
                  has_key-update s.result.current s.result.current (λ _. t.rest) s.queues keys'
                    (inl refl);
            },
            refl,
          )
    ]

-- The state once the polls are in their queues.
abbrev added_state : ℕ → RegisterMap → Bool → ModbusExecutor → ModbusExecutor
added_state now m initial x =
    let begun = if initial then record x { initial_poll = true; initial_poll_start = now } else x in
    record begun { slave_queues = add_slave_polls m begun.slave_queues }

added_state_lem :
    (now : ℕ) (m : RegisterMap) (initial : Bool) (x : ModbusExecutor)
    → let y = added_state now m initial x in
      (y.slave_queues ≡ add_slave_polls m x.slave_queues)
      × (y.current_slave_queue ≡ x.current_slave_queue)
      × (y.waiting_command ≡ x.waiting_command)
      × (y.write_commands_queued ≡ x.write_commands_queued)
added_state_lem now m true x = (refl, refl, refl, refl)
added_state_lem now m false x = (refl, refl, refl, refl)

-- Whether `addPollList` refuses the list.
abbrev pub is_refused : ModbusExecutor → Bool
is_refused x = x.initial_poll && not (poll_done x)

-- `addPollList` returns and keeps the invariant. A list that comes before the end of the initial poll
-- is dropped. A list with a poll for an executor that has nothing to do makes a command wait.
pub add_poll_list_safe :
    (now : ℕ) (m : RegisterMap) (initial : Bool) (x : ModbusExecutor)
    → IsAccounted x
    → (y : ModbusExecutor) × (add_poll_list now m initial x ≡ some y)
      × IsAccounted y
      × (((is_refused x ≡ true) × (y ≡ x))
          ⊎ ((is_refused x ≡ false)
              × ((all_done x ≡ false)
                  ⊎ (first_added m ≡ none)
                  ⊎ (is_none y.waiting_command ≡ false))))
unfolding add_poll_list
add_poll_list_safe now m initial x a =
    let y = added_state now m initial x in
    let (queues, current, waiting, queued) = added_state_lem now m initial x in
    let added = added-IsAccounted m x y a queues current waiting queued in
    elim (Bool-cases (is_refused x)) [
      | inl refused ↦ (x, rw refused refl, a, inl (refused, refl))
      | inr taken ↦ elim (Bool-cases (all_done x)) [
        | inr busy ↦ (y, rw (taken, busy) refl, added (inl busy), inr (taken, inl busy))
        | inl done ↦ elim (Option-cases (first_added m)) [
          | inl nothing ↦ (
            y,
            rw (taken, done, nothing) refl,
            added (inr nothing),
            inr (taken, inr (inl nothing)),
          )
          | inr (first, f) ↦
              let adds = add_slave_polls_lem m x.slave_queues a.keys in
              let (z, e, az, w) =
                start_election_lem now first y (subst (Ascends 0) (sym queues) adds.keys)
                  (omega (arith, ap (total write_count) queues, adds.writes, a.counted, queued))
                  (ap (λ qs. is_empty (queues_at first qs)) queues ∙ adds.first first f) in
              (z, rw (taken, done, f) e, az, inr (taken, inr (inr w)))
        ]
      ]
    ]
