-- ===== src/Executor/Safe/Elect.antt =====
-- The election loop of `addPollList`.
use mqmgateway.Base.{
  ℕ, suc, ◌≤◌, ◌≡◌, refl, ap, subst, ◌∙◌, ◌⊎◌, inl, inr, Bool, false, none, some, [], ◌∷◌, arith,
  ltb, ◌==◌, Bool-cases, length, find, Ascends, total,
}
use mqmgateway.Command.{duration_max, poll_ref, Store}
use mqmgateway.Executor.{queues_at, is_none}
use mqmgateway.Executor.Accounts.{write_count}
use mqmgateway.Executor.Queueing.{Queues, Election, elect_step, elect}
use mqmgateway.Queues.{ModbusRequestsQueues, is_empty, find_for_silence_period, remove_at}
use mqmgateway.Queues.Silence.{pop_first_with_delay_lem}

-- The same keys, and a relation between the queues of each.
abbrev pub Pointwise :
    (ModbusRequestsQueues → ModbusRequestsQueues → Type 0) → Queues → Queues → Type 0
Pointwise R [] [] = Unit
Pointwise R [] (e ∷ qs) = ⊥
Pointwise R (e ∷ qs) [] = ⊥
Pointwise R ((k, q) ∷ qs) ((j, u) ∷ us) = (k ≡ j) × R q u × Pointwise R qs us

abbrev pub SameWrites : ModbusRequestsQueues → ModbusRequestsQueues → Type 0
SameWrites q u = u.write_queue ≡ q.write_queue

abbrev pub SameCommands : ModbusRequestsQueues → ModbusRequestsQueues → Type 0
SameCommands q u = (u.write_queue ≡ q.write_queue) × (u.poll_queue ≡ q.poll_queue)

Pointwise-refl :
    (R : ModbusRequestsQueues → ModbusRequestsQueues → Type 0) (qs : Queues)
    → ((q : ModbusRequestsQueues) → R q q)
    → Pointwise R qs qs
Pointwise-refl R [] h = tt
Pointwise-refl R ((k, q) ∷ qs) h = (refl, h q, Pointwise-refl R qs h)

pub Pointwise-Ascends :
    (R : ModbusRequestsQueues → ModbusRequestsQueues → Type 0) (n : ℕ) (qs us : Queues)
    → Pointwise R qs us
    → Ascends n qs
    → Ascends n us
Pointwise-Ascends R n [] [] p a = tt
Pointwise-Ascends R n [] (e ∷ us) p a = elim p [ ]
Pointwise-Ascends R n (e ∷ qs) [] p a = elim p [ ]
Pointwise-Ascends R n ((k, q) ∷ qs) ((j, u) ∷ us) p a = (
  omega (arith, p.0, a.0),
  subst (λ i. Ascends (suc i) us) p.0 (Pointwise-Ascends R (suc k) qs us p.2 a.1),
)

pub Pointwise-writes :
    (qs us : Queues) → Pointwise SameWrites qs us → total write_count us ≡ total write_count qs
Pointwise-writes [] [] p = refl
Pointwise-writes [] (e ∷ us) p = elim p [ ]
Pointwise-writes (e ∷ qs) [] p = elim p [ ]
Pointwise-writes ((k, q) ∷ qs) ((j, u) ∷ us) p =
    omega (arith, ap length p.1, Pointwise-writes qs us p.2)

pub Pointwise-find :
    (R : ModbusRequestsQueues → ModbusRequestsQueues → Type 0) (s : ℕ) (qs us : Queues)
    → Pointwise R qs us
    → is_none (find s us) ≡ is_none (find s qs)
Pointwise-find R s [] [] p = refl
Pointwise-find R s [] (e ∷ us) p = elim p [ ]
Pointwise-find R s (e ∷ qs) [] p = elim p [ ]
Pointwise-find R s ((k, q) ∷ qs) ((j, u) ∷ us) p = ground (arith, p.0, Pointwise-find R s qs us p.2)

pub Pointwise-empty :
    (s : ℕ) (qs us : Queues)
    → Pointwise SameCommands qs us
    → is_empty (queues_at s us) ≡ is_empty (queues_at s qs)
Pointwise-empty s [] [] p = refl
Pointwise-empty s [] (e ∷ us) p = elim p [ ]
Pointwise-empty s (e ∷ qs) [] p = elim p [ ]
Pointwise-empty s ((k, q) ∷ qs) ((j, u) ∷ us) p =
    ground (arith, p.0, p.1, Pointwise-empty s qs us p.2)

-- One round. Either nothing is elected and the commands stay, or a poll of this slave is elected.
record Steps (store : Store) (silence k : ℕ) (q : ModbusRequestsQueues) (e : Election)
    : Type 0 where
  queues : ModbusRequestsQueues
  next : Election
  stop : Bool
  stepped : elect_step store silence k q e ≡ some (queues, next, stop)
  writes : SameWrites q queues
  small : next.current_diff ≤ duration_max
  outcome :
      ((next ≡ e) × SameCommands q queues)
      ⊎ ((r : ℕ) × (next.elected ≡ some (poll_ref r)) × (next.current ≡ k))

find_for_silence_period-SameCommands :
    (store : Store) (period : ℕ) (ignore : Bool) (q : ModbusRequestsQueues)
    → SameCommands q (find_for_silence_period store period ignore q).1
unfolding find_for_silence_period
find_for_silence_period-SameCommands store period ignore q = (refl, refl)

elect_step_lem :
    (store : Store) (silence k : ℕ) (q : ModbusRequestsQueues) (e : Election)
    → e.current_diff ≤ duration_max
    → Steps store silence k q e
elect_step_lem store silence k q e small =
    let ignore = k == e.current in
    let found = find_for_silence_period store silence ignore q in
    elim (Bool-cases (e.current_diff == 0)) [
      | inl z ↦ record {
        queues = q;
        next = e;
        stop = false;
        stepped = unfold elect_step in rw z refl;
        writes = refl;
        small = small;
        outcome = inl (refl, (refl, refl));
      }
      | inr nz ↦ elim (Bool-cases (ltb found.0 e.current_diff)) [
        | inr ge ↦ record {
          queues = found.1;
          next = e;
          stop = false;
          stepped = unfold elect_step in rw (nz, ge) refl;
          writes = (find_for_silence_period-SameCommands store silence ignore q).0;
          small = small;
          outcome = inl (refl, find_for_silence_period-SameCommands store silence ignore q);
        }
        | inl lt ↦
            let (j, r, at, d, popped) =
              pop_first_with_delay_lem store silence ignore q (λ e. ground (arith, e)) in
            let left = record q { poll_queue = remove_at j q.poll_queue; last_poll_found = none } in
            record {
              queues = left;
              next = record { current_diff = found.0; elected = some (poll_ref r); current = k };
              stop = found.0 == 0;
              stepped = unfold elect_step in rw (nz, lt, popped) refl;
              writes = refl;
              small = ground arith;
              outcome = inr (r, refl, refl);
            }
      ]
    ]

-- The whole loop returns. Either nothing was elected, or a poll; the queued writes stay.
pub record Elects (store : Store) (silence : ℕ) (qs : Queues) (e : Election) : Type 0 where
  pub queues : Queues
  pub result : Election
  pub elects : elect store silence qs e ≡ some (queues, result)
  pub writes : Pointwise SameWrites qs queues
  pub outcome :
      ((result ≡ e) × Pointwise SameCommands qs queues)
      ⊎ ((r : ℕ) × (result.elected ≡ some (poll_ref r))
          × (is_none (find result.current qs) ≡ false))

pub elect_lem :
    (store : Store) (silence : ℕ) (qs : Queues) (e : Election)
    → e.current_diff ≤ duration_max
    → Elects store silence qs e
unfolding elect
elect_lem store silence [] e small = record {
  queues = [];
  result = e;
  elects = refl;
  writes = tt;
  outcome = inl (refl, tt);
}
elect_lem store silence ((k, q) ∷ qs) e small =
    let s = elect_step_lem store silence k q e small in
    let rest = elect_lem store silence qs s.next s.small in
    elim (Bool-cases s.stop) [
      | inl stops ↦ record {
        queues = (k, s.queues) ∷ qs;
        result = s.next;
        elects = rw (s.stepped, stops) refl;
        writes = (refl, s.writes, Pointwise-refl SameWrites qs (λ q. refl));
        outcome = elim s.outcome [
          | inl (same, kept) ↦
              inl (same, (refl, kept, Pointwise-refl SameCommands qs (λ q. (refl, refl))))
          | inr (r, elected, at) ↦ inr (r, elected, ground (arith, at))
        ];
      }
      | inr goes ↦ record {
        queues = (k, s.queues) ∷ rest.queues;
        result = rest.result;
        elects = rw (s.stepped, goes, rest.elects) refl;
        writes = (refl, s.writes, rest.writes);
        outcome = elim rest.outcome [
          | inr (r, elected, at) ↦ inr (r, elected, ground (arith, at))
          | inl (same, kept) ↦ elim s.outcome [
            | inl (before, here) ↦ inl (same ∙ before, (refl, here, kept))
            | inr (r, elected, at) ↦ inr (
              r,
              ap (λ e. e.elected) same ∙ elected,
              ground (arith, ap (λ e. e.current) same, at),
            )
          ]
        ];
      }
    ]
