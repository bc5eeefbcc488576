-- ===== src/Scheduler/Rpc.antt =====
-- `notifyRpcRead`: a successful RPC read stands in for the scheduled polls that it covers.
use mqmgateway.Address.{contains}
use mqmgateway.Base.{
  ℕ, ◌+◌, ◌≤◌, ◌≡◌, refl, sym, ap, subst, ◌∙◌, ◌↔◌, ◌⊎◌, inl, inr, Bool, true, false, ◌&&◌, ◌||◌,
  Option, none, some, List, [], ◌∷◌, arith, dec_le, ◌==◌, if◌then◌else◌, ==_iff, Bool-cases, find,
}
use mqmgateway.Command.{RegisterPoll, Store, set_poll}
use mqmgateway.Queues.{is_queued}
use mqmgateway.Scheduler.{RegisterMap, defer_polls, notify_rpc_read}
use mqmgateway.Scheduler.Due.{IsDue}

-- The poll with the read times of another one.
abbrev pub with_times : RegisterPoll → RegisterPoll → RegisterPoll
with_times completed poll = record poll {
  last_read_start_time = completed.last_read_start_time;
  last_read_finish_time = completed.last_read_finish_time;
}

abbrev pub covers : RegisterPoll → RegisterPoll → Bool
covers completed poll = contains completed.command.base.range poll.command.base.range

-- One round of the loop.
abbrev deferred : RegisterPoll → ℕ → Store → Store
deferred completed x store =
    if covers completed (store.polls x)
    then set_poll x (with_times completed (store.polls x)) store
    else store

abbrev times_if : Bool → RegisterPoll → RegisterPoll → RegisterPoll
times_if b completed poll = if b then with_times completed poll else poll

deferred_lem :
    (completed : RegisterPoll) (x : ℕ) (store : Store) (r : ℕ)
    → ((deferred completed x store).polls r
        ≡ times_if ((x == r) && covers completed (store.polls r)) completed (store.polls r))
      × ((deferred completed x store).writes r ≡ store.writes r)
deferred_lem completed x store r = elim (Bool-cases (x == r)) [
  | inl e ↦
      let q = (==_iff x r).0 e in
      subst
        (λ y.
          ((deferred completed y store).polls r
            ≡ times_if ((y == r) && covers completed (store.polls r)) completed (store.polls r))
          × ((deferred completed y store).writes r ≡ store.writes r))
        (sym q) (ground arith)
  | inr e ↦ ground arith
]

times_twice :
    (a b : Bool) (completed poll : RegisterPoll)
    → (c : Bool) → c ≡ covers completed poll
    → times_if
        (a && covers completed (times_if (b && c) completed poll))
        completed
        (times_if (b && c) completed poll)
      ≡ times_if ((b || a) && c) completed poll
times_twice true true completed poll c e = ground arith
times_twice a b completed poll c e = ground arith

defer_polls_lem :
    (completed : RegisterPoll) (rs : List ℕ) (store : Store) (r : ℕ)
    → ((defer_polls completed rs store).polls r
        ≡ times_if (is_queued r rs && covers completed (store.polls r)) completed (store.polls r))
      × ((defer_polls completed rs store).writes r ≡ store.writes r)
unfolding defer_polls
defer_polls_lem completed [] store r = (refl, refl)
defer_polls_lem completed (x ∷ rs) store r =
    let ih = defer_polls_lem completed rs (deferred completed x store) r in
    let here = deferred_lem completed x store r in
    (
      ih.0
          ∙ ap (λ p. times_if (is_queued r rs && covers completed p) completed p) here.0
          ∙ times_twice (is_queued r rs) (x == r) completed (store.polls r) _ refl,
      ih.1 ∙ here.1,
    )

-- The poll is in the list of the slave.
abbrev pub is_listed : ℕ → ℕ → RegisterMap → Bool
is_listed slave r m = elim (find slave m) [ none ↦ false | some refs ↦ is_queued r refs ]

-- `notifyRpcRead` gives the read times of the RPC read to exactly the polls of its slave that its
-- range covers; every other poll, and every write, stays as it was.
pub notify_rpc_read_lem :
    (completed : RegisterPoll) (m : RegisterMap) (store : Store) (r : ℕ)
    → ((notify_rpc_read completed m store).polls r ≡ (
        if is_listed completed.slave_id r m && covers completed (store.polls r)
        then with_times completed (store.polls r)
        else store.polls r))
      × ((notify_rpc_read completed m store).writes r ≡ store.writes r)
unfolding notify_rpc_read
notify_rpc_read_lem completed m store r = go (find completed.slave_id m) refl
  where
    go :
        (o : Option (List ℕ))
        → find completed.slave_id m ≡ o
        → let after = notify_rpc_read completed m store in
          (after.polls r ≡ (
            if is_listed completed.slave_id r m && covers completed (store.polls r)
            then with_times completed (store.polls r)
            else store.polls r))
          × (after.writes r ≡ store.writes r)
    go none e = rw (e, notify_rpc_read, is_listed) (refl, refl)
    go (some refs) e = rw (e, notify_rpc_read, is_listed) (defer_polls_lem completed refs store r)

-- A scheduled poll that an RPC read covers is not due again until its period has passed since the
-- RPC read began; what is due among the other polls does not change.
pub notify_rpc_read_silences :
    (completed : RegisterPoll) (m : RegisterMap) (store : Store) (r now : ℕ)
    → let after = notify_rpc_read completed m store in
      let deferred = is_listed completed.slave_id r m && covers completed (store.polls r) in
      ((deferred ≡ true)
        × ((completed.last_read_start_time + (store.polls r).refresh ≤ now)
            ⊎ (¬ IsDue after now r)))
      ⊎ ((deferred ≡ false) × (IsDue after now r ↔ IsDue store now r))
notify_rpc_read_silences completed m store r now =
    let e = (notify_rpc_read_lem completed m store r).0 in
    let deferred = is_listed completed.slave_id r m && covers completed (store.polls r) in
    elim (Bool-cases deferred) [
      | inl h ↦ inl (
        h,
        elim (dec_le (completed.last_read_start_time + (store.polls r).refresh) now) [
          | yes late ↦ inl late
          | no early ↦ inr (rw (e, h) (λ due. early due.1))
        ],
      )
      | inr h ↦ inr (h, rw (e, h) ((λ d. d), (λ d. d)))
    ]
