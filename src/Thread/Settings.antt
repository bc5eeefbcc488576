-- ===== src/Thread/Settings.antt =====
-- The delays and retry counts that a command gets from the configuration.
use mqmgateway.Base.{
  ℕ, ◌≡◌, refl, sym, subst, ◌∙◌, inl, inr, Bool, true, false, Option, none, some, List, [], ◌∷◌,
  arith, ℕ_discrete, ◌==◌, if◌then◌else◌, Bool-cases, if-true, find, Ascends, find-update,
}
use mqmgateway.Command.{RegisterCommand, set_max_retry_counts, RegisterPoll, Store, set_poll}
use mqmgateway.Executor.Reading.{same-==}
use mqmgateway.Queues.{is_queued}
use mqmgateway.Scheduler.Rpc.{is_listed}
use mqmgateway.Thread.{
  ModbusSlaveConfig, ModbusThread, from_msec, set_command_delays, use_slave_config,
  apply_slave_config,
}
use mqmgateway.Thread.Dispatch.{configure_polls, update_from_slave_config}

-- The setting of a slave, or that of the network, or none.
abbrev pub prefer : Option ℕ → Option ℕ → ℕ → ℕ
prefer (some d) network other = from_msec d
prefer none (some d) other = from_msec d
prefer none none other = other

abbrev pub slave_setting : (ModbusSlaveConfig → Option ℕ) → Option ModbusSlaveConfig → Option ℕ
slave_setting f none = none
slave_setting f (some s) = f s

-- A retry count of 0 of a slave is no setting.
abbrev pub prefer_count : (ModbusSlaveConfig → ℕ) → Option ModbusSlaveConfig → ℕ → ℕ
prefer_count f none network = network
prefer_count f (some s) network = if f s == 0 then network else f s

-- A command gets each delay from the configuration of its slave; without one there, from that of the
-- network; without one there, it keeps its own. It gets each retry count from the slave if the slave has
-- a configuration with another count than 0, else from the network: a count of 0 that is set for a slave
-- is replaced like one that is not set. Its range, slave and command id stay.
pub apply_slave_config_lem :
    (t : ModbusThread) (slave : ℕ) (c : RegisterCommand)
    → let after = apply_slave_config t slave c in
      let s = find slave t.slaves in
      (after.delay_before_command
        ≡ prefer
            (slave_setting (λ s. s.delay_before_command) s)
            t.delay_before_command
            c.delay_before_command)
      × (after.delay_before_first_command
          ≡ prefer
              (slave_setting (λ s. s.delay_before_first_command) s)
              t.delay_before_first_command
              c.delay_before_first_command)
      × (after.max_read_retry_count
          ≡ prefer_count (λ s. s.max_read_retry_count) s t.max_read_retry_count)
      × (after.max_write_retry_count
          ≡ prefer_count (λ s. s.max_write_retry_count) s t.max_write_retry_count)
      × (after.base ≡ c.base)
unfolding apply_slave_config use_slave_config set_max_retry_counts set_command_delays
apply_slave_config_lem t slave c =
    (ground arith, ground arith, ground arith, ground arith, ground arith)

abbrev pub configured : ModbusSlaveConfig → RegisterPoll → RegisterPoll
configured s poll = record poll { command = use_slave_config s poll.command }

use_slave_config_twice :
    (s : ModbusSlaveConfig) (c : RegisterCommand)
    → use_slave_config s (use_slave_config s c) ≡ use_slave_config s c
unfolding use_slave_config set_max_retry_counts set_command_delays
use_slave_config_twice s c = ground arith

configure_polls_lem :
    (s : ModbusSlaveConfig) (refs : List ℕ) (store : Store) (r : ℕ)
    → ((configure_polls s refs store).polls r
        ≡ (if is_queued r refs then configured s (store.polls r) else store.polls r))
      × ((configure_polls s refs store).writes r ≡ store.writes r)
unfolding configure_polls
configure_polls_lem s [] store r = (refl, refl)
configure_polls_lem s (x ∷ rs) store r =
    let next = set_poll x (configured s (store.polls x)) store in
    let ih = configure_polls_lem s rs next r in
    let twice = use_slave_config_twice s (store.polls r).command in
    (
      elim (ℕ_discrete x r) [
        | yes e ↦
            let here : next.polls r ≡ configured s (store.polls r) =
              subst
                (λ y.
                  (set_poll y (configured s (store.polls y)) store).polls r
                  ≡ configured s (store.polls r))
                (sym e) (rw (same-== r) refl) in
            let listed : (x == r) ≡ true = ground (arith, e) in
            ih.0
            ∙ rw (listed, here)
                (elim (Bool-cases (is_queued r rs)) [
                  | inl q ↦ rw (q, twice) refl
                  | inr q ↦ rw q refl
                ])
        | no ne ↦
            let other : (r == x) ≡ false = ground (arith, ne) in
            let unlisted : (x == r) ≡ false = ground (arith, ne) in ih.0 ∙ rw (other, unlisted) refl
      ],
      ih.1,
    )

-- The configuration of a slave holds for later commands of the slave, and gives its settings to
-- exactly the scheduled polls of the slave; every other poll, and every write, stays as it was.
pub update_from_slave_config_lem :
    (s : ModbusSlaveConfig) (t : ModbusThread) (r : ℕ)
    → Ascends 0 t.slaves
    → let after = update_from_slave_config s t in
      (find s.address after.slaves ≡ some s)
      × (after.executor.store.polls r ≡ (
          if is_listed s.address r t.scheduler
          then configured s (t.executor.store.polls r)
          else t.executor.store.polls r))
      × (after.executor.store.writes r ≡ t.executor.store.writes r)
unfolding update_from_slave_config
update_from_slave_config_lem s t r a =
    let kept = find-update 0 s.address s.address s (λ _. s) t.slaves a in
    let polls = polls_of (find s.address t.scheduler) in
    (kept ∙ if-true _ _ (same-== s.address), polls.0, polls.1)
  where
    polls_of :
        (o : Option (List ℕ))
        → let store : Store = elim o [
          | none ↦ t.executor.store
          | some refs ↦ configure_polls s refs t.executor.store
        ] in
          let listed : Bool = elim o [ none ↦ false | some refs ↦ is_queued r refs ] in
          (store.polls r ≡ (
            if listed then configured s (t.executor.store.polls r) else t.executor.store.polls r))
          × (store.writes r ≡ t.executor.store.writes r)
    polls_of none = (refl, refl)
    polls_of (some refs) = configure_polls_lem s refs t.executor.store r
