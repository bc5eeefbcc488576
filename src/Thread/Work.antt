-- ===== src/Thread/Work.antt =====
-- The part of a round before the wait keeps the invariant of the executor.
use mqmgateway.Address.{is_rpc}
use mqmgateway.Base.{
  pos, ◌+◌, ◌≡◌, refl, ap, subst, ◌∙◌, inl, inr, true, false, not, ◌&&◌, Option, none, some, arith,
  ltb, ◌==◌, Bool-cases, if-true, if-false, bind-some,
}
use mqmgateway.Command.{
  duration_max, modbus_network_state, CommandRef, poll_ref, write_ref, executed_ok,
}
use mqmgateway.Executor.{all_done}
use mqmgateway.Executor.Accounts.{IsAccounted}
use mqmgateway.Executor.Delay.{execute_next_delay}
use mqmgateway.Executor.Queueing.{setup_initial_poll}
use mqmgateway.Executor.Safe.{execute_next_safe}
use mqmgateway.Executor.Safe.Polls.{add_poll_list_safe}
use mqmgateway.Scheduler.{get_registers_to_poll, notify_rpc_read}
use mqmgateway.Thread.{ModbusThread}
use mqmgateway.Thread.Run.{
  Turn, Loop, difference, cap_wait, extend_wait, send_item, connect_modbus, schedule_polls,
  notify_read, inspect_last, execute_command, work,
}
use mqmgateway.Thread.Safe.{store-IsAccounted, send_message-IsAccounted, Keeps}
use mqmgateway.Watchdog.{reset, inspect_command}

-- A part of the round that returns and keeps the invariant.
abbrev pub KeepsLoop : Option Loop → Type 0
KeepsLoop result = (l : Loop) × (result ≡ some l) × IsAccounted l.thread.executor

connect_modbus-KeepsLoop :
    (w : Turn) (l : Loop) → IsAccounted l.thread.executor → KeepsLoop (connect_modbus w l)
unfolding connect_modbus setup_initial_poll
connect_modbus-KeepsLoop w l a =
    let waits = record l { idle_wait = cap_wait l.idle_wait } in
    elim (Bool-cases l.thread.connected) [
      | inl e ↦ (l, if-true _ _ e, a)
      | inr e ↦ elim (Bool-cases w.connects) [
        | inr no_connection ↦ (waits, if-false _ _ e ∙ if-true _ _ (ap not no_connection), a)
        | inl ok ↦
            let t = send_item (modbus_network_state l.thread.network_name true) (record (l.thread) {
              connected = true;
              watchdog = reset w.connect_time l.thread.watchdog;
            }) in
            let at =
              send_message-IsAccounted l.thread.executor
                (modbus_network_state l.thread.network_name true) a in
            elim (Bool-cases t.executor.initial_poll) [
              | inl running ↦ (
                record waits { thread = t },
                if-false _ _ e ∙ if-false _ _ (ap not ok) ∙ if-false _ _ (ap not running),
                at,
              )
              | inr idle ↦
                  let s = add_poll_list_safe w.connect_time t.scheduler true t.executor at in
                  (
                    record waits { thread = record t { executor = s.0 } },
                    if-false _ _ e
                        ∙ if-false _ _ (ap not ok)
                        ∙ if-true _ _ (ap not idle)
                        ∙ bind-some _ s.1,
                    s.2,
                  )
            ]
      ]
    ]

schedule_polls-KeepsLoop :
    (w : Turn) (l : Loop) → IsAccounted l.thread.executor → KeepsLoop (schedule_polls w l)
unfolding schedule_polls
schedule_polls-KeepsLoop w l a =
    let t = l.thread in
    elim (Bool-cases (not t.executor.initial_poll && ltb l.next_poll w.now)) [
      | inr e ↦ (l, rw e refl, a)
      | inl e ↦
          let due = get_registers_to_poll t.executor.store w.now t.scheduler in
          let s = add_poll_list_safe w.election_time due.0 false t.executor a in
          (
            record l { thread = record t { executor = s.0 }; next_poll = w.now + due.1 },
            rw (e, s.1) refl,
            s.2,
          )
    ]

notify_read-IsAccounted :
    (c : CommandRef) (t : ModbusThread)
    → IsAccounted t.executor
    → IsAccounted (notify_read c t).executor
unfolding notify_read
notify_read-IsAccounted (write_ref r) t a = a
notify_read-IsAccounted (poll_ref r) t a =
    let reg = t.executor.store.polls r in
    elim (Bool-cases (is_rpc reg.command.base && reg.last_read_ok)) [
      | inr e ↦ rw e a
      | inl e ↦
          rw e (store-IsAccounted t.executor (notify_rpc_read reg t.scheduler t.executor.store) a)
    ]

inspect_last-Keeps :
    (w : Turn) (t : ModbusThread) (c : CommandRef)
    → t.executor.last_command ≡ some c
    → IsAccounted t.executor
    → Keeps (inspect_last w t)
unfolding inspect_last
inspect_last-Keeps w t c e a =
    let u = record t {
      watchdog =
          inspect_command (executed_ok t.executor.store c) w.inspect_time w.exists t.watchdog;
    } in
    (
      notify_read c u,
      ap
          (λ o. elim o as (λ o. Option ModbusThread) [
            | none ↦ none
            | some c ↦
                let ok = executed_ok t.executor.store c in
                some (
                  notify_read c
                    (record t { watchdog = inspect_command ok w.inspect_time w.exists t.watchdog }))
          ])
          e,
      notify_read-IsAccounted c u a,
    )

execute_command-KeepsLoop :
    (w : Turn) (l : Loop) → IsAccounted l.thread.executor → KeepsLoop (execute_command w l)
unfolding execute_command
execute_command-KeepsLoop w l a =
    let t = l.thread in
    elim (Bool-cases (all_done t.executor)) [
      | inl done ↦ (record l { idle_wait = difference l.next_poll w.now }, rw done refl, a)
      | inr busy ↦
          let (c, x, d, e, how) = execute_next_delay w.io t.executor a busy in
          let (y, f, e', ay) = execute_next_safe w.io t.executor a busy in
          let same : y ≡ x = ground (arith, e, e') in
          let ax = subst IsAccounted same ay in
          let sent = record l { thread = record t { executor = x }; idle_wait = pos d } in
          elim how [
            | inl waited ↦
                let later : (d == 0) ≡ false = ground (arith, waited.1) in
                (sent, rw (busy, e, later) refl, ax)
            | inr done ↦
                let now : (d == 0) ≡ true = ground (arith, done.0) in
                let u = inspect_last-Keeps w sent.thread c done.2 ax in
                (record sent { thread = u.0 }, rw (busy, e, now, u.1) refl, u.2)
          ]
    ]

pub work-KeepsLoop : (w : Turn) (l : Loop) → IsAccounted l.thread.executor → KeepsLoop (work w l)
unfolding work
work-KeepsLoop w l a = elim (Bool-cases l.thread.modbus) [
  | inr e ↦ (record l { idle_wait = pos duration_max }, if-true _ _ (ap not e), a)
  | inl e ↦
      let (c, connects, ac) = connect_modbus-KeepsLoop w l a in
      elim (Bool-cases c.thread.connected) [
        | inr down ↦ (
          record c {
            thread = send_item (modbus_network_state c.thread.network_name false) c.thread;
            idle_wait = extend_wait c.idle_wait;
          },
          if-false _ _ (ap not e) ∙ bind-some _ connects ∙ if-true _ _ (ap not down),
          send_message-IsAccounted c.thread.executor
              (modbus_network_state c.thread.network_name false) ac,
        )
        | inl up ↦ elim (Bool-cases c.thread.mqtt_connected) [
          | inr offline ↦ (
            record c { idle_wait = pos duration_max },
            if-false _ _ (ap not e)
                ∙ bind-some _ connects
                ∙ if-false _ _ (ap not up)
                ∙ if-true _ _ (ap not offline),
            ac,
          )
          | inl online ↦
              let (s, schedules, sa) = schedule_polls-KeepsLoop w c ac in
              let (x, executes, xa) = execute_command-KeepsLoop w s sa in
              (
                x,
                if-false _ _ (ap not e)
                    ∙ bind-some _ connects
                    ∙ if-false _ _ (ap not up)
                    ∙ if-false _ _ (ap not online)
                    ∙ bind-some _ schedules
                    ∙ executes,
                xa,
              )
        ]
      ]
]
