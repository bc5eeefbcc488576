-- ===== src/Thread/Run.antt =====
-- `ModbusThread::run` of modbus_thread.cpp: one round of the control loop. The duration to wait for
-- messages is signed; `duration::max()` is added to a time point without wrapping.
use mqmgateway.Address.{is_rpc}
use mqmgateway.Base.{
  ℤ, pos, negsuc, ℕ, suc, ◌+◌, ◌-◌, ◌*◌, Bool, true, false, not, ◌&&◌, Option, none, some, List,
  ltb, leb, ◌==◌, if◌then◌else◌, ◌>>=◌,
}
use mqmgateway.Command.{
  duration_max, QueueItem, modbus_network_state, CommandRef, poll_ref, write_ref, executed_ok,
}
use mqmgateway.Executor.{send_message, all_done}
use mqmgateway.Executor.Next.{execute_next}
use mqmgateway.Executor.Perform.{Io}
use mqmgateway.Executor.Queueing.{add_poll_list, setup_initial_poll}
use mqmgateway.Scheduler.{get_registers_to_poll, notify_rpc_read}
use mqmgateway.Thread.{ModbusThread}
use mqmgateway.Thread.Dispatch.{ThreadMessage, dispatch_messages}
use mqmgateway.Watchdog.{reset, inspect_command, is_reconnect_required}

-- What the world answers during one round: the readings of the clock, whether `connect` succeeds,
-- what the executor's command meets, whether the device exists, and the messages that arrive
-- before the wait is over.
pub record Turn : Type 0 where
  pub epoch : ℕ
  pub connects : Bool
  pub connect_time : ℕ
  pub now : ℕ
  pub election_time : ℕ
  pub io : Io
  pub inspect_time : ℕ
  pub exists : Bool
  pub watch_time : ℕ
  pub reset_time : ℕ
  pub incoming : List ThreadMessage
  pub dispatch_time : ℕ

-- The variables of the loop.
pub record Loop : Type 0 where
  pub thread : ModbusThread
  pub idle_wait : ℤ
  pub next_poll : ℕ

abbrev pub seconds : ℕ → ℕ
seconds n = n * 1000000000

abbrev pub max_reconnect_time : ℕ
max_reconnect_time = seconds 60

-- The signed difference of two time points.
abbrev pub difference : ℕ → ℕ → ℤ
difference a b = if leb b a then pos (a - b) else negsuc ((b - a) - 1)

-- `if (idleWaitDuration > maxReconnectTime) idleWaitDuration = 0`.
abbrev pub cap_wait : ℤ → ℤ
cap_wait (pos n) = if ltb max_reconnect_time n then pos 0 else pos n
cap_wait (negsuc n) = negsuc n

-- `if (idleWaitDuration < maxReconnectTime) idleWaitDuration += 5s`.
abbrev pub extend_wait : ℤ → ℤ
extend_wait (pos n) = if ltb n max_reconnect_time then pos (n + seconds 5) else pos n
extend_wait (negsuc n) =
    if ltb n (seconds 5) then pos (seconds 5 - suc n) else negsuc (n - seconds 5)

abbrev pub send_item : QueueItem → ModbusThread → ModbusThread
send_item item t = record t { executor = send_message item t.executor }

-- The attempt to connect. After a success everything is polled anew, unless an initial poll is running.
unfoldable pub connect_modbus : Turn → Loop → Option Loop
connect_modbus w l =
    let waits = record l { idle_wait = cap_wait l.idle_wait } in
    if l.thread.connected
    then some l
    else (if not w.connects
        then some waits
        else (let t =
              send_item (modbus_network_state l.thread.network_name true) (record (l.thread) {
                connected = true;
                watchdog = reset w.connect_time l.thread.watchdog;
              }) in
            if not t.executor.initial_poll
            then (setup_initial_poll w.connect_time t.scheduler t.executor >>= λ x.
                some (record waits { thread = record t { executor = x } }))
            else some (record waits { thread = t })))

-- The polls that are due go to the executor.
unfoldable pub schedule_polls : Turn → Loop → Option Loop
schedule_polls w l =
    let t = l.thread in
    if not t.executor.initial_poll && ltb l.next_poll w.now
    then (let (due, wait) = get_registers_to_poll t.executor.store w.now t.scheduler in
        add_poll_list w.election_time due false t.executor >>= λ x.
        some (record l { thread = record t { executor = x }; next_poll = w.now + wait }))
    else some l

-- A successful RPC read defers the polls that it covers.
unfoldable pub notify_read : CommandRef → ModbusThread → ModbusThread
notify_read (poll_ref r) t =
    let reg = t.executor.store.polls r in
    if is_rpc reg.command.base && reg.last_read_ok
    then record t {
      executor = record (t.executor) { store = notify_rpc_read reg t.scheduler t.executor.store };
    }
    else t
notify_read (write_ref r) t = t

-- What follows a command that was sent. The last command is dereferenced; there is none only if
-- nothing was ever sent.
unfoldable pub inspect_last : Turn → ModbusThread → Option ModbusThread
inspect_last w t = elim t.executor.last_command [
  | none ↦ none
  | some c ↦
      let ok = executed_ok t.executor.store c in
      some (
        notify_read c
          (record t { watchdog = inspect_command ok w.inspect_time w.exists t.watchdog }))
]

unfoldable pub execute_command : Turn → Loop → Option Loop
execute_command w l =
    let t = l.thread in
    if all_done t.executor
    then some (record l { idle_wait = difference l.next_poll w.now })
    else (execute_next w.io t.executor >>= λ (x, wait).
        (let sent = record l { thread = record t { executor = x }; idle_wait = pos wait } in
          if wait == 0
          then (inspect_last w sent.thread >>= λ u. some (record sent { thread = u }))
          else some sent))

-- The part of the round before the wait.
unfoldable pub work : Turn → Loop → Option Loop
work w l =
    if not l.thread.modbus
    then some (record l { idle_wait = pos duration_max })
    else (connect_modbus w l >>= λ c.
        (if not c.thread.connected
          then some (record c {
            thread = send_item (modbus_network_state c.thread.network_name false) c.thread;
            idle_wait = extend_wait c.idle_wait;
          })
          else (if not c.thread.mqtt_connected
              then some (record c { idle_wait = pos duration_max })
              else (schedule_polls w c >>= λ s. execute_command w s))))

-- The rest of the round: a reconnect that the watchdog asks for, or the wait for messages.
unfoldable pub wait_for_messages : Turn → Loop → Option Loop
wait_for_messages w l =
    let t = l.thread in
    if t.modbus && (t.connected && is_reconnect_required w.watch_time t.watchdog)
    then some (record l {
      thread =
          send_item (modbus_network_state t.network_name false)
            (record t { watchdog = reset w.reset_time t.watchdog; connected = false });
    })
    else (dispatch_messages w.epoch w.dispatch_time w.incoming t >>= λ u.
        some (record l { thread = u }))

-- A round of the loop while the thread is to run.
unfoldable pub run_round : Turn → Loop → Option Loop
run_round w l =
    if not l.thread.should_run then some l else (work w l >>= λ m. wait_for_messages w m)
