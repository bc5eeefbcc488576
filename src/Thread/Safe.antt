-- ===== src/Thread/Safe.antt =====
-- The control loop keeps the invariant of the executor.
use mqmgateway.Address.{ModbusMessageBase}
use mqmgateway.Base.{
  pos, ℕ, ◌≡◌, refl, sym, ap, subst, ◌⊎◌, inl, inr, true, false, Option, none, some, List, [], ◌∷◌,
  ◌++◌, arith, Option-cases, length, update, find,
}
use mqmgateway.Command.{MsgRegisterValues, QueueItem, RegisterCommand, set_max_retry_counts, Store}
use mqmgateway.Executor.{ModbusExecutor, send_message, all_done}
use mqmgateway.Executor.Accounts.{IsAccounted}
use mqmgateway.Executor.Queueing.{setup_initial_poll}
use mqmgateway.Executor.Reading.{same-==}
use mqmgateway.Executor.Safe.Polls.{add_poll_list_safe}
use mqmgateway.Executor.Safe.Queue.{add_write_command_safe}
use mqmgateway.Executor.Safe.Reads.{add_read_command_safe}
use mqmgateway.Poll.{once, MsgRegisterPoll, MsgRegisterPollSpecification}
use mqmgateway.Scheduler.{RegisterMap}
use mqmgateway.Thread.{
  ModbusSlaveConfig, ModbusNetworkConfig, ModbusThread, set_command_delays, use_slave_config,
  apply_slave_config, new_command, new_poll, new_write, add_poll, add_write,
}
use mqmgateway.Thread.Dispatch.{
  ThreadMessage, network_config, poll_specification, end_work, write_values, read_request,
  mqtt_network_state, slave_config, configure, add_registers, auto_watch, set_poll_specification,
  process_read_request, slave_write_mode, process_write, update_from_slave_config, dispatch_message,
  dispatch_messages,
}

pub store-IsAccounted :
    (x : ModbusExecutor) (s : Store) → IsAccounted x → IsAccounted (record x { store = s })
unfolding all_done
store-IsAccounted x s a = record { keys = a.keys; counted = a.counted; current = a.current }

pub send_message-IsAccounted :
    (x : ModbusExecutor) (item : QueueItem) → IsAccounted x → IsAccounted (send_message item x)
unfolding all_done send_message
send_message-IsAccounted x item a = record {
  keys = a.keys;
  counted = a.counted;
  current = a.current;
}

-- The executor of a thread keeps its queues through a change of the store.
add_registers-IsAccounted :
    (epoch now : ℕ) (ps : List MsgRegisterPoll) (acc : ModbusThread × RegisterMap)
    → IsAccounted acc.0.executor
    → IsAccounted (add_registers epoch now ps acc).0.executor
unfolding add_registers
add_registers-IsAccounted epoch now [] acc a = a
add_registers-IsAccounted epoch now (p ∷ ps) (t, m) a = elim (Option-cases p.refresh) [
  | inl e ↦ rw e (add_registers-IsAccounted epoch now ps (t, m) a)
  | inr (refresh, e) ↦
      let command =
        apply_slave_config t p.slave_id (new_command (record (p.base) { command_id = pos 0 })) in
      let u = add_poll (new_poll epoch now command refresh p.publish_mode) t in
      rw e (
        add_registers-IsAccounted epoch now ps
          (u, update p.slave_id [] (λ refs. refs ++ t.next_ref ∷ []) m)
          (store-IsAccounted t.executor u.executor.store a))
]

auto_watch-executor : (t : ModbusThread) → (auto_watch t).executor ≡ t.executor
unfolding auto_watch
auto_watch-executor t = ground arith

-- An operation of the thread that returns and keeps the invariant.
abbrev pub Keeps : Option ModbusThread → Type 0
Keeps result = (u : ModbusThread) × (result ≡ some u) × IsAccounted u.executor

set_poll_specification-Keeps :
    (epoch now : ℕ) (spec : MsgRegisterPollSpecification) (t : ModbusThread)
    → IsAccounted t.executor
    → Keeps (set_poll_specification epoch now spec t)
unfolding set_poll_specification setup_initial_poll
set_poll_specification-Keeps epoch now spec t a =
    let (added, m) = add_registers epoch now spec.registers (t, []) in
    let s =
      add_poll_list_safe now m true added.executor
        (add_registers-IsAccounted epoch now spec.registers (t, []) a) in
    let u = record added { scheduler = m; executor = s.0 } in
    (auto_watch u, rw (s.1) refl, subst IsAccounted (sym (auto_watch-executor u)) s.2)

process_read_request-Keeps :
    (epoch now : ℕ) (msg : ModbusMessageBase) (t : ModbusThread)
    → IsAccounted t.executor
    → Keeps (process_read_request epoch now msg t)
unfolding process_read_request
process_read_request-Keeps epoch now msg t a =
    let command = apply_slave_config t msg.slave_id (new_command msg) in
    let added = add_poll (new_poll epoch now command 0 once) t in
    let s =
      add_read_command_safe t.next_ref added.executor
        (store-IsAccounted t.executor added.executor.store a) in
    (record added { executor = s.0 }, rw (s.1) refl, s.2)

pub apply_slave_config-base :
    (t : ModbusThread) (slave : ℕ) (c : RegisterCommand)
    → (apply_slave_config t slave c).base ≡ c.base
unfolding apply_slave_config use_slave_config set_max_retry_counts set_command_delays
apply_slave_config-base t slave c = ground arith

-- A write for a slave without queues that arrives while no command waits and no write is counted.
abbrev pub FaultsOn : MsgRegisterValues → ModbusThread → Type 0
FaultsOn msg t =
    (t.executor.write_commands_queued ≡ 0)
    × (t.executor.waiting_command ≡ none)
    × (find msg.slave_id t.executor.slave_queues ≡ none)

process_write_cases :
    (msg : MsgRegisterValues) (t : ModbusThread)
    → IsAccounted t.executor
    → Keeps (process_write msg t) ⊎ (FaultsOn msg t × (process_write msg t ≡ none))
unfolding process_write new_write
process_write_cases msg t a =
    let base = record (msg.base) {
      range = record (msg.base.range) { count = length msg.registers };
    } in
    let command = apply_slave_config t msg.slave_id (new_command base) in
    let write = record (new_write msg command) {
      write_mode = slave_write_mode t msg.slave_id msg.write_mode;
    } in
    let added = add_write write t in
    let slave : (added.executor.store.writes t.next_ref).command.slave_id ≡ msg.slave_id =
      rw (same-== t.next_ref)
        (ap (λ b. b.slave_id) (apply_slave_config-base t msg.slave_id (new_command base))) in
    elim (add_write_command_safe t.next_ref added.executor
      (store-IsAccounted t.executor added.executor.store a)) [
        | inr (safe, s) ↦ inl (record added { executor = s.0 }, rw (s.1) refl, s.2)
        | inl (f, fault) ↦ inr (
          (f.0, f.1, subst (λ k. find k t.executor.slave_queues ≡ none) slave f.2),
          rw fault refl,
        )
      ]

configure-executor :
    (now : ℕ) (c : ModbusNetworkConfig) (t : ModbusThread)
    → (configure now c t).executor ≡ t.executor
unfolding configure
configure-executor now c t = refl

update_from_slave_config-IsAccounted :
    (s : ModbusSlaveConfig) (t : ModbusThread)
    → IsAccounted t.executor
    → IsAccounted (update_from_slave_config s t).executor
unfolding update_from_slave_config
update_from_slave_config-IsAccounted s t a =
    store-IsAccounted t.executor (update_from_slave_config s t).executor.store a

-- A message that makes the executor fault.
abbrev pub Faults : ThreadMessage → ModbusThread → Type 0
Faults (write_values msg) t = FaultsOn msg t
Faults (network_config c) t = ⊥
Faults (poll_specification s) t = ⊥
Faults end_work t = ⊥
Faults (read_request msg) t = ⊥
Faults (mqtt_network_state up) t = ⊥
Faults (slave_config s) t = ⊥

pub dispatch_message_cases :
    (epoch now : ℕ) (m : ThreadMessage) (t : ModbusThread)
    → IsAccounted t.executor
    → Keeps (dispatch_message epoch now m t)
      ⊎ (Faults m t × (dispatch_message epoch now m t ≡ none))
unfolding dispatch_message
dispatch_message_cases epoch now (network_config c) t a =
    inl (configure now c t, refl, subst IsAccounted (sym (configure-executor now c t)) a)
dispatch_message_cases epoch now (poll_specification s) t a =
    inl (set_poll_specification-Keeps epoch now s t a)
dispatch_message_cases epoch now end_work t a = inl (record t { should_run = false }, refl, a)
dispatch_message_cases epoch now (write_values msg) t a = process_write_cases msg t a
dispatch_message_cases epoch now (read_request msg) t a =
    inl (process_read_request-Keeps epoch now msg t a)
dispatch_message_cases epoch now (mqtt_network_state up) t a =
    inl (record t { mqtt_connected = up }, refl, a)
dispatch_message_cases epoch now (slave_config s) t a =
    inl (update_from_slave_config s t, refl, update_from_slave_config-IsAccounted s t a)

-- The first message that faults: those before it were dispatched.
abbrev pub FaultsIn : ℕ → ℕ → List ThreadMessage → ModbusThread → Type 0
FaultsIn epoch now ms t =
    (before : List ThreadMessage) × (m : ThreadMessage) × (after : List ThreadMessage)
    × (u : ModbusThread) × (ms ≡ before ++ m ∷ after)
    × (dispatch_messages epoch now before t ≡ some u)
    × Faults m u

pub dispatch_messages_cases :
    (epoch now : ℕ) (ms : List ThreadMessage) (t : ModbusThread)
    → IsAccounted t.executor
    → Keeps (dispatch_messages epoch now ms t) ⊎ FaultsIn epoch now ms t
unfolding dispatch_messages
dispatch_messages_cases epoch now [] t a = inl (t, refl, a)
dispatch_messages_cases epoch now (m ∷ ms) t a = elim (dispatch_message_cases epoch now m t a) [
  | inr (f, fault) ↦ inr ([], m, ms, t, refl, refl, f)
  | inl (u, e, au) ↦ elim (dispatch_messages_cases epoch now ms u au) [
    | inl (v, d, av) ↦ inl (v, rw (e, d) refl, av)
    | inr (before, k, after, v, split, d, f) ↦
        inr (m ∷ before, k, after, v, ap (λ l. m ∷ l) split, rw (e, d) refl, f)
  ]
]
