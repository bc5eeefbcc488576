-- ===== src/Thread/Rounds.antt =====
-- Rounds of the control loop, from the construction of the thread on.
use Prim.Native.String.{String}
use mqmgateway.Base.{
  pos, ℕ, ◌≡◌, refl, ap, ◌∙◌, ◌⊎◌, inl, inr, false, not, ◌&&◌, Option, some, List, [], ◌∷◌, ◌++◌,
  Bool-cases, ◌>>=◌, if-true, if-false, bind-some,
}
use mqmgateway.Command.{duration_max, modbus_network_state, Store}
use mqmgateway.Executor.Accounts.{IsAccounted}
use mqmgateway.Executor.Reach.{new_executor-IsAccounted}
use mqmgateway.Thread.{new_thread}
use mqmgateway.Thread.Run.{Turn, Loop, send_item, work, wait_for_messages, run_round}
use mqmgateway.Thread.Safe.{send_message-IsAccounted, FaultsIn, dispatch_messages_cases}
use mqmgateway.Thread.Work.{KeepsLoop, work-KeepsLoop}
use mqmgateway.Watchdog.{ModbusWatchdog, reset, is_reconnect_required}

-- A write that faults among the messages of a round, after the work of the round.
abbrev pub FaultsRound : Turn → Loop → Type 0
FaultsRound w l =
    (m : Loop) × (work w l ≡ some m) × FaultsIn w.epoch w.dispatch_time w.incoming m.thread

run_round_cases :
    (w : Turn) (l : Loop)
    → IsAccounted l.thread.executor
    → KeepsLoop (run_round w l) ⊎ FaultsRound w l
unfolding run_round wait_for_messages
run_round_cases w l a = elim (Bool-cases l.thread.should_run) [
  | inr stops ↦ inl (l, if-true _ _ (ap not stops), a)
  | inl runs ↦
      let (m, works, am) = work-KeepsLoop w l a in
      let t = m.thread in
      elim (Bool-cases
        (t.modbus && (t.connected && is_reconnect_required w.watch_time t.watchdog))) [
          | inl again ↦ inl (
            record m {
              thread =
                  send_item (modbus_network_state t.network_name false)
                    (record t { watchdog = reset w.reset_time t.watchdog; connected = false });
            },
            if-false _ _ (ap not runs) ∙ bind-some _ works ∙ if-true _ _ again,
            send_message-IsAccounted t.executor (modbus_network_state t.network_name false) am,
          )
          | inr waits ↦ elim (dispatch_messages_cases w.epoch w.dispatch_time w.incoming t am) [
            | inl (u, e, au) ↦ inl (
              record m { thread = u },
              if-false _ _ (ap not runs) ∙ bind-some _ works ∙ if-false _ _ waits ∙ bind-some _ e,
              au,
            )
            | inr f ↦ inr (m, works, f)
          ]
        ]
]

-- The control loop.
unfoldable pub run : List Turn → Loop → Option Loop
run [] l = some l
run (w ∷ ws) l = run_round w l >>= λ m. run ws m

-- The loop before its first round.
abbrev pub first_loop : String → ℕ → ℕ → Store → ModbusWatchdog → Loop
first_loop name past now store watchdog = record {
  thread = new_thread name past store watchdog;
  idle_wait = pos duration_max;
  next_poll = now;
}

-- The rounds before the one that faults.
abbrev pub FaultsLater : List Turn → Loop → Type 0
FaultsLater ws l =
    (before : List Turn) × (w : Turn) × (after : List Turn) × (m : Loop) × (ws
      ≡ before ++ w ∷ after)
    × (run before l ≡ some m)
    × FaultsRound w m

run_cases :
    (ws : List Turn) (l : Loop)
    → IsAccounted l.thread.executor
    → KeepsLoop (run ws l) ⊎ FaultsLater ws l
unfolding run
run_cases [] l a = inl (l, refl, a)
run_cases (w ∷ ws) l a = elim (run_round_cases w l a) [
  | inr f ↦ inr ([], w, ws, l, refl, refl, f)
  | inl (m, e, am) ↦ elim (run_cases ws m am) [
    | inl (n, d, an) ↦ inl (n, rw (e, d) refl, an)
    | inr (before, v, after, n, split, d, f) ↦
        inr (w ∷ before, v, after, n, ap (λ q. w ∷ q) split, rw (e, d) refl, f)
  ]
]

-- From the construction of the thread on, whatever messages arrive and whatever the devices, the clock
-- and the connection do: after any rounds the executor keeps its invariant, so that no assertion
-- fails, no empty queue is popped, no missing last command is read and no search goes on for ever. Or
-- some round before is the exception: a write arrives in it for a slave without queues, while no
-- command waits and the executor counts no write. Polls may be queued then.
pub run_safe :
    (ws : List Turn) (name : String) (past now : ℕ) (store : Store) (watchdog : ModbusWatchdog)
    → let start = first_loop name past now store watchdog in
      ((l : Loop) × (run ws start ≡ some l) × IsAccounted l.thread.executor) ⊎ FaultsLater ws start
unfolding new_thread
run_safe ws name past now store watchdog =
    run_cases ws (first_loop name past now store watchdog) (new_executor-IsAccounted past store)
