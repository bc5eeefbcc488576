-- ===== src/Scheduler.antt =====
-- libmodmqttsrv/modbus_scheduler.hpp and modbus_scheduler.cpp: which polls are due, and when to look
-- again. The register map is an association list of references by slave. Differences of time
-- points are signed in the source; here a comparison is written with sums, and a difference is
-- taken only where it is positive. Trace logging is left out.
pub mod Due
pub mod Rpc
pub mod Remove
use mqmgateway.Address.{RegisterType, same_type, contains}
use mqmgateway.Base.{
  ℕ, ◌+◌, ◌-◌, Bool, false, not, ◌&&◌, none, some, List, [], ◌∷◌, ◌++◌, ltb, leb, ◌==◌,
  if◌then◌else◌, update, find,
}
use mqmgateway.Command.{duration_max, RegisterPoll, Store, set_poll}
use mqmgateway.Poll.{once}
use mqmgateway.Queues.{is_nil}

abbrev pub RegisterMap : Type 0
RegisterMap = List (ℕ × List ℕ)

-- Read once already.
abbrev pub is_done : RegisterPoll → Bool
is_done reg = elim reg.publish_mode [ once ↦ reg.last_read_ok | _ ↦ false ]

-- `time_passed >= reg.mRefresh`.
abbrev pub is_due : ℕ → RegisterPoll → Bool
is_due now reg = leb (reg.last_read_start_time + reg.refresh) now

abbrev pub time_to_poll : ℕ → RegisterPoll → ℕ
time_to_poll now reg =
    if is_due now reg then reg.refresh else (reg.last_read_start_time + reg.refresh) - now

-- One round of the inner loop, on the returned map and `outDuration`.
unfoldable pub schedule_poll : Store → ℕ → ℕ → ℕ → RegisterMap × ℕ → RegisterMap × ℕ
schedule_poll store now slave r (ret, out_duration) =
    let reg = store.polls r in
    let wait = time_to_poll now reg in
    if is_done reg then (ret, out_duration) else (
      if is_due now reg then update slave [] (λ refs. refs ++ r ∷ []) ret else ret,
      if ltb wait out_duration then wait else out_duration,
    )

unfoldable pub schedule_slave : Store → ℕ → ℕ → List ℕ → RegisterMap × ℕ → RegisterMap × ℕ
schedule_slave store now slave [] acc = acc
schedule_slave store now slave (r ∷ rs) acc =
    schedule_slave store now slave rs (schedule_poll store now slave r acc)

unfoldable pub schedule_from : Store → ℕ → RegisterMap → RegisterMap × ℕ → RegisterMap × ℕ
schedule_from store now [] acc = acc
schedule_from store now ((slave, refs) ∷ m) acc =
    schedule_from store now m (schedule_slave store now slave refs acc)

unfoldable pub get_registers_to_poll : Store → ℕ → RegisterMap → RegisterMap × ℕ
get_registers_to_poll store now m = schedule_from store now m ([], duration_max)

unfoldable pub min_refresh : Store → List ℕ → ℕ → ℕ
min_refresh store [] ret = ret
min_refresh store (r ∷ rs) ret =
    min_refresh store rs (if ltb (store.polls r).refresh ret then (store.polls r).refresh else ret)

unfoldable pub min_poll_time_from : Store → RegisterMap → ℕ → ℕ
min_poll_time_from store [] ret = ret
min_poll_time_from store ((slave, refs) ∷ m) ret =
    min_poll_time_from store m (min_refresh store refs ret)

unfoldable pub get_min_poll_time : Store → RegisterMap → ℕ
get_min_poll_time store m = min_poll_time_from store m duration_max

abbrev pub is_register : ℕ → RegisterType → RegisterPoll → Bool
is_register register type reg = (reg.register == register) && same_type reg.register_type type

-- `find_if` and `erase`: the first poll of the register leaves the list.
unfoldable pub remove_ref : Store → ℕ → RegisterType → List ℕ → List ℕ
remove_ref store register type [] = []
remove_ref store register type (r ∷ rs) =
    if is_register register type (store.polls r) then rs else r ∷ remove_ref store register type rs

-- A slave whose list becomes empty leaves the map; one whose list was empty and held nothing to
-- remove stays.
unfoldable pub remove : Store → ℕ → ℕ → RegisterType → RegisterMap → RegisterMap
remove store slave register type [] = []
remove store slave register type ((s, refs) ∷ m) =
    let left = remove_ref store register type refs in
    if s == slave
    then (if is_nil left && not (is_nil refs) then m else (s, left) ∷ m)
    else (s, refs) ∷ remove store slave register type m

-- The loop of `notifyRpcRead` over the polls of the slave.
unfoldable pub defer_polls : RegisterPoll → List ℕ → Store → Store
defer_polls completed [] store = store
defer_polls completed (r ∷ rs) store =
    let poll = store.polls r in
    defer_polls completed rs (
      if contains completed.command.base.range poll.command.base.range
      then set_poll r
          (record poll {
            last_read_start_time = completed.last_read_start_time;
            last_read_finish_time = completed.last_read_finish_time;
          })
          store
      else store)

unfoldable pub notify_rpc_read : RegisterPoll → RegisterMap → Store → Store
notify_rpc_read completed m store = elim (find completed.slave_id m) [
  | none ↦ store
  | some refs ↦ defer_polls completed refs store
]
