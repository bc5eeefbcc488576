-- ===== src/Watchdog/Trace.antt =====
-- What the watchdog says after any sequence of commands.
use mqmgateway.Base.{
  ℕ, ◌+◌, ◌<◌, ◌≡◌, refl, ap, subst, ◌≢◌, ◌↔◌, ◌⊎◌, inl, inr, Bool, true, false, none, List, [],
  ◌∷◌, arith, if◌then◌else◌, Bool-cases, All, Any,
}
use mqmgateway.Watchdog.{
  ModbusWatchdogConfig, ModbusWatchdog, device_check_period, init, inspect_command,
  is_reconnect_required,
}

-- A command that was inspected: whether it succeeded, the time, and whether the device exists.
pub record Event : Type 0 where
  pub ok : Bool
  pub time : ℕ
  pub exists : Bool

unfoldable pub inspect_all : List Event → ModbusWatchdog → ModbusWatchdog
inspect_all [] w = w
inspect_all (e ∷ es) w = inspect_all es (inspect_command e.ok e.time e.exists w)

-- The time of the last success among the events, or the time before them.
abbrev pub last_success : ℕ → List Event → ℕ
last_success t [] = t
last_success t (e ∷ es) = last_success (if e.ok then e.time else t) es

-- The events since the last success.
abbrev pub failures : List Event → List Event → List Event
failures acc [] = acc
failures acc (e ∷ es) = failures (if e.ok then [] else e ∷ acc) es

inspect_all_time :
    (es : List Event) (w : ModbusWatchdog)
    → ((inspect_all es w).last_successful_command_time
        ≡ last_success w.last_successful_command_time es)
      × ((inspect_all es w).config ≡ w.config)
unfolding inspect_all inspect_command
inspect_all_time [] w = (refl, refl)
inspect_all_time (e ∷ es) w =
    ground (arith, inspect_all_time es (inspect_command e.ok e.time e.exists w))

-- A removed device was seen missing: in the failure that reported it, which asked the file system.
abbrev IsSeen : List Event → ModbusWatchdog → Type 0
IsSeen acc w =
    w.device_removed ≡ true → (w.config.device_path ≢ none) × Any (λ e. e.exists ≡ false) acc

inspect_all-IsSeen :
    (es acc : List Event) (w : ModbusWatchdog)
    → IsSeen acc w
    → IsSeen (failures acc es) (inspect_all es w)
unfolding inspect_all inspect_command
inspect_all-IsSeen [] acc w h = h
inspect_all-IsSeen (e ∷ es) acc w h =
    inspect_all-IsSeen es (if e.ok then [] else e ∷ acc) (inspect_command e.ok e.time e.exists w)
      (λ r. ground arith)

-- After an initialisation and any commands, a reconnect is required exactly if the device counts as
-- removed or the watch period has passed since the last success. A device counts as removed only if
-- one is configured and a failure after the last success found it missing.
pub reconnect_iff :
    (config : ModbusWatchdogConfig) (w : ModbusWatchdog) (start now : ℕ) (es : List Event)
    → let after = inspect_all es (init config start w) in
      ((is_reconnect_required now after ≡ true)
        ↔ ((after.device_removed ≡ true) ⊎ (last_success start es + config.watch_period < now)))
      × ((after.device_removed ≡ false)
          ⊎ ((config.device_path ≢ none) × Any (λ e. e.exists ≡ false) (failures [] es)))
unfolding is_reconnect_required init
reconnect_iff config w start now es =
    let begun = init config start w in
    let facts = inspect_all_time es begun in
    let after = inspect_all es begun in
    let path : after.config.device_path ≡ config.device_path =
      ap (λ (c : ModbusWatchdogConfig). c.device_path) facts.1 in
    let period : after.config.watch_period ≡ config.watch_period =
      ap (λ (c : ModbusWatchdogConfig). c.watch_period) facts.1 in
    let seen = inspect_all-IsSeen es [] begun (λ r. absurd (ground arith)) in
    (
      ((λ h. ground (arith, facts.0, period)), (λ h. ground (arith, facts.0, period))),
      elim (Bool-cases after.device_removed) [
        | inl r ↦ inr (subst (λ p. p ≢ none) path (seen r).0, (seen r).1)
        | inr r ↦ inl r
      ],
    )

removed_stays :
    (es : List Event) (w : ModbusWatchdog)
    → All (λ e. e.ok ≡ false) es
    → w.device_removed ≡ true
    → (inspect_all es w).device_removed ≡ true
unfolding inspect_all inspect_command
removed_stays [] w h r = r
removed_stays (e ∷ es) w h r =
    removed_stays es (inspect_command e.ok e.time e.exists w) h.1 (ground arith)

inspect_command_removes :
    (w : ModbusWatchdog) (time : ℕ)
    → w.config.device_path ≢ none
    → (w.last_command_ok ≡ true) ⊎ (w.last_device_check_time + device_check_period < time)
    → (inspect_command false time false w).device_removed ≡ true
unfolding inspect_command
inspect_command_removes w time path look = ground arith

-- The first failure after a success always looks for the device, and a later one does if the last
-- look is more than 300 ms ago: a missing device then forces a reconnect at once, and goes on to do
-- so until a command succeeds.
pub inspect_command_detects :
    (w : ModbusWatchdog) (time now : ℕ) (es : List Event)
    → w.config.device_path ≢ none
    → (w.last_command_ok ≡ true) ⊎ (w.last_device_check_time + device_check_period < time)
    → All (λ e. e.ok ≡ false) es
    → is_reconnect_required now (inspect_all es (inspect_command false time false w)) ≡ true
unfolding is_reconnect_required
inspect_command_detects w time now es path look fails = rw (
    removed_stays es (inspect_command false time false w) fails
      (inspect_command_removes w time path look))
