-- ===== src/Examples/Queueing.antt =====
-- The queues of one slave.
use mqmgateway.Base.{ℕ, ◌≡◌, refl, ◌≢◌, ◌↔◌, ◌⊎◌, true, false, none, some, [], ◌∷◌, arith, All}
use mqmgateway.Command.{duration_max, poll_ref, write_ref}
use mqmgateway.Examples.Data.{store_of, queues_holding}
use mqmgateway.Queues.{ModbusRequestsQueues, silence_delay, find_for_silence_period}
use mqmgateway.Queues.Pop.{queues_of, PopsNext, pop_next_lem, pop_two, pop_next_fair}
use mqmgateway.Queues.Silence.{delay_of, find_for_silence_period_lem}

pop_next_lem_example : PopsNext (queues_holding (1 ∷ 3 ∷ []) (5 ∷ []))
pop_next_lem_example = pop_next_lem (queues_holding (1 ∷ 3 ∷ []) (5 ∷ [])) refl

pop_next_fair_example :
    pop_two (queues_of (1 ∷ 3 ∷ []) (5 ∷ []) none true)
    ≡ some (poll_ref 1, write_ref 5, queues_of (3 ∷ []) [] none true)
pop_next_fair_example = pop_next_fair 1 5 (3 ∷ []) [] none true

-- Slave 2: poll 1 with a delay of 20, poll 3 without one.
abbrev slave_queues_two : ModbusRequestsQueues
slave_queues_two = queues_holding (3 ∷ 1 ∷ []) []

abbrev period : ℕ
period = 20

find_for_silence_period_lem_example :
    (((find_for_silence_period store_of period false slave_queues_two).0 ≡ duration_max)
      ↔ All (λ r. delay_of store_of period false r ≡ 0) (3 ∷ 1 ∷ []))
    × (((find_for_silence_period store_of period false slave_queues_two).0 ≡ period)
        ⊎ (period ≡ 0)
        ⊎ All (λ r. delay_of store_of period false r ≢ period) (3 ∷ 1 ∷ []))
unfolding silence_delay
find_for_silence_period_lem_example =
    find_for_silence_period_lem store_of period false slave_queues_two
      (omega arith, (omega arith, tt)) (omega arith)
