-- ===== src/Executor/Passing.antt =====
-- Rounds of the search for the next queues in `executeNext`.
use mqmgateway.Base.{
  ℕ, zero, suc, ◌+◌, ◌≤◌, ◌<◌, ◌≡◌, refl, sym, ap₂, subst, ◌∙◌, ◌≢◌, ◌⊎◌, inl, inr, Bool, true,
  false, none, some, [], ◌∷◌, arith, ℕ_discrete, if◌then◌else◌, Bool-cases, length, get_elem?,
}
use mqmgateway.Executor.Next.{next_queue_loop}
use mqmgateway.Executor.Queueing.{Queues}
use mqmgateway.Queues.{ModbusRequestsQueues, is_empty}

-- No command waits in the queues at a position.
abbrev pub is_idle_at : Queues → ℕ → Bool
is_idle_at qs i = elim (get_elem? qs i) [ none ↦ true | some (k, q) ↦ is_empty q ]

-- The position is passed on the way from `current`, round the end of the map, up to `n`.
abbrev pub IsPassed : ℕ → ℕ → ℕ → Type 0
IsPassed current n i =
    ((current < n) × (current < i) × (i < n)) ⊎ ((n ≤ current) × ((current < i) ⊎ (i < n)))

pub get_elem?-some :
    (qs : Queues) (i : ℕ)
    → i < length qs
    → (e : ℕ × ModbusRequestsQueues) × (get_elem? qs i ≡ some e)
get_elem?-some [] i h = elim h [ ]
get_elem?-some (e ∷ qs) zero h = (e, refl)
get_elem?-some (e ∷ qs) (suc i) h = get_elem?-some qs i (omega arith)

-- One round inside the map: the loop stops at commands, and goes on otherwise.
pub round_lem :
    (f : ℕ) (qs : Queues) (current next : ℕ)
    → next ≢ current
    → next < length qs
    → next_queue_loop (suc f) qs current next
      ≡ (if is_idle_at qs next then next_queue_loop f qs current (suc next) else some next)
unfolding next_queue_loop
round_lem f qs current next ne h = let (e, at) = get_elem?-some qs next h in ground (arith, at)

-- The round at the end looks at the first queues.
pub round_end :
    (f : ℕ) (qs : Queues) (current : ℕ)
    → current < length qs
    → next_queue_loop (suc f) qs current (length qs)
      ≡ (if is_idle_at qs 0 then next_queue_loop f qs current 1 else some 0)
unfolding next_queue_loop
round_end f qs current h = let (e, at) = get_elem?-some qs 0 (omega arith) in ground (arith, at)

-- From `next` the loop finds commands below `stop`, or passes idle queues up to `stop`.
module _ (qs : Queues) (current : ℕ) where
  abbrev Finds : ℕ → ℕ → ℕ → ℕ → Type 0
  Finds f d next stop =
      ((n : ℕ) × (next_queue_loop (d + f) qs current next ≡ some n)
        × (next ≤ n)
        × (n < stop)
        × (is_idle_at qs n ≡ false)
        × ((i : ℕ) → next ≤ i → i < n → is_idle_at qs i ≡ true))
      ⊎ ((next_queue_loop (d + f) qs current next ≡ next_queue_loop f qs current stop)
          × ((i : ℕ) → next ≤ i → i < stop → is_idle_at qs i ≡ true))

  pub goes_up_to :
      (f d next stop : ℕ)
      → next + d ≡ stop
      → stop ≤ length qs
      → ((i : ℕ) → next ≤ i → i < stop → i ≢ current)
      → Finds f d next stop
  goes_up_to f zero next stop e h ne = inr (
    ap₂ (λ k n. next_queue_loop k qs current n) (omega arith) (omega arith),
    λ i a b. absurd (omega arith),
  )
  goes_up_to f (suc d) next stop e h ne =
      let fuel : suc d + f ≡ suc (d + f) = omega arith in
      let step =
        round_lem (d + f) qs current next (ne next (omega arith) (omega arith)) (omega arith) in
      elim (Bool-cases (is_idle_at qs next)) [
        | inr busy ↦ inl (
          next,
          rw (fuel, step, busy) refl,
          omega arith,
          omega arith,
          busy,
          λ i a b. absurd (omega arith),
        )
        | inl idle ↦
            let here : next_queue_loop (suc d + f) qs current next
                ≡ next_queue_loop (d + f) qs current (suc next) =
              rw (fuel, step, idle) refl in
            let idle_at =
              λ (i : ℕ) (eq : i ≡ next). subst (λ j. is_idle_at qs j ≡ true) (sym eq) idle in
            elim (goes_up_to f d (suc next) stop (omega arith) h (λ i a b. ne i (omega arith) b)) [
              | inl (n, found, above, below, busy, passed) ↦ inl (
                n,
                here ∙ found,
                omega arith,
                below,
                busy,
                λ i a b. elim (ℕ_discrete i next) [
                  | yes eq ↦ idle_at i eq
                  | no other ↦ passed i (omega arith) b
                ],
              )
              | inr (rest, passed) ↦ inr (
                here ∙ rest,
                λ i a b. elim (ℕ_discrete i next) [
                  | yes eq ↦ idle_at i eq
                  | no other ↦ passed i (omega arith) b
                ],
              )
            ]
      ]
