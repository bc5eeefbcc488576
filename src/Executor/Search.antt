-- ===== src/Executor/Search.antt =====
-- The `while` loop of `executeNext` over the slave queues: when it ends, and where.
use mqmgateway.Base.{
  ℕ, zero, suc, ◌+◌, ◌-◌, ◌≤◌, ◌<◌, ◌≡◌, refl, sym, ap, subst, ◌∙◌, ◌≢◌, ◌⊎◌, inl, inr, true, false,
  none, some, [], ◌∷◌, arith, dec_lt, ℕ_discrete, Bool-cases, length,
}
use mqmgateway.Executor.{all_empty}
use mqmgateway.Executor.Next.{next_queue_loop, find_next_queue}
use mqmgateway.Executor.Passing.{is_idle_at, IsPassed, round_lem, round_end, goes_up_to}
use mqmgateway.Executor.Queueing.{Queues}

-- Where the search ends: at commands, with no commands on the way there from `current`.
abbrev pub IsNext : Queues → ℕ → ℕ → Type 0
IsNext qs current n =
    (n < length qs)
    × (is_idle_at qs n ≡ false)
    × ((i : ℕ) → i < length qs → IsPassed current n i → is_idle_at qs i ≡ true)

all_empty_of :
    (qs : Queues) → ((i : ℕ) → i < length qs → is_idle_at qs i ≡ true) → all_empty qs ≡ true
all_empty_of [] h = refl
all_empty_of ((k, q) ∷ qs) h =
    ground (arith, h 0 (omega arith), all_empty_of qs (λ i b. h (suc i) (omega arith)))

all_empty-idle : (qs : Queues) (i : ℕ) → all_empty qs ≡ true → is_idle_at qs i ≡ true
all_empty-idle [] i h = refl
all_empty-idle ((k, q) ∷ qs) zero h = ground arith
all_empty-idle ((k, q) ∷ qs) (suc i) h = all_empty-idle qs i (ground arith)

-- The loop ends at once where it began, if it began inside the map.
loop_at_current :
    (f : ℕ) (qs : Queues) (current : ℕ) → next_queue_loop (suc f) qs current current ≡ some current
unfolding next_queue_loop
loop_at_current f qs current = ground arith

-- How the search ends from a position in the map.
abbrev Outcome : Queues → ℕ → Type 0
Outcome qs current =
    ((n : ℕ) × (find_next_queue qs current ≡ some n) × IsNext qs current n)
    ⊎ ((find_next_queue qs current ≡ some current)
        × (0 < current)
        × ((i : ℕ) → i < length qs → i ≢ current → is_idle_at qs i ≡ true))
    ⊎ ((current ≡ 0) × ((i : ℕ) → i < length qs → is_idle_at qs i ≡ true))

-- The second half of the way: behind the end of the map.
wrapped-Outcome :
    (qs : Queues) (current : ℕ)
    → current < length qs
    → find_next_queue qs current ≡ next_queue_loop (suc (suc current)) qs current (length qs)
    → ((i : ℕ) → suc current ≤ i → i < length qs → is_idle_at qs i ≡ true)
    → Outcome qs current
wrapped-Outcome qs current h e behind = elim (Bool-cases (is_idle_at qs 0)) [
  | inr busy ↦ inl (
    0,
    e ∙ rw (round_end (suc current) qs current h, busy) refl,
    (omega arith, busy, λ i b p. behind i (ground arith) b),
  )
  | inl idle ↦ go current refl (e ∙ rw (round_end (suc current) qs current h, idle) refl) idle
]
  where
    go :
        (c : ℕ)
        → current ≡ c
        → find_next_queue qs current ≡ next_queue_loop (suc current) qs current 1
        → is_idle_at qs 0 ≡ true
        → Outcome qs current
    go zero z e idle = inr (
        inr (
          z,
          λ i b. elim (ℕ_discrete i 0) [
            | yes eq ↦ subst (λ j. is_idle_at qs j ≡ true) (sym eq) idle
            | no other ↦ behind i (omega arith) b
          ],
        ))
    go (suc c) z e idle =
        let first = λ (i : ℕ) (eq : i ≡ 0). subst (λ j. is_idle_at qs j ≡ true) (sym eq) idle in
        let e' : find_next_queue qs current ≡ next_queue_loop (c + 2) qs current 1 =
          e ∙ ap (λ f. next_queue_loop f qs current 1) (omega arith) in
        elim (goes_up_to qs current 2 c 1 current (omega arith) (omega arith)
          (λ i a b. omega arith)) [
            | inl (n, found, above, below, busy, passed) ↦ inl (
              n,
              e' ∙ found,
              (
                omega arith,
                busy,
                λ i b p. elim (ℕ_discrete i 0) [
                  | yes eq ↦ first i eq
                  | no other ↦ elim (dec_lt current i) [
                    | yes past ↦ behind i past b
                    | no before ↦ passed i (omega arith) (ground arith)
                  ]
                ],
              ),
            )
            | inr (rest, passed) ↦ inr (
                inl (
                  e' ∙ rest ∙ loop_at_current 1 qs current,
                  omega arith,
                  λ i b ne. elim (ℕ_discrete i 0) [
                    | yes eq ↦ first i eq
                    | no other ↦ elim (dec_lt current i) [
                      | yes past ↦ behind i past b
                      | no before ↦ passed i (omega arith) (omega arith)
                    ]
                  ],
                ))
          ]

outcome : (qs : Queues) (current : ℕ) → current < length qs → Outcome qs current
unfolding find_next_queue
outcome qs current h =
    let d = length qs - suc current in
    let e : find_next_queue qs current
        ≡ next_queue_loop (d + suc (suc current)) qs current (suc current) =
      ap (λ f. next_queue_loop f qs current (suc current)) (omega arith) in
    elim (goes_up_to qs current (suc (suc current)) d (suc current) (length qs) (omega arith)
      (omega arith) (λ i a b. omega arith)) [
        | inl (n, found, above, below, busy, passed) ↦
            inl (n, e ∙ found, (below, busy, λ i b p. passed i (ground arith) (ground arith)))
        | inr (rest, passed) ↦ wrapped-Outcome qs current h (e ∙ rest) passed
      ]

-- If some queue has commands, the search of `executeNext` ends, and within the fuel: at the first
-- queues with commands that follow the current ones round the map, which may be the current ones
-- themselves.
pub find_next_queue_lem :
    (qs : Queues) (current : ℕ)
    → current < length qs
    → all_empty qs ≡ false
    → (n : ℕ) × (find_next_queue qs current ≡ some n) × IsNext qs current n
find_next_queue_lem qs current h busy = elim (outcome qs current h) [
  | inl found ↦ found
  | inr (inr (z, idle)) ↦ absurd (ground (arith, all_empty_of qs idle))
  | inr (inl (e, pos_current, others)) ↦ elim (Bool-cases (is_idle_at qs current)) [
    | inr b ↦ (current, e, (h, b, λ i l p. others i l (ground arith)))
    | inl idle ↦ absurd (
        ground (
          arith,
          all_empty_of qs (λ i b. elim (ℕ_discrete i current) [
            | yes eq ↦ subst (λ j. is_idle_at qs j ≡ true) (sym eq) idle
            | no other ↦ others i b other
          ]),
        ))
  ]
]

never_ends :
    (f : ℕ) (qs : Queues) (next : ℕ)
    → all_empty qs ≡ true
    → 0 < length qs
    → 0 < next
    → next ≤ length qs
    → next_queue_loop f qs 0 next ≡ none
never_ends zero qs next h l a b = unfold next_queue_loop in refl
never_ends (suc f) qs next h l a b = elim (ℕ_discrete next (length qs)) [
  | yes e ↦
      rw (e, round_end f qs 0 l, all_empty-idle qs 0 h)
        (never_ends f qs 1 h l (omega arith) (omega arith))
  | no ne ↦
      rw (round_lem f qs 0 next (omega arith) (omega arith), all_empty-idle qs next h)
        (never_ends f qs (suc next) h l (omega arith) (omega arith))
]

-- With all queues empty the search never ends, whatever the fuel, if the current queues are the
-- first of the map; from any other queues it comes back to them.
pub find_next_queue-all_empty :
    (qs : Queues) (current : ℕ)
    → current < length qs
    → all_empty qs ≡ true
    → ((current ≡ 0) × ((fuel : ℕ) → next_queue_loop fuel qs current (suc current) ≡ none))
      ⊎ ((0 < current) × (find_next_queue qs current ≡ some current))
find_next_queue-all_empty qs current h e = elim (ℕ_discrete current 0) [
  | yes z ↦ inl (z, λ fuel. rw z (never_ends fuel qs 1 e (omega arith) (omega arith) (omega arith)))
  | no p ↦ inr (
    omega arith,
    elim (outcome qs current h) [
      | inl (n, f, (l, busy, passed)) ↦ absurd (ground (arith, all_empty-idle qs n e))
      | inr (inl (f, pos_current, others)) ↦ f
      | inr (inr (z, idle)) ↦ absurd (omega arith)
    ],
  )
]
