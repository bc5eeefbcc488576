-- ===== src/Queues/Silence.antt =====
-- `findForSilencePeriod` and `popFirstWithDelay`.
use mqmgateway.Base.{
  ℕ, suc, ◌+◌, ◌≤◌, ◌<◌, ◌≡◌, refl, sym, ap, subst, ◌∙◌, ◌≢◌, ◌↔◌, ◌⊎◌, inl, inr, Bool, Option,
  none, some, List, [], ◌∷◌, add-zero, arith, ℕ_discrete, All, Any, get_elem?, get_elem?-lt,
  All-or-Any,
}
use mqmgateway.Command.{duration_max, poll_ref, Store}
use mqmgateway.Queues.{
  ModbusRequestsQueues, silence_delay, abs_diff, find_silence_from, find_for_silence_period,
  remove_at, pop_first_with_delay,
}

module _ (store : Store) (period : ℕ) (ignore : Bool) where
  -- The delay that the search reads for the poll behind a reference.
  abbrev pub delay_of : ℕ → ℕ
  delay_of r = silence_delay ignore (store.polls r).command

  -- The position is that of a poll with a delay, which is the one returned.
  abbrev pub IsAt : List ℕ → ℕ → ℕ → Type 0
  IsAt rs j d = (r : ℕ) × (get_elem? rs j ≡ some r) × (delay_of r ≡ d) × (d ≢ 0)

  abbrev search : ℕ → List ℕ → ℕ → Option ℕ → ℕ × Option ℕ
  search i rs ret found = find_silence_from store period ignore i rs (ret, found)

  -- One round: the poll is passed over, or taken as the best so far, or matches and ends the loop.
  search_step :
      (i r : ℕ) (rs : List ℕ) (ret : ℕ) (found : Option ℕ)
      → (search i (r ∷ rs) ret found ≡ search (suc i) rs ret found)
        ⊎ ((delay_of r ≢ 0)
            × (search i (r ∷ rs) ret found ≡ search (suc i) rs (delay_of r) (some i)))
        ⊎ ((delay_of r ≢ 0) × (search i (r ∷ rs) ret found ≡ (delay_of r, some i)))
  unfolding find_silence_from
  search_step i r rs ret found = ground arith

  -- The result is what the loop started with, or the delay and the position of a poll.
  abbrev IsSound : ℕ → List ℕ → ℕ × Option ℕ → ℕ × Option ℕ → Type 0
  IsSound i rs start res = (res ≡ start) ⊎ ((j : ℕ) × (res.1 ≡ some (i + j)) × IsAt rs j res.0)

  IsSound-here :
      (i r : ℕ) (rs : List ℕ) (start res : ℕ × Option ℕ)
      → delay_of r ≢ 0
      → res ≡ (delay_of r, some i)
      → IsSound i (r ∷ rs) start res
  IsSound-here i r rs start res nonzero e =
      inr (0, ground (arith, add-zero i), (r, refl, ground arith, ground arith))

  IsSound-later :
      (i r : ℕ) (rs : List ℕ) (start mid res : ℕ × Option ℕ)
      → (mid ≡ start) ⊎ ((delay_of r ≢ 0) × (mid ≡ (delay_of r, some i)))
      → IsSound (suc i) rs mid res
      → IsSound i (r ∷ rs) start res
  IsSound-later i r rs start mid res m (inr (j, p, at)) = inr (suc j, p ∙ ap some (omega arith), at)
  IsSound-later i r rs start mid res (inl m) (inl q) = inl (q ∙ m)
  IsSound-later i r rs start mid res (inr (nonzero, m)) (inl q) =
      IsSound-here i r rs start res nonzero (q ∙ m)

  search-IsSound :
      (i : ℕ) (rs : List ℕ) (ret : ℕ) (found : Option ℕ)
      → IsSound i rs (ret, found) (search i rs ret found)
  unfolding find_silence_from
  search-IsSound i [] ret found = inl refl
  search-IsSound i (r ∷ rs) ret found = elim (search_step i r rs ret found) [
    | inl e ↦ subst (IsSound i (r ∷ rs) (ret, found)) (sym e) (
        IsSound-later i r rs (ret, found) (ret, found) _ (inl refl)
          (search-IsSound (suc i) rs ret found))
    | inr (inl (nonzero, e)) ↦ subst (IsSound i (r ∷ rs) (ret, found)) (sym e) (
        IsSound-later i r rs (ret, found) (delay_of r, some i) _ (inr (nonzero, refl))
          (search-IsSound (suc i) rs (delay_of r) (some i)))
    | inr (inr (nonzero, e)) ↦ IsSound-here i r rs (ret, found) _ nonzero e
  ]

  -- Once a delay is found, the result stays below the greatest duration.
  search_below :
      (i : ℕ) (rs : List ℕ) (ret : ℕ) (found : Option ℕ)
      → All (λ r. delay_of r < duration_max) rs
      → ret < duration_max
      → (search i rs ret found).0 < duration_max
  unfolding find_silence_from
  search_below i [] ret found h k = k
  search_below i (r ∷ rs) ret found h k = ground (
    arith,
    search_below (suc i) rs ret found h.1,
    search_below (suc i) rs (delay_of r) (some i) h.1,
  )

  search_none :
      (i : ℕ) (rs : List ℕ) (ret : ℕ) (found : Option ℕ)
      → All (λ r. delay_of r ≡ 0) rs
      → search i rs ret found ≡ (ret, found)
  unfolding find_silence_from
  search_none i [] ret found h = refl
  search_none i (r ∷ rs) ret found h = rw h.0 (search_none (suc i) rs ret found h.1)

  -- A poll with a delay is found, whatever the others have.
  search_finds :
      (i : ℕ) (rs : List ℕ) (found : Option ℕ)
      → All (λ r. delay_of r < duration_max) rs
      → period < duration_max
      → Any (λ r. delay_of r ≢ 0) rs
      → (search i rs duration_max found).0 < duration_max
  unfolding find_silence_from
  search_finds i [] found h k a = elim a [ ]
  search_finds i (r ∷ rs) found h k a = ground (
    arith,
    search_below (suc i) rs (delay_of r) (some i) h.1,
    search_finds (suc i) rs found h.1 k,
  )

  -- A poll whose delay is the period itself is preferred to all others.
  search_exact :
      (i : ℕ) (rs : List ℕ) (ret : ℕ) (found : Option ℕ)
      → 0 < period
      → Any (λ r. delay_of r ≡ period) rs
      → (search i rs ret found).0 ≡ period
  unfolding find_silence_from
  search_exact i [] ret found h a = elim a [ ]
  search_exact i (r ∷ rs) ret found h a =
      ground (
        arith,
        search_exact (suc i) rs ret found h,
        search_exact (suc i) rs (delay_of r) (some i) h,
      )

  Delay-cases : (r : ℕ) → (delay_of r ≡ 0) ⊎ (delay_of r ≢ 0)
  Delay-cases r = grind arith

  Exact-cases : (r : ℕ) → (delay_of r ≢ period) ⊎ (delay_of r ≡ period)
  Exact-cases r = grind arith

  -- Delays and period are below `duration::max()`. The search returns `duration::max()` exactly if
  -- no queued poll asks for a delay. If one asks for just the period, it returns the period.
  pub find_for_silence_period_lem :
      (q : ModbusRequestsQueues)
      → All (λ r. delay_of r < duration_max) q.poll_queue
      → period < duration_max
      → let found = find_for_silence_period store period ignore q in
        ((found.0 ≡ duration_max) ↔ All (λ r. delay_of r ≡ 0) q.poll_queue)
        × ((found.0 ≡ period) ⊎ (period ≡ 0) ⊎ All (λ r. delay_of r ≢ period) q.poll_queue)
  unfolding find_for_silence_period
  find_for_silence_period_lem q h k = (
    (
      (λ e. elim (All-or-Any _ _ Delay-cases q.poll_queue) [
        | inl zero_all ↦ zero_all
        | inr some_delay ↦
            absurd (omega (arith, search_finds 0 q.poll_queue q.last_poll_found h k some_delay, e))
      ]),
      (λ z.
          ap (λ (x : ℕ × Option ℕ). x.0)
            (search_none 0 q.poll_queue duration_max q.last_poll_found z)),
    ),
    elim (ℕ_discrete period 0) [
      | yes z ↦ inr (inl z)
      | no nz ↦ elim (All-or-Any _ _ Exact-cases q.poll_queue) [
        | inl other ↦ inr (inr other)
        | inr exact ↦
            inl (search_exact 0 q.poll_queue duration_max q.last_poll_found (ground arith) exact)
      ]
    ],
  )

  -- After a search that found a delay, `popFirstWithDelay` takes out a queued poll with exactly that
  -- delay, at its position, and leaves the other polls in their order and the writes alone.
  pub pop_first_with_delay_lem :
      (q : ModbusRequestsQueues)
      → let found = find_for_silence_period store period ignore q in
        found.0 ≢ duration_max
        → (j : ℕ) × (r : ℕ) × (get_elem? q.poll_queue j ≡ some r)
          × (delay_of r ≡ found.0)
          × (pop_first_with_delay store period ignore found.1
              ≡ some (
                poll_ref r,
                record q { poll_queue = remove_at j q.poll_queue; last_poll_found = none },
              ))
  unfolding find_for_silence_period pop_first_with_delay
  pop_first_with_delay_lem q h =
      elim (search-IsSound 0 q.poll_queue duration_max q.last_poll_found) [
        | inl e ↦ absurd (h (ap (λ (x : ℕ × Option ℕ). x.0) e))
        | inr (j, p, (r, at, d, nonzero)) ↦
            let p' : (search 0 q.poll_queue duration_max q.last_poll_found).1 ≡ some j =
              p ∙ ap some (omega arith) in
            (j, r, at, d, ground (arith, p', at, get_elem?-lt q.poll_queue j at))
      ]

  -- The search does not find the delay that is closest to the period: the difference is compared
  -- with the delay found last, so a first poll with a short delay is kept although the second one is
  -- closer.
  pub find_for_silence_period_not_closest :
      (q : ModbusRequestsQueues) (a b : ℕ)
      → q.poll_queue ≡ a ∷ b ∷ []
      → 0 < delay_of a
      → delay_of a < duration_max
      → period < duration_max
      → delay_of b ≢ period
      → delay_of a ≤ abs_diff (delay_of b) period
      → abs_diff (delay_of b) period < abs_diff (delay_of a) period
      → (find_for_silence_period store period ignore q).0 ≡ delay_of a
  unfolding find_for_silence_period find_silence_from
  find_for_silence_period_not_closest q a b e ha la lp hb hd hc = rw e (ground arith)
