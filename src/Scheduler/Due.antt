-- ===== src/Scheduler/Due.antt =====
-- `getRegistersToPoll` and `getMinPollTime`.
use mqmgateway.Base.{
  ℕ, ◌+◌, ◌≤◌, ◌≡◌, refl, sym, subst, ◌∙◌, ◌↔◌, ◌⊎◌, inl, inr, true, false, List, [], ◌∷◌, ◌++◌,
  arith, ltb, if◌then◌else◌, All, Any, All-mono, Any-snoc, update_iff,
}
use mqmgateway.Command.{duration_max, Store}
use mqmgateway.Scheduler.{
  RegisterMap, is_done, time_to_poll, schedule_poll, schedule_slave, schedule_from,
  get_registers_to_poll, min_refresh, min_poll_time_from, get_min_poll_time,
}

-- Some reference in the map, under its slave, has a property.
abbrev pub AnyRef : (ℕ → ℕ → Type 0) → RegisterMap → Type 0
AnyRef P = Any (λ e. Any (P e.0) e.1)

-- Every reference in the map, under its slave, has a property.
abbrev pub AllRef : (ℕ → ℕ → Type 0) → RegisterMap → Type 0
AllRef P = All (λ e. All (P e.0) e.1)

-- The poll is to be read now: its period has passed, and it is not a one-shot poll that is done.
abbrev pub IsDue : Store → ℕ → ℕ → Type 0
IsDue store now r =
    (is_done (store.polls r) ≡ false)
    × ((store.polls r).last_read_start_time + (store.polls r).refresh ≤ now)

module _ (store : Store) (now : ℕ) where
  abbrev DueP : (ℕ → ℕ → Type 0) → ℕ → ℕ → Type 0
  DueP P s r = P s r × IsDue store now r

  schedule_poll_iff :
      (P : ℕ → ℕ → Type 0) (s r : ℕ) (acc : RegisterMap × ℕ)
      → AnyRef P (schedule_poll store now s r acc).0 ↔ (AnyRef P acc.0 ⊎ DueP P s r)
  unfolding schedule_poll
  schedule_poll_iff P s r (ret, out) =
      let push =
        update_iff (λ e. Any (P e.0) e.1) (P s r) s [] (λ refs. refs ++ r ∷ [])
          (λ refs. Any-snoc (P s) refs r) (λ h. h) ret in
      ((λ h. ground (arith, push.0)), (λ h. ground (arith, push.1)))

  schedule_slave_iff :
      (P : ℕ → ℕ → Type 0) (s : ℕ) (rs : List ℕ) (acc : RegisterMap × ℕ)
      → AnyRef P (schedule_slave store now s rs acc).0 ↔ (AnyRef P acc.0 ⊎ Any (DueP P s) rs)
  unfolding schedule_slave
  schedule_slave_iff P s [] acc = ((λ h. inl h), (λ h. elim h [ inl x ↦ x | inr x ↦ elim x [ ] ]))
  schedule_slave_iff P s (r ∷ rs) acc =
      let here = schedule_poll_iff P s r acc in
      let later = schedule_slave_iff P s rs (schedule_poll store now s r acc) in
      ((λ h. ground (arith, later.0 h, here.0)), (λ h. later.1 (ground (arith, here.1))))

  schedule_from_iff :
      (P : ℕ → ℕ → Type 0) (m : RegisterMap) (acc : RegisterMap × ℕ)
      → AnyRef P (schedule_from store now m acc).0 ↔ (AnyRef P acc.0 ⊎ AnyRef (DueP P) m)
  unfolding schedule_from
  schedule_from_iff P [] acc = ((λ h. inl h), (λ h. elim h [ inl x ↦ x | inr x ↦ elim x [ ] ]))
  schedule_from_iff P ((s, rs) ∷ m) acc =
      let here = schedule_slave_iff P s rs acc in
      let later = schedule_from_iff P m (schedule_slave store now s rs acc) in
      ((λ h. ground (arith, later.0 h, here.0)), (λ h. later.1 (ground (arith, here.1))))

  -- The returned map holds, under their slaves, exactly the polls that are due.
  pub get_registers_to_poll_iff :
      (P : ℕ → ℕ → Type 0) (m : RegisterMap)
      → AnyRef P (get_registers_to_poll store now m).0 ↔ AnyRef (λ s r. P s r × IsDue store now r) m
  unfolding get_registers_to_poll
  get_registers_to_poll_iff P m =
      let e = schedule_from_iff P m ([], duration_max) in
      ((λ h. elim (e.0 h) [ inl x ↦ elim x [ ] | inr x ↦ x ]), (λ h. e.1 (inr h)))

  -- The wait is at most `w`, and so is what follows from it.
  abbrev Waits : ℕ → ℕ → ℕ → Type 0
  Waits out s r = (is_done (store.polls r) ≡ true) ⊎ (out ≤ time_to_poll now (store.polls r))

  schedule_poll_wait :
      (s r : ℕ) (acc : RegisterMap × ℕ)
      → ((schedule_poll store now s r acc).1 ≤ acc.1)
        × Waits (schedule_poll store now s r acc).1 s r
  unfolding schedule_poll
  schedule_poll_wait s r acc = ground arith

  schedule_slave_wait :
      (s : ℕ) (rs : List ℕ) (acc : RegisterMap × ℕ)
      → ((schedule_slave store now s rs acc).1 ≤ acc.1)
        × All (Waits (schedule_slave store now s rs acc).1 s) rs
  unfolding schedule_slave
  schedule_slave_wait s [] acc = (omega arith, tt)
  schedule_slave_wait s (r ∷ rs) acc =
      let here = schedule_poll_wait s r acc in
      let later = schedule_slave_wait s rs (schedule_poll store now s r acc) in
      (omega (arith, here.0, later.0), (ground (arith, here.1, later.0), later.1))

  schedule_from_wait :
      (m : RegisterMap) (acc : RegisterMap × ℕ)
      → ((schedule_from store now m acc).1 ≤ acc.1)
        × AllRef (Waits (schedule_from store now m acc).1) m
  unfolding schedule_from
  schedule_from_wait [] acc = (omega arith, tt)
  schedule_from_wait ((s, rs) ∷ m) acc =
      let here = schedule_slave_wait s rs acc in
      let later = schedule_from_wait m (schedule_slave store now s rs acc) in
      (
        omega (arith, here.0, later.0),
        (
          All-mono
              (λ r (w : Waits (schedule_slave store now s rs acc).1 s r). ground (arith, later.0))
              rs here.1,
          later.1,
        ),
      )

  -- Due now, or done, or not due before the duration has passed.
  abbrev pub IsNotLate : ℕ → ℕ → ℕ → Type 0
  IsNotLate out s r =
      IsDue store now r
      ⊎ (is_done (store.polls r) ≡ true)
      ⊎ (now + out ≤ (store.polls r).last_read_start_time + (store.polls r).refresh)

  Waits-IsNotLate : (out s r : ℕ) → Waits out s r → IsNotLate out s r
  Waits-IsNotLate out s r w = ground arith

  -- The wait is that of a poll, or what it was at the start.
  abbrev pub IsWaitOf : ℕ → ℕ → ℕ → Type 0
  IsWaitOf out s r = (is_done (store.polls r) ≡ false) × (out ≡ time_to_poll now (store.polls r))

  schedule_slave_attained :
      (s : ℕ) (rs : List ℕ) (acc : RegisterMap × ℕ)
      → let out = (schedule_slave store now s rs acc).1 in (out ≡ acc.1) ⊎ Any (IsWaitOf out s) rs
  unfolding schedule_slave schedule_poll
  schedule_slave_attained s [] acc = inl refl
  schedule_slave_attained s (r ∷ rs) acc =
      ground (arith, schedule_slave_attained s rs (schedule_poll store now s r acc))

  schedule_from_attained :
      (m : RegisterMap) (acc : RegisterMap × ℕ)
      → let out = (schedule_from store now m acc).1 in (out ≡ acc.1) ⊎ AnyRef (IsWaitOf out) m
  unfolding schedule_from
  schedule_from_attained [] acc = inl refl
  schedule_from_attained ((s, rs) ∷ m) acc =
      elim (schedule_from_attained m (schedule_slave store now s rs acc)) [
        | inr later ↦ inr (inr later)
        | inl e ↦ elim (schedule_slave_attained s rs acc) [
          | inl e' ↦ inl (e ∙ e')
          | inr here ↦ inr (inl (subst (λ out. Any (IsWaitOf out s) rs) (sym e) here))
        ]
      ]

  -- Each poll is due now, or done, or becomes due only after the returned duration. The duration is
  -- no shorter than needed: it is `duration::max()`, or the time that a poll which is not done has
  -- left, or its period if it is read now.
  pub get_registers_to_poll_wait :
      (m : RegisterMap)
      → let out = (get_registers_to_poll store now m).1 in
        AllRef (IsNotLate out) m × ((out ≡ duration_max) ⊎ AnyRef (IsWaitOf out) m)
  unfolding get_registers_to_poll
  get_registers_to_poll_wait m =
      let out = (schedule_from store now m ([], duration_max)).1 in
      (
        All-mono {P = λ e. All (Waits out e.0) e.1} {Q = λ e. All (IsNotLate out e.0) e.1}
            (λ e.
              All-mono {P = Waits out e.0} {Q = IsNotLate out e.0} (Waits-IsNotLate out e.0) e.1)
            m (schedule_from_wait m ([], duration_max)).1,
        schedule_from_attained m ([], duration_max),
      )

module _ (store : Store) where
  min_refresh_lem :
      (rs : List ℕ) (ret : ℕ)
      → let least = min_refresh store rs ret in
        (least ≤ ret)
        × All (λ r. least ≤ (store.polls r).refresh) rs
        × ((least ≡ ret) ⊎ Any (λ r. least ≡ (store.polls r).refresh) rs)
  unfolding min_refresh
  min_refresh_lem [] ret = (omega arith, tt, inl refl)
  min_refresh_lem (r ∷ rs) ret =
      let next = if ltb (store.polls r).refresh ret then (store.polls r).refresh else ret in
      let ih = min_refresh_lem rs next in
      (ground (arith, ih.0), (ground (arith, ih.0), ih.1), ground (arith, ih.2))

  min_poll_time_from_lem :
      (m : RegisterMap) (ret : ℕ)
      → let least = min_poll_time_from store m ret in
        (least ≤ ret)
        × AllRef (λ s r. least ≤ (store.polls r).refresh) m
        × ((least ≡ ret) ⊎ AnyRef (λ s r. least ≡ (store.polls r).refresh) m)
  unfolding min_poll_time_from
  min_poll_time_from_lem [] ret = (omega arith, tt, inl refl)
  min_poll_time_from_lem ((s, rs) ∷ m) ret =
      let here = min_refresh_lem rs ret in
      let later = min_poll_time_from_lem m (min_refresh store rs ret) in
      (
        omega (arith, here.0, later.0),
        (
          All-mono
              (λ r (h : min_refresh store rs ret ≤ (store.polls r).refresh).
                omega (arith, later.0, h))
              rs here.1,
          later.1,
        ),
        elim later.2 [
          | inr x ↦ inr (inr x)
          | inl e ↦ elim here.2 [
            | inl e' ↦ inl (e ∙ e')
            | inr x ↦ inr (inl (subst (λ y. Any (λ r. y ≡ (store.polls r).refresh) rs) (sym e) x))
          ]
        ],
      )

  -- The minimal poll time is a lower bound of all periods, and one of them, unless it is
  -- `duration::max()`.
  pub get_min_poll_time_lem :
      (m : RegisterMap)
      → let least = get_min_poll_time store m in
        AllRef (λ s r. least ≤ (store.polls r).refresh) m
        × ((least ≡ duration_max) ⊎ AnyRef (λ s r. least ≡ (store.polls r).refresh) m)
  unfolding get_min_poll_time
  get_min_poll_time_lem m = let h = min_poll_time_from_lem m duration_max in (h.1, h.2)
