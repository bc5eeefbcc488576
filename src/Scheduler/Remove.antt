-- ===== src/Scheduler/Remove.antt =====
-- `ModbusScheduler::remove`.
use mqmgateway.Address.{RegisterType}
use mqmgateway.Base.{
  ℕ, suc, ◌≡◌, refl, ap, ◌∙◌, ◌⊎◌, inl, inr, Bool, true, false, not, ◌&&◌, Option, none, some, List,
  [], ◌∷◌, ◌++◌, arith, ℕ_discrete, ◌==◌, if◌then◌else◌, ==_iff, Bool-cases, All, find, Ascends,
  Ascends-mono, find_below,
}
use mqmgateway.Command.{Store}
use mqmgateway.Queues.{is_nil}
use mqmgateway.Scheduler.{RegisterMap, is_register, remove_ref, remove}

module _ (store : Store) (register : ℕ) (type : RegisterType) where
  abbrev matches : ℕ → Bool
  matches r = is_register register type (store.polls r)

  -- The first poll of the register is taken out of the list, if there is one.
  abbrev pub RemovesFirst : List ℕ → List ℕ → Type 0
  RemovesFirst refs left =
      (All (λ r. matches r ≡ false) refs × (left ≡ refs))
      ⊎ ((before : List ℕ) × (r : ℕ) × (behind : List ℕ) × (refs ≡ before ++ r ∷ behind)
          × (left ≡ before ++ behind)
          × All (λ x. matches x ≡ false) before
          × (matches r ≡ true))

  remove_ref_lem : (refs : List ℕ) → RemovesFirst refs (remove_ref store register type refs)
  unfolding remove_ref
  remove_ref_lem [] = inl (tt, refl)
  remove_ref_lem (r ∷ rs) = elim (Bool-cases (matches r)) [
    | inl e ↦ rw e (inr ([], r, rs, refl, refl, tt, e))
    | inr e ↦ rw e (elim (remove_ref_lem rs) [
      | inl (none_match, p) ↦ inl ((refl, none_match), ap (λ l. r ∷ l) p)
      | inr (before, x, behind, p, q, h, k) ↦
          inr (r ∷ before, x, behind, ap (λ l. r ∷ l) p, ap (λ l. r ∷ l) q, (e, h), k)
    ])
  ]

  find-remove :
      (slave s n : ℕ) (m : RegisterMap)
      → Ascends n m
      → find s (remove store slave register type m) ≡ (
          if s == slave
          then elim (find slave m) [
            | none ↦ none
            | some refs ↦
                let left = remove_ref store register type refs in
                if is_nil left && not (is_nil refs) then none else some left
          ]
          else find s m)
  unfolding remove
  find-remove slave s n [] a = ground arith
  find-remove slave s n ((j, refs) ∷ m) a = ground (
    arith,
    find-remove slave s (suc j) m a.1,
    find_below (suc j) s m a.1,
    find_below (suc j) slave m a.1,
  )

  remove-Ascends :
      (slave n : ℕ) (m : RegisterMap) → Ascends n m → Ascends n (remove store slave register type m)
  unfolding remove
  remove-Ascends slave n [] a = tt
  remove-Ascends slave n ((j, refs) ∷ m) a =
      ground (arith, remove-Ascends slave (suc j) m a.1, Ascends-mono n (suc j) m a.1)

  -- What becomes of the entry of the slave.
  abbrev pub RemovesEntry : Option (List ℕ) → Option (List ℕ) → Type 0
  RemovesEntry none after = after ≡ none
  RemovesEntry (some refs) after =
      (left : List ℕ) × RemovesFirst refs left
      × (after ≡ (if is_nil left && not (is_nil refs) then none else some left))

  removes_entry :
      (entry after : Option (List ℕ))
      → after ≡ elim entry [
        | none ↦ none
        | some refs ↦
            let left = remove_ref store register type refs in
            if is_nil left && not (is_nil refs) then none else some left
      ]
      → RemovesEntry entry after
  removes_entry none after e = e
  removes_entry (some refs) after e = (remove_ref store register type refs, remove_ref_lem refs, e)

  -- `remove` changes the entry of the slave only: its first poll of the register is taken out, and
  -- the slave leaves the map with its last poll. The keys stay in order.
  pub remove_lem :
      (slave s : ℕ) (m : RegisterMap)
      → Ascends 0 m
      → let after = remove store slave register type m in
        Ascends 0 after
        × ((s ≡ slave) ⊎ (find s after ≡ find s m))
        × RemovesEntry (find slave m) (find slave after)
  remove_lem slave s m a = (
    remove-Ascends slave 0 m a,
    elim (ℕ_discrete s slave) [
      | yes e ↦ inl e
      | no ne ↦ inr (ground (arith, find-remove slave s 0 m a))
    ],
    removes_entry (find slave m) (find slave (remove store slave register type m))
        (find-remove slave slave 0 m a ∙ rw ((==_iff slave slave).1 refl) refl),
  )
