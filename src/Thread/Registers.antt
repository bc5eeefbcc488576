-- ===== src/Thread/Registers.antt =====
-- The polls that `setPollSpecification` makes of a specification.
use mqmgateway.Base.{
  pos, ℕ, suc, ◌<◌, ◌≡◌, refl, sym, subst, ◌↔◌, ◌⊎◌, inl, inr, false, none, some, List, [], ◌∷◌,
  ◌++◌, arith, ◌==◌, Option-cases, All, Any, All-append, All-mono, Any-snoc, update, update_iff,
  update-All,
}
use mqmgateway.Command.{RegisterPoll, Store, put, set_poll}
use mqmgateway.Executor.Reading.{same-==}
use mqmgateway.Poll.{MsgRegisterPoll}
use mqmgateway.Scheduler.{RegisterMap}
use mqmgateway.Scheduler.Due.{AnyRef, AllRef}
use mqmgateway.Thread.{ModbusThread, apply_slave_config, new_command, new_poll, add_poll}
use mqmgateway.Thread.Dispatch.{add_registers}

module _ (P : ℕ → RegisterPoll → Type 0) (epoch now : ℕ) where
  -- The poll that the loop makes of an entry has a property; one without a refresh time makes none.
  abbrev pub Makes : ModbusThread → MsgRegisterPoll → Type 0
  Makes t p = elim p.refresh [
    | none ↦ ⊥
    | some refresh ↦ P p.slave_id (
        new_poll epoch now
          (apply_slave_config t p.slave_id (new_command (record (p.base) { command_id = pos 0 })))
          refresh p.publish_mode)
  ]

  -- Some scheduled poll of a slave has a property.
  abbrev pub Schedules : Store → RegisterMap → Type 0
  Schedules store m = AnyRef (λ s r. P s (store.polls r)) m

  abbrev IsFresh : ℕ → RegisterMap → Type 0
  IsFresh n m = AllRef (λ s r. r < n) m

  put-other :
      (n r : ℕ) (q : RegisterPoll) (polls : ℕ → RegisterPoll) → r < n → put n q polls r ≡ polls r
  put-other n r q polls h = let e : (r == n) ≡ false = ground (arith, h) in rw e refl

  refs_iff :
      (s n : ℕ) (q : RegisterPoll) (store : Store) (rs : List ℕ)
      → All (λ r. r < n) rs
      → Any (λ r. P s ((set_poll n q store).polls r)) rs ↔ Any (λ r. P s (store.polls r)) rs
  refs_iff s n q store [] h = ((λ x. x), (λ x. x))
  refs_iff s n q store (r ∷ rs) h =
      let ih = refs_iff s n q store rs h.1 in
      let e = put-other n r q store.polls h.0 in
      (
        (λ x. elim x [ inl here ↦ inl (subst (P s) e here) | inr later ↦ inr (ih.0 later) ]),
        λ x. elim x [ inl here ↦ inl (subst (P s) (sym e) here) | inr later ↦ inr (ih.1 later) ],
      )

  -- A new object changes nothing for the polls that are scheduled already.
  map_iff :
      (n : ℕ) (q : RegisterPoll) (store : Store) (m : RegisterMap)
      → IsFresh n m
      → Schedules (set_poll n q store) m ↔ Schedules store m
  map_iff n q store [] h = ((λ x. x), (λ x. x))
  map_iff n q store ((s, rs) ∷ m) h =
      let here = refs_iff s n q store rs h.0 in
      let later = map_iff n q store m h.1 in
      (
        λ x. elim x [ inl a ↦ inl (here.0 a) | inr b ↦ inr (later.0 b) ],
        λ x. elim x [ inl a ↦ inl (here.1 a) | inr b ↦ inr (later.1 b) ],
      )

  IsFresh-update :
      (n slave : ℕ) (m : RegisterMap)
      → IsFresh n m
      → IsFresh (suc n) (update slave [] (λ refs. refs ++ n ∷ []) m)
  IsFresh-update n slave m h =
      update-All (λ e. All (λ r. r < suc n) e.1) slave [] (λ refs. refs ++ n ∷ [])
        (λ refs a. All-append (λ r. r < suc n) refs (n ∷ []) a (omega arith, tt)) tt m
        (All-mono
          (λ e (a : All (λ r. r < n) e.1). All-mono (λ r (b : r < n). omega (arith, b)) e.1 a) m h)

  push_iff :
      (n slave : ℕ) (q : RegisterPoll) (store : Store) (m : RegisterMap)
      → IsFresh n m
      → Schedules (set_poll n q store) (update slave [] (λ refs. refs ++ n ∷ []) m)
        ↔ (Schedules store m ⊎ P slave q)
  push_iff n slave q store m h =
      let next = set_poll n q store in
      let e : next.polls n ≡ q = rw (same-== n) refl in
      let push =
        update_iff (λ e. Any (λ r. P e.0 (next.polls r)) e.1) (P slave (next.polls n)) slave []
          (λ refs. refs ++ n ∷ []) (λ refs. Any-snoc (λ r. P slave (next.polls r)) refs n) (λ x. x)
          m in
      let old = map_iff n q store m h in
      (
        λ x. elim (push.0 x) [ inl a ↦ inl (old.0 a) | inr b ↦ inr (subst (P slave) e b) ],
        λ x. push.1 (elim x [ inl a ↦ inl (old.1 a) | inr b ↦ inr (subst (P slave) (sym e) b) ]),
      )

  Makes-add_poll :
      (q : RegisterPoll) (t : ModbusThread) (ps : List MsgRegisterPoll)
      → Any (Makes (add_poll q t)) ps ↔ Any (Makes t) ps
  unfolding apply_slave_config
  Makes-add_poll q t ps = ((λ x. x), (λ x. x))

  -- The loop of `setPollSpecification`, from a register map whose references are in use already: some
  -- scheduled poll of a slave has a property exactly if one had it before or the loop makes one of
  -- an entry of the specification, for the slave of the entry.
  pub add_registers_lem :
      (ps : List MsgRegisterPoll) (t : ModbusThread) (m : RegisterMap)
      → AllRef (λ s r. r < t.next_ref) m
      → let (u, after) = add_registers epoch now ps (t, m) in
        Schedules u.executor.store after ↔ (Schedules t.executor.store m ⊎ Any (Makes t) ps)
  unfolding add_registers
  add_registers_lem [] t m h = ((λ x. inl x), (λ x. elim x [ inl a ↦ a | inr b ↦ elim b [ ] ]))
  add_registers_lem (p ∷ ps) t m h = elim (Option-cases p.refresh) [
    | inl e ↦
        let ih = add_registers_lem ps t m h in
        rw e (
          (λ x. elim (ih.0 x) [ inl a ↦ inl a | inr b ↦ inr (inr b) ]),
          (λ x. ih.1 (elim x [ inl a ↦ inl a | inr (inl c) ↦ elim c [ ] | inr (inr b) ↦ inr b ])),
        )
    | inr (refresh, e) ↦
        let q =
          new_poll epoch now
            (apply_slave_config t p.slave_id (new_command (record (p.base) { command_id = pos 0 })))
            refresh p.publish_mode in
        let next = update p.slave_id [] (λ refs. refs ++ t.next_ref ∷ []) m in
        let ih =
          add_registers_lem ps (add_poll q t) next (IsFresh-update t.next_ref p.slave_id m h) in
        let push = push_iff t.next_ref p.slave_id q t.executor.store m h in
        let same = Makes-add_poll q t ps in
        rw e (
          (λ x. elim (ih.0 x) [
            | inl a ↦ elim (push.0 a) [ inl old ↦ inl old | inr new ↦ inr (inl new) ]
            | inr b ↦ inr (inr (same.0 b))
          ]),
          (λ x. ih.1 (elim x [
            | inl old ↦ inl (push.1 (inl old))
            | inr (inl new) ↦ inl (push.1 (inr new))
            | inr (inr b) ↦ inr (same.1 b)
          ])),
        )
  ]
