-- ===== src/Group/Cover.antt =====
-- Grouping keeps the addresses that are polled, and how often.
use mqmgateway.Address.{RegisterType, merge_range, is_consecutive_of}
use mqmgateway.Address.Laws.{same_type_iff, is_consecutive_of-Touching}
use mqmgateway.Base.{
  ℕ, ◌≡◌, ◌↔◌, ◌⊎◌, inl, inr, true, List, [], ◌∷◌, arith, Bool-cases, All, Any, Any-append_left,
  Any-append_right, Any-append_cases,
}
use mqmgateway.Group.{
  TypeMap, SlaveMap, collect, sort, group_from, group_list, group_types, group_slaves,
  group_registers, group,
}
use mqmgateway.Group.Slots.{
  InSlot, AnyType, AnySlave, TypesInSlot, SlavesInSlot, collect_iff, collect-SlavesInSlot, sort_iff,
  sort-All,
}
use mqmgateway.Poll.{MsgRegisterPoll, merge_poll, MsgRegisterPollSpecification}
use mqmgateway.Poll.Pairs.{
  Covers, Serves, IsValidPoll, Joins, merge_poll-IsValidPoll, merge_poll-Covers, merge_poll-Serves,
}

pub InSlot-Joins :
    (s t : ℕ) (p q : MsgRegisterPoll)
    → InSlot s t p
    → InSlot s t q
    → is_consecutive_of p.base.range q.base.range ≡ true
    → Joins p q
InSlot-Joins s t p q hp hq e =
    let same =
      (same_type_iff p.register_type q.register_type).0 (ground (arith, hp.of_type, hq.of_type)) in
    (
      ground (arith, hp.of_slave, hq.of_slave),
      is_consecutive_of-Touching p.base.range q.base.range hp.valid hq.valid same e,
    )

pub merge_poll-InSlot :
    (s t : ℕ) (p q : MsgRegisterPoll) → InSlot s t p → InSlot s t q → InSlot s t (merge_poll p q)
merge_poll-InSlot s t p q hp hq = record {
  of_slave = unfold merge_poll in hp.of_slave;
  of_type = unfold merge_poll merge_range in hp.of_type;
  valid = merge_poll-IsValidPoll p q hp.valid hq.valid;
}

-- What a merge of polls that join does to a property of one poll.
pub record IsMerged (P : MsgRegisterPoll → Type 0) : Type 0 where
  pub keeps :
      (p q : MsgRegisterPoll)
      → IsValidPoll p
      → IsValidPoll q
      → Joins p q
      → P p ⊎ P q
      → P (merge_poll p q)

group_from_keeps :
    (P : MsgRegisterPoll → Type 0)
    → IsMerged P
    → (s t : ℕ) (p : MsgRegisterPoll) (rs : List MsgRegisterPoll) → InSlot s t p
    → All (InSlot s t) rs
    → P p ⊎ Any P rs
    → Any P (group_from p rs)
unfolding group_from
group_from_keeps P m s t p [] hp hrs (inl h) = inl h
group_from_keeps P m s t p [] hp hrs (inr h) = elim h [ ]
group_from_keeps P m s t p (r ∷ rs) hp hrs h =
    elim (Bool-cases (is_consecutive_of p.base.range r.base.range)) [
      | inl e ↦ rw e (
          group_from_keeps P m s t (merge_poll p r) rs (merge_poll-InSlot s t p r hp hrs.0) hrs.1
            (ground (arith, m.keeps p r hp.valid hrs.0.valid (InSlot-Joins s t p r hp hrs.0 e))))
      | inr e ↦ rw e (elim h [
        | inl own ↦ inl own
        | inr others ↦ inr (group_from_keeps P m s t r rs hrs.0 hrs.1 others)
      ])
    ]

group_from_from :
    (s t : ℕ) (y : RegisterType) (a z : ℕ) (p : MsgRegisterPoll) (rs : List MsgRegisterPoll)
    → InSlot s t p
    → All (InSlot s t) rs
    → Any (Covers z y a) (group_from p rs)
    → Covers z y a p ⊎ Any (Covers z y a) rs
unfolding group_from
group_from_from s t y a z p [] hp hrs h = h
group_from_from s t y a z p (r ∷ rs) hp hrs h =
    elim (Bool-cases (is_consecutive_of p.base.range r.base.range)) [
      | inl e ↦
          let j = InSlot-Joins s t p r hp hrs.0 e in
          let rest =
            group_from_from s t y a z (merge_poll p r) rs (merge_poll-InSlot s t p r hp hrs.0) hrs.1
              (rw e at h) in
          ground (arith, rest, (merge_poll-Covers z y a p r hp.valid hrs.0.valid j).0)
      | inr e ↦ elim ((rw e at h)) [
        | inl own ↦ inl own
        | inr others ↦ inr (group_from_from s t y a z r rs hrs.0 hrs.1 others)
      ]
    ]

group_list_keeps :
    (P : MsgRegisterPoll → Type 0)
    → IsMerged P
    → (s t : ℕ) (rs : List MsgRegisterPoll) → All (InSlot s t) rs
    → Any P rs
    → Any P (group_list rs)
group_list_keeps P m s t [] hrs h = h
group_list_keeps P m s t (r ∷ rs) hrs h = group_from_keeps P m s t r rs hrs.0 hrs.1 h

group_list_from :
    (s t : ℕ) (y : RegisterType) (a z : ℕ) (rs : List MsgRegisterPoll)
    → All (InSlot s t) rs
    → Any (Covers z y a) (group_list rs)
    → Any (Covers z y a) rs
group_list_from s t y a z [] hrs h = h
group_list_from s t y a z (r ∷ rs) hrs h = group_from_from s t y a z r rs hrs.0 hrs.1 h

group_types_keeps :
    (P : MsgRegisterPoll → Type 0)
    → IsMerged P
    → (s : ℕ) (m : TypeMap) → TypesInSlot s m
    → AnyType P m
    → Any P (group_types m)
unfolding group_types
group_types_keeps P k s [] hm h = elim h [ ]
group_types_keeps P k s ((t, regs) ∷ m) hm (inl h) =
    Any-append_left P _ _ (
      group_list_keeps P k s t (sort regs) (sort-All (InSlot s t) regs hm.0)
        ((sort_iff P regs).1 h))
group_types_keeps P k s ((t, regs) ∷ m) hm (inr h) =
    Any-append_right P (group_list (sort regs)) _ (group_types_keeps P k s m hm.1 h)

group_types_from :
    (s : ℕ) (y : RegisterType) (a z : ℕ) (m : TypeMap)
    → TypesInSlot s m
    → Any (Covers z y a) (group_types m)
    → AnyType (Covers z y a) m
unfolding group_types
group_types_from s y a z [] hm h = h
group_types_from s y a z ((t, regs) ∷ m) hm h =
    elim (Any-append_cases (Covers z y a) (group_list (sort regs)) _ h) [
      | inl here ↦ inl (
          (sort_iff _ regs).0
            (group_list_from s t y a z (sort regs) (sort-All (InSlot s t) regs hm.0) here))
      | inr later ↦ inr (group_types_from s y a z m hm.1 later)
    ]

group_slaves_keeps :
    (P : MsgRegisterPoll → Type 0)
    → IsMerged P
    → (m : SlaveMap) → SlavesInSlot m
    → AnySlave P m
    → Any P (group_slaves m)
unfolding group_slaves
group_slaves_keeps P k [] hm h = elim h [ ]
group_slaves_keeps P k ((s, types) ∷ m) hm (inl h) =
    Any-append_left P _ _ (group_types_keeps P k s types hm.0 h)
group_slaves_keeps P k ((s, types) ∷ m) hm (inr h) =
    Any-append_right P (group_types types) _ (group_slaves_keeps P k m hm.1 h)

group_slaves_from :
    (y : RegisterType) (a z : ℕ) (m : SlaveMap)
    → SlavesInSlot m
    → Any (Covers z y a) (group_slaves m)
    → AnySlave (Covers z y a) m
unfolding group_slaves
group_slaves_from y a z [] hm h = h
group_slaves_from y a z ((s, types) ∷ m) hm h =
    elim (Any-append_cases (Covers z y a) (group_types types) _ h) [
      | inl here ↦ inl (group_types_from s y a z types hm.0 here)
      | inr later ↦ inr (group_slaves_from y a z m hm.1 later)
    ]

group_registers_keeps :
    (P : MsgRegisterPoll → Type 0)
    → IsMerged P
    → (regs : List MsgRegisterPoll) → All IsValidPoll regs
    → Any P regs
    → Any P (group_registers regs)
unfolding group_registers
group_registers_keeps P k regs v h =
    group_slaves_keeps P k (collect regs []) (collect-SlavesInSlot regs [] v tt)
      ((collect_iff P regs []).1 (inr h))

-- Grouping a list of valid polls changes neither the slaves nor the types nor the addresses that
-- are polled.
pub group-Covers :
    (s : ℕ) (t : RegisterType) (a : ℕ) (spec : MsgRegisterPollSpecification)
    → All IsValidPoll spec.registers
    → Any (Covers s t a) (group spec).registers ↔ Any (Covers s t a) spec.registers
unfolding group group_registers
group-Covers s t a spec v = (
  (λ h.
      elim ((collect_iff (Covers s t a) spec.registers []).0 (
        group_slaves_from t a s (collect spec.registers [])
          (collect-SlavesInSlot spec.registers [] v tt) h)) [ inl x ↦ elim x [ ] | inr x ↦ x ]),
  group_registers_keeps (Covers s t a)
      (record { keeps = λ p q hp hq j. (merge_poll-Covers s t a p q hp hq j).1 }) spec.registers v,
)

-- Grouping never makes an address be polled less often.
pub group-Serves :
    (s : ℕ) (t : RegisterType) (a m : ℕ) (spec : MsgRegisterPollSpecification)
    → All IsValidPoll spec.registers
    → Any (Serves s t a m) spec.registers
    → Any (Serves s t a m) (group spec).registers
unfolding group
group-Serves s t a m spec v =
    group_registers_keeps (Serves s t a m) (record { keeps = merge_poll-Serves s t a m })
      spec.registers v
