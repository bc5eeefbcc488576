-- ===== src/Group/Separate.antt =====
-- Grouping is complete: no two polls of the result could be merged further.
mod Order
mod Keys
use mqmgateway.Address.{type_code}
use mqmgateway.Base.{
  ℕ, suc, ◌≤◌, ◌≡◌, ap, List, [], ◌∷◌, arith, All, Pairs, All-append, All-mono, Pairs-append,
  Pairs-mono, Ascends,
}
use mqmgateway.Group.{
  TypeMap, SlaveMap, collect, sort, group_from, group_list, group_types, group_slaves,
  group_registers, group,
}
use mqmgateway.Group.Separate.Keys.{SlotsApart, collect-SlotsApart, collect-KeysAscend}
use mqmgateway.Group.Separate.Order.{
  IsBefore, HasGap, sort-IsBefore, group_from-InSlot, group_from-HasGap,
}
use mqmgateway.Group.Slots.{InSlot, TypesInSlot, SlavesInSlot, collect-SlavesInSlot, sort-All}
use mqmgateway.Poll.{MsgRegisterPoll, MsgRegisterPollSpecification}
use mqmgateway.Poll.Disjoint.{Apart}
use mqmgateway.Poll.Pairs.{IsValidPoll, Joins}

-- No two polls of the list belong to one slave and type and overlap or touch.
abbrev pub AreSeparate : List MsgRegisterPoll → Type 0
AreSeparate = Pairs (λ p q. ¬ Joins p q)

HasGap-not-Joins : (p q : MsgRegisterPoll) → Unit {0} → Unit {0} → HasGap p q → ¬ Joins p q
HasGap-not-Joins p q _ _ gap j = omega (arith, j.1)

group_list-InSlot :
    (s t : ℕ) (regs : List MsgRegisterPoll)
    → All (InSlot s t) regs
    → All (InSlot s t) (group_list regs)
group_list-InSlot s t [] h = tt
group_list-InSlot s t (r ∷ rs) h = group_from-InSlot s t r rs h.0 h.1

group_list-separate :
    (s t : ℕ) (regs : List MsgRegisterPoll)
    → All (InSlot s t) regs
    → Pairs IsBefore regs
    → AreSeparate (group_list regs)
group_list-separate s t [] h b = tt
group_list-separate s t (r ∷ rs) h b =
    Pairs-mono (λ _. Unit {0}) HasGap _ HasGap-not-Joins (group_from r rs)
      (All-mono (λ _ _. tt) _ (group_from-InSlot s t r rs h.0 h.1))
      (group_from-HasGap s t r rs h.0 h.1 b)

slot-separate :
    (s t : ℕ) (regs : List MsgRegisterPoll)
    → All (InSlot s t) regs
    → Pairs Apart regs
    → AreSeparate (group_list (sort regs))
slot-separate s t regs h d =
    group_list-separate s t (sort regs) (sort-All (InSlot s t) regs h) (sort-IsBefore s t regs h d)

-- The slave of a poll, and a lower bound for the code of its type.
abbrev TypeFrom : ℕ → ℕ → MsgRegisterPoll → Type 0
TypeFrom s n p = (p.slave_id ≡ s) × (n ≤ type_code p.register_type)

group_types-TypeFrom :
    (s n : ℕ) (types : TypeMap)
    → TypesInSlot s types
    → Ascends n types
    → All (TypeFrom s n) (group_types types)
unfolding group_types
group_types-TypeFrom s n [] h a = tt
group_types-TypeFrom s n ((t, regs) ∷ types) h a =
    All-append (TypeFrom s n) (group_list (sort regs)) (group_types types)
      (All-mono (λ p (i : InSlot s t p). (i.of_slave, omega (arith, i.of_type, a.0))) _
        (group_list-InSlot s t (sort regs) (sort-All (InSlot s t) regs h.0)))
      (All-mono (λ p (i : TypeFrom s (suc t) p). (i.0, omega (arith, i.1, a.0))) _
        (group_types-TypeFrom s (suc t) types h.1 a.1))

types_apart : (s t : ℕ) (p q : MsgRegisterPoll) → InSlot s t p → TypeFrom s (suc t) q → ¬ Joins p q
types_apart s t p q i f j =
    let e : type_code p.register_type ≡ type_code q.register_type = ap type_code j.1.0 in
    omega (arith, e, i.of_type, f.1)

group_types-separate :
    (s n : ℕ) (types : TypeMap)
    → TypesInSlot s types
    → Ascends n types
    → All (λ t. Pairs Apart t.1) types
    → AreSeparate (group_types types)
unfolding group_types
group_types-separate s n [] h a d = tt
group_types-separate s n ((t, regs) ∷ types) h a d =
    Pairs-append _ (group_list (sort regs)) (group_types types) (slot-separate s t regs h.0 d.0)
      (group_types-separate s (suc t) types h.1 a.1 d.1)
      (All-mono
        (λ p (i : InSlot s t p).
          All-mono (λ q. types_apart s t p q i) (group_types types)
            (group_types-TypeFrom s (suc t) types h.1 a.1))
        (group_list (sort regs))
        (group_list-InSlot s t (sort regs) (sort-All (InSlot s t) regs h.0)))

abbrev SlaveFrom : ℕ → MsgRegisterPoll → Type 0
SlaveFrom n p = n ≤ p.slave_id

group_slaves-SlaveFrom :
    (n : ℕ) (m : SlaveMap)
    → SlavesInSlot m
    → Ascends n m
    → All (λ e. Ascends 0 e.1) m
    → All (SlaveFrom n) (group_slaves m)
unfolding group_slaves
group_slaves-SlaveFrom n [] h a b = tt
group_slaves-SlaveFrom n ((s, types) ∷ m) h a b =
    All-append (SlaveFrom n) (group_types types) (group_slaves m)
      (All-mono (λ p (i : TypeFrom s 0 p). omega (arith, i.0, a.0)) _
        (group_types-TypeFrom s 0 types h.0 b.0))
      (All-mono (λ p (i : suc s ≤ p.slave_id). omega (arith, i, a.0)) _
        (group_slaves-SlaveFrom (suc s) m h.1 a.1 b.1))

slaves_apart : (s : ℕ) (p q : MsgRegisterPoll) → TypeFrom s 0 p → SlaveFrom (suc s) q → ¬ Joins p q
slaves_apart s p q i f j = omega (arith, i.0, f, j.0)

group_slaves-separate :
    (n : ℕ) (m : SlaveMap)
    → SlavesInSlot m
    → Ascends n m
    → All (λ e. Ascends 0 e.1) m
    → SlotsApart m
    → AreSeparate (group_slaves m)
unfolding group_slaves
group_slaves-separate n [] h a b d = tt
group_slaves-separate n ((s, types) ∷ m) h a b d =
    Pairs-append _ (group_types types) (group_slaves m) (group_types-separate s 0 types h.0 b.0 d.0)
      (group_slaves-separate (suc s) m h.1 a.1 b.1 d.1)
      (All-mono
        (λ p (i : TypeFrom s 0 p).
          All-mono (λ q. slaves_apart s p q i) (group_slaves m)
            (group_slaves-SlaveFrom (suc s) m h.1 a.1 b.1))
        (group_types types) (group_types-TypeFrom s 0 types h.0 b.0))

-- If no two of the polls read a common address, then after grouping no two polls of one slave and
-- type overlap or touch: grouping has merged all that can be merged.
pub group-separate :
    (spec : MsgRegisterPollSpecification)
    → All IsValidPoll spec.registers
    → Pairs Apart spec.registers
    → AreSeparate (group spec).registers
unfolding group group_registers
group-separate spec v d =
    let keys = collect-KeysAscend spec.registers [] (tt, tt) in
    group_slaves-separate 0 (collect spec.registers [])
      (collect-SlavesInSlot spec.registers [] v tt) keys.0 keys.1
      (collect-SlotsApart spec.registers d)
