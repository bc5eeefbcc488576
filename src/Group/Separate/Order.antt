-- ===== src/Group/Separate/Order.antt =====
-- The sorted registers of one slot, and the groups made of them.
use mqmgateway.Address.{merge_range, is_consecutive_of}
use mqmgateway.Address.Laws.{same_type_iff}
use mqmgateway.Base.{
  ℕ, ◌+◌, ◌≤◌, ◌<◌, ◌≡◌, inl, inr, false, List, [], ◌∷◌, arith, dec_le, Bool-cases, All, Pairs,
  All-mono, Pairs-mono, Pairs-zip,
}
use mqmgateway.Group.{register_number_compare, insert_sorted, sort, group_from}
use mqmgateway.Group.Cover.{merge_poll-InSlot}
use mqmgateway.Group.Slots.{InSlot, insert_sorted-All, sort-All}
use mqmgateway.Poll.{MsgRegisterPoll, merge_poll}
use mqmgateway.Poll.Disjoint.{Apart, Apart-sym}
use mqmgateway.Poll.Pairs.{IsValidPoll}

abbrev pub IsBefore : MsgRegisterPoll → MsgRegisterPoll → Type 0
IsBefore p q = p.register + p.count ≤ q.register

-- A gap of at least one register.
abbrev pub HasGap : MsgRegisterPoll → MsgRegisterPoll → Type 0
HasGap p q = p.register + p.count < q.register

insert_sorted-Pairs :
    (R : MsgRegisterPoll → MsgRegisterPoll → Type 0)
    → ((p q : MsgRegisterPoll) → R p q → R q p)
    → (p : MsgRegisterPoll) (qs : List MsgRegisterPoll) → All (R p) qs
    → Pairs R qs
    → Pairs R (insert_sorted p qs)
unfolding insert_sorted
insert_sorted-Pairs R flip p [] h r = (tt, tt)
insert_sorted-Pairs R flip p (q ∷ qs) h r = elim (Bool-cases (register_number_compare q p)) [
  | inl e ↦
      rw e
        (insert_sorted-All (R q) p qs (flip p q h.0) r.0, insert_sorted-Pairs R flip p qs h.1 r.1)
  | inr e ↦ rw e (h, r)
]

pub sort-Pairs :
    (R : MsgRegisterPoll → MsgRegisterPoll → Type 0)
    → ((p q : MsgRegisterPoll) → R p q → R q p)
    → (ps : List MsgRegisterPoll) → Pairs R ps
    → Pairs R (sort ps)
unfolding sort
sort-Pairs R flip [] r = tt
sort-Pairs R flip (p ∷ ps) r =
    insert_sorted-Pairs R flip p (sort ps) (sort-All (R p) ps r.0) (sort-Pairs R flip ps r.1)

abbrev IsBelow : MsgRegisterPoll → MsgRegisterPoll → Type 0
IsBelow p q = p.register ≤ q.register

insert_sorted_sorted :
    (p : MsgRegisterPoll) (qs : List MsgRegisterPoll)
    → Pairs IsBelow qs
    → Pairs IsBelow (insert_sorted p qs)
unfolding insert_sorted
insert_sorted_sorted p [] r = (tt, tt)
insert_sorted_sorted p (q ∷ qs) r = elim (Bool-cases (register_number_compare q p)) [
  | inl e ↦
      rw e (insert_sorted-All (IsBelow q) p qs (ground arith) r.0, insert_sorted_sorted p qs r.1)
  | inr e ↦
      let le : p.register ≤ q.register = ground arith in
      rw e ((le, All-mono (λ x (h : IsBelow q x). omega arith) qs r.0), r)
]

sort_sorted : (ps : List MsgRegisterPoll) → Pairs IsBelow (sort ps)
unfolding sort
sort_sorted [] = tt
sort_sorted (p ∷ ps) = insert_sorted_sorted p (sort ps) (sort_sorted ps)

IsBefore-of_Apart :
    (s t : ℕ) (p q : MsgRegisterPoll)
    → InSlot s t p
    → InSlot s t q
    → IsBelow p q
    → Apart p q
    → IsBefore p q
IsBefore-of_Apart s t p q hp hq below apart = elim (dec_le (p.register + p.count) q.register) [
  | yes h ↦ h
  | no h ↦ absurd (
      apart s p.register_type q.register (ground (arith, hp.of_slave))
        (ground (arith, hq.of_slave, (same_type_iff q.register_type p.register_type).0)))
]

-- Disjoint registers of one slot come out of the sort one behind the other.
pub sort-IsBefore :
    (s t : ℕ) (ps : List MsgRegisterPoll)
    → All (InSlot s t) ps
    → Pairs Apart ps
    → Pairs IsBefore (sort ps)
sort-IsBefore s t ps h d =
    Pairs-mono (InSlot s t) _ IsBefore
      (λ p q hp hq (r : IsBelow p q × Apart p q). IsBefore-of_Apart s t p q hp hq r.0 r.1) (sort ps)
      (sort-All (InSlot s t) ps h)
      (Pairs-zip IsBelow Apart (sort ps) (sort_sorted ps) (sort-Pairs Apart Apart-sym ps d))

pub group_from-InSlot :
    (s t : ℕ) (p : MsgRegisterPoll) (rs : List MsgRegisterPoll)
    → InSlot s t p
    → All (InSlot s t) rs
    → All (InSlot s t) (group_from p rs)
unfolding group_from
group_from-InSlot s t p [] hp hrs = (hp, tt)
group_from-InSlot s t p (r ∷ rs) hp hrs =
    elim (Bool-cases (is_consecutive_of p.base.range r.base.range)) [
      | inl e ↦
          rw e
            (group_from-InSlot s t (merge_poll p r) rs (merge_poll-InSlot s t p r hp hrs.0) hrs.1)
      | inr e ↦ rw e (hp, group_from-InSlot s t r rs hrs.0 hrs.1)
    ]

merge_poll_extent :
    (p q : MsgRegisterPoll)
    → IsValidPoll p
    → IsValidPoll q
    → IsBefore p q
    → ((merge_poll p q).register ≡ p.register)
      × ((merge_poll p q).register + (merge_poll p q).count ≡ q.register + q.count)
unfolding merge_poll merge_range
merge_poll_extent p q hp hq h = ground arith

group_from_above :
    (s t n : ℕ) (p : MsgRegisterPoll) (rs : List MsgRegisterPoll)
    → InSlot s t p
    → All (InSlot s t) rs
    → Pairs IsBefore (p ∷ rs)
    → n ≤ p.register
    → All (λ g. n ≤ g.register) (group_from p rs)
unfolding group_from
group_from_above s t n p [] hp hrs b h = (h, tt)
group_from_above s t n p (r ∷ rs) hp hrs b h =
    let ends = merge_poll_extent p r hp.valid hrs.0.valid b.0.0 in
    elim (Bool-cases (is_consecutive_of p.base.range r.base.range)) [
      | inl e ↦ rw e (
          group_from_above s t n (merge_poll p r) rs (merge_poll-InSlot s t p r hp hrs.0) hrs.1
            (All-mono (λ x (k : IsBefore r x). omega (arith, ends.1)) rs b.1.0, b.1.1)
            (omega (arith, ends.0)))
      | inr e ↦ rw e (
        h,
        group_from_above s t n r rs hrs.0 hrs.1 b.1
            (let k : p.register + p.count ≤ r.register = b.0.0 in omega arith),
      )
    ]

not_consecutive-HasGap :
    (p q : MsgRegisterPoll)
    → IsValidPoll p
    → IsBefore p q
    → is_consecutive_of p.base.range q.base.range ≡ false
    → HasGap p q
unfolding is_consecutive_of
not_consecutive-HasGap p q hp b e = ground arith

-- Between two groups of one slot lies a gap.
pub group_from-HasGap :
    (s t : ℕ) (p : MsgRegisterPoll) (rs : List MsgRegisterPoll)
    → InSlot s t p
    → All (InSlot s t) rs
    → Pairs IsBefore (p ∷ rs)
    → Pairs HasGap (group_from p rs)
unfolding group_from
group_from-HasGap s t p [] hp hrs b = (tt, tt)
group_from-HasGap s t p (r ∷ rs) hp hrs b =
    let ends = merge_poll_extent p r hp.valid hrs.0.valid b.0.0 in
    elim (Bool-cases (is_consecutive_of p.base.range r.base.range)) [
      | inl e ↦ rw e (
          group_from-HasGap s t (merge_poll p r) rs (merge_poll-InSlot s t p r hp hrs.0) hrs.1
            (All-mono (λ x (k : IsBefore r x). omega (arith, ends.1)) rs b.1.0, b.1.1))
      | inr e ↦
          let gap = not_consecutive-HasGap p r hp.valid b.0.0 e in
          rw e (
            All-mono (λ x (k : r.register ≤ x.register). omega arith) _
                (group_from_above s t r.register r rs hrs.0 hrs.1 b.1 (omega arith)),
            group_from-HasGap s t r rs hrs.0 hrs.1 b.1,
          )
    ]
