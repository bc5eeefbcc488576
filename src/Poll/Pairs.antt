-- ===== src/Poll/Pairs.antt =====
-- What two polls read, and the merge of two.
use mqmgateway.Address.{RegisterType}
use mqmgateway.Address.Laws.{
  InRange, IsValidRange, Touching, overlaps-Touching, merge_range-IsValidRange, merge_range_iff,
}
use mqmgateway.Base.{ℕ, ◌≤◌, ◌≡◌, ◌↔◌, ◌⊎◌, true, Option, none, some, arith}
use mqmgateway.Poll.{MsgRegisterPoll, merge_refresh, merge_poll, overlaps_poll}

-- The poll reads address `a` of register type `t` of slave `s`.
abbrev pub Covers : ℕ → RegisterType → ℕ → MsgRegisterPoll → Type 0
Covers s t a p = (p.slave_id ≡ s) × InRange t a p.base.range

-- The poll is scheduled, at least every `m` milliseconds.
abbrev pub IsWithin : ℕ → Option ℕ → Type 0
IsWithin m none = ⊥
IsWithin m (some r) = r ≤ m

-- The poll reads the address at least every `m` milliseconds.
abbrev pub Serves : ℕ → RegisterType → ℕ → ℕ → MsgRegisterPoll → Type 0
Serves s t a m p = Covers s t a p × IsWithin m p.refresh

abbrev pub IsValidPoll : MsgRegisterPoll → Type 0
IsValidPoll p = IsValidRange p.base.range

-- The polls belong together: the same slave and type, and no gap between them.
abbrev pub Joins : MsgRegisterPoll → MsgRegisterPoll → Type 0
Joins p q = (p.slave_id ≡ q.slave_id) × Touching p.base.range q.base.range

pub overlaps_poll-Joins :
    (p q : MsgRegisterPoll) → IsValidPoll p → IsValidPoll q → overlaps_poll p q ≡ true → Joins p q
overlaps_poll-Joins p q hp hq h = ground (arith, overlaps-Touching p.base.range q.base.range hp hq)

pub merge_poll-IsValidPoll :
    (p q : MsgRegisterPoll) → IsValidPoll p → IsValidPoll q → IsValidPoll (merge_poll p q)
unfolding merge_poll
merge_poll-IsValidPoll p q hp hq = merge_range-IsValidRange p.base.range q.base.range hp hq

-- Two polls that join are merged to one that reads exactly the addresses of both.
pub merge_poll-Covers :
    (s : ℕ) (t : RegisterType) (a : ℕ) (p q : MsgRegisterPoll)
    → IsValidPoll p
    → IsValidPoll q
    → Joins p q
    → Covers s t a (merge_poll p q) ↔ (Covers s t a p ⊎ Covers s t a q)
unfolding merge_poll
merge_poll-Covers s t a p q hp hq j =
    let e = merge_range_iff p.base.range q.base.range t a hp hq j.1 in
    ((λ c. ground (arith, e.0 c.1)), (λ c. ground (arith, e.1)))

merge_refresh-IsWithin :
    (m : ℕ) (x y : Option ℕ) → IsWithin m x ⊎ IsWithin m y → IsWithin m (merge_refresh x y)
merge_refresh-IsWithin m x y h = ground arith

pub merge_poll-Serves :
    (s : ℕ) (t : RegisterType) (a m : ℕ) (p q : MsgRegisterPoll)
    → IsValidPoll p
    → IsValidPoll q
    → Joins p q
    → Serves s t a m p ⊎ Serves s t a m q
    → Serves s t a m (merge_poll p q)
unfolding merge_poll
merge_poll-Serves s t a m p q hp hq j h =
    let e = merge_range_iff p.base.range q.base.range t a hp hq j.1 in
    ground (arith, e.1, merge_refresh-IsWithin m p.refresh q.refresh)
