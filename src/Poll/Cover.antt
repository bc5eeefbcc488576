-- ===== src/Poll/Cover.antt =====
-- `MsgRegisterPollSpecification::merge` keeps the addresses that are polled, and how often.
use mqmgateway.Address.{RegisterType, merge_range}
use mqmgateway.Base.{
  ℕ, ◌↔◌, ◌⊎◌, inl, inr, List, [], ◌∷◌, arith, Bool-cases, All, Any, Any-append_left,
  Any-append_right, Any-append_cases, All-append,
}
use mqmgateway.Poll.{
  MsgRegisterPoll, merge_poll, overlaps_poll, extract_overlapped, merge_all, merge_registers,
}
use mqmgateway.Poll.Pairs.{
  Covers, Serves, IsValidPoll, Joins, overlaps_poll-Joins, merge_poll-IsValidPoll,
  merge_poll-Covers, merge_poll-Serves,
}

-- Joining with a part of a merged poll joins with the whole.
Joins-merge_poll :
    (p q r : MsgRegisterPoll)
    → IsValidPoll p
    → IsValidPoll q
    → IsValidPoll r
    → Joins p r
    → Joins (merge_poll p q) r
unfolding merge_poll merge_range
Joins-merge_poll p q r hp hq hr j = ground arith

Joins-merge_poll-All :
    (p q : MsgRegisterPoll) (rs : List MsgRegisterPoll)
    → IsValidPoll p
    → IsValidPoll q
    → All IsValidPoll rs
    → All (Joins p) rs
    → All (Joins (merge_poll p q)) rs
Joins-merge_poll-All p q [] hp hq hrs js = tt
Joins-merge_poll-All p q (r ∷ rs) hp hq hrs js =
    (Joins-merge_poll p q r hp hq hrs.0 js.0, Joins-merge_poll-All p q rs hp hq hrs.1 js.1)

pub merge_all-IsValidPoll :
    (p : MsgRegisterPoll) (rs : List MsgRegisterPoll)
    → IsValidPoll p
    → All IsValidPoll rs
    → IsValidPoll (merge_all p rs)
unfolding merge_all
merge_all-IsValidPoll p [] hp hrs = hp
merge_all-IsValidPoll p (r ∷ rs) hp hrs =
    merge_all-IsValidPoll (merge_poll p r) rs (merge_poll-IsValidPoll p r hp hrs.0) hrs.1

-- A property that survives the merge of polls that join, from either side, survives `merge_all`.
merge_all_keeps :
    (P : MsgRegisterPoll → Type 0)
    → ((p q : MsgRegisterPoll)
        → IsValidPoll p
        → IsValidPoll q
        → Joins p q
        → P p ⊎ P q
        → P (merge_poll p q))
    → (p : MsgRegisterPoll) (rs : List MsgRegisterPoll) → IsValidPoll p
    → All IsValidPoll rs
    → All (Joins p) rs
    → P p ⊎ Any P rs
    → P (merge_all p rs)
unfolding merge_all
merge_all_keeps P step p [] hp hrs js (inl h) = h
merge_all_keeps P step p [] hp hrs js (inr h) = elim h [ ]
merge_all_keeps P step p (r ∷ rs) hp hrs js h =
    merge_all_keeps P step (merge_poll p r) rs (merge_poll-IsValidPoll p r hp hrs.0) hrs.1
      (Joins-merge_poll-All p r rs hp hrs.0 hrs.1 js.1) (ground (arith, step p r hp hrs.0 js.0))

pub merge_all_from :
    (s : ℕ) (t : RegisterType) (a : ℕ) (p : MsgRegisterPoll) (rs : List MsgRegisterPoll)
    → IsValidPoll p
    → All IsValidPoll rs
    → All (Joins p) rs
    → Covers s t a (merge_all p rs)
    → Covers s t a p ⊎ Any (Covers s t a) rs
unfolding merge_all
merge_all_from s t a p [] hp hrs js c = inl c
merge_all_from s t a p (r ∷ rs) hp hrs js c =
    let rest =
      merge_all_from s t a (merge_poll p r) rs (merge_poll-IsValidPoll p r hp hrs.0) hrs.1
        (Joins-merge_poll-All p r rs hp hrs.0 hrs.1 js.1) c in
    ground (arith, rest, (merge_poll-Covers s t a p r hp hrs.0 js.0).0)

extract_iff :
    (P : MsgRegisterPoll → Type 0) (p : MsgRegisterPoll) (regs : List MsgRegisterPoll)
    → let e = extract_overlapped p regs in Any P regs ↔ (Any P e.0 ⊎ Any P e.1)
unfolding extract_overlapped
extract_iff P p [] = ((λ h. elim h [ ]), (λ h. elim h [ inl x ↦ x | inr x ↦ x ]))
extract_iff P p (r ∷ regs) =
    let ih = extract_iff P p regs in
    elim (Bool-cases (overlaps_poll p r)) [
      | inl e ↦ rw e ((λ h. ground (arith, ih.0)), (λ h. ground (arith, ih.1)))
      | inr e ↦ rw e ((λ h. ground (arith, ih.0)), (λ h. ground (arith, ih.1)))
    ]

pub extract_valid :
    (p : MsgRegisterPoll) (regs : List MsgRegisterPoll)
    → IsValidPoll p
    → All IsValidPoll regs
    → let e = extract_overlapped p regs in
      All IsValidPoll e.0 × All (Joins p) e.0 × All IsValidPoll e.1
unfolding extract_overlapped
extract_valid p [] hp h = (tt, tt, tt)
extract_valid p (r ∷ regs) hp h =
    let ih = extract_valid p regs hp h.1 in
    elim (Bool-cases (overlaps_poll p r)) [
      | inl e ↦ rw e ((h.0, ih.0), (overlaps_poll-Joins p r hp h.0 e, ih.1), ih.2)
      | inr e ↦ rw e (ih.0, ih.1, (h.0, ih.2))
    ]

pub merge_registers-IsValidPoll :
    (regs : List MsgRegisterPoll) (p : MsgRegisterPoll)
    → All IsValidPoll regs
    → IsValidPoll p
    → All IsValidPoll (merge_registers regs p)
unfolding merge_registers
merge_registers-IsValidPoll regs p h hp =
    let v = extract_valid p regs hp h in
    All-append IsValidPoll _ _ v.2 (merge_all-IsValidPoll p _ hp v.0, tt)

-- A property that survives the merge of polls that join survives `merge_registers`.
merge_registers_keeps :
    (P : MsgRegisterPoll → Type 0)
    → ((p q : MsgRegisterPoll)
        → IsValidPoll p
        → IsValidPoll q
        → Joins p q
        → P p ⊎ P q
        → P (merge_poll p q))
    → (regs : List MsgRegisterPoll) (p : MsgRegisterPoll) → All IsValidPoll regs
    → IsValidPoll p
    → Any P regs ⊎ P p
    → Any P (merge_registers regs p)
unfolding merge_registers
merge_registers_keeps P step regs p h hp c =
    let o = extract_overlapped p regs in
    let v = extract_valid p regs hp h in
    let joined = λ (x : P p ⊎ Any P o.0).
      Any-append_right P o.1 (merge_all p o.0 ∷ [])
        (inl (merge_all_keeps P step p o.0 hp v.0 v.1 x)) in
    elim c [
      | inr own ↦ joined (inl own)
      | inl old ↦ elim ((extract_iff P p regs).0 old) [
        | inl x ↦ joined (inr x)
        | inr x ↦ Any-append_left P o.1 _ x
      ]
    ]

-- After a poll is merged in, an address is polled exactly if it was polled before or the new poll
-- reads it.
pub merge_registers-Covers :
    (s : ℕ) (t : RegisterType) (a : ℕ) (regs : List MsgRegisterPoll) (p : MsgRegisterPoll)
    → All IsValidPoll regs
    → IsValidPoll p
    → Any (Covers s t a) (merge_registers regs p) ↔ (Any (Covers s t a) regs ⊎ Covers s t a p)
unfolding merge_registers
merge_registers-Covers s t a regs p h hp =
    let C = Covers s t a in
    let v = extract_valid p regs hp h in
    let e = extract_iff C p regs in
    (
      (λ c. elim (Any-append_cases C (extract_overlapped p regs).1 _ c) [
        | inl old ↦ inl (e.1 (inr old))
        | inr (inl new) ↦ elim (merge_all_from s t a p _ hp v.0 v.1 new) [
          | inl own ↦ inr own
          | inr other ↦ inl (e.1 (inl other))
        ]
        | inr (inr none_left) ↦ absurd none_left
      ]),
      merge_registers_keeps C (λ p q hp hq w. (merge_poll-Covers s t a p q hp hq w).1) regs p h hp,
    )

-- A merge never makes an address be polled less often: what was read every `m` milliseconds, or is
-- asked for by the new poll, is read at least that often afterwards.
pub merge_registers-Serves :
    (s : ℕ) (t : RegisterType) (a m : ℕ) (regs : List MsgRegisterPoll) (p : MsgRegisterPoll)
    → All IsValidPoll regs
    → IsValidPoll p
    → Any (Serves s t a m) regs ⊎ Serves s t a m p
    → Any (Serves s t a m) (merge_registers regs p)
merge_registers-Serves s t a m regs p h hp c =
    merge_registers_keeps (Serves s t a m) (merge_poll-Serves s t a m) regs p h hp c
