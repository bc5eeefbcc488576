-- ===== src/Poll/Disjoint.antt =====
-- `MsgRegisterPollSpecification::merge` keeps the entries disjoint: no register is polled twice.
use mqmgateway.Address.{RegisterType, overlaps}
use mqmgateway.Base.{
  ℕ, ◌≡◌, inl, inr, false, List, [], ◌∷◌, arith, Bool-cases, All, Pairs, All-mono, All-zip, All-Any,
  Any-none, Pairs-append,
}
use mqmgateway.Poll.{MsgRegisterPoll, overlaps_poll, extract_overlapped, merge_all, merge_registers}
use mqmgateway.Poll.Cover.{merge_all_from, extract_valid}
use mqmgateway.Poll.Pairs.{Covers, IsValidPoll, Joins}

-- No address is read by both polls.
abbrev pub Apart : MsgRegisterPoll → MsgRegisterPoll → Type 0
Apart p q = (s : ℕ) (t : RegisterType) (a : ℕ) → Covers s t a p → Covers s t a q → ⊥

pub Apart-sym : (p q : MsgRegisterPoll) → Apart p q → Apart q p
Apart-sym p q h s t a c d = h s t a d c

overlaps_poll-Apart : (p q : MsgRegisterPoll) → overlaps_poll p q ≡ false → Apart p q
unfolding overlaps
overlaps_poll-Apart p q h s t a c d = ground arith

extract_All :
    (P : MsgRegisterPoll → Type 0) (p : MsgRegisterPoll) (regs : List MsgRegisterPoll)
    → All P regs
    → let e = extract_overlapped p regs in All P e.0 × All P e.1
unfolding extract_overlapped
extract_All P p [] h = (tt, tt)
extract_All P p (r ∷ regs) h =
    let ih = extract_All P p regs h.1 in
    elim (Bool-cases (overlaps_poll p r)) [
      | inl e ↦ rw e ((h.0, ih.0), ih.1)
      | inr e ↦ rw e (ih.0, (h.0, ih.1))
    ]

-- The entries that stay are disjoint from one another, from the poll and from those taken out.
extract_Apart :
    (p : MsgRegisterPoll) (regs : List MsgRegisterPoll)
    → Pairs Apart regs
    → let e = extract_overlapped p regs in
      Pairs Apart e.1 × All (Apart p) e.1 × All (λ r. All (λ o. Apart o r) e.0) e.1
unfolding extract_overlapped
extract_Apart p [] h = (tt, tt, tt)
extract_Apart p (r ∷ regs) h =
    let ih = extract_Apart p regs h.1 in
    let own = extract_All (Apart r) p regs h.0 in
    elim (Bool-cases (overlaps_poll p r)) [
      | inl e ↦ rw e (ih.0, ih.1, All-zip (Apart r) _ _ own.1 ih.2)
      | inr e ↦ rw e (
        (own.1, ih.0),
        (overlaps_poll-Apart p r e, ih.1),
        (All-mono (λ o. Apart-sym r o) _ own.0, ih.2),
      )
    ]

merge_all-Apart :
    (p r : MsgRegisterPoll) (os : List MsgRegisterPoll)
    → IsValidPoll p
    → All IsValidPoll os
    → All (Joins p) os
    → Apart p r
    → All (λ o. Apart o r) os
    → Apart r (merge_all p os)
merge_all-Apart p r os hp hos js own others s t a c d =
    elim (merge_all_from s t a p os hp hos js d) [
      | inl e ↦ own s t a e c
      | inr e ↦ Any-none os (All-Any _ (Covers s t a) _ (λ o apart k. apart s t a k c) os others e)
    ]

-- Merging a poll into entries of which no two read a common address leaves such entries.
pub merge_registers-Apart :
    (regs : List MsgRegisterPoll) (p : MsgRegisterPoll)
    → All IsValidPoll regs
    → IsValidPoll p
    → Pairs Apart regs
    → Pairs Apart (merge_registers regs p)
unfolding merge_registers
merge_registers-Apart regs p h hp d =
    let o = extract_overlapped p regs in
    let v = extract_valid p regs hp h in
    let e = extract_Apart p regs d in
    Pairs-append Apart o.1 _ e.0 (tt, tt)
      (All-mono
        (λ r (k : Apart p r × All (λ o. Apart o r) o.0).
          (merge_all-Apart p r o.0 hp v.0 v.1 k.0 k.1, tt))
        o.1 (All-zip (Apart p) _ o.1 e.1 e.2))
