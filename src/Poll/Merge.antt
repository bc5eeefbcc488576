-- ===== src/Poll/Merge.antt =====
-- Merging polls is a semilattice: the order in which overlapping entries are merged, and how often
-- one is merged, make no difference to the range, the period and the mode.
use mqmgateway.Address.{ModbusAddressRange, merge_range}
use mqmgateway.Address.Laws.{IsValidRange}
use mqmgateway.Base.{ℕ, ◌≡◌, Option, none, arith}
use mqmgateway.Poll.{
  PublishMode, on_change, once, MsgRegisterPoll, merge_refresh, merge_mode, merge_poll,
}

merge_mode_laws :
    (a b c : PublishMode)
    → (merge_mode a b ≡ merge_mode b a)
      × (merge_mode (merge_mode a b) c ≡ merge_mode a (merge_mode b c))
      × (merge_mode a a ≡ a)
merge_mode_laws on_change on_change c = ground arith
merge_mode_laws a b c = ground arith

merge_refresh_laws :
    (a b c : Option ℕ)
    → (merge_refresh a b ≡ merge_refresh b a)
      × (merge_refresh (merge_refresh a b) c ≡ merge_refresh a (merge_refresh b c))
      × (merge_refresh a a ≡ a)
merge_refresh_laws a b c = (ground arith, ground arith, ground arith)

merge_range_assoc :
    (a b c : ModbusAddressRange)
    → IsValidRange a
    → IsValidRange b
    → IsValidRange c
    → merge_range (merge_range a b) c ≡ merge_range a (merge_range b c)
unfolding merge_range
merge_range_assoc a b c ha hb hc = ground arith

merge_range_comm :
    (a b : ModbusAddressRange)
    → IsValidRange a
    → IsValidRange b
    → a.register_type ≡ b.register_type
    → merge_range a b ≡ merge_range b a
unfolding merge_range
merge_range_comm a b ha hb e = ground arith

merge_range_idem : (a : ModbusAddressRange) → IsValidRange a → merge_range a a ≡ a
unfolding merge_range
merge_range_idem a ha = ground arith

-- What a merge leaves of a poll: its range, its period and its mode.
abbrev pub Merged : Type 0
Merged = ModbusAddressRange × Option ℕ × PublishMode

abbrev pub merged : MsgRegisterPoll → Merged
merged p = (p.base.range, p.refresh, p.publish_mode)

-- For valid polls of one type, the range, the period and the mode of a merge do not depend on the
-- order or the grouping of the polls, and merging a poll with itself changes none of them.
pub merge_poll_semilattice :
    (p q r : MsgRegisterPoll)
    → IsValidRange p.base.range
    → IsValidRange q.base.range
    → IsValidRange r.base.range
    → p.register_type ≡ q.register_type
    → (merged (merge_poll p q) ≡ merged (merge_poll q p))
      × (merged (merge_poll (merge_poll p q) r) ≡ merged (merge_poll p (merge_poll q r)))
      × (merged (merge_poll p p) ≡ merged p)
unfolding merge_poll
merge_poll_semilattice p q r hp hq hr e = (
  ground (
    arith,
    merge_range_comm p.base.range q.base.range hp hq e,
    (merge_refresh_laws p.refresh q.refresh none).0,
    (merge_mode_laws p.publish_mode q.publish_mode once).0,
  ),
  ground (
    arith,
    merge_range_assoc p.base.range q.base.range r.base.range hp hq hr,
    (merge_refresh_laws p.refresh q.refresh r.refresh).1,
    (merge_mode_laws p.publish_mode q.publish_mode r.publish_mode).1,
  ),
  ground (
    arith,
    merge_range_idem p.base.range hp,
    (merge_refresh_laws p.refresh none none).2,
    (merge_mode_laws p.publish_mode once once).2,
  ),
)
