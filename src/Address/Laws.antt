-- ===== src/Address/Laws.antt =====
use mqmgateway.Address.{
  RegisterType, same_type, ModbusAddressRange, overlaps, merge_range, is_consecutive_of, contains,
}
use mqmgateway.Base.{ℕ, ◌+◌, ◌-◌, ◌≤◌, ◌<◌, max, ◌≡◌, refl, ◌↔◌, ◌⊎◌, true, arith}

pub same_type_iff : (a b : RegisterType) → (same_type a b ≡ true) ↔ (a ≡ b)
same_type_iff a b = ground arith

-- Address `a` of register type `t` lies in the range.
abbrev pub InRange : RegisterType → ℕ → ModbusAddressRange → Type 0
InRange t a r = (r.register_type ≡ t) × (r.register ≤ a) × (a < r.register + r.count)

-- What the constructor of a poll checks, and that the range ends in the 16-bit address space.
pub record IsValidRange (r : ModbusAddressRange) : Type 0 where
  pub nonempty : 0 < r.count
  pub in_space : r.register + r.count ≤ 65536

-- Two ranges overlap exactly when an address lies in both.
pub overlaps_iff :
    (r s : ModbusAddressRange)
    → IsValidRange r
    → IsValidRange s
    → (overlaps r s ≡ true) ↔ ((a : ℕ) × InRange r.register_type a r × InRange r.register_type a s)
unfolding overlaps
overlaps_iff r s hr hs =
    ((λ h. (max r.register s.register, ground arith, ground arith)), (λ (a, p, q). ground arith))

abbrev pub Touching : ModbusAddressRange → ModbusAddressRange → Type 0
Touching r s =
    (r.register_type ≡ s.register_type)
    × (r.register ≤ s.register + s.count)
    × (s.register ≤ r.register + r.count)

pub overlaps-Touching :
    (r s : ModbusAddressRange)
    → IsValidRange r
    → IsValidRange s
    → overlaps r s ≡ true
    → Touching r s
unfolding overlaps
overlaps-Touching r s hr hs h = ground arith

pub is_consecutive_of-Touching :
    (r s : ModbusAddressRange)
    → IsValidRange r
    → IsValidRange s
    → r.register_type ≡ s.register_type
    → is_consecutive_of r s ≡ true
    → Touching r s
unfolding is_consecutive_of
is_consecutive_of-Touching r s hr hs e h = ground arith

pub merge_range-IsValidRange :
    (r s : ModbusAddressRange) → IsValidRange r → IsValidRange s → IsValidRange (merge_range r s)
unfolding merge_range
merge_range-IsValidRange r s hr hs = ground arith

-- Ranges that overlap or touch are merged to exactly the union of their addresses.
pub merge_range_iff :
    (r s : ModbusAddressRange) (t : RegisterType) (a : ℕ)
    → IsValidRange r
    → IsValidRange s
    → Touching r s
    → InRange t a (merge_range r s) ↔ (InRange t a r ⊎ InRange t a s)
unfolding merge_range
merge_range_iff r s t a hr hs touch = ground arith

-- A range contains another one exactly if it has its type and all of its addresses.
pub contains_iff :
    (r s : ModbusAddressRange)
    → IsValidRange r
    → IsValidRange s
    → (contains r s ≡ true) ↔ (
        (r.register_type ≡ s.register_type)
        × ((a : ℕ) → InRange s.register_type a s → InRange s.register_type a r))
unfolding contains
contains_iff r s hr hs = (
  (λ h. (ground arith, λ a i. ground arith)),
  (λ (e, all).
      let low = all s.register (refl, omega arith, omega arith) in
      let high = all ((s.register + s.count) - 1) (refl, omega arith, omega arith) in
      ground (arith, low, high)),
)
