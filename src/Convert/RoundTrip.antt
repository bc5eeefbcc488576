-- ===== src/Convert/RoundTrip.antt =====
-- What is written to a device and what is read back.
use mqmgateway.Base.{
  ℤ, pos, negsuc, ℕ, zero, suc, ◌+◌, ◌-◌, ◌*◌, ◌%◌, ◌/◌, ◌^◌, ◌≤◌, ◌<◌, ◌≡◌, refl, ap, ap₂, ◌∙◌,
  ◌⊎◌, inl, inr, Bool, true, false, none, some, List, [], ◌∷◌, arith, ltb, ◌==◌, Bool-cases, All,
}
use mqmgateway.Convert.{
  signed, unsigned, set_byte_order, registers_to_int32, int32_to_registers, int32_to_mqtt,
  int32_to_modbus, uint32_to_mqtt, uint32_to_modbus, int8_to_mqtt, uint8_to_mqtt, set_bit_number,
  bit_to_mqtt,
}
use mqmgateway.Convert.Bytes.{IsRegister, set_byte_order-set_byte_order}
use mqmgateway.Convert.Short.{unsigned-IsRegister}

abbrev pub IsInt32 : ℤ → Type 0
IsInt32 (pos n) = n < 2147483648
IsInt32 (negsuc n) = n < 2147483648

halves :
    (val : ℤ)
    → IsInt32 val
    → IsRegister (unsigned 32 val / 65536)
      × (signed 32 ((unsigned 32 val / 65536 * 65536 + unsigned 16 val) % 2 ^ 32) ≡ val)
halves (pos n) h = (omega (arith, h), ground (arith, h))
halves (negsuc n) h = (omega (arith, h), ground (arith, h))

-- A 32-bit integer that is written to two registers and read back with the same order of registers
-- and bytes is the same integer.
pub int32_to_mqtt-int32_to_modbus :
    (low_first swap : Bool) (val : ℤ)
    → IsInt32 val
    → All IsRegister (int32_to_modbus low_first swap val 2)
      × (int32_to_mqtt low_first swap (int32_to_modbus low_first swap val 2) ≡ some val)
unfolding int32_to_modbus int32_to_mqtt int32_to_registers registers_to_int32
int32_to_mqtt-int32_to_modbus true swap val h =
    let (high_fits, whole) = halves val h in
    let low = set_byte_order-set_byte_order (unsigned 16 val) swap (unsigned-IsRegister val) in
    let high = set_byte_order-set_byte_order (unsigned 32 val / 65536) swap high_fits in
    (
      (low.0, (high.0, tt)),
      ap₂ (λ a b. some (signed 32 ((a * 65536 + b) % 2 ^ 32))) high.1 low.1 ∙ ap some whole,
    )
int32_to_mqtt-int32_to_modbus false swap val h =
    let (high_fits, whole) = halves val h in
    let low = set_byte_order-set_byte_order (unsigned 16 val) swap (unsigned-IsRegister val) in
    let high = set_byte_order-set_byte_order (unsigned 32 val / 65536) swap high_fits in
    (
      (high.0, (low.0, tt)),
      ap₂ (λ a b. some (signed 32 ((a * 65536 + b) % 2 ^ 32))) high.1 low.1 ∙ ap some whole,
    )

unsigned-signed :
    (p : ℕ)
    → p < 4294967296
    → IsInt32 (signed 32 p)
      × (unsigned 16 (signed 32 p) ≡ p % 65536)
      × (unsigned 32 (signed 32 p) ≡ p)
unsigned-signed p h = elim (Bool-cases (ltb p 2147483648)) [
  | inl e ↦ rw e (ground (arith, e), refl, omega (arith, h))
  | inr e ↦
      let n : 2147483648 ≤ p = ground (arith, e) in
      rw e (omega (arith, h, n), omega (arith, h, n), omega (arith, h, n))
]

joined_halves :
    (high low : ℕ)
    → IsRegister high
    → IsRegister low
    → let val = signed 32 ((high * 65536 + low) % 2 ^ 32) in
      IsInt32 val × (unsigned 16 val ≡ low) × (unsigned 32 val / 65536 ≡ high)
joined_halves high low h l =
    let p = (high * 65536 + low) % 4294967296 in
    let u = unsigned-signed p (omega arith) in
    (u.0, u.1 ∙ omega (arith, h, l), ap (λ q. q / 65536) u.2 ∙ omega (arith, h, l))

-- Two registers that are read as a 32-bit integer and written back are the same registers.
pub int32_to_modbus-int32_to_mqtt :
    (low_first swap : Bool) (a b : ℕ)
    → IsRegister a
    → IsRegister b
    → (val : ℤ) × (int32_to_mqtt low_first swap (a ∷ b ∷ []) ≡ some val)
      × IsInt32 val
      × (int32_to_modbus low_first swap val 2 ≡ a ∷ b ∷ [])
unfolding int32_to_modbus int32_to_mqtt int32_to_registers registers_to_int32
int32_to_modbus-int32_to_mqtt false swap a b ha hb =
    let sa = set_byte_order-set_byte_order a swap ha in
    let sb = set_byte_order-set_byte_order b swap hb in
    let va = set_byte_order a swap in
    let vb = set_byte_order b swap in
    let j = joined_halves va vb sa.0 sb.0 in
    (
      signed 32 ((va * 65536 + vb) % 2 ^ 32),
      refl,
      j.0,
      ap₂ (λ x y. set_byte_order x swap ∷ set_byte_order y swap ∷ []) j.2 j.1
          ∙ ap₂ (λ x y. x ∷ y ∷ []) sa.1 sb.1,
    )
int32_to_modbus-int32_to_mqtt true swap a b ha hb =
    let sa = set_byte_order-set_byte_order a swap ha in
    let sb = set_byte_order-set_byte_order b swap hb in
    let va = set_byte_order a swap in
    let vb = set_byte_order b swap in
    let j = joined_halves vb va sb.0 sa.0 in
    (
      signed 32 ((vb * 65536 + va) % 2 ^ 32),
      refl,
      j.0,
      ap₂ (λ x y. set_byte_order x swap ∷ set_byte_order y swap ∷ []) j.1 j.2
          ∙ ap₂ (λ x y. x ∷ y ∷ []) sa.1 sb.1,
    )

unsigned32-bound : (val : ℤ) → unsigned 32 val < 4294967296
unsigned32-bound (pos n) = omega arith
unsigned32-bound (negsuc n) = omega arith

-- An unsigned 32-bit integer that is written to two registers and read back is the same integer; any
-- other integer comes back modulo 2 ^ 32.
pub uint32_to_mqtt-uint32_to_modbus :
    (low_first : Bool) (val : ℤ)
    → All IsRegister (uint32_to_modbus low_first val 2)
      × (uint32_to_mqtt low_first (uint32_to_modbus low_first val 2) ≡ some (pos (unsigned 32 val)))
unfolding uint32_to_mqtt uint32_to_modbus
uint32_to_mqtt-uint32_to_modbus true val =
    let b = unsigned32-bound val in
    ((omega arith, (omega (arith, b), tt)), ap (λ n. some (pos n)) (omega (arith, b)))
uint32_to_mqtt-uint32_to_modbus false val =
    let b = unsigned32-bound val in
    ((omega (arith, b), (omega arith, tt)), ap (λ n. some (pos n)) (omega (arith, b)))

-- The two bytes of a register, read as unsigned numbers, make up the register, and as signed numbers
-- they are the two's complement readings.
pub int8_to_mqtt_lem :
    (v : ℕ) (rs : List ℕ)
    → IsRegister v
    → (high : ℕ) × (low : ℕ) × (v ≡ high * 256 + low)
      × (high < 256)
      × (low < 256)
      × (uint8_to_mqtt true (v ∷ rs) ≡ some (pos high))
      × (uint8_to_mqtt false (v ∷ rs) ≡ some (pos low))
      × (int8_to_mqtt true (v ∷ rs) ≡ some (signed 8 high))
      × (int8_to_mqtt false (v ∷ rs) ≡ some (signed 8 low))
unfolding uint8_to_mqtt int8_to_mqtt
int8_to_mqtt_lem v rs h =
    (v / 256 % 256, v % 256, omega (arith, h), omega arith, omega arith, refl, refl, refl, refl)

-- A bit number that `setArgValues` accepts is 0 or from 1 to 16. From 1 on the converter gives the bit
-- of the register, 0 or 1, at that place; for 0 the shift is undefined.
pub bit_to_mqtt_lem :
    (number : ℤ) (n v : ℕ) (rs : List ℕ)
    → set_bit_number number ≡ some n
    → ((n ≡ 0) × (bit_to_mqtt n (v ∷ rs) ≡ none))
      ⊎ ((1 ≤ n)
          × (n ≤ 16)
          × ((b : ℕ) × (bit_to_mqtt n (v ∷ rs) ≡ some (pos b))
              × (b < 2)
              × ((above : ℕ) × (v / 2 ^ (n - 1) ≡ above * 2 + b))))
unfolding set_bit_number bit_to_mqtt
bit_to_mqtt_lem (negsuc m) n v rs h = absurd (ground arith)
bit_to_mqtt_lem (pos m) zero v rs h = inl (refl, refl)
bit_to_mqtt_lem (pos m) (suc n) v rs h =
    let some_bit : (suc n == 0) ≡ false = ground arith in
    let w = v / 2 ^ (suc n - 1) in
    inr (omega arith, ground arith, (w % 2, rw some_bit refl, omega arith, (w / 2, quotient w)))
  where
    quotient : (w : ℕ) → w ≡ w / 2 * 2 + w % 2
    quotient w = omega arith
