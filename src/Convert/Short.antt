-- ===== src/Convert/Short.antt =====
-- The 16-bit integers of int16.hpp, written to a device and read back.
use mqmgateway.Base.{
  ℤ, pos, negsuc, ℕ, zero, suc, ◌≡◌, refl, ap, ◌∙◌, ◌⊎◌, inl, inr, Bool, true, false, none, some,
  List, arith, Bool-cases, length, All,
}
use mqmgateway.Convert.{
  signed, unsigned, set_byte_order, repeat, int16_to_mqtt, is_int16, int16_to_modbus,
  uint16_to_mqtt, is_uint16, uint16_to_modbus,
}
use mqmgateway.Convert.Bytes.{IsRegister, set_byte_order-set_byte_order}

pub unsigned-IsRegister : (val : ℤ) → IsRegister (unsigned 16 val)
unsigned-IsRegister (pos n) = omega arith
unsigned-IsRegister (negsuc n) = omega arith

signed-unsigned16 : (val : ℤ) → is_int16 val ≡ true → signed 16 (unsigned 16 val) ≡ val
signed-unsigned16 (pos n) h = ground arith
signed-unsigned16 (negsuc n) h = ground arith

length-repeat : (n v : ℕ) → length (repeat n v) ≡ n
length-repeat zero v = refl
length-repeat (suc n) v = omega (arith, length-repeat n v)

repeat-All : (P : ℕ → Type 0) (n v : ℕ) → P v → All P (repeat n v)
repeat-All P zero v h = tt
repeat-All P (suc n) v h = (h, repeat-All P n v h)

-- A 16-bit integer is refused when it is out of range. Otherwise as many registers are written as
-- there are, at least one, and reading them back with the same byte order gives the integer.
pub int16_to_mqtt-int16_to_modbus :
    (swap : Bool) (val : ℤ) (count : ℕ)
    → ((is_int16 val ≡ false) × (int16_to_modbus swap val (suc count) ≡ none))
      ⊎ ((is_int16 val ≡ true)
          × ((rs : List ℕ) × (int16_to_modbus swap val (suc count) ≡ some rs)
              × (length rs ≡ suc count)
              × All IsRegister rs
              × (int16_to_mqtt swap rs ≡ some val)))
unfolding int16_to_modbus int16_to_mqtt
int16_to_mqtt-int16_to_modbus swap val count = elim (Bool-cases (is_int16 val)) [
  | inr out ↦ inl (out, rw out refl)
  | inl fits ↦
      let (bound, twice) =
        set_byte_order-set_byte_order (unsigned 16 val) swap (unsigned-IsRegister val) in
      let v = set_byte_order (unsigned 16 val) swap in
      inr (
        fits,
        (
          repeat (suc count) v,
          rw fits refl,
          length-repeat (suc count) v,
          repeat-All IsRegister (suc count) v bound,
          ap some (ap (signed 16) twice ∙ signed-unsigned16 val fits),
        ),
      )
]

-- The same of unsigned 16-bit integers.
pub uint16_to_mqtt-uint16_to_modbus :
    (swap : Bool) (val : ℤ) (count : ℕ)
    → ((is_uint16 val ≡ false) × (uint16_to_modbus swap val (suc count) ≡ none))
      ⊎ ((is_uint16 val ≡ true)
          × ((rs : List ℕ) × (uint16_to_modbus swap val (suc count) ≡ some rs)
              × (length rs ≡ suc count)
              × All IsRegister rs
              × (uint16_to_mqtt swap rs ≡ some val)))
unfolding uint16_to_modbus uint16_to_mqtt
uint16_to_mqtt-uint16_to_modbus swap val count = elim (Bool-cases (is_uint16 val)) [
  | inr out ↦ inl (out, rw out refl)
  | inl fits ↦
      let (bound, twice) =
        set_byte_order-set_byte_order (unsigned 16 val) swap (unsigned-IsRegister val) in
      let v = set_byte_order (unsigned 16 val) swap in
      inr (
        fits,
        (
          repeat (suc count) v,
          rw fits refl,
          length-repeat (suc count) v,
          repeat-All IsRegister (suc count) v bound,
          ap (λ n. some (pos n)) twice ∙ ap some (pos-unsigned16 val fits),
        ),
      )
]
  where
    pos-unsigned16 : (i : ℤ) → is_uint16 i ≡ true → pos (unsigned 16 i) ≡ i
    pos-unsigned16 (pos n) h = ground arith
    pos-unsigned16 (negsuc n) h = absurd (ground arith)
