-- ===== src/Convert.antt =====
-- The integer converters of stdconv: int16.hpp, int32.hpp, uint32.hpp, int8.hpp and bits.hpp, with
-- libmodmqttconv/convtools.hpp and modbusregisters.hpp. A register is a number below 65536, an
-- integer is the ℤ that an `MqttValue` of type INT or INT64 holds. `none` is a `ConvException`, or
-- undefined behaviour where a missing register is read or a shift is negative. The parsing of the
-- arguments (`swap_bytes`, `low_first`, `first`, `mask`) is left out: the flags are arguments.
pub mod Bytes
pub mod RoundTrip
pub mod Short
use mqmgateway.Base.{
  ℤ, pos, negsuc, ℕ, zero, suc, ◌+◌, ◌-◌, ◌*◌, ◌%◌, ◌/◌, ◌^◌, Bool, true, false, not, ◌&&◌, Option,
  none, some, List, [], ◌∷◌, ltb, ◌==◌, if◌then◌else◌, ◌>>=◌, length, get_elem?,
}

-- The two's complement reading of a number below 2 ^ w.
abbrev pub signed : ℕ → ℕ → ℤ
signed w v = if ltb v (2 ^ (w - 1)) then pos v else negsuc ((2 ^ w - 1) - v)

-- The conversion of an integer to `w` unsigned bits.
abbrev pub unsigned : ℕ → ℤ → ℕ
unsigned w (pos n) = n % 2 ^ w
unsigned w (negsuc n) = (2 ^ w - 1) - n % 2 ^ w

-- `ModbusRegisters::getValue`; out of range it is undefined.
abbrev pub get_value : List ℕ → ℕ → Option ℕ
get_value regs i = get_elem? regs i

-- `ConverterTools::setByteOrder`.
unfoldable pub set_byte_order : ℕ → Bool → ℕ
set_byte_order value swap = if not swap then value else (value % 256) * 256 + (value / 256) % 256

unfoldable pub swap_byte_order : List ℕ → List ℕ
unfolding set_byte_order
swap_byte_order [] = []
swap_byte_order (r ∷ rs) = set_byte_order r true ∷ swap_byte_order rs

-- `ConverterTools::registersToInt32`, on 32 bits.
unfoldable pub registers_to_int32 : List ℕ → Bool → Bool → Option ℤ
unfolding set_byte_order
registers_to_int32 regs low_first swap =
    let two = ltb 1 (length regs) in
    let (high, low) : ℕ × ℕ = if low_first && two then (1, 0) else (0, 1) in
    get_value regs high >>= λ h.
    (if two
      then (get_value regs low >>= λ l.
          some (signed 32 ((set_byte_order h swap * 65536 + set_byte_order l swap) % 2 ^ 32)))
      else some (pos (set_byte_order h swap)))

-- `ConverterTools::int32ToRegisters`. The shift of a negative number is arithmetic.
unfoldable pub int32_to_registers : ℤ → Bool → Bool → ℕ → List ℕ
unfolding set_byte_order
int32_to_registers val low_first swap register_count =
    let low = set_byte_order (unsigned 16 val) swap in
    let high = set_byte_order (unsigned 32 val / 65536) swap in
    if register_count == 2
    then (if not low_first then high ∷ low ∷ [] else low ∷ high ∷ [])
    else low ∷ []

-- The loop of `toModbus` that repeats a value.
abbrev pub repeat : ℕ → ℕ → List ℕ
repeat zero v = []
repeat (suc n) v = v ∷ repeat n v

unfoldable pub int16_to_mqtt : Bool → List ℕ → Option ℤ
int16_to_mqtt swap regs = get_value regs 0 >>= λ v. some (signed 16 (set_byte_order v swap))

-- `val < INT16_MIN || val > INT16_MAX`.
abbrev pub is_int16 : ℤ → Bool
is_int16 (pos n) = ltb n 32768
is_int16 (negsuc n) = ltb n 32768

unfoldable pub int16_to_modbus : Bool → ℤ → ℕ → Option (List ℕ)
int16_to_modbus swap val count =
    if not (is_int16 val) then none else some (repeat count (set_byte_order (unsigned 16 val) swap))

unfoldable pub uint16_to_mqtt : Bool → List ℕ → Option ℤ
uint16_to_mqtt swap regs = get_value regs 0 >>= λ v. some (pos (set_byte_order v swap))

abbrev pub is_uint16 : ℤ → Bool
is_uint16 (pos n) = ltb n 65536
is_uint16 (negsuc n) = false

unfoldable pub uint16_to_modbus : Bool → ℤ → ℕ → Option (List ℕ)
uint16_to_modbus swap val count =
    if not (is_uint16 val)
    then none
    else some (repeat count (set_byte_order (unsigned 16 val) swap))

unfoldable pub int32_to_mqtt : Bool → Bool → List ℕ → Option ℤ
int32_to_mqtt low_first swap regs = registers_to_int32 regs low_first swap

unfoldable pub int32_to_modbus : Bool → Bool → ℤ → ℕ → List ℕ
int32_to_modbus low_first swap val count = int32_to_registers val low_first swap count

-- `mHighByte` and `mLowByte` are 1 and 0 with `low_first`, else 0 and 1.
unfoldable pub uint32_to_mqtt : Bool → List ℕ → Option ℤ
uint32_to_mqtt low_first regs =
    let two = ltb 1 (length regs) in
    let (high, low) : ℕ × ℕ = if two then (if low_first then (1, 0) else (0, 1)) else (0, 0) in
    get_value regs high >>= λ h.
    (if two
      then (get_value regs low >>= λ l. some (pos ((h * 65536 + l) % 2 ^ 32)))
      else some (pos h))

unfoldable pub uint32_to_modbus : Bool → ℤ → ℕ → List ℕ
uint32_to_modbus low_first val register_count =
    let low = unsigned 32 val % 65536 in
    let high = unsigned 32 val / 65536 in
    if register_count == 2
    then (if not low_first then high ∷ low ∷ [] else low ∷ high ∷ [])
    else low ∷ []

-- `val >> 8` with `first`.
abbrev pub int8_byte : Bool → ℕ → ℕ
int8_byte first v = if first then v / 256 else v

unfoldable pub int8_to_mqtt : Bool → List ℕ → Option ℤ
int8_to_mqtt first regs = get_value regs 0 >>= λ v. some (signed 8 (int8_byte first v % 256))

unfoldable pub uint8_to_mqtt : Bool → List ℕ → Option ℤ
uint8_to_mqtt first regs = get_value regs 0 >>= λ v. some (pos (int8_byte first v % 256))

-- `BitConverter::setArgValues`: 0 passes although the message asks for a number from 1.
unfoldable pub set_bit_number : ℤ → Option ℕ
set_bit_number (pos n) = if ltb 16 n then none else some n
set_bit_number (negsuc n) = none

-- `data.getValue(0) >> (bitNumber - 1) & 0x1`; a shift by -1 is undefined.
unfoldable pub bit_to_mqtt : ℕ → List ℕ → Option ℤ
bit_to_mqtt bit_number regs = get_value regs 0 >>= λ v.
    (if bit_number == 0 then none else some (pos ((v / 2 ^ (bit_number - 1)) % 2)))
