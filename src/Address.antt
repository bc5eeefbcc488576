-- ===== src/Address.antt =====
-- libmodmqttsrv/modbus_types.hpp and modbus_types.cpp: register types, address ranges and the
-- base class of the messages. Register numbers and counts are the non-negative values that the
-- configuration and the messages carry; `last_register` of an empty range is one too large only
-- at register 0, and the theorems take ranges with a positive count.
pub mod Laws
use mqmgateway.Base.{
  ℤ, pos, negsuc, ℕ, ◌+◌, ◌-◌, Bool, true, false, not, ◌&&◌, ◌||◌, leb, ◌==◌, if◌then◌else◌,
}

pub data RegisterType : Type 0 where
  coil bit holding input : RegisterType

-- The values of the C++ enumeration.
abbrev pub type_code : RegisterType → ℕ
type_code coil = 1
type_code bit = 2
type_code holding = 3
type_code input = 4

abbrev pub same_type : RegisterType → RegisterType → Bool
same_type a b = type_code a == type_code b

pub record ModbusAddressRange : Type 0 where
  pub register : ℕ
  pub count : ℕ
  pub register_type : RegisterType

abbrev pub first_register : ModbusAddressRange → ℕ
first_register r = r.register

abbrev pub last_register : ModbusAddressRange → ℕ
last_register r = (r.register + r.count) - 1

unfoldable pub overlaps : ModbusAddressRange → ModbusAddressRange → Bool
overlaps r poll =
    if not (same_type r.register_type poll.register_type)
    then false
    else leb (first_register r) (last_register poll) && leb (first_register poll) (last_register r)

unfoldable pub merge_range : ModbusAddressRange → ModbusAddressRange → ModbusAddressRange
merge_range r other =
    let first =
      if leb (first_register r) (first_register other)
      then first_register r
      else first_register other in
    let last =
      if leb (last_register other) (last_register r)
      then last_register r
      else last_register other in
    record r { register = first; count = (last - first) + 1 }

-- The register types are not compared here.
unfoldable pub is_consecutive_of : ModbusAddressRange → ModbusAddressRange → Bool
is_consecutive_of r other =
    (last_register r + 1 == first_register other) || (last_register other + 1 == first_register r)

unfoldable pub is_same_as : ModbusAddressRange → ModbusAddressRange → Bool
is_same_as r other =
    if not (same_type r.register_type other.register_type)
    then false
    else (r.register == other.register) && (r.count == other.count)

unfoldable pub contains : ModbusAddressRange → ModbusAddressRange → Bool
contains r other =
    if not (same_type r.register_type other.register_type)
    then false
    else leb (first_register r) (first_register other)
      && leb (last_register other) (last_register r)

pub record ModbusMessageBase : Type 0 where
  pub range : ModbusAddressRange
  pub open range use *
  pub slave_id : ℕ
  pub command_id : ℤ

abbrev pub has_command_id : ModbusMessageBase → Bool
has_command_id m = elim m.command_id [ pos n ↦ not (n == 0) | negsuc n ↦ true ]

-- A negative command id marks a request of the RPC interface.
abbrev pub is_rpc : ModbusMessageBase → Bool
is_rpc m = elim m.command_id [ pos n ↦ false | negsuc n ↦ true ]
