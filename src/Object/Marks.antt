-- ===== src/Object/Marks.antt =====
-- A failure that reaches below the registers of its message.
use Prim.Native.String.{String}
use mqmgateway.Address.{overlaps, ModbusMessageBase}
use mqmgateway.Base.{◌+◌, ◌^◌, ◌<◌, ◌≡◌, true, false, arith}
use mqmgateway.Object.{
  MqttObjectRegisterIdent, as_modbus_address_range, MqttObjectRegisterValue, is_of_slave,
  update_read_failed,
}

-- A failed read also marks registers that it does not read: those below its first register, less than its
-- count away.
pub update_read_failed_below :
    (network : String) (base : ModbusMessageBase) (i : MqttObjectRegisterIdent)
    (v : MqttObjectRegisterValue)
    → is_of_slave network base i ≡ true
    → base.range.register < 2 ^ 16
    → i.register_number < base.range.register
    → base.range.register < i.register_number + base.range.count
    → ((update_read_failed network base i v).0.read_ok ≡ false)
      × ((update_read_failed network base i v).1 ≡ true)
      × (overlaps base.range (as_modbus_address_range i) ≡ false)
unfolding update_read_failed overlaps
update_read_failed_below network base i v same fits_16 below close =
    (ground arith, ground arith, ground arith)
