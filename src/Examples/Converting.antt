-- ===== src/Examples/Converting.antt =====
-- The converters.
use mqmgateway.Base.{negsuc, ℕ, ◌≡◌, ◌⊎◌, true, false, none, some, List, arith, length, All}
use mqmgateway.Convert.{int16_to_mqtt, is_int16, int16_to_modbus, int32_to_mqtt, int32_to_modbus}
use mqmgateway.Convert.Bytes.{IsRegister}
use mqmgateway.Convert.RoundTrip.{int32_to_mqtt-int32_to_modbus}
use mqmgateway.Convert.Short.{int16_to_mqtt-int16_to_modbus}

-- -2 in two registers.
int16_to_mqtt-int16_to_modbus_example :
    ((is_int16 (negsuc 1) ≡ false) × (int16_to_modbus true (negsuc 1) 2 ≡ none))
    ⊎ ((is_int16 (negsuc 1) ≡ true)
        × ((rs : List ℕ) × (int16_to_modbus true (negsuc 1) 2 ≡ some rs)
            × (length rs ≡ 2)
            × All IsRegister rs
            × (int16_to_mqtt true rs ≡ some (negsuc 1))))
int16_to_mqtt-int16_to_modbus_example = int16_to_mqtt-int16_to_modbus true (negsuc 1) 1

int32_to_mqtt-int32_to_modbus_example :
    All IsRegister (int32_to_modbus true true (negsuc 70000) 2)
    × (int32_to_mqtt true true (int32_to_modbus true true (negsuc 70000) 2) ≡ some (negsuc 70000))
int32_to_mqtt-int32_to_modbus_example =
    int32_to_mqtt-int32_to_modbus true true (negsuc 70000) (omega arith)
