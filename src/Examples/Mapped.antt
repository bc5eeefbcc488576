-- ===== src/Examples/Mapped.antt =====
-- The converter that maps values.
use mqmgateway.Base.{ℕ, ◌≡◌, refl, inr, some, List, [], ◌∷◌, arith, Pairs}
use mqmgateway.Client.Rpc.{codes}
use mqmgateway.Mapping.{str_variant, Mapping, find_reg_value, map_to_mqtt, map_to_modbus}
use mqmgateway.Mapping.Distinct.{parse_map-IsInjective}
use mqmgateway.Mapping.Injective.{Differ, IsInjective}
use mqmgateway.Mapping.Inverse.{map_to_modbus-map_to_mqtt}
use mqmgateway.Mapping.Parser.{parse_from, parse_map}
use mqmgateway.Mapping.Print.{print_map}
use mqmgateway.Mapping.RoundTrip.{parse_map-print_map}
use mqmgateway.Value.{MqttValue}

abbrev states : List Mapping
states =
    record { register_value = 1; mqtt_value = str_variant (codes "a}") }
    ∷ record { register_value = 20; mqtt_value = str_variant (codes "b\"") }
    ∷ []

abbrev states_text : List ℕ
states_text = codes "{1:\"a\\}\", 20:\"b\\\"\"}"

parse_map-IsInjective_example : IsInjective states
unfolding parse_map parse_from
parse_map-IsInjective_example = parse_map-IsInjective states_text states refl

map_to_modbus-map_to_mqtt_example :
    (v : MqttValue) × (map_to_mqtt states (20 ∷ []) ≡ some v)
    × (map_to_modbus states v 1 ≡ some (20 ∷ []))
unfolding parse_map parse_from find_reg_value
map_to_modbus-map_to_mqtt_example =
    map_to_modbus-map_to_mqtt states_text states 20 refl (inr (tt, (tt, tt))) refl

states-Differ : Pairs Differ states
unfolding parse_map parse_from
states-Differ = (parse_map-IsInjective states_text states refl).0

parse_map-print_map_example : parse_map (print_map states) ≡ some states
parse_map-print_map_example =
    parse_map-print_map states
      (
        (omega arith, ((λ e. omega (arith, e)), ((λ e. omega (arith, e)), tt))),
        ((omega arith, ((λ e. omega (arith, e)), ((λ e. omega (arith, e)), tt))), tt),
      )
      states-Differ
