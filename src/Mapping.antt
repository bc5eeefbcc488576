-- ===== src/Mapping.antt =====
-- stdconv/map.hpp and map.cpp: the converter that maps the values of a register to integers and texts,
-- and the parser of its argument. A character is its byte. `none` is a `ConvException`, or undefined
-- behaviour where the parser takes the top of an empty stack.
pub mod Parser
pub mod Injective
pub mod Distinct
pub mod Inverse
pub mod Print
pub mod RoundTrip
use mqmgateway.Base.{
  ℤ, pos, ℕ, Bool, true, false, not, ◌||◌, Option, none, some, List, [], ◌∷◌, ◌++◌, ◌==◌,
  if◌then◌else◌, ◌>>=◌, length,
}
use mqmgateway.Convert.{signed, unsigned, get_value, int16_to_modbus}
use mqmgateway.Value.{
  MqttValue, binary, int, strtol, c_str, get_int, get_uint16, get_string, same_int, same_text,
}

-- The union of the source and its tag; `mStr` ends before the first null.
pub data MqttVariant : Type 0 where
  int_variant : ℤ → MqttVariant
  str_variant : List ℕ → MqttVariant

pub record Mapping : Type 0 where
  pub register_value : ℕ
  pub mqtt_value : MqttVariant

pub data AState : Type 0 where
  scan_state key_state escape_state value_state : AState

pub data AValueType : Type 0 where
  no_type int_type string_type : AValueType

-- The parser, with the map that it fills. The top of the stack comes first.
pub record MapParser : Type 0 where
  pub current_state : List AState
  pub key_text : List ℕ
  pub value_type : AValueType
  pub value_text : List ℕ
  pub mappings : List Mapping

unfoldable pub find_reg_value : ℕ → List Mapping → Option Mapping
find_reg_value v [] = none
find_reg_value v (m ∷ ms) = if m.register_value == v then some m else find_reg_value v ms

-- The lambda of `addMapping`.
abbrev pub same_variant : MqttVariant → MqttVariant → Bool
same_variant (int_variant a) (int_variant b) = same_int a b
same_variant (int_variant a) (str_variant t) = false
same_variant (str_variant s) (int_variant b) = false
same_variant (str_variant s) (str_variant t) = same_text s t

unfoldable pub has_variant : MqttVariant → List Mapping → Bool
has_variant v [] = false
has_variant v (m ∷ ms) = same_variant v m.mqtt_value || has_variant v ms

-- `std::atoi`, of the standard library.
unfoldable pub atoi : List ℕ → ℤ
unfolding strtol c_str
atoi text = signed 32 (unsigned 32 (strtol (c_str text) 10).0)

abbrev pub push_state : AState → MapParser → MapParser
push_state s p = record p { current_state = s ∷ p.current_state }

abbrev pub pop_from : List AState → MapParser → Option MapParser
pop_from [] p = none
pop_from (s ∷ rest) p = some (record p { current_state = rest })

abbrev pub pop_state : MapParser → Option MapParser
pop_state p = pop_from p.current_state p

abbrev pub add_to_key : ℕ → MapParser → MapParser
add_to_key c p = record p { key_text = p.key_text ++ c ∷ [] }

abbrev pub add_to_value : ℕ → MapParser → MapParser
add_to_value c p = record p { value_text = p.value_text ++ c ∷ [] }

-- `addEscapedChar`: the state below the top tells where the character goes.
abbrev pub add_escaped_to : ℕ → List AState → MapParser → Option MapParser
add_escaped_to c (s ∷ key_state ∷ rest) p =
    some (add_to_key c (record p { current_state = key_state ∷ rest }))
add_escaped_to c (s ∷ value_state ∷ rest) p =
    some (add_to_value c (record p { current_state = value_state ∷ rest }))
add_escaped_to c _ p = none

abbrev pub add_escaped_char : ℕ → MapParser → Option MapParser
add_escaped_char c p = add_escaped_to c p.current_state p

abbrev pub is_int_type : AValueType → Bool
is_int_type int_type = true
is_int_type _ = false

abbrev pub is_no_type : AValueType → Bool
is_no_type no_type = true
is_no_type _ = false

abbrev pub variant_of : AValueType → List ℕ → MqttVariant
variant_of int_type text = int_variant (atoi text)
variant_of _ text = str_variant (c_str text)

abbrev pub is_empty_text : List ℕ → Bool
is_empty_text [] = true
is_empty_text (c ∷ cs) = false

abbrev pub is_found : Option Mapping → Bool
is_found (some m) = true
is_found none = false

unfoldable pub add_mapping : MapParser → Option MapParser
unfolding find_reg_value has_variant atoi get_uint16 c_str
add_mapping p =
    if is_empty_text p.key_text
    then none
    else (get_uint16 (binary p.key_text) >>= λ reg.
        let v = variant_of p.value_type p.value_text in
        if is_found (find_reg_value reg p.mappings) || has_variant v p.mappings
        then none
        else pop_state (record p {
          value_type = no_type;
          key_text = [];
          value_text = [];
          mappings = p.mappings ++ record { register_value = reg; mqtt_value = v } ∷ [];
        }))

abbrev pub value_of : MqttVariant → MqttValue
value_of (int_variant n) = int n
value_of (str_variant t) = binary t

unfoldable pub map_to_mqtt : List Mapping → List ℕ → Option MqttValue
unfolding find_reg_value
map_to_mqtt ms registers =
    if not (length registers == 1)
    then none
    else (get_value registers 0 >>= λ reg. elim (find_reg_value reg ms) [
      | none ↦ some (int (pos reg))
      | some m ↦ some (value_of m.mqtt_value)
    ])

-- Whether a value is the one of an entry; `none` if it cannot be converted to the entry's type.
unfoldable pub matches_value : MqttValue → MqttVariant → Option Bool
unfolding get_int get_string
matches_value v (int_variant n) = get_int v >>= λ z. some (same_int n z)
matches_value v (str_variant t) = get_string v >>= λ text. some (same_text t text)

unfoldable pub find_variant : MqttValue → List Mapping → Option (Option Mapping)
unfolding matches_value
find_variant v [] = some none
find_variant v (m ∷ ms) =
    let rest = find_variant v ms in
    matches_value v m.mqtt_value >>= λ found. if found then some (some m) else rest

-- The flag of the new `Int16Converter` is false.
unfoldable pub map_to_modbus : List Mapping → MqttValue → ℕ → Option (List ℕ)
unfolding find_variant get_int int16_to_modbus
map_to_modbus ms v count =
    if not (count == 1)
    then none
    else (find_variant v ms >>= λ found. elim found [
      | none ↦ get_int v >>= λ z. int16_to_modbus false z count
      | some m ↦ some (m.register_value ∷ [])
    ])
