-- ===== src/Client/Rpc.antt =====
-- The fields of an RPC request, as `handleRpcRequest` of mqttclient.cpp checks them, and
-- `registerNumberFromString` of config.hpp. What rapidjson reads in a payload is an argument, and so
-- is `createConverterFromString`. The texts of exceptions that are thrown elsewhere, and the
-- two numbers in the text about a converter's registers, are left out.
use Prim.Native.Char.{code}
use Prim.Native.String.{String, ◌++◌ as append}
use text.Mathlib.Text.{◌==◌ as str_eq}
use mqmgateway.Address.{RegisterType, coil, bit, holding, input}
use mqmgateway.Base.{
  ℤ, pos, negsuc, ℕ, zero, suc, Bool, true, false, not, ◌||◌, Option, none, some, List, [], ◌∷◌,
  leb, ◌==◌, if◌then◌else◌, length, get_elem?,
}
use mqmgateway.Client.{ModbusClient, enqueue}
use mqmgateway.Object.{DataConverter}
use mqmgateway.Thread.Dispatch.{ThreadMessage}
use mqmgateway.Value.{MqttValue, binary, int, int64, double, strtol, c_str, whole, fits, magnitude}

-- The code points of a text, its bytes if it is ASCII.
abbrev pub codes : String → List ℕ
codes String.[] = []
codes (String.◌∷◌ c s) = code c ∷ codes s

-- `ConfigTools::registerNumberFromString`; `stoi` refuses what does not fit 32 bits.
unfoldable pub register_number_from_string : List ℕ → Option ℤ
unfolding strtol
register_number_from_string text =
    let (val, end) = strtol text 0 in
    let is_hex : Bool = elim (get_elem? text 1) [
      | none ↦ false
      | some x ↦ (x == 120) || (x == 88)
    ] in
    elim (whole (val, end)) [
      | none ↦ none
      | some number ↦
          if (length text == 0) || not (fits 32 number)
          then none
          else (if is_hex then some number else elim number [
            | pos zero ↦ none
            | pos (suc n) ↦ some (pos n)
            | negsuc n ↦ some (negsuc (suc n))
          ])
    ]

-- A member of a request. An array has `none` for an element that is no integer.
pub data RpcValue : Type 0 where
  rpc_text : String → RpcValue
  rpc_integer : ℤ → RpcValue
  rpc_double : ℤ → ℕ → RpcValue
  rpc_array : List (Option ℤ) → RpcValue
  rpc_other : RpcValue

pub record RpcDocument : Type 0 where
  pub network : Option RpcValue
  pub slave : Option RpcValue
  pub register : Option RpcValue
  pub register_type : Option RpcValue
  pub converter : Option RpcValue
  pub count : Option RpcValue
  pub value : Option RpcValue

-- The payload of a request: a text that is no JSON, with the message about it, or a value.
pub data RpcPayload : Type 0 where
  parse_error : String → RpcPayload
  no_object : RpcPayload
  document : RpcDocument → RpcPayload

-- `throw std::invalid_argument` with a text.
pub data Checked (A : Type 0) : Type 0 where
  passed : A → Checked A
  refused : String → Checked A

abbrev pub bind_checked : {A B : Type 0} → Checked A → (A → Checked B) → Checked B
bind_checked (passed a) f = f a
bind_checked (refused message) f = refused message

abbrev pub check : Bool → String → Checked (Unit {0})
check true message = passed tt
check false message = refused message

abbrev pub text_member : Option RpcValue → String → Checked String
text_member (some (rpc_text t)) message = passed t
text_member (some (rpc_integer z)) message = refused message
text_member (some (rpc_double m k)) message = refused message
text_member (some (rpc_array es)) message = refused message
text_member (some rpc_other) message = refused message
text_member none message = refused message

-- `IsInt`, a signed integer of 32 bits.
abbrev pub int_member : Option RpcValue → String → Checked ℤ
int_member (some (rpc_integer z)) message = if fits 32 z then passed z else refused message
int_member (some (rpc_text t)) message = refused message
int_member (some (rpc_double m k)) message = refused message
int_member (some (rpc_array es)) message = refused message
int_member (some rpc_other) message = refused message
int_member none message = refused message

abbrev pub register_type_of : Option RpcValue → Checked RegisterType
register_type_of none = passed holding
register_type_of (some v) = bind_checked (text_member (some v) "invalid field: register_type") (λ t.
    if str_eq t "coil"
    then passed coil
    else (if str_eq t "input"
        then passed input
        else (if str_eq t "bit"
            then passed bit
            else (if str_eq t "holding"
                then passed holding
                else refused (append "unknown register_type: " t)))))

-- `none` is the raw value. `create` throws for a converter that is not there.
abbrev pub converter_of :
    (String → Option DataConverter) → Option RpcValue → Checked (Option DataConverter)
converter_of create none = passed none
converter_of create (some v) =
    bind_checked (text_member (some v) "invalid field: converter") (λ spec.
      if str_eq spec "" || str_eq spec "none"
      then passed none
      else elim (create spec) [ none ↦ refused "" | some conv ↦ passed (some conv) ])

abbrev pub register_of : List ℕ → Checked ℤ
register_of text = elim (register_number_from_string text) [ none ↦ refused "" | some n ↦ passed n ]

abbrev pub find_client : String → List ModbusClient → Option ModbusClient
find_client network [] = none
find_client network (client ∷ clients) =
    if str_eq client.network_name network then some client else find_client network clients

abbrev pub has_client : String → List ModbusClient → Bool
has_client network clients = elim (find_client network clients) [
  | none ↦ false
  | some client ↦ true
]

-- The first client of the network gets the message.
unfoldable pub send_to : String → ThreadMessage → List ModbusClient → List ModbusClient
send_to network m [] = []
send_to network m (client ∷ clients) =
    if str_eq client.network_name network
    then enqueue m client ∷ clients
    else client ∷ send_to network m clients

abbrev pub fits_uint16 : ℤ → Bool
fits_uint16 (pos n) = leb n 65535
fits_uint16 (negsuc n) = false

abbrev pub uint16_elements : List (Option ℤ) → Checked (List ℕ)
uint16_elements [] = passed []
uint16_elements (none ∷ es) = refused "value elements must be uint16 integers"
uint16_elements (some z ∷ es) =
    if fits_uint16 z
    then bind_checked (uint16_elements es) (λ vs. passed (magnitude z ∷ vs))
    else refused "value elements must be uint16 integers"

-- The registers of a write without a converter; their count is the count of the request.
unfoldable pub raw_write_values : RpcValue → Checked (List ℕ)
raw_write_values (rpc_integer z) =
    if fits_uint16 z
    then passed (magnitude z ∷ [])
    else refused "value must be a uint16 integer or an array of uint16 values"
raw_write_values (rpc_array es) = uint16_elements es
raw_write_values (rpc_text t) =
    refused "value must be a uint16 integer or an array of uint16 values"
raw_write_values (rpc_double m k) =
    refused "value must be a uint16 integer or an array of uint16 values"
raw_write_values rpc_other = refused "value must be a uint16 integer or an array of uint16 values"

-- `rpcWriteValueFromJson`. An unsigned integer of more than 63 bits is out of range.
unfoldable pub rpc_write_value_from_json : RpcValue → Checked MqttValue
unfolding c_str
rpc_write_value_from_json (rpc_text t) = passed (binary (c_str (codes t)))
rpc_write_value_from_json (rpc_double m k) = passed (double m k none)
rpc_write_value_from_json (rpc_integer z) =
    if fits 32 z
    then passed (int z)
    else (if fits 64 z then passed (int64 z) else refused "value out of range")
rpc_write_value_from_json (rpc_array es) =
    refused "converter write requires a scalar value (number or string)"
rpc_write_value_from_json rpc_other =
    refused "converter write requires a scalar value (number or string)"
