-- ===== src/Object/History.antt =====
-- The registers of an object against the messages that were received: what the tree of nodes
-- implements, without the tree.
use Prim.Native.String.{String}
use text.Mathlib.Text.{◌==◌ as str_eq}
use mqmgateway.Address.{ModbusMessageBase}
use mqmgateway.Base.{
  ℕ, zero, suc, ◌+◌, ◌-◌, ◌^◌, ◌≤◌, ◌<◌, ◌≡◌, sym, subst, inl, inr, Bool, true, false, ◌&&◌, Option,
  none, some, List, [], ◌∷◌, arith, ltb, leb, if◌then◌else◌, Option-cases, length, get_elem?,
  get_elem?-lt,
}
use mqmgateway.Command.{MsgRegisterValues}
use mqmgateway.Object.{
  MqttObjectRegisterIdent, MqttObjectRegisterValue, set_value, set_read_error, Visitor, is_of_slave,
  update_value, update_read_failed, set_network_state,
}
use mqmgateway.Object.Flag.{ObjectEvent, values_received, operation_failed, network_changed}

-- What is known of a register: the last value that was delivered, and whether its last read was fine.
pub record Status : Type 0 where
  pub value : Option ℕ
  pub ok : Bool

abbrev pub initial_status : Status
initial_status = record { value = none; ok = true }

-- The value that a message delivers for a register.
abbrev pub delivered : String → MsgRegisterValues → MqttObjectRegisterIdent → Option ℕ
delivered network msg i =
    if is_of_slave network msg.base i && leb msg.base.range.register i.register_number
    then get_elem? msg.registers (i.register_number - msg.base.range.register)
    else none

-- Whether a failure marks a register: as many registers to either side of the first one as the range
-- has.
abbrev pub is_marked : String → ModbusMessageBase → MqttObjectRegisterIdent → Bool
is_marked network base i =
    is_of_slave network base i
    && ltb i.register_number (base.range.register + base.range.count)
    && ltb base.range.register (i.register_number + base.range.count)

abbrev pub next_status : ObjectEvent → MqttObjectRegisterIdent → Status → Status
next_status (values_received network msg) i s = elim (delivered network msg i) [
  | none ↦ s
  | some v ↦ record { value = some v; ok = true }
]
next_status (operation_failed network base) i s =
    if is_marked network base i then record s { ok = false } else s
next_status (network_changed network is_up) i s =
    if str_eq network i.network_name then record s { ok = is_up } else s

abbrev pub status_from : List ObjectEvent → MqttObjectRegisterIdent → Status → Status
status_from [] i s = s
status_from (e ∷ es) i s = status_from es i (next_status e i s)

-- The messages have as many registers as their ranges, and register numbers have 16 bits.
abbrev pub IsMessage : ObjectEvent → Type 0
IsMessage (values_received network msg) = length msg.registers ≡ msg.base.range.count
IsMessage (operation_failed network base) = base.range.register < 2 ^ 16
IsMessage (network_changed network is_up) = Unit {0}

abbrev pub HoldsValue : Option ℕ → MqttObjectRegisterValue → Type 0
HoldsValue none v = v.has_value ≡ false
HoldsValue (some x) v = (v.has_value ≡ true) × (v.raw_value ≡ x)

abbrev pub Matches : Status → MqttObjectRegisterIdent → MqttObjectRegisterValue → Type 0
Matches s i v = (i.register_number < 2 ^ 16) × (v.read_ok ≡ s.ok) × HoldsValue s.value v

unfoldable pub visitor_of : ObjectEvent → Visitor
visitor_of (values_received network msg) = update_value network msg
visitor_of (operation_failed network base) = update_read_failed network base
visitor_of (network_changed network is_up) = set_network_state network is_up

get_elem?-ge : (xs : List ℕ) (i : ℕ) → get_elem? xs i ≡ none → length xs ≤ i
get_elem?-ge [] i h = omega arith
get_elem?-ge (x ∷ xs) zero h = cc
get_elem?-ge (x ∷ xs) (suc i) h = omega (arith, get_elem?-ge xs i h)

set_value-Matches :
    (s : Status) (val : ℕ) (i : MqttObjectRegisterIdent) (v : MqttObjectRegisterValue)
    → Matches s i v
    → Matches (record { value = some val; ok = true }) i (set_read_error false (set_value val v).0)
unfolding set_value
set_value-Matches s val i v h = ground arith

abbrev store_value : Option ℕ → MqttObjectRegisterValue → MqttObjectRegisterValue
store_value none v = v
store_value (some val) v = set_read_error false (set_value val v).0

update_value-delivered :
    (network : String) (msg : MsgRegisterValues) (i : MqttObjectRegisterIdent)
    (v : MqttObjectRegisterValue)
    → length msg.registers ≡ msg.base.range.count
    → (update_value network msg i v).0 ≡ store_value (delivered network msg i) v
unfolding update_value
update_value-delivered network msg i v l =
    let at = i.register_number - msg.base.range.register in
    elim (Option-cases (get_elem? msg.registers at)) [
      | inl e ↦ ground (arith, e)
      | inr (x, e) ↦ ground (arith, e, l, get_elem?-lt msg.registers at e)
    ]

store_value-Matches :
    (s : Status) (val : Option ℕ) (i : MqttObjectRegisterIdent) (v : MqttObjectRegisterValue)
    → Matches s i v
    → Matches
        (elim val [ none ↦ s | some x ↦ record { value = some x; ok = true } ])
        i
        (store_value val v)
store_value-Matches s none i v h = h
store_value-Matches s (some x) i v h = set_value-Matches s x i v h

update_value-Matches :
    (network : String) (msg : MsgRegisterValues) (s : Status) (i : MqttObjectRegisterIdent)
    (v : MqttObjectRegisterValue)
    → length msg.registers ≡ msg.base.range.count
    → Matches s i v
    → Matches (next_status (values_received network msg) i s) i (update_value network msg i v).0
update_value-Matches network msg s i v l h =
    subst (Matches (next_status (values_received network msg) i s) i)
      (sym (update_value-delivered network msg i v l))
      (store_value-Matches s (delivered network msg i) i v h)

update_read_failed-Matches :
    (network : String) (base : ModbusMessageBase) (s : Status) (i : MqttObjectRegisterIdent)
    (v : MqttObjectRegisterValue)
    → base.range.register < 2 ^ 16
    → Matches s i v
    → Matches
        (next_status (operation_failed network base) i s)
        i
        (update_read_failed network base i v).0
unfolding update_read_failed
update_read_failed-Matches network base s i v l h = ground arith

set_network_state-Matches :
    (network : String) (is_up : Bool) (s : Status) (i : MqttObjectRegisterIdent)
    (v : MqttObjectRegisterValue)
    → Matches s i v
    → Matches
        (next_status (network_changed network is_up) i s)
        i
        (set_network_state network is_up i v).0
unfolding set_network_state
set_network_state-Matches network is_up s i v h = ground arith

pub visitor-Matches :
    (e : ObjectEvent) (s : Status) (i : MqttObjectRegisterIdent) (v : MqttObjectRegisterValue)
    → IsMessage e
    → Matches s i v
    → Matches (next_status e i s) i (visitor_of e i v).0
unfolding visitor_of
visitor-Matches (values_received network msg) s i v l h = update_value-Matches network msg s i v l h
visitor-Matches (operation_failed network base) s i v l h =
    update_read_failed-Matches network base s i v l h
visitor-Matches (network_changed network is_up) s i v l h =
    set_network_state-Matches network is_up s i v h
