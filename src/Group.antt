-- ===== src/Group.antt =====
-- `MsgRegisterPollSpecification::group` of libmodmqttsrv/modbus_messages.cpp: consecutive registers
-- of one slave and type become one poll. The maps are association lists with ascending keys; the
-- register types are keyed by their enumeration values. `std::sort` leaves the order of entries
-- with equal register numbers open; the insertion sort here keeps it.
pub mod Slots
pub mod Cover
pub mod Separate
use mqmgateway.Address.{type_code, is_consecutive_of}
use mqmgateway.Base.{ℕ, Bool, List, [], ◌∷◌, ◌++◌, ltb, if◌then◌else◌, update}
use mqmgateway.Poll.{MsgRegisterPoll, merge_poll, MsgRegisterPollSpecification}

abbrev pub TypeMap : Type 0
TypeMap = List (ℕ × List MsgRegisterPoll)

abbrev pub SlaveMap : Type 0
SlaveMap = List (ℕ × TypeMap)

-- `map[reg.mSlaveId][reg.mRegisterType].push_back(reg)`, from the inside.
abbrev pub push_back : MsgRegisterPoll → List MsgRegisterPoll → List MsgRegisterPoll
push_back reg regs = regs ++ reg ∷ []

abbrev pub push_type : MsgRegisterPoll → TypeMap → TypeMap
push_type reg types = update (type_code reg.register_type) [] (push_back reg) types

unfoldable pub push_register : MsgRegisterPoll → SlaveMap → SlaveMap
push_register reg m = update reg.slave_id [] (push_type reg) m

unfoldable pub collect : List MsgRegisterPoll → SlaveMap → SlaveMap
collect [] m = m
collect (reg ∷ regs) m = collect regs (push_register reg m)

abbrev pub register_number_compare : MsgRegisterPoll → MsgRegisterPoll → Bool
register_number_compare a b = ltb a.register b.register

unfoldable pub insert_sorted : MsgRegisterPoll → List MsgRegisterPoll → List MsgRegisterPoll
insert_sorted p [] = p ∷ []
insert_sorted p (q ∷ qs) =
    if register_number_compare q p then q ∷ insert_sorted p qs else p ∷ q ∷ qs

unfoldable pub sort : List MsgRegisterPoll → List MsgRegisterPoll
sort [] = []
sort (p ∷ ps) = insert_sorted p (sort ps)

-- The loop over the sorted registers; `group` is what `group_it` points at, the last group.
unfoldable pub group_from : MsgRegisterPoll → List MsgRegisterPoll → List MsgRegisterPoll
group_from group [] = group ∷ []
group_from group (reg ∷ regs) =
    let joins = is_consecutive_of group.base.range reg.base.range in
    let rest = group_from (if joins then merge_poll group reg else reg) regs in
    if joins then rest else group ∷ rest

abbrev pub group_list : List MsgRegisterPoll → List MsgRegisterPoll
group_list [] = []
group_list (reg ∷ regs) = group_from reg regs

unfoldable pub group_types : TypeMap → List MsgRegisterPoll
group_types [] = []
group_types ((t, regs) ∷ m) = group_list (sort regs) ++ group_types m

unfoldable pub group_slaves : SlaveMap → List MsgRegisterPoll
group_slaves [] = []
group_slaves ((s, types) ∷ m) = group_types types ++ group_slaves m

unfoldable pub group_registers : List MsgRegisterPoll → List MsgRegisterPoll
group_registers regs = group_slaves (collect regs [])

unfoldable pub group : MsgRegisterPollSpecification → MsgRegisterPollSpecification
group spec = record spec { registers = group_registers spec.registers }
