-- ===== src/Poll.antt =====
-- libmodmqttsrv/modbus_messages.hpp and modbus_messages.cpp: the polls that the configuration asks
-- for, and how they are merged and grouped. `INVALID_REFRESH` (-1 ms) is `none`; every other refresh
-- is a number of milliseconds. Debug logging is left out. Slave ids are non-negative.
pub mod Merge
pub mod Cover
pub mod Pairs
pub mod Disjoint
use Prim.Native.String.{String}
use mqmgateway.Address.{overlaps, merge_range, is_same_as, ModbusMessageBase}
use mqmgateway.Base.{
  ℕ, Bool, false, not, ◌&&◌, Option, none, some, List, [], ◌∷◌, ◌++◌, ltb, ◌==◌, if◌then◌else◌,
}

pub data PublishMode : Type 0 where
  on_change every_poll once : PublishMode

pub record MsgRegisterPoll : Type 0 where
  pub base : ModbusMessageBase
  pub open base use *
  pub refresh : Option ℕ
  pub publish_mode : PublishMode

-- The shortest period, where `none` is no period at all.
abbrev pub merge_refresh : Option ℕ → Option ℕ → Option ℕ
merge_refresh none other = other
merge_refresh (some r) none = some r
merge_refresh (some r) (some o) = if ltb o r then some o else some r

abbrev pub merge_mode : PublishMode → PublishMode → PublishMode
merge_mode every_poll other = every_poll
merge_mode on_change every_poll = every_poll
merge_mode on_change on_change = on_change
merge_mode on_change once = on_change
merge_mode once other = other

unfoldable pub merge_poll : MsgRegisterPoll → MsgRegisterPoll → MsgRegisterPoll
merge_poll p other = record p {
  base = record (p.base) { range = merge_range p.base.range other.base.range };
  refresh = merge_refresh p.refresh other.refresh;
  publish_mode = merge_mode p.publish_mode other.publish_mode;
}

unfoldable pub is_same_poll : MsgRegisterPoll → MsgRegisterPoll → Bool
unfolding is_same_as
is_same_poll p other =
    if not (is_same_as p.base.range other.base.range)
    then false
    else (if not (p.slave_id == other.slave_id)
        then false
        else (p.register == other.register) && (p.count == other.count))

pub record MsgRegisterPollSpecification : Type 0 where
  pub network_name : String
  pub registers : List MsgRegisterPoll

abbrev pub overlaps_poll : MsgRegisterPoll → MsgRegisterPoll → Bool
overlaps_poll poll reg = (poll.slave_id == reg.slave_id) && overlaps poll.base.range reg.base.range

-- The loop that moves the overlapping entries out of the list: first those moved, then the rest.
unfoldable pub extract_overlapped :
    MsgRegisterPoll → List MsgRegisterPoll → List MsgRegisterPoll × List MsgRegisterPoll
extract_overlapped poll [] = ([], [])
extract_overlapped poll (reg ∷ regs) =
    let (overlapped, rest) = extract_overlapped poll regs in
    if overlaps_poll poll reg then (reg ∷ overlapped, rest) else (overlapped, reg ∷ rest)

-- `for (reg: overlaped) back.merge(reg)`.
unfoldable pub merge_all : MsgRegisterPoll → List MsgRegisterPoll → MsgRegisterPoll
merge_all poll [] = poll
merge_all poll (reg ∷ regs) = merge_all (merge_poll poll reg) regs

-- `merge(const MsgRegisterPoll&)`. Both branches of the source push the poll to the back; without
-- an overlapping entry nothing is merged into it.
unfoldable pub merge_registers : List MsgRegisterPoll → MsgRegisterPoll → List MsgRegisterPoll
merge_registers regs poll =
    let (overlapped, rest) = extract_overlapped poll regs in
    rest ++ (merge_all poll overlapped ∷ [])

unfoldable pub merge_specification :
    MsgRegisterPollSpecification → MsgRegisterPoll → MsgRegisterPollSpecification
merge_specification spec poll = record spec { registers = merge_registers spec.registers poll }

-- `merge(const std::vector<MsgRegisterPoll>&)`.
unfoldable pub merge_list :
    MsgRegisterPollSpecification → List MsgRegisterPoll → MsgRegisterPollSpecification
merge_list spec [] = spec
merge_list spec (poll ∷ polls) = merge_list (merge_specification spec poll) polls
