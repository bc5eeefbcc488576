-- ===== src/Group/Separate/Keys.antt =====
-- The map that `collect` builds: its keys ascend, and the registers of a slot stay disjoint.
use mqmgateway.Address.{type_code}
use mqmgateway.Base.{
  List, [], ◌∷◌, arith, All, Pairs, All-append, All-mono, All-zip, Pairs-append, Ascends,
  update-All_from, update-All, update-Ascends,
}
use mqmgateway.Group.{TypeMap, SlaveMap, push_back, push_type, push_register, collect}
use mqmgateway.Poll.{MsgRegisterPoll}
use mqmgateway.Poll.Disjoint.{Apart}

abbrev AllSlave : (MsgRegisterPoll → Type 0) → SlaveMap → Type 0
AllSlave P = All (λ e. All (λ t. All P t.1) e.1)

abbrev pub SlotsApart : SlaveMap → Type 0
SlotsApart = All (λ e. All (λ t. Pairs Apart t.1) e.1)

abbrev pub KeysAscend : SlaveMap → Type 0
KeysAscend m = Ascends 0 m × All (λ e. Ascends 0 e.1) m

push_register-AllSlave :
    (P : MsgRegisterPoll → Type 0) (reg : MsgRegisterPoll) (m : SlaveMap)
    → P reg
    → AllSlave P m
    → AllSlave P (push_register reg m)
unfolding push_register
push_register-AllSlave P reg m h =
    update-All (λ e. All (λ t. All P t.1) e.1) reg.slave_id [] (push_type reg)
      (λ types.
        update-All (λ t. All P t.1) (type_code reg.register_type) [] (push_back reg)
          (λ regs k. All-append P regs (reg ∷ []) k (h, tt)) tt types)
      tt m

-- The registers of a slot are disjoint, and apart from one more.
abbrev IsOpen : MsgRegisterPoll → List MsgRegisterPoll → Type 0
IsOpen reg regs = All (λ p. Apart p reg) regs × Pairs Apart regs

push_back-Apart :
    (reg : MsgRegisterPoll) (regs : List MsgRegisterPoll)
    → IsOpen reg regs
    → Pairs Apart (push_back reg regs)
push_back-Apart reg regs h =
    Pairs-append Apart regs (reg ∷ []) h.1 (tt, tt)
      (All-mono (λ p (a : Apart p reg). (a, tt)) regs h.0)

push_register-SlotsApart :
    (reg : MsgRegisterPoll) (m : SlaveMap)
    → All (λ e. All (λ t. IsOpen reg t.1) e.1) m
    → SlotsApart (push_register reg m)
unfolding push_register
push_register-SlotsApart reg =
    update-All_from (λ e. All (λ t. IsOpen reg t.1) e.1) (λ e. All (λ t. Pairs Apart t.1) e.1)
      reg.slave_id [] (push_type reg) (λ types. slot types) (slot [] tt)
      (λ e. All-mono (λ t (o : IsOpen reg t.1). o.1) e.1)
  where
    slot :
        (types : TypeMap)
        → All (λ t. IsOpen reg t.1) types
        → All (λ t. Pairs Apart t.1) (push_type reg types)
    slot =
        update-All_from (λ t. IsOpen reg t.1) (λ t. Pairs Apart t.1) (type_code reg.register_type)
          [] (push_back reg) (push_back-Apart reg) ((tt, tt)) (λ t o. o.1)

-- `IsOpen` of every slot, from its two halves.
IsOpen-zip :
    (reg : MsgRegisterPoll) (m : SlaveMap)
    → AllSlave (λ p. Apart p reg) m
    → SlotsApart m
    → All (λ e. All (λ t. IsOpen reg t.1) e.1) m
IsOpen-zip reg [] h k = tt
IsOpen-zip reg ((s, types) ∷ m) h k = (
  All-zip (λ t. All (λ p. Apart p reg) t.1) (λ t. Pairs Apart t.1) types h.0 k.0,
  IsOpen-zip reg m h.1 k.1,
)

AreApart : List MsgRegisterPoll → SlaveMap → Type 0
AreApart regs m = All (λ reg. AllSlave (λ p. Apart p reg) m) regs

push_register-AreApart :
    (reg : MsgRegisterPoll) (m : SlaveMap) (regs : List MsgRegisterPoll)
    → All (Apart reg) regs
    → AreApart regs m
    → AreApart regs (push_register reg m)
unfolding AreApart
push_register-AreApart reg m [] h k = tt
push_register-AreApart reg m (r ∷ regs) h k = (
  push_register-AllSlave (λ p. Apart p r) reg m h.0 k.0,
  push_register-AreApart reg m regs h.1 k.1,
)

collect-SlotsApart_from :
    (regs : List MsgRegisterPoll) (m : SlaveMap)
    → Pairs Apart regs
    → AreApart regs m
    → SlotsApart m
    → SlotsApart (collect regs m)
unfolding collect AreApart
collect-SlotsApart_from [] m d a h = h
collect-SlotsApart_from (reg ∷ regs) m d a h =
    collect-SlotsApart_from regs (push_register reg m) d.1
      (push_register-AreApart reg m regs d.0 a.1)
      (push_register-SlotsApart reg m (IsOpen-zip reg m a.0 h))

AreApart-nil : (regs : List MsgRegisterPoll) → AreApart regs []
unfolding AreApart
AreApart-nil [] = tt
AreApart-nil (reg ∷ regs) = (tt, AreApart-nil regs)

pub collect-SlotsApart :
    (regs : List MsgRegisterPoll) → Pairs Apart regs → SlotsApart (collect regs [])
collect-SlotsApart regs d = collect-SlotsApart_from regs [] d (AreApart-nil regs) tt

push_register-KeysAscend :
    (reg : MsgRegisterPoll) (m : SlaveMap) → KeysAscend m → KeysAscend (push_register reg m)
unfolding push_register
push_register-KeysAscend reg m h = (
  update-Ascends 0 reg.slave_id [] (push_type reg) m (omega arith) h.0,
  update-All (λ e. Ascends 0 e.1) reg.slave_id [] (push_type reg)
      (λ types k.
        update-Ascends 0 (type_code reg.register_type) [] (push_back reg) types (omega arith) k)
      tt m h.1,
)

pub collect-KeysAscend :
    (regs : List MsgRegisterPoll) (m : SlaveMap) → KeysAscend m → KeysAscend (collect regs m)
unfolding collect
collect-KeysAscend [] m h = h
collect-KeysAscend (reg ∷ regs) m h =
    collect-KeysAscend regs (push_register reg m) (push_register-KeysAscend reg m h)
