-- ===== src/Group/Slots.antt =====
-- Collecting the registers by slave and type, and sorting them, keeps the registers.
use mqmgateway.Address.{type_code}
use mqmgateway.Base.{
  ℕ, ◌≡◌, refl, ◌↔◌, ◌⊎◌, inl, inr, List, [], ◌∷◌, arith, Bool-cases, All, Any, All-append,
  Any-snoc, update_iff, update-All,
}
use mqmgateway.Group.{
  TypeMap, SlaveMap, push_back, push_type, push_register, collect, register_number_compare,
  insert_sorted, sort,
}
use mqmgateway.Poll.{MsgRegisterPoll}
use mqmgateway.Poll.Pairs.{IsValidPoll}

-- What holds of a poll in the slot of slave `s` and the type with code `t`.
pub record InSlot (s t : ℕ) (p : MsgRegisterPoll) : Type 0 where
  pub of_slave : p.slave_id ≡ s
  pub of_type : type_code p.register_type ≡ t
  pub valid : IsValidPoll p

-- A property of some register in the map.
abbrev pub AnyType : (MsgRegisterPoll → Type 0) → TypeMap → Type 0
AnyType P = Any (λ e. Any P e.1)

abbrev pub AnySlave : (MsgRegisterPoll → Type 0) → SlaveMap → Type 0
AnySlave P = Any (λ e. AnyType P e.1)

-- Every register stands in the slot of its slave and type.
abbrev pub TypesInSlot : ℕ → TypeMap → Type 0
TypesInSlot s = All (λ e. All (InSlot s e.0) e.1)

abbrev pub SlavesInSlot : SlaveMap → Type 0
SlavesInSlot = All (λ e. TypesInSlot e.0 e.1)

push_register_iff :
    (P : MsgRegisterPoll → Type 0) (reg : MsgRegisterPoll) (m : SlaveMap)
    → AnySlave P (push_register reg m) ↔ (AnySlave P m ⊎ P reg)
unfolding push_register
push_register_iff P reg m =
    update_iff (λ e. AnyType P e.1) (P reg) reg.slave_id [] (push_type reg)
      (λ types.
        update_iff (λ e. Any P e.1) (P reg) (type_code reg.register_type) [] (push_back reg)
          (λ regs. Any-snoc P regs reg) (λ h. h) types)
      (λ h. h) m

push_register-SlavesInSlot :
    (reg : MsgRegisterPoll) (m : SlaveMap)
    → IsValidPoll reg
    → SlavesInSlot m
    → SlavesInSlot (push_register reg m)
unfolding push_register
push_register-SlavesInSlot reg m valid =
    update-All (λ e. TypesInSlot e.0 e.1) reg.slave_id [] (push_type reg)
      (λ types.
        update-All (λ e. All (InSlot reg.slave_id e.0) e.1) (type_code reg.register_type) []
          (push_back reg)
          (λ regs h.
            All-append (InSlot reg.slave_id (type_code reg.register_type)) regs (reg ∷ []) h
              (record { of_slave = refl; of_type = refl; valid = valid }, tt))
          tt types)
      tt m

-- `collect` puts each register into the map, and nothing else.
pub collect_iff :
    (P : MsgRegisterPoll → Type 0) (regs : List MsgRegisterPoll) (m : SlaveMap)
    → AnySlave P (collect regs m) ↔ (AnySlave P m ⊎ Any P regs)
unfolding collect
collect_iff P [] m = ((λ h. inl h), (λ h. elim h [ inl x ↦ x | inr x ↦ elim x [ ] ]))
collect_iff P (reg ∷ regs) m =
    let ih = collect_iff P regs (push_register reg m) in
    let e = push_register_iff P reg m in
    ((λ h. ground (arith, ih.0 h, e.0)), (λ h. ih.1 (ground (arith, e.1))))

pub collect-SlavesInSlot :
    (regs : List MsgRegisterPoll) (m : SlaveMap)
    → All IsValidPoll regs
    → SlavesInSlot m
    → SlavesInSlot (collect regs m)
unfolding collect
collect-SlavesInSlot [] m v h = h
collect-SlavesInSlot (reg ∷ regs) m v h =
    collect-SlavesInSlot regs (push_register reg m) v.1 (push_register-SlavesInSlot reg m v.0 h)

insert_sorted_iff :
    (P : MsgRegisterPoll → Type 0) (p : MsgRegisterPoll) (qs : List MsgRegisterPoll)
    → Any P (insert_sorted p qs) ↔ (P p ⊎ Any P qs)
unfolding insert_sorted
insert_sorted_iff P p [] = ((λ h. h), (λ h. h))
insert_sorted_iff P p (q ∷ qs) =
    let ih = insert_sorted_iff P p qs in ((λ h. ground (arith, ih.0)), (λ h. ground (arith, ih.1)))

pub sort_iff :
    (P : MsgRegisterPoll → Type 0) (ps : List MsgRegisterPoll) → Any P (sort ps) ↔ Any P ps
unfolding sort
sort_iff P [] = ((λ h. h), (λ h. h))
sort_iff P (p ∷ ps) =
    let ih = sort_iff P ps in
    let e = insert_sorted_iff P p (sort ps) in
    ((λ h. ground (arith, e.0 h, ih.0)), (λ h. e.1 (ground (arith, ih.1))))

pub insert_sorted-All :
    (P : MsgRegisterPoll → Type 0) (p : MsgRegisterPoll) (qs : List MsgRegisterPoll)
    → P p
    → All P qs
    → All P (insert_sorted p qs)
unfolding insert_sorted
insert_sorted-All P p [] h hs = (h, tt)
insert_sorted-All P p (q ∷ qs) h hs = elim (Bool-cases (register_number_compare q p)) [
  | inl e ↦ rw e (hs.0, insert_sorted-All P p qs h hs.1)
  | inr e ↦ rw e (h, hs)
]

pub sort-All :
    (P : MsgRegisterPoll → Type 0) (ps : List MsgRegisterPoll) → All P ps → All P (sort ps)
unfolding sort
sort-All P [] h = tt
sort-All P (p ∷ ps) h = insert_sorted-All P p (sort ps) h.0 (sort-All P ps h.1)
