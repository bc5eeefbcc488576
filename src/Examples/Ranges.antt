-- ===== src/Examples/Ranges.antt =====
-- Ranges, and polls that are merged and grouped.
use mqmgateway.Address.{holding}
use mqmgateway.Base.{◌≡◌, refl, ◌↔◌, ◌⊎◌, inl, inr, [], ◌∷◌, arith, Any}
use mqmgateway.Examples.Data.{poll_at, spec_of}
use mqmgateway.Group.{group}
use mqmgateway.Group.Cover.{group-Covers, group-Serves}
use mqmgateway.Group.Separate.{AreSeparate, group-separate}
use mqmgateway.Poll.{MsgRegisterPoll, merge_poll, merge_registers}
use mqmgateway.Poll.Cover.{merge_registers-Covers, merge_registers-Serves}
use mqmgateway.Poll.Disjoint.{Apart}
use mqmgateway.Poll.Merge.{merged, merge_poll_semilattice}
use mqmgateway.Poll.Pairs.{Covers, Serves, IsValidPoll}

-- Three polls of slave 1: the first two touch, the third overlaps both.
abbrev left : MsgRegisterPoll
left = poll_at 1 10 4 1000

abbrev right : MsgRegisterPoll
right = poll_at 1 14 4 500

abbrev across : MsgRegisterPoll
across = poll_at 1 12 4 2000

valid_left : IsValidPoll left
valid_left = record { nonempty = omega arith; in_space = omega arith }

valid_right : IsValidPoll right
valid_right = record { nonempty = omega arith; in_space = omega arith }

valid_across : IsValidPoll across
valid_across = record { nonempty = omega arith; in_space = omega arith }

apart : Apart left right
apart s t a c d = omega arith

merge_poll_semilattice_example :
    (merged (merge_poll left across) ≡ merged (merge_poll across left))
    × (merged (merge_poll (merge_poll left across) right)
        ≡ merged (merge_poll left (merge_poll across right)))
    × (merged (merge_poll left left) ≡ merged left)
merge_poll_semilattice_example =
    merge_poll_semilattice left across right valid_left valid_across valid_right refl

merge_registers-Covers_example :
    Any (Covers 1 holding 15) (merge_registers (left ∷ right ∷ []) across)
    ↔ (Any (Covers 1 holding 15) (left ∷ right ∷ []) ⊎ Covers 1 holding 15 across)
merge_registers-Covers_example =
    merge_registers-Covers 1 holding 15 (left ∷ right ∷ []) across (valid_left, (valid_right, tt))
      valid_across

merge_registers-Serves_example :
    Any (Serves 1 holding 15 500) (merge_registers (left ∷ right ∷ []) across)
merge_registers-Serves_example =
    merge_registers-Serves 1 holding 15 500 (left ∷ right ∷ []) across
      (valid_left, (valid_right, tt)) valid_across
      (inl (inr (inl ((refl, (refl, omega arith, omega arith)), omega arith))))

group-Covers_example :
    Any (Covers 1 holding 15) (group (spec_of (right ∷ left ∷ []))).registers
    ↔ Any (Covers 1 holding 15) (right ∷ left ∷ [])
group-Covers_example =
    group-Covers 1 holding 15 (spec_of (right ∷ left ∷ [])) (valid_right, (valid_left, tt))

group-Serves_example : Any (Serves 1 holding 15 500) (group (spec_of (right ∷ left ∷ []))).registers
group-Serves_example =
    group-Serves 1 holding 15 500 (spec_of (right ∷ left ∷ [])) (valid_right, (valid_left, tt))
      (inl ((refl, (refl, omega arith, omega arith)), omega arith))

group-separate_example : AreSeparate (group (spec_of (left ∷ right ∷ []))).registers
group-separate_example =
    group-separate (spec_of (left ∷ right ∷ [])) (valid_left, (valid_right, tt))
      ((apart, tt), (tt, tt))
