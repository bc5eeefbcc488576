-- ===== src/Convert/Bytes.antt =====
-- The byte order of registers.
use mqmgateway.Base.{ℕ, ◌<◌, ◌≡◌, refl, Bool, true, false, arith}
use mqmgateway.Convert.{set_byte_order}

abbrev pub IsRegister : ℕ → Type 0
IsRegister v = v < 65536

pub set_byte_order-set_byte_order :
    (v : ℕ) (swap : Bool)
    → IsRegister v
    → IsRegister (set_byte_order v swap) × (set_byte_order (set_byte_order v swap) swap ≡ v)
unfolding set_byte_order
set_byte_order-set_byte_order v true h = (omega (arith, h), omega (arith, h))
set_byte_order-set_byte_order v false h = (h, refl)
