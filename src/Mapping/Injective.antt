-- ===== src/Mapping/Injective.antt =====
-- Maps without two entries of the same register or the same value.
use mqmgateway.Base.{
  ℤ, pos, negsuc, ℕ, ◌^◌, ◌<◌, ◌≡◌, refl, sym, subst, ◌≢◌, inl, inr, true, false, some, List, [],
  ◌∷◌, ◌++◌, arith, Bool-cases, Option-cases, All, Pairs, All-append, All-mono, All-zip,
  Pairs-append,
}
use mqmgateway.Mapping.{
  MqttVariant, int_variant, str_variant, Mapping, find_reg_value, same_variant, has_variant,
  is_found,
}
use mqmgateway.Value.{MqttValue, fits, get_int, get_uint16, same_int, same_text}

same_int-eq : (a b : ℤ) → a ≡ b → same_int a b ≡ true
same_int-eq (pos a) b h = subst (λ x. same_int (pos a) x ≡ true) h (ground arith)
same_int-eq (negsuc a) b h = subst (λ x. same_int (negsuc a) x ≡ true) h (ground arith)

same_text_self : (t : List ℕ) → same_text t t ≡ true
same_text_self [] = refl
same_text_self (c ∷ cs) = ground (arith, same_text_self cs)

pub same_variant_self : (v : MqttVariant) → same_variant v v ≡ true
same_variant_self (int_variant n) = same_int-eq n n refl
same_variant_self (str_variant t) = same_text_self t

-- Two entries are of different registers, and have different values.
abbrev pub Differ : Mapping → Mapping → Type 0
Differ m n = (m.register_value ≢ n.register_value) × (m.mqtt_value ≢ n.mqtt_value)

abbrev pub IsInjective : List Mapping → Type 0
IsInjective ms = Pairs Differ ms × All (λ m. m.register_value < 2 ^ 16) ms

pub find_reg_value-none :
    (r : ℕ) (ms : List Mapping)
    → is_found (find_reg_value r ms) ≡ false
    → All (λ m. m.register_value ≢ r) ms
unfolding find_reg_value
find_reg_value-none r [] h = tt
find_reg_value-none r (m ∷ ms) h = ground (arith, find_reg_value-none r ms)

pub has_variant-false :
    (v : MqttVariant) (ms : List Mapping)
    → has_variant v ms ≡ false
    → All (λ m. m.mqtt_value ≢ v) ms
unfolding has_variant
has_variant-false v [] h = tt
has_variant-false v (m ∷ ms) h = elim (Bool-cases (same_variant v m.mqtt_value)) [
  | inl e ↦ absurd (ground (arith, e, h))
  | inr e ↦ (
    (λ q. ground (arith, e, subst (λ x. same_variant v x ≡ true) (sym q) (same_variant_self v))),
    has_variant-false v ms (ground (arith, e, h)),
  )
]

pub get_uint16-lt : (v : MqttValue) (n : ℕ) → get_uint16 v ≡ some n → n < 2 ^ 16
unfolding get_uint16
get_uint16-lt v n h = elim (Option-cases (get_int v)) [
  | inl e ↦ absurd (ground (arith, e, h))
  | inr (pos z, e) ↦ ground (arith, e, h)
  | inr (negsuc z, e) ↦ absurd (ground (arith, e, h))
]

pub Injective-snoc :
    (ms : List Mapping) (m : Mapping)
    → IsInjective ms
    → m.register_value < 2 ^ 16
    → All (λ x. x.register_value ≢ m.register_value) ms
    → All (λ x. x.mqtt_value ≢ m.mqtt_value) ms
    → IsInjective (ms ++ m ∷ [])
Injective-snoc ms m h fits regs values = (
  Pairs-append Differ ms (m ∷ []) h.0 (tt, tt)
      (All-mono
        (λ x (k : (x.register_value ≢ m.register_value) × (x.mqtt_value ≢ m.mqtt_value)). (k, tt))
        ms
        (All-zip (λ x. x.register_value ≢ m.register_value) (λ x. x.mqtt_value ≢ m.mqtt_value) ms
          regs values)),
  All-append (λ x. x.register_value < 2 ^ 16) ms (m ∷ []) h.1 (fits, tt),
)
