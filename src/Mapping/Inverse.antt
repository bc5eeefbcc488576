-- ===== src/Mapping/Inverse.antt =====
-- A register that is converted by a map, and back.
use mqmgateway.Base.{
  ℤ, pos, negsuc, ℕ, ◌^◌, ◌<◌, ◌≡◌, refl, ap, subst, ◌⊎◌, inl, inr, true, some, List, [], ◌∷◌,
  arith, ◌==◌, Bool-cases, Option-cases, All, Pairs, All-mono,
}
use mqmgateway.Mapping.{
  MqttVariant, int_variant, str_variant, Mapping, find_reg_value, same_variant, is_found, value_of,
  map_to_mqtt, matches_value, find_variant, map_to_modbus,
}
use mqmgateway.Mapping.Distinct.{parse_map-IsInjective}
use mqmgateway.Mapping.Injective.{same_variant_self, Differ}
use mqmgateway.Mapping.Parser.{parse_map}
use mqmgateway.Value.{MqttValue, get_int, get_string, same_int, same_text}

same_int-true : (a b : ℤ) → same_int a b ≡ true → a ≡ b
same_int-true (pos a) (pos b) h = ap pos (ground (arith, h))
same_int-true (negsuc a) (negsuc b) h = ap negsuc (ground (arith, h))
same_int-true (pos a) (negsuc b) h = cc
same_int-true (negsuc a) (pos b) h = cc

same_text-true : (s t : List ℕ) → same_text s t ≡ true → s ≡ t
same_text-true [] [] h = refl
same_text-true (x ∷ xs) (y ∷ ys) h =
    let e : x ≡ y = ground (arith, h) in
    let rest : xs ≡ ys = same_text-true xs ys (ground (arith, h)) in cc
same_text-true [] (y ∷ ys) h = cc
same_text-true (x ∷ xs) [] h = cc

pub same_variant-true : (a b : MqttVariant) → same_variant a b ≡ true → a ≡ b
same_variant-true (int_variant a) (int_variant b) h = ap int_variant (same_int-true a b h)
same_variant-true (int_variant a) (str_variant t) h = cc
same_variant-true (str_variant s) (int_variant b) h = cc
same_variant-true (str_variant s) (str_variant t) h = ap str_variant (same_text-true s t h)

abbrev pub IsIntVariant : MqttVariant → Type 0
IsIntVariant (int_variant n) = Unit
IsIntVariant (str_variant t) = ⊥

abbrev pub IsStrVariant : MqttVariant → Type 0
IsStrVariant (int_variant n) = ⊥
IsStrVariant (str_variant t) = Unit

-- The values of a map are all integers, or all texts.
abbrev pub IsOfOneType : List Mapping → Type 0
IsOfOneType ms = All (λ m. IsIntVariant m.mqtt_value) ms ⊎ All (λ m. IsStrVariant m.mqtt_value) ms

abbrev Alike : MqttVariant → MqttVariant → Type 0
Alike (int_variant a) (int_variant b) = Unit
Alike (str_variant s) (str_variant t) = Unit
Alike _ _ = ⊥

Alike-of :
    (a b : MqttVariant)
    → (IsIntVariant a × IsIntVariant b) ⊎ (IsStrVariant a × IsStrVariant b)
    → Alike a b
Alike-of (int_variant a) (int_variant b) h = tt
Alike-of (str_variant s) (str_variant t) h = tt
Alike-of (int_variant a) (str_variant t) h = elim h [ inl k ↦ k.1 | inr k ↦ k.0 ]
Alike-of (str_variant s) (int_variant b) h = elim h [ inl k ↦ k.0 | inr k ↦ k.1 ]

-- A value of the type of an entry is compared with the entry's.
matches_value-Alike :
    (a b : MqttVariant) → Alike a b → matches_value (value_of a) b ≡ some (same_variant b a)
unfolding matches_value get_int get_string
matches_value-Alike (int_variant a) (int_variant b) h = refl
matches_value-Alike (str_variant s) (str_variant t) h = refl
matches_value-Alike (int_variant a) (str_variant t) h = elim h [ ]
matches_value-Alike (str_variant s) (int_variant b) h = elim h [ ]

-- An entry that is found is one of the map, of that register.
find_reg_value-some :
    (r : ℕ) (P : Mapping → Type 0) (m : Mapping) (ms : List Mapping)
    → find_reg_value r ms ≡ some m
    → All P ms
    → (m.register_value ≡ r) × P m
unfolding find_reg_value
find_reg_value-some r P m [] h a = cc
find_reg_value-some r P m (n ∷ ms) h a = elim (Bool-cases (n.register_value == r)) [
  | inl e ↦
      let same : n ≡ m = ground (arith, e, h) in
      let q : n.register_value ≡ r = ground (arith, e) in
      (subst (λ (x : Mapping). x.register_value ≡ r) same q, subst P same a.0)
  | inr e ↦ find_reg_value-some r P m ms (ground (arith, e, h)) a.1
]

find_variant-find_reg_value :
    (r : ℕ) (m : Mapping) (ms : List Mapping)
    → Pairs Differ ms
    → All (λ n. Alike m.mqtt_value n.mqtt_value) ms
    → find_reg_value r ms ≡ some m
    → find_variant (value_of m.mqtt_value) ms ≡ some (some m)
unfolding find_reg_value find_variant
find_variant-find_reg_value r m [] d a h = cc
find_variant-find_reg_value r m (n ∷ ms) d a h =
    let compared = matches_value-Alike m.mqtt_value n.mqtt_value a.0 in
    elim (Bool-cases (n.register_value == r)) [
      | inl e ↦
          let same : n ≡ m = ground (arith, e, h) in
          let equal : same_variant n.mqtt_value m.mqtt_value ≡ true =
            subst (λ (x : Mapping). same_variant n.mqtt_value x.mqtt_value ≡ true) same
              (same_variant_self n.mqtt_value) in
          rw (compared, equal) (ap (λ (x : Mapping). some (some x)) same)
      | inr e ↦
          let f : find_reg_value r ms ≡ some m = ground (arith, e, h) in
          let other = find_reg_value-some r (Differ n) m ms f d.0 in
          elim (Bool-cases (same_variant n.mqtt_value m.mqtt_value)) [
            | inl s ↦ absurd (other.1.1 (same_variant-true _ _ s))
            | inr s ↦ rw (compared, s) (find_variant-find_reg_value r m ms d.1 a.1 f)
          ]
    ]

Alike-All :
    (m : Mapping) (ms : List Mapping) (r : ℕ)
    → IsOfOneType ms
    → find_reg_value r ms ≡ some m
    → All (λ n. Alike m.mqtt_value n.mqtt_value) ms
Alike-All m ms r (inl k) h =
    let here = (find_reg_value-some r (λ m. IsIntVariant m.mqtt_value) m ms h k).1 in
    All-mono (λ n i. Alike-of m.mqtt_value n.mqtt_value (inl (here, i))) ms k
Alike-All m ms r (inr k) h =
    let here = (find_reg_value-some r (λ m. IsStrVariant m.mqtt_value) m ms h k).1 in
    All-mono (λ n i. Alike-of m.mqtt_value n.mqtt_value (inr (here, i))) ms k

-- A map that was parsed, whose values are all integers or all texts. A register value that it maps
-- is converted to an MQTT value, and this one back to the same register value.
pub map_to_modbus-map_to_mqtt :
    (text : List ℕ) (ms : List Mapping) (r : ℕ)
    → parse_map text ≡ some ms
    → IsOfOneType ms
    → is_found (find_reg_value r ms) ≡ true
    → (v : MqttValue) × (map_to_mqtt ms (r ∷ []) ≡ some v) × (map_to_modbus ms v 1 ≡ some (r ∷ []))
unfolding map_to_mqtt map_to_modbus
map_to_modbus-map_to_mqtt text ms r parsed one found = elim (Option-cases (find_reg_value r ms)) [
  | inl e ↦ absurd (ground (arith, e, found))
  | inr (m, e) ↦
      let (d, fit) = parse_map-IsInjective text ms parsed in
      let f = find_variant-find_reg_value r m ms d (Alike-All m ms r one e) e in
      let reg = (find_reg_value-some r (λ n. n.register_value < 2 ^ 16) m ms e fit).0 in
      (
        value_of m.mqtt_value,
        ground (arith, e),
        rw (f, map_to_modbus) (ap (λ (x : ℕ). some (x ∷ [])) reg),
      )
]
