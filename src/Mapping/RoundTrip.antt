-- ===== src/Mapping/RoundTrip.antt =====
-- A map that is printed and parsed.
use mqmgateway.Base.{
  ℤ, pos, negsuc, ℕ, suc, ◌^◌, ◌<◌, ◌≡◌, refl, sym, ap, subst, ◌∙◌, ◌≢◌, ◌⊎◌, inl, inr, true, false,
  ◌||◌, none, some, List, [], ◌∷◌, ◌++◌, append-nil, append_assoc, arith, Bool-cases, if-false,
  bind-some, All, Pairs, All-append, All-mono,
}
use mqmgateway.Convert.{signed, unsigned}
use mqmgateway.Mapping.{
  MqttVariant, int_variant, str_variant, Mapping, scan_state, AValueType, int_type, string_type,
  MapParser, find_reg_value, same_variant, has_variant, atoi, variant_of, is_empty_text, is_found,
  add_mapping,
}
use mqmgateway.Mapping.Injective.{Differ}
use mqmgateway.Mapping.Inverse.{same_variant-true}
use mqmgateway.Mapping.Parser.{on_char, parse_char, parse_from, parser_with, parse_map}
use mqmgateway.Mapping.Print.{
  quoted, print_variant, print_entry, print_entries, print_map, with_key, with_value, parse_quoted,
  IsNumber, digits-IsNumber, parse_register, parse_number, parse_negative,
}
use mqmgateway.Value.{binary, digits, to_string, strtol, c_str, parse, fits, get_int, get_uint16}
use mqmgateway.Value.Decimal.{strtol-to_string, c_str-to_string, parse-to_string}

-- A value that the argument of the converter can hold: an `int`, or a text without a null.
abbrev pub IsPrintableVariant : MqttVariant → Type 0
IsPrintableVariant (int_variant n) = fits 32 n ≡ true
IsPrintableVariant (str_variant t) = All (λ c. c ≢ 0) t

abbrev pub IsPrintable : Mapping → Type 0
IsPrintable m = (m.register_value < 2 ^ 16) × IsPrintableVariant m.mqtt_value

c_str_self : (t : List ℕ) → All (λ c. c ≢ 0) t → c_str t ≡ t
unfolding c_str
c_str_self [] h = refl
c_str_self (c ∷ cs) h = ground (arith, h.0, c_str_self cs h.1)

signed-unsigned : (n : ℤ) → fits 32 n ≡ true → signed 32 (unsigned 32 n) ≡ n
signed-unsigned (pos n) h = ground (arith, h)
signed-unsigned (negsuc n) h = ground (arith, h)

fits_wider : (n : ℤ) → fits 32 n ≡ true → fits 64 n ≡ true
fits_wider (pos n) h = ground (arith, h)
fits_wider (negsuc n) h = ground (arith, h)

atoi-to_string : (n : ℤ) → fits 32 n ≡ true → atoi (to_string n) ≡ n
unfolding atoi
atoi-to_string n h =
    ap (λ (t : List ℕ). signed 32 (unsigned 32 (strtol t 10).0)) (c_str-to_string n)
    ∙ ap (λ (r : ℤ × List ℕ). signed 32 (unsigned 32 r.0))
        (strtol-to_string 10 n (inr refl) (fits_wider n h))
    ∙ signed-unsigned n h

get_uint16-digits : (r : ℕ) → r < 2 ^ 16 → get_uint16 (binary (digits r)) ≡ some r
unfolding get_uint16 get_int
get_uint16-digits r h =
    let read : parse (digits r) 0 ≡ some (pos r) =
      (unfold to_string in parse-to_string 0 (pos r) (inl refl) (ground (arith, h))) in
    rw read (ground (arith, h))

is_found-false :
    (r : ℕ) (ms : List Mapping)
    → All (λ m. m.register_value ≢ r) ms
    → is_found (find_reg_value r ms) ≡ false
unfolding find_reg_value
is_found-false r [] h = refl
is_found-false r (m ∷ ms) h = ground (arith, h.0, is_found-false r ms h.1)

has_variant-none :
    (v : MqttVariant) (ms : List Mapping)
    → All (λ m. m.mqtt_value ≢ v) ms
    → has_variant v ms ≡ false
unfolding has_variant
has_variant-none v [] h = refl
has_variant-none v (m ∷ ms) h = elim (Bool-cases (same_variant v m.mqtt_value)) [
  | inl e ↦ absurd (h.0 (sym (same_variant-true v m.mqtt_value e)))
  | inr e ↦ rw e (has_variant-none v ms h.1)
]

number-nonempty : (ds : List ℕ) → IsNumber ds → is_empty_text ds ≡ false
number-nonempty [] h = elim h [ ]
number-nonempty (d ∷ ds) h = refl

-- The entry that the parser has read is added.
add_mapping_lem :
    (m : Mapping) (t : AValueType) (v : List ℕ) (ms : List Mapping)
    → m.register_value < 2 ^ 16
    → variant_of t v ≡ m.mqtt_value
    → All (λ x. Differ x m) ms
    → add_mapping (with_value (digits m.register_value) t v ms) ≡ some (parser_with (ms ++ m ∷ []))
unfolding add_mapping
add_mapping_lem m t v ms fit same new =
    let k = digits m.register_value in
    let regs = is_found-false m.register_value ms (All-mono (λ x (d : Differ x m). d.0) ms new) in
    let values = has_variant-none m.mqtt_value ms (All-mono (λ x (d : Differ x m). d.1) ms new) in
    let free : (is_found (find_reg_value m.register_value ms) || has_variant (variant_of t v) ms)
        ≡ false =
      rw (same, regs) values in
    let entry : record { register_value = m.register_value; mqtt_value = variant_of t v } ≡ m =
      ap (λ (x : MqttVariant). record { register_value = m.register_value; mqtt_value = x }) same in
    rw
      (number-nonempty k (digits-IsNumber m.register_value), get_uint16-digits m.register_value fit)
      (if-false none _ free ∙ ap (λ (x : Mapping). some (parser_with (ms ++ x ∷ []))) entry)

add_mapping-key :
    (ks : List ℕ) (m : Mapping) (t : AValueType) (v : List ℕ) (ms : List Mapping)
    → ks ≡ digits m.register_value
    → m.register_value < 2 ^ 16
    → variant_of t v ≡ m.mqtt_value
    → All (λ x. Differ x m) ms
    → add_mapping (with_value ks t v ms) ≡ some (parser_with (ms ++ m ∷ []))
add_mapping-key ks m t v ms key fit same new =
    subst (λ k. add_mapping (with_value k t v ms) ≡ some (parser_with (ms ++ m ∷ []))) (sym key)
      (add_mapping_lem m t v ms fit same new)

-- What ends an integer.
abbrev EndsInt : ℕ → Type 0
EndsInt c = (c ≡ 44) ⊎ (c ≡ 125)

end_int :
    (c : ℕ) (after k v : List ℕ) (ms : List Mapping) (q : MapParser)
    → EndsInt c
    → add_mapping (with_value k int_type v ms) ≡ some q
    → parse_from (c ∷ after) (with_value k int_type v ms) ≡ parse_from after q
unfolding parse_from parse_char on_char
end_int c after k v ms q (inl e) h = rw e (rw h refl)
end_int c after k v ms q (inr e) h = rw e (rw h refl)

-- What follows a text in quotes is passed over.
end_string :
    (c : ℕ) (after k v : List ℕ) (ms ns : List Mapping)
    → EndsInt c
    → add_mapping (with_value k string_type v ms) ≡ some (parser_with ns)
    → parse_from (34 ∷ c ∷ after) (with_value k string_type v ms)
      ≡ parse_from after (parser_with ns)
unfolding parse_from parse_char on_char
end_string c after k v ms ns (inl e) h = rw e (rw h refl)
end_string c after k v ms ns (inr e) h = rw e (rw h refl)

-- The value of an entry, after its key.
parse_variant :
    (m : Mapping) (x : MqttVariant) (c : ℕ) (after ks : List ℕ) (ms : List Mapping)
    → m.mqtt_value ≡ x
    → ks ≡ digits m.register_value
    → IsNumber ks
    → m.register_value < 2 ^ 16
    → IsPrintableVariant x
    → All (λ x. Differ x m) ms
    → EndsInt c
    → parse_from (print_variant x (c ∷ after)) (with_key ks (scan_state ∷ []) ms)
      ≡ parse_from after (parser_with (ms ++ m ∷ []))
unfolding print_variant to_string
parse_variant m x c after [] ms same key number fit p new end = elim number [ ]
parse_variant m (int_variant (pos n)) c after (k ∷ ks) ms same key number fit p new end =
    let read = parse_number (digits n) (c ∷ after) k ks ms (digits-IsNumber n) in
    let value : variant_of int_type (digits n) ≡ m.mqtt_value =
      ap int_variant (atoi-to_string (pos n) p) ∙ sym same in
    let added = add_mapping-key (k ∷ ks) m int_type (digits n) ms key fit value new in
    read ∙ end_int c after (k ∷ ks) (digits n) ms _ end added
parse_variant m (int_variant (negsuc n)) c after (k ∷ ks) ms same key number fit p new end =
    let ds = digits (suc n) in
    let read = parse_negative ds (c ∷ after) k ks ms (digits-IsNumber (suc n)) in
    let value : variant_of int_type (45 ∷ ds) ≡ m.mqtt_value =
      ap int_variant (atoi-to_string (negsuc n) p) ∙ sym same in
    let added = add_mapping-key (k ∷ ks) m int_type (45 ∷ ds) ms key fit value new in
    read ∙ end_int c after (k ∷ ks) (45 ∷ ds) ms _ end added
parse_variant m (str_variant t) c after (k ∷ ks) ms same key number fit p new end =
    let opened : parse_from (34 ∷ quoted t (c ∷ after)) (with_key (k ∷ ks) (scan_state ∷ []) ms)
        ≡ parse_from (quoted t (c ∷ after)) (with_value (k ∷ ks) string_type [] ms) =
      unfold parse_from parse_char on_char in refl in
    let read = parse_quoted t (c ∷ after) (k ∷ ks) [] ms in
    let value : variant_of string_type t ≡ m.mqtt_value =
      ap str_variant (c_str_self t p) ∙ sym same in
    let added = add_mapping-key (k ∷ ks) m string_type t ms key fit value new in
    opened ∙ read ∙ end_string c after (k ∷ ks) t ms (ms ++ m ∷ []) end added

parse_entry :
    (m : Mapping) (c : ℕ) (after : List ℕ) (ms : List Mapping)
    → IsPrintable m
    → All (λ x. Differ x m) ms
    → EndsInt c
    → parse_from (print_entry m (c ∷ after)) (parser_with ms)
      ≡ parse_from after (parser_with (ms ++ m ∷ []))
unfolding print_entry
parse_entry m c after ms p new end =
    let ds = digits m.register_value in
    parse_register ds (print_variant m.mqtt_value (c ∷ after)) ms (digits-IsNumber m.register_value)
    ∙ parse_variant m m.mqtt_value c after ds ms refl refl (digits-IsNumber m.register_value) p.0
        p.1 new end

skip_space_between :
    (after : List ℕ) (ms : List Mapping)
    → parse_from (32 ∷ after) (parser_with ms) ≡ parse_from after (parser_with ms)
unfolding parse_from parse_char on_char
skip_space_between after ms = refl

parse_entries :
    (ms done : List Mapping)
    → All IsPrintable ms
    → Pairs Differ ms
    → All (λ x. All (Differ x) ms) done
    → parse_from (print_entries ms) (parser_with done) ≡ some (parser_with (done ++ ms))
unfolding print_entries
parse_entries [] done p d new = rw (append-nil done) (unfold parse_from parse_char on_char in refl)
parse_entries (m ∷ []) done p d new =
    parse_entry m 125 [] done p.0 (All-mono (λ x (k : All (Differ x) (m ∷ [])). k.0) done new)
      (inr refl)
    ∙ (unfold parse_from in refl)
parse_entries (m ∷ n ∷ ms) done p d new =
    let here = All-mono (λ x (k : All (Differ x) (m ∷ n ∷ ms)). k.0) done new in
    let later =
      All-append (λ x. All (Differ x) (n ∷ ms)) done (m ∷ [])
        (All-mono (λ x (k : All (Differ x) (m ∷ n ∷ ms)). k.1) done new) (d.0, tt) in
    let rest = parse_entries (n ∷ ms) (done ++ m ∷ []) p.1 d.1 later in
    parse_entry m 44 (32 ∷ print_entries (n ∷ ms)) done p.0 here (inl refl)
    ∙ skip_space_between (print_entries (n ∷ ms)) (done ++ m ∷ [])
    ∙ rest
    ∙ ap (λ (x : List Mapping). some (parser_with x)) (append_assoc done (m ∷ []) (n ∷ ms))

-- A map of 16-bit registers to 32-bit integers and to texts without a null, in which no register and
-- no value is repeated: printed as the argument of the converter, with quotes, backslashes and closing
-- braces escaped in texts, it is parsed to itself.
pub parse_map-print_map :
    (ms : List Mapping) → All IsPrintable ms → Pairs Differ ms → parse_map (print_map ms) ≡ some ms
unfolding parse_map print_map
parse_map-print_map ms p d =
    let opened : parse_from (123 ∷ print_entries ms) (parser_with [])
        ≡ parse_from (print_entries ms) (parser_with []) =
      unfold parse_from parse_char on_char in refl in
    bind-some (λ (q : MapParser). some q.mappings) (opened ∙ parse_entries ms [] p d tt)
