-- ===== src/Mapping/Print.antt =====
-- Maps that are written as the argument of the converter, and parsed.
use mqmgateway.Base.{
  ℕ, zero, suc, ◌≤◌, ◌≡◌, refl, sym, ap, subst, ◌∙◌, ◌⊎◌, inl, inr, Bool, true, false, ◌||◌, some,
  List, [], ◌∷◌, ◌++◌, append-nil, append_assoc, arith, ◌==◌, if◌then◌else◌, Bool-cases,
}
use mqmgateway.Mapping.{
  MqttVariant, int_variant, str_variant, Mapping, AState, scan_state, key_state, escape_state,
  value_state, AValueType, no_type, int_type, string_type, MapParser, push_state, add_escaped_char,
}
use mqmgateway.Mapping.Parser.{is_digit, on_default, on_char, parse_char, parse_from, parser_with}
use mqmgateway.Value.{digits_from, digits, to_string}
use mqmgateway.Value.Decimal.{Numeral, AllDigits, digits-Numeral, digits-AllDigits}

-- A character of a text in quotes; the parser refuses a closing brace that is not escaped.
abbrev pub needs_escape : ℕ → Bool
needs_escape c = (c == 34) || (c == 92) || (c == 125)

unfoldable pub quoted : List ℕ → List ℕ → List ℕ
quoted [] after = 34 ∷ after
quoted (c ∷ cs) after = if needs_escape c then 92 ∷ c ∷ quoted cs after else c ∷ quoted cs after

-- An entry, and what follows it.
unfoldable pub print_variant : MqttVariant → List ℕ → List ℕ
unfolding quoted to_string
print_variant (int_variant n) after = to_string n ++ after
print_variant (str_variant t) after = 34 ∷ quoted t after

unfoldable pub print_entry : Mapping → List ℕ → List ℕ
unfolding print_variant digits
print_entry m after = digits m.register_value ++ 58 ∷ print_variant m.mqtt_value after

unfoldable pub print_entries : List Mapping → List ℕ
unfolding print_entry
print_entries [] = 125 ∷ []
print_entries (m ∷ []) = print_entry m (125 ∷ [])
print_entries (m ∷ n ∷ ms) = print_entry m (44 ∷ 32 ∷ print_entries (n ∷ ms))

-- The entries with a comma and a space between them, in braces.
unfoldable pub print_map : List Mapping → List ℕ
unfolding print_entries
print_map ms = 123 ∷ print_entries ms

-- A character that continues a text in the state of a key, of a quoted value, and of an integer.
abbrev pub with_key : List ℕ → List AState → List Mapping → MapParser
with_key k states ms = record (parser_with ms) { current_state = states; key_text = k }

abbrev pub with_value : List ℕ → AValueType → List ℕ → List Mapping → MapParser
with_value k t v ms = record (parser_with ms) {
  current_state = value_state ∷ scan_state ∷ [];
  key_text = k;
  value_type = t;
  value_text = v;
}

on_default_digit :
    (c : ℕ) (s : AState) (p : MapParser) → 48 ≤ c → c ≤ 57 → on_char c s p ≡ on_default c s p
unfolding on_char
on_default_digit c s p l u = ground arith

parse_key :
    (ds after k : List ℕ) (ms : List Mapping)
    → AllDigits ds
    → parse_from (ds ++ after) (with_key k (key_state ∷ scan_state ∷ []) ms)
      ≡ parse_from after (with_key (k ++ ds) (key_state ∷ scan_state ∷ []) ms)
unfolding parse_from parse_char
parse_key [] after k ms h = rw (append-nil k) refl
parse_key (d ∷ ds) after k ms h =
    let is_one : is_digit d ≡ true = ground (arith, h.0) in
    rw (on_default_digit d key_state (with_key k (key_state ∷ scan_state ∷ []) ms) h.0.0 h.0.1) (
      rw is_one (
        parse_key ds after (k ++ d ∷ []) ms h.1
        ∙ ap (λ (x : List ℕ). parse_from after (with_key x (key_state ∷ scan_state ∷ []) ms))
            (append_assoc k (d ∷ []) ds)))

parse_digits :
    (ds after k v : List ℕ) (ms : List Mapping)
    → AllDigits ds
    → parse_from (ds ++ after) (with_value k int_type v ms)
      ≡ parse_from after (with_value k int_type (v ++ ds) ms)
unfolding parse_from parse_char
parse_digits [] after k v ms h = rw (append-nil v) refl
parse_digits (d ∷ ds) after k v ms h =
    rw (on_default_digit d value_state (with_value k int_type v ms) h.0.0 h.0.1) (
      parse_digits ds after k (v ++ d ∷ []) ms h.1
      ∙ ap (λ (x : List ℕ). parse_from after (with_value k int_type x ms))
          (append_assoc v (d ∷ []) ds))

escaped_char :
    (c : ℕ) (p : MapParser)
    → needs_escape c ≡ true
    → on_char c escape_state p ≡ add_escaped_char c p
unfolding on_char
escaped_char c p h =
    let which : (c ≡ 34) ⊎ (c ≡ 92) ⊎ (c ≡ 125) = ground (arith, h) in
    elim which [
      | inl e ↦ subst (λ x. on_char x escape_state p ≡ add_escaped_char x p) (sym e) refl
      | inr (inl e) ↦ subst (λ x. on_char x escape_state p ≡ add_escaped_char x p) (sym e) refl
      | inr (inr e) ↦ subst (λ x. on_char x escape_state p ≡ add_escaped_char x p) (sym e) refl
    ]

plain_char :
    (c : ℕ) (k v : List ℕ) (ms : List Mapping)
    → needs_escape c ≡ false
    → on_char c value_state (with_value k string_type v ms)
      ≡ some (with_value k string_type (v ++ c ∷ []) ms)
unfolding on_char
plain_char c k v ms h = ground (arith, h)

parse_escaped :
    (c : ℕ) (after k v : List ℕ) (ms : List Mapping)
    → needs_escape c ≡ true
    → parse_from (92 ∷ c ∷ after) (with_value k string_type v ms)
      ≡ parse_from after (with_value k string_type (v ++ c ∷ []) ms)
unfolding parse_from parse_char on_char
parse_escaped c after k v ms h =
    rw (escaped_char c (push_state escape_state (with_value k string_type v ms)) h) refl

parse_plain :
    (c : ℕ) (after k v : List ℕ) (ms : List Mapping)
    → needs_escape c ≡ false
    → parse_from (c ∷ after) (with_value k string_type v ms)
      ≡ parse_from after (with_value k string_type (v ++ c ∷ []) ms)
unfolding parse_from parse_char
parse_plain c after k v ms h = rw (plain_char c k v ms h) refl

pub parse_quoted :
    (t after k v : List ℕ) (ms : List Mapping)
    → parse_from (quoted t after) (with_value k string_type v ms)
      ≡ parse_from (34 ∷ after) (with_value k string_type (v ++ t) ms)
unfolding quoted
parse_quoted [] after k v ms = rw (append-nil v) refl
parse_quoted (c ∷ cs) after k v ms =
    let rest =
      parse_quoted cs after k (v ++ c ∷ []) ms
      ∙ ap (λ (x : List ℕ). parse_from (34 ∷ after) (with_value k string_type x ms))
          (append_assoc v (c ∷ []) cs) in
    elim (Bool-cases (needs_escape c)) [
      | inl e ↦ rw e (parse_escaped c (quoted cs after) k v ms e ∙ rest)
      | inr e ↦ rw e (parse_plain c (quoted cs after) k v ms e ∙ rest)
    ]

-- A text that is not empty, all of it digits.
abbrev pub IsNumber : List ℕ → Type 0
IsNumber [] = ⊥
IsNumber (d ∷ ds) = AllDigits (d ∷ ds)

pub digits-IsNumber : (n : ℕ) → IsNumber (digits n)
unfolding digits digits_from
digits-IsNumber zero = ((omega arith, omega arith), tt)
digits-IsNumber (suc n) =
    number (digits (suc n)) (digits-Numeral (suc n) (omega arith)) (digits-AllDigits (suc n))
  where
    number : (t : List ℕ) → Numeral t → AllDigits t → IsNumber t
    number [] h a = h
    number (d ∷ ds) h a = a

-- A key, up to its colon.
pub parse_register :
    (ds after : List ℕ) (ms : List Mapping)
    → IsNumber ds
    → parse_from (ds ++ 58 ∷ after) (parser_with ms)
      ≡ parse_from after (with_key ds (scan_state ∷ []) ms)
parse_register [] after ms h = elim h [ ]
parse_register (d ∷ ds) after ms h =
    let is_one : is_digit d ≡ true = ground (arith, h.0) in
    let first : parse_from (d ∷ ds ++ 58 ∷ after) (parser_with ms)
        ≡ parse_from (ds ++ 58 ∷ after) (with_key (d ∷ []) (key_state ∷ scan_state ∷ []) ms) =
      unfold parse_from parse_char in
      (rw (on_default_digit d scan_state (parser_with ms) h.0.0 h.0.1) (rw is_one refl)) in
    let last : parse_from (58 ∷ after) (with_key (d ∷ ds) (key_state ∷ scan_state ∷ []) ms)
        ≡ parse_from after (with_key (d ∷ ds) (scan_state ∷ []) ms) =
      unfold parse_from parse_char on_char in refl in
    first ∙ parse_key ds (58 ∷ after) (d ∷ []) ms h.1 ∙ last

-- An integer, in the value that follows a key.
pub parse_number :
    (ds after : List ℕ) (k : ℕ) (ks : List ℕ) (ms : List Mapping)
    → IsNumber ds
    → parse_from (ds ++ after) (with_key (k ∷ ks) (scan_state ∷ []) ms)
      ≡ parse_from after (with_value (k ∷ ks) int_type ds ms)
parse_number [] after k ks ms h = elim h [ ]
parse_number (d ∷ ds) after k ks ms h =
    let is_one : is_digit d ≡ true = ground (arith, h.0) in
    let first : parse_from (d ∷ ds ++ after) (with_key (k ∷ ks) (scan_state ∷ []) ms)
        ≡ parse_from (ds ++ after) (with_value (k ∷ ks) int_type (d ∷ []) ms) =
      unfold parse_from parse_char in
      (rw (on_default_digit d scan_state (with_key (k ∷ ks) (scan_state ∷ []) ms) h.0.0 h.0.1)
        (rw is_one refl)) in
    first ∙ parse_digits ds after (k ∷ ks) (d ∷ []) ms h.1

pub parse_negative :
    (ds after : List ℕ) (k : ℕ) (ks : List ℕ) (ms : List Mapping)
    → IsNumber ds
    → parse_from (45 ∷ ds ++ after) (with_key (k ∷ ks) (scan_state ∷ []) ms)
      ≡ parse_from after (with_value (k ∷ ks) int_type (45 ∷ ds) ms)
parse_negative [] after k ks ms h = elim h [ ]
parse_negative (d ∷ ds) after k ks ms h =
    let is_one : is_digit d ≡ true = ground (arith, h.0) in
    let first : parse_from (45 ∷ d ∷ ds ++ after) (with_key (k ∷ ks) (scan_state ∷ []) ms)
        ≡ parse_from (d ∷ ds ++ after) (with_value (k ∷ ks) no_type (45 ∷ []) ms) =
      unfold parse_from parse_char on_char in refl in
    let second : parse_from (d ∷ ds ++ after) (with_value (k ∷ ks) no_type (45 ∷ []) ms)
        ≡ parse_from (ds ++ after) (with_value (k ∷ ks) int_type (45 ∷ d ∷ []) ms) =
      unfold parse_from parse_char in
      (rw (on_default_digit d value_state (with_value (k ∷ ks) no_type (45 ∷ []) ms) h.0.0 h.0.1)
        (rw is_one refl)) in
    first ∙ second ∙ parse_digits ds after (k ∷ ks) (45 ∷ d ∷ []) ms h.1
