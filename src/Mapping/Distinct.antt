-- ===== src/Mapping/Distinct.antt =====
-- The entries of a map that was parsed.
use mqmgateway.Base.{
  ℕ, ◌≡◌, subst, inl, inr, Bool, true, false, not, ◌&&◌, ◌||◌, Option, none, some, List, [], ◌∷◌,
  arith, ◌==◌, if◌then◌else◌, Bool-cases, Option-cases,
}
use mqmgateway.Mapping.{
  Mapping, AState, scan_state, key_state, escape_state, value_state, AValueType, no_type, int_type,
  string_type, MapParser, find_reg_value, has_variant, pop_from, add_to_value, add_escaped_to,
  is_int_type, variant_of, is_empty_text, is_found, add_mapping,
}
use mqmgateway.Mapping.Injective.{
  IsInjective, find_reg_value-none, has_variant-false, get_uint16-lt, Injective-snoc,
}
use mqmgateway.Mapping.Parser.{
  on_open_brace, on_close_brace, on_backslash, on_quote_value, on_quote, on_space_value, on_space,
  on_colon, on_comma, is_digit, on_default, on_char, on_top, parse_char, parse_from, parser_with,
  parse_map,
}
use mqmgateway.Value.{binary, get_uint16}

-- What holds of the map of a parser, if there is one.
abbrev Keeps : Option MapParser → Type 0
Keeps none = Unit
Keeps (some p) = IsInjective p.mappings

-- A state that is popped leaves the map as it is.
pop_from-Keeps :
    (states : List AState) (p : MapParser) → IsInjective p.mappings → Keeps (pop_from states p)
pop_from-Keeps [] p h = tt
pop_from-Keeps (s ∷ rest) p h = h

add_escaped-Keeps :
    (c : ℕ) (states : List AState) (p : MapParser)
    → IsInjective p.mappings
    → Keeps (add_escaped_to c states p)
add_escaped-Keeps c [] p h = tt
add_escaped-Keeps c (s ∷ []) p h = tt
add_escaped-Keeps c (s ∷ scan_state ∷ rest) p h = tt
add_escaped-Keeps c (s ∷ key_state ∷ rest) p h = h
add_escaped-Keeps c (s ∷ escape_state ∷ rest) p h = tt
add_escaped-Keeps c (s ∷ value_state ∷ rest) p h = h

add_mapping-Keeps : (p : MapParser) → IsInjective p.mappings → Keeps (add_mapping p)
unfolding add_mapping
add_mapping-Keeps p h =
    let v = variant_of p.value_type p.value_text in
    elim (Bool-cases (is_empty_text p.key_text)) [
      | inl e ↦ rw e tt
      | inr e ↦ rw e (elim (Option-cases (get_uint16 (binary p.key_text))) [
        | inl g ↦ rw g tt
        | inr (reg, g) ↦
            rw g
              (elim (Bool-cases
                (is_found (find_reg_value reg p.mappings) || has_variant v p.mappings)) [
                  | inl f ↦ rw f tt
                  | inr f ↦ rw f (
                      pop_from-Keeps p.current_state _ (
                        Injective-snoc p.mappings _ h (get_uint16-lt (binary p.key_text) reg g)
                          (find_reg_value-none reg p.mappings (ground (arith, f)))
                          (has_variant-false v p.mappings (ground (arith, f)))))
                ])
      ])
    ]

if-Keeps : (b : Bool) (x y : Option MapParser) → Keeps x → Keeps y → Keeps (if b then x else y)
if-Keeps true x y h k = h
if-Keeps false x y h k = k

module _ (p : MapParser) (h : IsInjective p.mappings) where
  if_int-Keeps :
      (o : Option MapParser)
      → Keeps o
      → Keeps (if is_int_type p.value_type then add_mapping p else o)
  if_int-Keeps o k = elim (Bool-cases (is_int_type p.value_type)) [
    | inl e ↦ rw e (add_mapping-Keeps p h)
    | inr e ↦ rw e k
  ]

  on_open_brace-Keeps : (s : AState) → Keeps (on_open_brace s p)
  on_open_brace-Keeps scan_state = h
  on_open_brace-Keeps key_state = tt
  on_open_brace-Keeps value_state = h
  on_open_brace-Keeps escape_state = add_escaped-Keeps 123 p.current_state p h

  on_close_brace-Keeps : (s : AState) → Keeps (on_close_brace s p)
  on_close_brace-Keeps scan_state = if_int-Keeps (some p) h
  on_close_brace-Keeps key_state = tt
  on_close_brace-Keeps value_state = if_int-Keeps none tt
  on_close_brace-Keeps escape_state = add_escaped-Keeps 125 p.current_state p h

  on_backslash-Keeps : (s : AState) → Keeps (on_backslash s p)
  on_backslash-Keeps scan_state = tt
  on_backslash-Keeps key_state = tt
  on_backslash-Keeps value_state = h
  on_backslash-Keeps escape_state = add_escaped-Keeps 92 p.current_state p h

  on_quote_value-Keeps : (t : AValueType) → Keeps (on_quote_value t p)
  on_quote_value-Keeps no_type = h
  on_quote_value-Keeps int_type = tt
  on_quote_value-Keeps string_type = add_mapping-Keeps p h

  on_quote-Keeps : (s : AState) → Keeps (on_quote s p)
  on_quote-Keeps scan_state = elim (Bool-cases (is_empty_text p.key_text)) [
    | inl e ↦ rw e h
    | inr e ↦ rw e h
  ]
  on_quote-Keeps key_state = tt
  on_quote-Keeps value_state = on_quote_value-Keeps p.value_type
  on_quote-Keeps escape_state = add_escaped-Keeps 34 p.current_state p h

  on_space_value-Keeps : (t : AValueType) → Keeps (on_space_value t p)
  on_space_value-Keeps no_type = h
  on_space_value-Keeps int_type = pop_from-Keeps p.current_state p h
  on_space_value-Keeps string_type = h

  on_space-Keeps : (s : AState) → Keeps (on_space s p)
  on_space-Keeps scan_state = h
  on_space-Keeps key_state = pop_from-Keeps p.current_state p h
  on_space-Keeps value_state = on_space_value-Keeps p.value_type
  on_space-Keeps escape_state = add_escaped-Keeps 32 p.current_state p h

  on_colon-Keeps : (s : AState) → Keeps (on_colon s p)
  on_colon-Keeps scan_state = elim (Bool-cases (is_empty_text p.key_text)) [
    | inl e ↦ rw e tt
    | inr e ↦ rw e h
  ]
  on_colon-Keeps key_state = pop_from-Keeps p.current_state p h
  on_colon-Keeps value_state = h
  on_colon-Keeps escape_state = add_escaped-Keeps 58 p.current_state p h

  on_comma-Keeps : (s : AState) → Keeps (on_comma s p)
  on_comma-Keeps scan_state = h
  on_comma-Keeps key_state = tt
  on_comma-Keeps value_state = if_int-Keeps (some (add_to_value 44 p)) h
  on_comma-Keeps escape_state = add_escaped-Keeps 44 p.current_state p h

  on_default-Keeps : (c : ℕ) (s : AState) → Keeps (on_default c s p)
  on_default-Keeps c scan_state = elim (Bool-cases (is_empty_text p.key_text)) [
    | inl e ↦ rw e (elim (Bool-cases (is_digit c)) [ inl d ↦ rw d h | inr d ↦ rw d tt ])
    | inr e ↦ rw e h
  ]
  on_default-Keeps c key_state = elim (Bool-cases (not (is_digit c) && not (c == 120))) [
    | inl d ↦ rw d tt
    | inr d ↦ rw d h
  ]
  on_default-Keeps c value_state = h
  on_default-Keeps c escape_state = add_escaped-Keeps c p.current_state p h

  on_char-Keeps : (c : ℕ) (s : AState) → Keeps (on_char c s p)
  unfolding on_char
  on_char-Keeps c s = if-Keeps (c == 123) _ _ (on_open_brace-Keeps s) (
      if-Keeps (c == 125) _ _ (on_close_brace-Keeps s) (
        if-Keeps (c == 92) _ _ (on_backslash-Keeps s) (
          if-Keeps (c == 34) _ _ (on_quote-Keeps s) (
            if-Keeps (c == 32) _ _ (on_space-Keeps s) (
              if-Keeps (c == 58) _ _ (on_colon-Keeps s)
                (if-Keeps (c == 44) _ _ (on_comma-Keeps s) (on_default-Keeps c s)))))))

  on_top-Keeps : (c : ℕ) (states : List AState) → Keeps (on_top c states p)
  on_top-Keeps c [] = tt
  on_top-Keeps c (s ∷ rest) = on_char-Keeps c s

parse_char-Keeps : (c : ℕ) (p : MapParser) → IsInjective p.mappings → Keeps (parse_char c p)
unfolding parse_char
parse_char-Keeps c p h = on_top-Keeps p h c p.current_state

parse_from-Keeps :
    (text : List ℕ) (p : MapParser) → IsInjective p.mappings → Keeps (parse_from text p)
unfolding parse_from
parse_from-Keeps [] p h = h
parse_from-Keeps (c ∷ cs) p h = elim (Option-cases (parse_char c p)) [
  | inl e ↦ rw e tt
  | inr (q, e) ↦ rw e (parse_from-Keeps cs q (subst Keeps e (parse_char-Keeps c p h)))
]

-- A map that the parser makes of any text has no two entries of the same register, no two with the
-- same value, and only registers of 16 bits.
pub parse_map-IsInjective :
    (text : List ℕ) (ms : List Mapping) → parse_map text ≡ some ms → IsInjective ms
unfolding parse_map
parse_map-IsInjective text ms h = elim (Option-cases (parse_from text (parser_with []))) [
  | inl e ↦ absurd (ground (arith, e, h))
  | inr (p, e) ↦
      let q : p.mappings ≡ ms = ground (arith, e, h) in
      subst IsInjective q (subst Keeps e (parse_from-Keeps text (parser_with []) (tt, tt)))
]
