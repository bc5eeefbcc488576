-- ===== src/Mapping/Parser.antt =====
-- `MapParser::parse` of map.cpp: a function for each case of the switch on the character, which looks
-- at the state on the top of the stack.
use mqmgateway.Base.{
  ℕ, Bool, not, ◌&&◌, Option, none, some, List, [], ◌∷◌, leb, ◌==◌, if◌then◌else◌, ◌>>=◌,
}
use mqmgateway.Mapping.{
  Mapping, AState, scan_state, key_state, escape_state, value_state, AValueType, no_type, int_type,
  string_type, MapParser, push_state, pop_state, add_to_key, add_to_value, add_escaped_char,
  is_int_type, is_no_type, is_empty_text, add_mapping,
}

abbrev pub on_open_brace : AState → MapParser → Option MapParser
on_open_brace scan_state p = some p
on_open_brace key_state p = none
on_open_brace value_state p = some (add_to_value 123 p)
on_open_brace escape_state p = add_escaped_char 123 p

-- A brace that closes a map in the value of a text is appended, and then the case falls through to an
-- exception.
abbrev pub on_close_brace : AState → MapParser → Option MapParser
on_close_brace scan_state p = if is_int_type p.value_type then add_mapping p else some p
on_close_brace key_state p = none
on_close_brace value_state p = if is_int_type p.value_type then add_mapping p else none
on_close_brace escape_state p = add_escaped_char 125 p

abbrev pub on_backslash : AState → MapParser → Option MapParser
on_backslash scan_state p = none
on_backslash key_state p = none
on_backslash value_state p = some (push_state escape_state p)
on_backslash escape_state p = add_escaped_char 92 p

abbrev pub on_quote_value : AValueType → MapParser → Option MapParser
on_quote_value no_type p = some (record p { value_type = string_type })
on_quote_value string_type p = add_mapping p
on_quote_value int_type p = none

abbrev pub on_quote : AState → MapParser → Option MapParser
on_quote scan_state p =
    if is_empty_text p.key_text
    then some (push_state key_state p)
    else some (push_state value_state (record p { value_type = string_type }))
on_quote key_state p = none
on_quote escape_state p = add_escaped_char 34 p
on_quote value_state p = on_quote_value p.value_type p

abbrev pub on_space_value : AValueType → MapParser → Option MapParser
on_space_value int_type p = pop_state p
on_space_value string_type p = some (add_to_value 32 p)
on_space_value no_type p = some p

abbrev pub on_space : AState → MapParser → Option MapParser
on_space scan_state p = some p
on_space key_state p = pop_state p
on_space value_state p = on_space_value p.value_type p
on_space escape_state p = add_escaped_char 32 p

abbrev pub on_colon : AState → MapParser → Option MapParser
on_colon scan_state p = if is_empty_text p.key_text then none else some p
on_colon key_state p = pop_state p
on_colon escape_state p = add_escaped_char 58 p
on_colon value_state p = some (add_to_value 58 p)

abbrev pub on_comma : AState → MapParser → Option MapParser
on_comma scan_state p = some p
on_comma key_state p = none
on_comma value_state p =
    if is_int_type p.value_type then add_mapping p else some (add_to_value 44 p)
on_comma escape_state p = add_escaped_char 44 p

abbrev pub is_digit : ℕ → Bool
is_digit c = leb 48 c && leb c 57

-- The type of a value from its first digit on.
abbrev pub type_with : ℕ → AValueType → AValueType
type_with c t = if is_no_type t && is_digit c then int_type else t

abbrev pub on_default : ℕ → AState → MapParser → Option MapParser
on_default c scan_state p =
    if is_empty_text p.key_text
    then (if is_digit c then some (add_to_key c (push_state key_state p)) else none)
    else some (
        add_to_value c
          (push_state value_state (record p { value_type = type_with c p.value_type })))
on_default c key_state p =
    if not (is_digit c) && not (c == 120) then none else some (add_to_key c p)
on_default c value_state p =
    some (add_to_value c (record p { value_type = type_with c p.value_type }))
on_default c escape_state p = add_escaped_char c p

-- The switch on a character.
unfoldable pub on_char : ℕ → AState → MapParser → Option MapParser
unfolding add_mapping
on_char c s p =
    if c == 123
    then on_open_brace s p
    else (if c == 125
        then on_close_brace s p
        else (if c == 92
            then on_backslash s p
            else (if c == 34
                then on_quote s p
                else (if c == 32
                    then on_space s p
                    else (if c == 58
                        then on_colon s p
                        else (if c == 44 then on_comma s p else on_default c s p))))))

abbrev pub on_top : ℕ → List AState → MapParser → Option MapParser
on_top c [] p = none
on_top c (s ∷ rest) p = on_char c s p

unfoldable pub parse_char : ℕ → MapParser → Option MapParser
unfolding on_char
parse_char c p = on_top c p.current_state p

-- The loop over the text.
unfoldable pub parse_from : List ℕ → MapParser → Option MapParser
unfolding parse_char
parse_from [] p = some p
parse_from (c ∷ cs) p = parse_char c p >>= λ q. parse_from cs q

-- The parser between two entries, with the map so far.
abbrev pub parser_with : List Mapping → MapParser
parser_with ms = record {
  current_state = scan_state ∷ [];
  key_text = [];
  value_type = no_type;
  value_text = [];
  mappings = ms;
}

-- `MapParser::parse`, with a new parser, as `parseMap` calls it.
unfoldable pub parse_map : List ℕ → Option (List Mapping)
unfolding parse_from
parse_map text = parse_from text (parser_with []) >>= λ p. some p.mappings
