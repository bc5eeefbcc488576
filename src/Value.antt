-- ===== src/Value.antt =====
-- libmodmqttconv/mqttvalue.hpp: the values that converters give and take. A text is the list of its
-- bytes. A double is the fraction m / 2 ^ k, as every finite one is; infinities, NaN and the negative
-- zero are left out, and so is `getDouble`. `none` is a `ConvException`, or undefined behaviour where a double
-- does not fit the integer type. `strtol`, `to_string` and the stream's format are those of the
-- standard library, in the C locale, with a `long` of 64 bits.
pub mod Decimal
use mqmgateway.Base.{
  ℤ, pos, negsuc, ℕ, zero, suc, ◌+◌, ◌-◌, ◌*◌, ◌%◌, ◌/◌, ◌^◌, Bool, true, false, ◌&&◌, ◌||◌, Option,
  none, some, List, [], ◌∷◌, ◌++◌, ltb, leb, ◌==◌, if◌then◌else◌, ◌>>=◌,
}
use mqmgateway.Convert.{signed, unsigned}

pub data MqttValue : Type 0 where
  binary : List ℕ → MqttValue
  int int64 : ℤ → MqttValue
  double : ℤ → ℕ → Option ℕ → MqttValue

abbrev pub digit : ℕ → ℕ
digit d = 48 + d

-- The decimal digits of a number; the fuel is the number and one.
unfoldable pub digits_from : ℕ → ℕ → List ℕ → List ℕ
digits_from zero n acc = acc
digits_from (suc f) n acc =
    let rest = digits_from f (n / 10) (digit (n % 10) ∷ acc) in
    if n / 10 == 0 then digit (n % 10) ∷ acc else rest

unfoldable pub digits : ℕ → List ℕ
unfolding digits_from
digits n = digits_from (suc n) n []

unfoldable pub to_string : ℤ → List ℕ
unfolding digits
to_string (pos n) = digits n
to_string (negsuc n) = 45 ∷ digits (suc n)

-- The value of a digit or letter, 36 for any other byte.
abbrev pub digit_value : ℕ → ℕ
digit_value c =
    if leb 48 c && leb c 57
    then c - 48
    else (if leb 97 c && leb c 122 then c - 87 else (if leb 65 c && leb c 90 then c - 55 else 36))

-- The digits of a base that a text begins with, and what follows them.
unfoldable pub read_digits : ℕ → ℕ → List ℕ → ℕ × List ℕ
read_digits base acc [] = (acc, [])
read_digits base acc (c ∷ cs) =
    let rest = read_digits base (acc * base + digit_value c) cs in
    if ltb (digit_value c) base then rest else (acc, c ∷ cs)

abbrev pub is_space : ℕ → Bool
is_space c = (c == 32) || (leb 9 c && leb c 13)

unfoldable pub skip_space : List ℕ → List ℕ
skip_space [] = []
skip_space (c ∷ cs) = if is_space c then skip_space cs else c ∷ cs

unfoldable pub read_sign : List ℕ → Bool × List ℕ
read_sign [] = (false, [])
read_sign (c ∷ cs) =
    if c == 45 then (true, cs) else (if c == 43 then (false, cs) else (false, c ∷ cs))

abbrev pub is_digit_of : ℕ → List ℕ → Bool
is_digit_of base [] = false
is_digit_of base (c ∷ cs) = ltb (digit_value c) base

-- The base 0 stands for 16 after `0x`, 8 after any other `0`, and 10. The prefix is passed over only
-- if a digit follows it.
unfoldable pub read_base : ℕ → List ℕ → ℕ × List ℕ
read_base base [] = (if base == 0 then 10 else base, [])
read_base base (c ∷ []) = (if base == 0 then (if c == 48 then 8 else 10) else base, c ∷ [])
read_base base (c ∷ x ∷ cs) =
    if (c == 48) && ((x == 120) || (x == 88)) && ((base == 0) || (base == 16)) && is_digit_of 16 cs
    then (16, cs)
    else (if base == 0 then (if c == 48 then 8 else 10) else base, c ∷ x ∷ cs)

-- The number that fits best into the range of a signed 64-bit integer.
abbrev pub clamp : Bool → ℕ → ℤ
clamp true n =
    if n == 0 then pos 0 else (if ltb (2 ^ 63) n then negsuc (2 ^ 63 - 1) else negsuc (n - 1))
clamp false n = if ltb n (2 ^ 63) then pos n else pos (2 ^ 63 - 1)

-- `strtol`: the number, and the text from `endptr` on.
unfoldable pub strtol : List ℕ → ℕ → ℤ × List ℕ
unfolding read_digits skip_space read_sign read_base
strtol text base =
    let (negative, signed_text) = read_sign (skip_space text) in
    let (used, rest) = read_base base signed_text in
    if is_digit_of used rest
    then (let (n, end) = read_digits used 0 rest in (clamp negative n, end))
    else (pos 0, text)

-- `c_str()`: what stands before the first null.
unfoldable pub c_str : List ℕ → List ℕ
c_str [] = []
c_str (c ∷ cs) = if c == 0 then [] else c ∷ c_str cs

-- The number, if `endptr` is the end of the text.
abbrev pub whole : ℤ × List ℕ → Option ℤ
whole (n, []) = some n
whole (n, c ∷ cs) = none

unfoldable pub parse : List ℕ → ℕ → Option ℤ
unfolding strtol c_str
parse text base = whole (strtol (c_str text) base)

-- The integer part of m / 2 ^ k, towards 0.
abbrev pub truncate : ℤ → ℕ → ℤ
truncate (pos m) k = pos (m / 2 ^ k)
truncate (negsuc m) k = if suc m / 2 ^ k == 0 then pos 0 else negsuc (suc m / 2 ^ k - 1)

-- A signed integer of `w` bits.
abbrev pub fits : ℕ → ℤ → Bool
fits w (pos n) = ltb n (2 ^ (w - 1))
fits w (negsuc n) = ltb n (2 ^ (w - 1))

abbrev pub fitting : ℕ → ℤ → Option ℤ
fitting w z = if fits w z then some z else none

unfoldable pub get_int : MqttValue → Option ℤ
unfolding parse
get_int (binary text) = parse text 0 >>= λ z. some (signed 32 (unsigned 32 z))
get_int (int z) = some z
get_int (int64 z) = some (signed 32 (unsigned 32 z))
get_int (double m k precision) = fitting 32 (truncate m k)

unfoldable pub get_uint16 : MqttValue → Option ℕ
unfolding get_int
get_uint16 v =
    get_int v >>= λ z. elim z [ pos n ↦ if ltb 65535 n then none else some n | negsuc n ↦ none ]

unfoldable pub get_int64 : MqttValue → Option ℤ
unfolding parse
get_int64 (binary text) = parse text 10
get_int64 (int z) = some z
get_int64 (int64 z) = some z
get_int64 (double m k precision) = fitting 64 (truncate m k)

abbrev pub magnitude : ℤ → ℕ
magnitude (pos n) = n
magnitude (negsuc n) = suc n

-- n / d, rounded to the nearest integer, a tie to the even one.
abbrev pub round_even : ℕ → ℕ → ℕ
round_even n d =
    let below = n / d in
    let left = 2 * (n % d) in
    if ltb left d
    then below
    else (if ltb d left then suc below else (if below % 2 == 0 then below else suc below))

-- The last `p` decimal digits of a number, with leading zeros.
unfoldable pub last_digits : ℕ → ℕ → List ℕ → List ℕ
last_digits zero n acc = acc
last_digits (suc p) n acc = last_digits p (n / 10) (digit (n % 10) ∷ acc)

-- A stream with the flag `fixed`: a minus sign also for a negative number that rounds to 0.
unfoldable pub fixed : ℕ → ℤ → ℕ → List ℕ
unfolding digits last_digits
fixed p m k =
    let scaled = round_even (magnitude m * 10 ^ p) (2 ^ k) in
    let whole = digits (scaled / 10 ^ p) in
    let text = if p == 0 then whole else whole ++ 46 ∷ last_digits p scaled [] in
    elim m [ pos n ↦ text | negsuc n ↦ 45 ∷ text ]

-- The private `format`. A number without a fraction and without a precision is printed as an
-- integer, if it is one of 64 bits; the default precision of a stream is 6.
unfoldable pub format : ℤ → ℕ → Option ℕ → Option (List ℕ)
unfolding fixed to_string
format m k (some p) = some (fixed p m k)
format m k none =
    if magnitude m % 2 ^ k == 0
    then (fitting 64 (truncate m k) >>= λ z. some (to_string z))
    else some (fixed 6 m k)

unfoldable pub get_string : MqttValue → Option (List ℕ)
unfolding format to_string
get_string (binary text) = some text
get_string (int z) = some (to_string z)
get_string (int64 z) = some (to_string z)
get_string (double m k precision) = format m k precision

-- Whether integers, and texts, are the same.
abbrev pub same_int : ℤ → ℤ → Bool
same_int (pos a) (pos b) = a == b
same_int (negsuc a) (negsuc b) = a == b
same_int (pos a) (negsuc b) = false
same_int (negsuc a) (pos b) = false

abbrev pub same_text : List ℕ → List ℕ → Bool
same_text [] [] = true
same_text (x ∷ xs) (y ∷ ys) = (x == y) && same_text xs ys
same_text [] (y ∷ ys) = false
same_text (x ∷ xs) [] = false
