-- ===== src/Value/Decimal.antt =====
-- Printing an integer and reading it back.
use mqmgateway.Base.{
  ℤ, pos, negsuc, ℕ, zero, suc, ◌+◌, ◌*◌, ◌%◌, ◌/◌, ◌≤◌, ◌<◌, ◌≡◌, refl, ap, ◌∙◌, ◌⊎◌, inl, inr,
  Bool, true, false, some, List, [], ◌∷◌, arith, ltb, ◌==◌, Bool-cases, bind-some, All,
}
use mqmgateway.Convert.{signed, unsigned}
use mqmgateway.Value.{
  binary, int64, digit, digits_from, digits, to_string, digit_value, read_digits, skip_space,
  read_sign, is_digit_of, read_base, clamp, strtol, c_str, whole, parse, fits, get_int, get_int64,
  get_string,
}

digit_value-digit : (d : ℕ) → d < 10 → digit_value (digit d) ≡ d
digit_value-digit d h = ground arith

read-digit :
    (acc d : ℕ) (t : List ℕ)
    → d < 10
    → read_digits 10 acc (digit d ∷ t) ≡ read_digits 10 (acc * 10 + d) t
unfolding read_digits
read-digit acc d t h =
    let e : ltb (digit_value (digit d)) 10 ≡ true = ground (arith, digit_value-digit d h) in
    rw e (ap (λ (v : ℕ). read_digits 10 (acc * 10 + v) t) (digit_value-digit d h))

-- The digits are read back, after what was read before them as 0.
read-digits_from :
    (f n : ℕ) (t : List ℕ) → n < f → read_digits 10 0 (digits_from f n t) ≡ read_digits 10 n t
unfolding digits_from
read-digits_from zero n t h = elim h [ ]
read-digits_from (suc f) n t h =
    let d = n % 10 in
    elim (Bool-cases (n / 10 == 0)) [
      | inl e ↦
          let q : 0 * 10 + d ≡ n = ground arith in
          rw e (read-digit 0 d t (omega arith) ∙ ap (λ (v : ℕ). read_digits 10 v t) q)
      | inr e ↦
          let q : (n / 10) * 10 + d ≡ n = omega arith in
          rw e (
            read-digits_from f (n / 10) (digit d ∷ t) (ground arith)
            ∙ read-digit (n / 10) d t (omega arith)
            ∙ ap (λ (v : ℕ). read_digits 10 v t) q)
    ]

-- A text that begins with a digit other than 0.
abbrev pub Numeral : List ℕ → Type 0
Numeral [] = ⊥
Numeral (c ∷ cs) = (49 ≤ c) × (c ≤ 57)

-- Every byte of a text is a digit.
abbrev pub AllDigits : List ℕ → Type 0
AllDigits text = All (λ c. (48 ≤ c) × (c ≤ 57)) text

digits_from-Numeral : (f n : ℕ) (t : List ℕ) → n < f → 0 < n → Numeral (digits_from f n t)
unfolding digits_from
digits_from-Numeral zero n t h k = elim h [ ]
digits_from-Numeral (suc f) n t h k = elim (Bool-cases (n / 10 == 0)) [
  | inl e ↦ rw e (ground arith, ground arith)
  | inr e ↦ rw e (digits_from-Numeral f (n / 10) (digit (n % 10) ∷ t) (ground arith) (ground arith))
]

digits_from-AllDigits : (f n : ℕ) (t : List ℕ) → AllDigits t → AllDigits (digits_from f n t)
unfolding digits_from
digits_from-AllDigits zero n t h = h
digits_from-AllDigits (suc f) n t h =
    let here : AllDigits (digit (n % 10) ∷ t) = ((omega arith, omega arith), h) in
    elim (Bool-cases (n / 10 == 0)) [
      | inl e ↦ rw e here
      | inr e ↦ rw e (digits_from-AllDigits f (n / 10) (digit (n % 10) ∷ t) here)
    ]

pub c_str-digits : (text : List ℕ) → AllDigits text → c_str text ≡ text
unfolding c_str
c_str-digits [] h = refl
c_str-digits (c ∷ cs) h = ground (arith, c_str-digits cs h.1)

-- A numeral has no space, no sign and no prefix of a base.
read_base-Numeral :
    (base : ℕ) (text : List ℕ)
    → Numeral text
    → (base ≡ 0) ⊎ (base ≡ 10)
    → read_base base text ≡ (10, text)
unfolding read_base
read_base-Numeral base [] h b = elim h [ ]
read_base-Numeral base (c ∷ []) h b = ground arith
read_base-Numeral base (c ∷ x ∷ cs) h b = ground arith

read_sign-Numeral : (text : List ℕ) → Numeral text → read_sign text ≡ (false, text)
unfolding read_sign
read_sign-Numeral [] h = elim h [ ]
read_sign-Numeral (c ∷ cs) h = ground arith

skip_space-Numeral : (text : List ℕ) → Numeral text → skip_space text ≡ text
unfolding skip_space
skip_space-Numeral [] h = elim h [ ]
skip_space-Numeral (c ∷ cs) h = ground arith

Numeral-digit : (text : List ℕ) → Numeral text → is_digit_of 10 text ≡ true
Numeral-digit [] h = elim h [ ]
Numeral-digit (c ∷ cs) h = ground arith

strtol-Numeral :
    (negative : Bool) (base n : ℕ) (text ds : List ℕ)
    → (base ≡ 0) ⊎ (base ≡ 10)
    → Numeral ds
    → read_sign (skip_space text) ≡ (negative, ds)
    → read_digits 10 0 ds ≡ (n, [])
    → strtol text base ≡ (clamp negative n, [])
unfolding strtol
strtol-Numeral negative base n text ds b h sign number =
    rw (sign, read_base-Numeral base ds h b, Numeral-digit ds h, number)

pub digits-Numeral : (n : ℕ) → 0 < n → Numeral (digits n)
unfolding digits
digits-Numeral n h = digits_from-Numeral (suc n) n [] (omega arith) h

read-digits : (n : ℕ) → read_digits 10 0 (digits n) ≡ (n, [])
unfolding digits read_digits
read-digits n = read-digits_from (suc n) n [] (omega arith)

pub strtol-to_string :
    (base : ℕ) (z : ℤ)
    → (base ≡ 0) ⊎ (base ≡ 10)
    → fits 64 z ≡ true
    → strtol (to_string z) base ≡ (z, [])
unfolding to_string
strtol-to_string base (pos zero) (inl b) h =
    rw b (unfold strtol skip_space read_sign read_base read_digits in refl)
strtol-to_string base (pos zero) (inr b) h =
    rw b (unfold strtol skip_space read_sign read_base read_digits in refl)
strtol-to_string base (pos (suc n)) b h =
    let numeral = digits-Numeral (suc n) (omega arith) in
    let sign : read_sign (skip_space (digits (suc n))) ≡ (false, digits (suc n)) =
      rw (skip_space-Numeral _ numeral) (read_sign-Numeral _ numeral) in
    strtol-Numeral false base (suc n) _ _ b numeral sign (read-digits (suc n)) ∙ ground arith
strtol-to_string base (negsuc n) b h =
    let numeral = digits-Numeral (suc n) (omega arith) in
    let sign : read_sign (skip_space (45 ∷ digits (suc n))) ≡ (true, digits (suc n)) =
      unfold read_sign skip_space in refl in
    strtol-Numeral true base (suc n) _ _ b numeral sign (read-digits (suc n)) ∙ ground arith

pub digits-AllDigits : (n : ℕ) → AllDigits (digits n)
unfolding digits
digits-AllDigits n = digits_from-AllDigits (suc n) n [] tt

pub c_str-to_string : (z : ℤ) → c_str (to_string z) ≡ to_string z
unfolding to_string
c_str-to_string (pos n) = c_str-digits (digits n) (digits-AllDigits n)
c_str-to_string (negsuc n) =
    unfold c_str in
    ap (λ (t : List ℕ). 45 ∷ t) (c_str-digits (digits (suc n)) (digits-AllDigits (suc n)))

pub parse-to_string :
    (base : ℕ) (z : ℤ)
    → (base ≡ 0) ⊎ (base ≡ 10)
    → fits 64 z ≡ true
    → parse (to_string z) base ≡ some z
unfolding parse
parse-to_string base z b h =
    ap (λ (t : List ℕ). whole (strtol t base)) (c_str-to_string z)
    ∙ ap whole (strtol-to_string base z b h)

-- A 64-bit integer that a value prints is read back: as 64 bits it is the same integer, and as 32 bits
-- what is left of the integer itself.
pub get_int-get_string :
    (z : ℤ)
    → fits 64 z ≡ true
    → (text : List ℕ) × (get_string (int64 z) ≡ some text)
      × (get_int64 (binary text) ≡ some z)
      × (get_int (binary text) ≡ get_int (int64 z))
unfolding get_string get_int get_int64
get_int-get_string z h = (
  to_string z,
  refl,
  parse-to_string 10 z (inr refl) h,
  bind-some (λ z. some (signed 32 (unsigned 32 z))) (parse-to_string 0 z (inl refl) h),
)
