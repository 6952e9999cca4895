-- ===== src/Codec/Decimal.antt =====
-- std::to_string, std::stoll and std::stoull, as the commands and their log use them.
use eya_kv.Prelude.{
  ℕ, zero, suc, ◌+◌, ◌-◌, ◌*◌, ◌/◌, ◌%◌, ◌^◌, ◌<◌, ◌≤◌, ◌≡◌, ap, sym, ◌∙◌, Bool, true, false, ◌&&◌,
  ◌||◌, ◌==◌, Bool-cases, inl, inr, ltb, leb, if◌then◌else◌, Option, none, some, [], ◌∷◌, ◌++◌,
  append_assoc, append-nil, length, length-append, ℤ, pos, negsuc, arith,
}
use eya_kv.Effects.{Result, returned, threw, out_of_range, invalid_argument}
use eya_kv.Codec.Words.{Bytes}

-- The digits of a number below ten to the power of the fuel.
unfoldable pub digits : ℕ → ℕ → Bytes
digits zero n = []
digits (suc fuel) n = elim (ltb n 10) [
  | true ↦ (48 + n) ∷ []
  | false ↦ digits fuel (n / 10) ++ (48 + n % 10) ∷ []
]

unfoldable pub to_string : ℕ → Bytes
unfolding digits
to_string n = digits (n + 1) n

-- isspace
unfoldable pub is_space : ℕ → Bool
is_space c = (c == 32) || (leb 9 c && leb c 13)

unfoldable pub is_digit : ℕ → Bool
is_digit c = leb 48 c && leb c 57

unfoldable pub skip_spaces : Bytes → Bytes
unfolding is_space
skip_spaces [] = []
skip_spaces (c ∷ s) = if is_space c then skip_spaces s else c ∷ s

-- The value of the digits up to the first other byte.
unfoldable pub read_digits : ℕ → Bytes → ℕ
unfolding is_digit
read_digits n [] = n
read_digits n (c ∷ s) = elim (is_digit c) [ true ↦ read_digits (n * 10 + (c - 48)) s | false ↦ n ]

-- The value of a number that begins with a digit.
unfoldable pub magnitude : Bytes → Option ℕ
unfolding read_digits
magnitude [] = none
magnitude (c ∷ s) = if is_digit c then some (read_digits 0 (c ∷ s)) else none

-- The sign and the magnitude after the spaces.
unfoldable pub signed : Bytes → Option (Bool × ℕ)
unfolding magnitude
signed [] = none
signed (c ∷ s) =
    if c == 45
    then (elim (magnitude s) [ none ↦ none | some n ↦ some (true, n) ])
    else (elim (magnitude (if c == 43 then s else c ∷ s)) [
      | none ↦ none
      | some n ↦ some (false, n)
    ])

unfoldable pub to_integer : Bool → ℕ → ℤ
to_integer true zero = pos 0
to_integer true (suc n) = negsuc n
to_integer false n = pos n

-- what a long long holds
unfoldable pub long_of : Option (Bool × ℕ) → Result ℤ
unfolding to_integer
long_of none = threw invalid_argument
long_of (some (minus, n)) =
    if ltb n (if minus then 2 ^ 63 + 1 else 2 ^ 63)
    then returned (to_integer minus n)
    else threw out_of_range

unfoldable pub stoll : Bytes → Result ℤ
unfolding signed skip_spaces long_of
stoll s = long_of (signed (skip_spaces s))

-- what an unsigned long long holds: a minus sign negates modulo 2^64
unfoldable pub unsigned_of : Option (Bool × ℕ) → Result ℕ
unsigned_of none = threw invalid_argument
unsigned_of (some (minus, n)) =
    if ltb n (2 ^ 64)
    then returned (if minus then (2 ^ 64 - n) % 2 ^ 64 else n)
    else threw out_of_range

unfoldable pub stoull : Bytes → Result ℕ
unfolding signed skip_spaces unsigned_of
stoull s = unsigned_of (signed (skip_spaces s))

-- The conversion of a long long to size_t.
unfoldable pub to_size : ℤ → ℕ
to_size (pos n) = n % 2 ^ 64
to_size (negsuc n) = 2 ^ 64 - 1 - n % 2 ^ 64

read_step :
    (c n : ℕ) (s : Bytes)
    → is_digit c ≡ true
    → read_digits n (c ∷ s) ≡ read_digits (n * 10 + (c - 48)) s
unfolding read_digits
read_step c n s h = rw (h, read_digits)

is_digit-add : (d : ℕ) → d < 10 → is_digit (48 + d) ≡ true
unfolding is_digit
is_digit-add d h = ground arith

read_digits-digits :
    (fuel n : ℕ) (rest : Bytes)
    → n < fuel
    → read_digits 0 (digits fuel n ++ rest) ≡ read_digits n rest
unfolding digits
read_digits-digits zero n rest h = absurd (omega arith)
read_digits-digits (suc fuel) n rest h = elim (Bool-cases (ltb n 10)) [
  | inl e ↦
      rw (e, digits)
        (read_step (48 + n) 0 rest (is_digit-add n (ground (arith, e)))
          ∙ ap (λ (m : ℕ). read_digits m rest) (omega arith))
  | inr e ↦
      (let d = 48 + n % 10 in
        rw (e, digits)
          (ap (read_digits 0) (append_assoc (digits fuel (n / 10)) (d ∷ []) rest)
            ∙ read_digits-digits fuel (n / 10) (d ∷ rest) (ground (arith, e))
            ∙ read_step d (n / 10) rest (is_digit-add (n % 10) (omega arith))
            ∙ ap (λ (m : ℕ). read_digits m rest) (omega arith)))
]

-- The first byte of a number is a digit.
digits-head :
    (fuel n : ℕ) → n < fuel → (c : ℕ) × (s : Bytes) × (digits fuel n ≡ c ∷ s) × (is_digit c ≡ true)
unfolding digits
digits-head zero n h = absurd (omega arith)
digits-head (suc fuel) n h = elim (Bool-cases (ltb n 10)) [
  | inl e ↦ (48 + n, [], rw (e, digits), is_digit-add n (ground (arith, e)))
  | inr e ↦
      (let (c, s, same, d) = digits-head fuel (n / 10) (ground (arith, e)) in
        (c, s ++ (48 + n % 10) ∷ [], rw (e, digits, same), d))
]

-- What begins with a digit is read as its digits, with no sign.
signed_plain :
    (c : ℕ) (s : Bytes)
    → is_digit c ≡ true
    → signed (skip_spaces (c ∷ s)) ≡ some (false, read_digits 0 (c ∷ s))
unfolding signed skip_spaces is_digit is_space magnitude read_digits
signed_plain c s h = ground arith

-- A number is read back.
signed-to_string : (n : ℕ) → signed (skip_spaces (to_string n)) ≡ some (false, n)
unfolding to_string read_digits
signed-to_string n =
    let (c, s, same, d) = digits-head (n + 1) n (omega arith) in
    ap (λ (t : Bytes). signed (skip_spaces t)) same
    ∙ signed_plain c s d
    ∙ ap (λ (m : ℕ). some (false, m))
        (ap (read_digits 0) (sym same ∙ sym (append-nil (digits (n + 1) n)))
          ∙ read_digits-digits (n + 1) n [] (omega arith))

pub stoll-to_string : (n : ℕ) → n < 2 ^ 63 → stoll (to_string n) ≡ returned (pos n)
unfolding stoll
stoll-to_string n h = ap long_of (signed-to_string n) ∙ ground (arith, h)

pub stoll_too_large : (n : ℕ) → 2 ^ 63 ≤ n → stoll (to_string n) ≡ threw out_of_range
unfolding stoll
stoll_too_large n h = ap long_of (signed-to_string n) ∙ ground (arith, h)

abbrev ten_times : ℕ → ℕ
ten_times zero = 10
ten_times (suc m) = 10 * ten_times m

-- A number below ten to the m + 1 has at most m + 1 digits.
length-digits : (m fuel n : ℕ) → n < ten_times m → length (digits fuel n) ≤ suc m
unfolding digits
length-digits m zero n h = omega arith
length-digits zero (suc fuel) n h = ground (arith, h)
length-digits (suc m) (suc fuel) n h = elim (Bool-cases (ltb n 10)) [
  | inl e ↦ rw (e, digits) (omega arith)
  | inr e ↦
      rw (e, digits)
        (omega (
          arith,
          length-append (digits fuel (n / 10)) ((48 + n % 10) ∷ []),
          length-digits m fuel (n / 10) (omega arith),
        ))
]

pub length-to_string : (n : ℕ) → n < 2 ^ 63 → length (to_string n) < 2 ^ 32
unfolding to_string
length-to_string n h = omega (arith, length-digits 18 (n + 1) n (omega arith))
