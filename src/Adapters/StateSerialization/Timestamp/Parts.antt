-- ===== src/Adapters/StateSerialization/Timestamp/Parts.antt =====
-- The numbers and letters of a timestamp, as `strftime` writes them and `strptime` reads them.
use alicerce.Prelude.{
  ℕ, zero, suc, false, refl, ne→false, ◌+◌, ◌-◌, ◌*◌, ◌/◌, ◌%◌, ◌<◌, ◌≡◌, ◌∙◌, ap, Bool, true, not,
  ◌&&◌, ◌||◌, [], ◌∷◌, ◌==◌, leb, Text, nat_eq, eq_self, arith, if◌then◌else◌,
}
use alicerce.Errors.{Result, ok, err, value_error}

abbrev digit : ℕ → ℕ
digit n = b'0' + n % 10

-- Two digits before a text.
unfoldable pub pair : ℕ → Text → Text
pair n rest = digit (n / 10) ∷ digit n ∷ rest

abbrev is_decimal : ℕ → Bool
is_decimal c = leb b'0' c && leb c b'9'

-- Two digits of %Y.
unfoldable pub read_pair : Text → Result (ℕ × Text)
read_pair (a ∷ b ∷ rest) =
    if is_decimal a && is_decimal b
    then ok ((a - b'0') * 10 + (b - b'0'), rest)
    else err value_error
read_pair _ = err value_error

unfoldable pub expect : ℕ → Text → Result Text
expect c [] = err value_error
expect c (a ∷ rest) = if a == c then ok rest else err value_error

-- So many zeros behind a number.
unfoldable pub scale : ℕ → ℕ → ℕ
scale zero value = value
scale (suc n) value = scale n (value * 10)

-- A letter in either case.
unfoldable pub expect_letter : ℕ → ℕ → Text → Result Text
expect_letter upper lower [] = err value_error
expect_letter upper lower (a ∷ rest) = if a == upper || a == lower then ok rest else err value_error

-- %m, %H, %M and %S: one digit or two
unfoldable pub read_short : Text → Result (ℕ × Text)
read_short [] = err value_error
read_short (a ∷ []) = if is_decimal a then ok (a - b'0', []) else err value_error
read_short (a ∷ b ∷ rest) =
    if not (is_decimal a)
    then err value_error
    else if is_decimal b
    then ok ((a - b'0') * 10 + (b - b'0'), rest)
    else ok (a - b'0', b ∷ rest)

-- %d, where a space may stand for the first digit
unfoldable pub read_day : Text → Result (ℕ × Text)
unfolding read_short
read_day (a ∷ b ∷ rest) =
    if a == b' ' && is_decimal b then ok (b - b'0', rest) else read_short (a ∷ b ∷ rest)
read_day text = read_short text

-- The rest of %f, which has six digits at most; those that are missing count as zeros.
unfoldable pub read_fraction : ℕ → ℕ → Text → ℕ × Text
unfolding scale
read_fraction zero value text = (value, text)
read_fraction (suc n) value [] = read_fraction n (value * 10) []
read_fraction (suc n) value (a ∷ rest) =
    if is_decimal a
    then read_fraction n (value * 10 + (a - b'0')) rest
    else (scale (suc n) value, a ∷ rest)

-- %f
unfoldable pub read_micro : Text → Result (ℕ × Text)
read_micro [] = err value_error
read_micro (a ∷ rest) = if is_decimal a then ok (read_fraction 6 0 (a ∷ rest)) else err value_error

pub read_pair-pair : (n : ℕ) (rest : Text) → n < 100 → read_pair (pair n rest) ≡ ok (n, rest)
unfolding read_pair pair
read_pair-pair n rest h = ground arith

pub read_short-pair : (n : ℕ) (rest : Text) → n < 100 → read_short (pair n rest) ≡ ok (n, rest)
unfolding read_short pair
read_short-pair n rest h = ground arith

no_space : (n : ℕ) → (digit n == b' ') ≡ false
no_space n = ne→false (digit n) b' ' (λ same. absurd (omega arith))

pub read_day-pair : (n : ℕ) (rest : Text) → n < 100 → read_day (pair n rest) ≡ ok (n, rest)
unfolding read_day pair
read_day-pair n rest h = rw (no_space (n / 10)) (read_short-pair n rest h)

decimal_digit : (n : ℕ) → is_decimal (digit n) ≡ true
decimal_digit n = ground arith

read_fraction-pair :
    (n value d : ℕ) (rest : Text)
    → d < 100
    → read_fraction (suc (suc n)) value (pair d rest) ≡ read_fraction n (value * 100 + d) rest
unfolding read_fraction pair
read_fraction-pair n value d rest h =
    let sum : (value * 10 + (digit (d / 10) - b'0')) * 10 + (digit d - b'0') ≡ value * 100 + d =
      omega arith in
    rw (decimal_digit (d / 10), decimal_digit d, sum)

last_digit : (value : ℕ) (rest : Text) → read_fraction 0 value rest ≡ (value, rest)
unfolding read_fraction
last_digit value rest = refl

read_micro-digit :
    (n : ℕ) (rest : Text) → read_micro (digit n ∷ rest) ≡ ok (read_fraction 6 0 (digit n ∷ rest))
unfolding read_micro
read_micro-digit n rest = rw (decimal_digit n)

pub read_micro-pairs :
    (a b c : ℕ) (rest : Text)
    → a < 100
    → b < 100
    → c < 100
    → read_micro (pair a (pair b (pair c rest))) ≡ ok (a * 10000 + b * 100 + c, rest)
unfolding pair
read_micro-pairs a b c rest p q r =
    let sum : ((0 * 100 + a) * 100 + b) * 100 + c ≡ a * 10000 + b * 100 + c = omega arith in
    let read =
      read_fraction-pair 4 0 a (pair b (pair c rest)) p
      ∙ read_fraction-pair 2 (0 * 100 + a) b (pair c rest) q
      ∙ read_fraction-pair 0 ((0 * 100 + a) * 100 + b) c rest r in
    read_micro-digit (a / 10) (digit a ∷ pair b (pair c rest))
    ∙ ap (λ x. let out : Result (ℕ × Text) = ok x in out)
        (read ∙ last_digit _ rest ∙ ap (λ x. (x, rest)) sum)

pub expect_self : (c : ℕ) (rest : Text) → expect c (c ∷ rest) ≡ ok rest
unfolding expect
expect_self c rest = rw (eq_self c)

pub expect_upper :
    (upper lower : ℕ) (rest : Text) → expect_letter upper lower (upper ∷ rest) ≡ ok rest
unfolding expect_letter
expect_upper upper lower rest = rw (eq_self upper)
