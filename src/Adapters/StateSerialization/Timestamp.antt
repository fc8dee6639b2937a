-- ===== src/Adapters/StateSerialization/Timestamp.antt =====
-- `_timestamp` and `_parse_timestamp`, with what they use of `strftime` and `strptime` under the
-- format %Y-%m-%dT%H:%M:%S.%fZ. As Python's, the `strptime` here reads texts of other widths and
-- either case of T and Z; digits outside ASCII are left out. Below the year 1000, the width of %Y
-- in `strftime` depends on the platform; here it is four.
pub mod Parts
use mathlib.Core.Path.{subst}
use alicerce.Prelude.{
  ℕ, zero, suc, false, refl, ne→false, ◌+◌, ◌-◌, ◌*◌, ◌/◌, ◌%◌, ◌≤◌, ◌<◌, ◌≡◌, ◌∙◌, ap, eq→path,
  Bool, true, not, ◌&&◌, ◌||◌, [], ◌∷◌, ◌==◌, leb, ltb, Text, nat_eq, list_eq, eq_self, arith,
  if◌then◌else◌,
}
use alicerce.Errors.{
  reraise, Exn, Result, ok, err, ◌>>=◌, ◌>>◌, raise_if, value_error, state_serialization_error,
  bind_ok, raise_if_ok, ok_injective,
}
use alicerce.DateTime.{DateTime, is_utc, utc}
use Parts.{
  pair, read_pair, expect, expect_letter, read_short, read_day, read_micro, read_pair-pair,
  read_short-pair, read_day-pair, read_micro-pairs, expect_self, expect_upper,
}

unfoldable pub format : DateTime → Text
format d = pair (d.year / 100) (
    pair (d.year % 100) (
      b'-'
      ∷ pair d.month (
          b'-'
          ∷ pair d.day (
              b'T'
              ∷ pair d.hour (
                  b':'
                  ∷ pair d.minute (
                      b':'
                      ∷ pair d.second (
                          b'.'
                          ∷ pair (d.microsecond / 10000) (
                              pair (d.microsecond / 100 % 100)
                                (pair (d.microsecond % 100) (b'Z' ∷ []))))))))))

unfoldable pub is_leap : ℕ → Bool
is_leap y = y % 4 == 0 && (not (y % 100 == 0) || y % 400 == 0)

unfoldable pub days_in_month : ℕ → ℕ → ℕ
unfolding is_leap
days_in_month y m =
    if m == 2
    then (if is_leap y then 29 else 28)
    else if m == 4 || m == 6 || m == 9 || m == 11
    then 30
    else 31

-- What the constructor of `datetime` requires of its fields.
unfoldable pub is_date : DateTime → Bool
unfolding days_in_month
is_date d =
    leb 1 d.year
    && leb d.year 9999
    && leb 1 d.month
    && leb d.month 12
    && leb 1 d.day
    && leb d.day (days_in_month d.year d.month)
    && ltb d.hour 24
    && ltb d.minute 60
    && ltb d.second 60
    && ltb d.microsecond 1000000

-- `datetime.strptime(text, _TIMESTAMP_FORMAT).replace(tzinfo=UTC)`
unfoldable pub strptime : Text → Result DateTime
strptime text = do
  (century, t1) ← read_pair text
  (year, t2) ← read_pair t1
  t3 ← expect b'-' t2
  (month, t4) ← read_short t3
  t5 ← expect b'-' t4
  (day, t6) ← read_day t5
  t7 ← expect_letter b'T' b't' t6
  (hour, t8) ← read_short t7
  t9 ← expect b':' t8
  (minute, t10) ← read_short t9
  t11 ← expect b':' t10
  (second, t12) ← read_short t11
  t13 ← expect b'.' t12
  (micro, t14) ← read_micro t13
  t17 ← expect_letter b'Z' b'z' t14
  raise_if (not (t17 == [])) value_error
  let parsed : DateTime = record {
    year = century * 100 + year;
    month = month;
    day = day;
    hour = hour;
    minute = minute;
    second = second;
    microsecond = micro;
    tzinfo = utc;
  }
  raise_if (not (is_date parsed)) value_error
  ok parsed

-- `_timestamp`
unfoldable pub timestamp : DateTime → Result Text
timestamp value = do raise_if (not (is_utc value)) value_error; ok (format value)

-- `except ValueError`
unfoldable pub unreadable : Exn → Exn
unreadable value_error = state_serialization_error
unreadable e = e

-- `_parse_timestamp` of a string
unfoldable pub parse_timestamp : Text → Result DateTime
unfolding unreadable
parse_timestamp text = do
  parsed ← reraise unreadable (strptime text)
  written ← timestamp parsed
  raise_if (not (written == text)) state_serialization_error
  ok parsed

-- The fields are those of a real instant in UTC.
pub record IsInstant (d : DateTime) : Type 0 where
  pub zone : is_utc d ≡ true
  pub real : is_date d ≡ true

record Fields (d : DateTime) : Type 0 where
  year : d.year < 10000
  month : d.month < 100
  day : d.day < 100
  hour : d.hour < 100
  minute : d.minute < 100
  second : d.second < 100
  microsecond : d.microsecond < 1000000

month_length : (y m : ℕ) → days_in_month y m ≤ 31
unfolding days_in_month
month_length y m = ground arith

date-Fields : (d : DateTime) → is_date d ≡ true → Fields d
unfolding is_date
date-Fields d h = record {
  year = ground arith;
  month = ground arith;
  day = ground (arith, month_length d.year d.month);
  hour = ground arith;
  minute = ground arith;
  second = ground arith;
  microsecond = ground arith;
}

year_back : (y : ℕ) → y / 100 * 100 + y % 100 ≡ y
year_back y = omega arith

micro_back : (n : ℕ) → n < 1000000 → n / 10000 * 10000 + n / 100 % 100 * 100 + n % 100 ≡ n
micro_back n h = omega arith

in_utc : (d : DateTime) → is_utc d ≡ true → record d { tzinfo = utc } ≡ d
in_utc d h = ground arith

-- What is written is read back.
strptime-format : (d : DateTime) → IsInstant d → strptime (format d) ≡ ok d
unfolding strptime format
strptime-format d h =
    let f = date-Fields d h.real in
    let y = f.year in
    let m = f.microsecond in
    rw (
      read_pair-pair (d.year / 100) _ (omega arith),
      read_pair-pair (d.year % 100) _ (omega arith),
      expect_self b'-' _,
      read_short-pair d.month _ f.month,
      expect_self b'-' _,
      read_day-pair d.day _ f.day,
      expect_upper b'T' b't' _,
      read_short-pair d.hour _ f.hour,
      expect_self b':' _,
      read_short-pair d.minute _ f.minute,
      expect_self b':' _,
      read_short-pair d.second _ f.second,
      expect_self b'.' _,
      read_micro-pairs (d.microsecond / 10000) (d.microsecond / 100 % 100) (d.microsecond % 100) _
          (omega arith) (omega arith) (omega arith),
      expect_upper b'Z' b'z' _,
      eq_self {A = Text} [],
      year_back d.year,
      micro_back d.microsecond f.microsecond,
      in_utc d h.zone,
      h.real,
    )

-- The text of a real instant in UTC is parsed to that instant.
pub parse_timestamp-timestamp :
    (d : DateTime) (t : Text) → IsInstant d → timestamp d ≡ ok t → parse_timestamp t ≡ ok d
unfolding parse_timestamp timestamp
parse_timestamp-timestamp d t h made =
    let same : format d ≡ t = ground (arith, h.zone) in
    rw (← same, strptime-format d h, h.zone, eq_self (format d))

reraise_ok : (r : Result DateTime) (d : DateTime) → reraise unreadable r ≡ ok d → r ≡ ok d
reraise_ok (ok x) d h = h
reraise_ok (err e) d h = absurd (ground arith)

-- All that a chain of results leads to is real.
abbrev LeadsToInstant : Result DateTime → Type 0
LeadsToInstant r = (d : DateTime) → r ≡ ok d → IsInstant d

-- A step of the chain, which may raise.
carried :
    {A : Type 0} (first : Result A) (next : A → Result DateTime)
    → ((a : A) → LeadsToInstant (next a))
    → LeadsToInstant (first >>= next)
carried (ok a) next all d h = all a d h
carried (err e) next all d h = absurd (ground arith)

guarded_real :
    (empty : Bool) (parsed : DateTime)
    → is_utc parsed ≡ true
    → LeadsToInstant (do
      raise_if (not empty) value_error
      raise_if (not (is_date parsed)) value_error
      ok parsed)
guarded_real empty parsed zone d h =
    let (_, h1) = raise_if_ok (not empty) value_error _ h in
    let (real, h2) = raise_if_ok (not (is_date parsed)) value_error (ok parsed) h1 in
    subst IsInstant (ok_injective h2) (record { zone = zone; real = ground arith })

-- `strptime` gives real instants, in UTC.
strptime-IsInstant : (t : Text) → LeadsToInstant (strptime t)
unfolding strptime
strptime-IsInstant t = carried (read_pair t) _ (λ x1. carried (read_pair x1.1) _ (λ x2.
    carried (expect b'-' x2.1) _ (λ x3. carried (read_short x3) _ (λ x4.
      carried (expect b'-' x4.1) _ (λ x5. carried (read_day x5) _ (λ x6.
        carried (expect_letter b'T' b't' x6.1) _ (λ x7. carried (read_short x7) _ (λ x8.
          carried (expect b':' x8.1) _ (λ x9. carried (read_short x9) _ (λ x10.
            carried (expect b':' x10.1) _ (λ x11. carried (read_short x11) _ (λ x12.
              carried (expect b'.' x12.1) _ (λ x13. carried (read_micro x13) _ (λ x14.
                carried (expect_letter b'Z' b'z' x14.1) _
                  (λ x15. guarded_real (x15 == []) _ refl)))))))))))))))

-- A text that is parsed as a timestamp is the text of the instant that it is parsed to, a real one in
-- UTC, although `strptime` also reads texts of other widths.
pub timestamp-parse_timestamp :
    (t : Text) (d : DateTime) → parse_timestamp t ≡ ok d → IsInstant d × (timestamp d ≡ ok t)
unfolding parse_timestamp
timestamp-parse_timestamp t d h =
    let (parsed, read, h1) = bind_ok (reraise unreadable (strptime t)) _ h in
    let (written, made, h2) = bind_ok (timestamp parsed) _ h1 in
    let (same, h3) = raise_if_ok (not (written == t)) state_serialization_error (ok parsed) h2 in
    let here : parsed ≡ d = ground arith in
    subst (λ x. IsInstant x × (timestamp x ≡ ok t)) here
      (
        strptime-IsInstant t parsed (reraise_ok (strptime t) parsed read),
        made ∙ ap ok (eq→path written t (ground arith)),
      )
