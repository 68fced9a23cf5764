-- ===== src/Domain/Datetime.antt =====
-- crates/fieldnotes-domain/src/datetime.rs: the lexical forms of dates and datetimes. Texts are
-- byte lists; an index is read only behind the length test that the source makes. The proofs are in
-- the child module RoundTrip.
pub mod RoundTrip
use fieldnotes.Prelude.{
  ℕ, zero, suc, ◌+◌, ◌-◌, ◌*◌, ◌/◌, ◌%◌, ◌^◌, Text, text, text_eq, Bool, true, false, ◌&&◌, ◌||◌,
  not, Option, none, some, List, [], ◌∷◌, ◌++◌, length, take, drop, slice, get_or, all, ltb, leb,
  ◌==◌, if◌then◌else◌,
}

pub data DatetimeError : Type 0 where
  malformed offset_required negative_zero_offset out_of_range : DatetimeError

pub data Result {ℓ} (A : Type ℓ) : Type ℓ where
  ok : A → Result A
  err : DatetimeError → Result A

infixl 5 ◌>>=◌
abbrev pub ◌>>=◌ {κ ℓ} : {B : Type κ} {A : Type ℓ} → Result B → (B → Result A) → Result A
err refusal >>= next = err refusal
ok value >>= next = next value

infixl 5 ◌>>◌
abbrev pub ◌>>◌ {κ} : {A : Type κ} → Result (Unit {0}) → Result A → Result A
check >> next = check >>= λ _. next

-- `if !test { return Err(e) }`
abbrev pub guard : Bool → DatetimeError → Result (Unit {0})
guard false refusal = err refusal
guard true refusal = ok tt

-- Option::ok_or
abbrev pub ok_or {ℓ} : {A : Type ℓ} → Option A → DatetimeError → Result A
ok_or none e = err e
ok_or (some a) e = ok a

abbrev pub is_digit : ℕ → Bool
is_digit b = leb b'0' b && leb b b'9'

abbrev pub is_ascii : Text → Bool
is_ascii = all (λ b. ltb b 128)

unfoldable pub is_leap_year : ℕ → Bool
is_leap_year year = ((year % 4 == 0) && not (year % 100 == 0)) || (year % 400 == 0)

unfoldable pub days_in_month : ℕ → ℕ → ℕ
unfolding is_leap_year
days_in_month year month =
    if (month == 1)
      || (month == 3)
      || (month == 5)
      || (month == 7)
      || (month == 8)
      || (month == 10)
      || (month == 12)
    then 31
    else if (month == 4) || (month == 6) || (month == 9) || (month == 11)
    then 30
    else if month == 2
    then (if is_leap_year year then 29 else 28)
    else 0

-- `str::parse::<u32>` on a text of at most nine digits, which cannot overflow.
unfoldable pub decimal : ℕ → Text → ℕ
decimal acc [] = acc
decimal acc (b ∷ bs) = decimal (acc * 10 + (b - b'0')) bs

unfoldable pub parse_fixed_digits : Text → ℕ → Option ℕ
unfolding decimal
parse_fixed_digits t digits =
    if not (length t == digits) || not (all is_digit t) then none else some (decimal 0 t)

pub record Date : Type 0 where
  pub year : ℕ
  pub month : ℕ
  pub day : ℕ

-- Date::parse
unfoldable pub parse_date : Text → Result Date
parse_date t = do
  guard ((length t == 10) && is_ascii t && (get_or t 4 0 == b'-') && (get_or t 7 0 == b'-'))
      malformed
  year ← ok_or (parse_fixed_digits (slice t 0 4) 4) malformed
  month ← ok_or (parse_fixed_digits (slice t 5 7) 2) malformed
  day ← ok_or (parse_fixed_digits (slice t 8 10) 2) malformed
  guard (leb 1 month && leb month 12 && not (day == 0) && not (ltb (days_in_month year month) day))
      out_of_range
  ok (record { year = year; month = month; day = day })

-- A signed integer; `negsuc n` is -(n + 1).
pub data ℤ : Type 0 where
  pos : ℕ → ℤ
  negsuc : ℕ → ℤ

-- -(m) as i16
abbrev pub negate : ℕ → ℤ
negate zero = pos 0
negate (suc n) = negsuc n

pub record Datetime : Type 0 where
  pub date : Date
  pub hour : ℕ
  pub minute : ℕ
  pub second : ℕ
  pub nanos : ℕ
  pub offset_minutes : ℤ

-- The digits at the head of a text, and what follows them.
unfoldable pub span_digits : Text → Text × Text
span_digits [] = ([], [])
span_digits (b ∷ bs) =
    let rest = span_digits bs in if is_digit b then (b ∷ rest.0, rest.1) else ([], b ∷ bs)

-- The optional fraction behind the seconds: its nanoseconds and the rest of the text.
unfoldable pub parse_fraction : Text → Result (ℕ × Text)
unfolding span_digits decimal
parse_fraction [] = ok (0, [])
parse_fraction (b ∷ bs) =
    if b == b'.'
    then (do
      let digits = length (span_digits bs).0
      guard (not (digits == 0) && leb digits 9) malformed
      ok (decimal 0 (span_digits bs).0 * 10 ^ (9 - digits), (span_digits bs).1))
    else ok (0, b ∷ bs)

-- The sign of an offset: is it negative.
unfoldable pub offset_sign : ℕ → Result Bool
offset_sign b = if b == b'+' then ok false else if b == b'-' then ok true else err offset_required

-- The numeric offset, in minutes.
unfoldable pub parse_offset : Text → Result ℤ
unfolding text_eq offset_sign
parse_offset t = do
  guard (not ((length t == 0) || text_eq t (text "Z") || text_eq t (text "z"))) offset_required
  negative ← offset_sign (get_or t 0 0)
  guard ((length t == 6) && is_ascii t && (get_or t 3 0 == b':')) malformed
  hour ← ok_or (parse_fixed_digits (slice t 1 3) 2) malformed
  minute ← ok_or (parse_fixed_digits (slice t 4 6) 2) malformed
  guard (leb hour 23 && leb minute 59) out_of_range
  let magnitude = hour * 60 + minute
  guard (not (negative && (magnitude == 0))) negative_zero_offset
  ok (if negative then negate magnitude else pos magnitude)

-- Datetime::parse
unfoldable pub parse_datetime : Text → Result Datetime
parse_datetime t = do
  guard (leb 19 (length t) && is_ascii (take 19 t)) malformed
  date ← parse_date (slice t 0 10)
  guard ((get_or t 10 0 == b'T') && (get_or t 13 0 == b':') && (get_or t 16 0 == b':')) malformed
  hour ← ok_or (parse_fixed_digits (slice t 11 13) 2) malformed
  minute ← ok_or (parse_fixed_digits (slice t 14 16) 2) malformed
  second ← ok_or (parse_fixed_digits (slice t 17 19) 2) malformed
  guard (leb hour 23 && leb minute 59 && leb second 59) out_of_range
  fraction ← parse_fraction (drop 19 t)
  offset ← parse_offset fraction.1
  ok (record {
    date = date;
    hour = hour;
    minute = minute;
    second = second;
    nanos = fraction.0;
    offset_minutes = offset;
  })

abbrev digit : ℕ → ℕ
digit d = b'0' + d % 10

-- `{:04}` and `{:02}`, for numbers of at most that many digits.
abbrev pub four_digits : ℕ → Text
four_digits n = digit (n / 1000) ∷ digit (n / 100) ∷ digit (n / 10) ∷ digit n ∷ []

abbrev pub two_digits : ℕ → Text
two_digits n = digit (n / 10) ∷ digit n ∷ []

-- Display for Date, for a year below 10000, a month and a day below 100, as parsed dates have them.
unfoldable pub render_date : Date → Text
render_date d = four_digits d.year ++ (b'-' ∷ (two_digits d.month ++ (b'-' ∷ two_digits d.day)))
