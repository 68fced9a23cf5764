-- ===== src/Domain/Datetime/RoundTrip.antt =====
-- Dates are printed and read back: datetime.rs, Date::parse and Display for Date.
use fieldnotes.Prelude.{
  ℕ, ◌<◌, ◌≤◌, ◌≡◌, refl, true, Text, [], ◌∷◌, arith, length, some, ◌==◌, ◌&&◌, get_or, slice, ◌++◌,
}
use fieldnotes.Domain.Datetime.{
  parse_date, ok, Date, days_in_month, render_date, digit, four_digits, two_digits, is_digit,
  is_ascii, parse_fixed_digits,
}

pub record IsValid (d : Date) : Type 0 where
  pub year_le : d.year ≤ 9999
  pub month_pos : 1 ≤ d.month
  pub month_le : d.month ≤ 12
  pub day_pos : 1 ≤ d.day
  pub day_le : d.day ≤ days_in_month d.year d.month

digit-is_digit : (n : ℕ) → is_digit (digit n) ≡ true
digit-is_digit n = ground arith

parse_fixed_digits-two : (n : ℕ) → n < 100 → parse_fixed_digits (two_digits n) 2 ≡ some n
unfolding parse_fixed_digits
parse_fixed_digits-two n h = ground arith

parse_fixed_digits-four : (n : ℕ) → n < 10000 → parse_fixed_digits (four_digits n) 4 ≡ some n
unfolding parse_fixed_digits
parse_fixed_digits-four n h = ground arith

days_in_month-le : (y m : ℕ) → days_in_month y m ≤ 31
unfolding days_in_month
days_in_month-le y m = ground arith

date_guard :
    (d : Date)
    → (length (render_date d) == 10)
        && is_ascii (render_date d)
        && (get_or (render_date d) 4 0 == b'-')
        && (get_or (render_date d) 7 0 == b'-')
      ≡ true
unfolding render_date
date_guard d = ground arith

-- Every valid date is read back from its rendering.
pub parse_date-render_date : (d : Date) → IsValid d → parse_date (render_date d) ≡ ok d
unfolding parse_date render_date
parse_date-render_date d v =
    rw
      (
        date_guard d,
        parse_fixed_digits-four d.year (omega arith),
        parse_fixed_digits-two d.month (omega arith),
        parse_fixed_digits-two d.day (omega (arith, days_in_month-le d.year d.month)),
      )
      (ground arith)

parse_two-inverse :
    (t : Text) (n : ℕ) → parse_fixed_digits t 2 ≡ some n → (two_digits n ≡ t) × (n < 100)
unfolding parse_fixed_digits
parse_two-inverse (a ∷ b ∷ []) n h = ground arith
parse_two-inverse [] n h = ground arith
parse_two-inverse (a ∷ []) n h = ground arith
parse_two-inverse (a ∷ b ∷ c ∷ t) n h = ground arith

four_bytes :
    (a b c d n : ℕ)
    → parse_fixed_digits (a ∷ b ∷ c ∷ d ∷ []) 4 ≡ some n
    → (four_digits n ≡ a ∷ b ∷ c ∷ d ∷ []) × (n < 10000)
unfolding parse_fixed_digits
four_bytes a b c d n h = ground arith

parse_four-inverse :
    (t : Text) (n : ℕ) → parse_fixed_digits t 4 ≡ some n → (four_digits n ≡ t) × (n < 10000)
unfolding parse_fixed_digits
parse_four-inverse (a ∷ b ∷ c ∷ d ∷ []) n h = four_bytes a b c d n h
parse_four-inverse [] n h = ground arith
parse_four-inverse (a ∷ []) n h = ground arith
parse_four-inverse (a ∷ b ∷ []) n h = ground arith
parse_four-inverse (a ∷ b ∷ c ∷ []) n h = ground arith
parse_four-inverse (a ∷ b ∷ c ∷ d ∷ e ∷ t) n h = ground arith

ten_bytes :
    (t : Text)
    → length t ≡ 10
    → t ≡ (slice t 0 4 ++ (get_or t 4 0 ∷ (slice t 5 7 ++ (get_or t 7 0 ∷ slice t 8 10))))
ten_bytes (a ∷ b ∷ c ∷ d ∷ e ∷ f ∷ g ∷ h ∷ i ∷ j ∷ []) p = refl
ten_bytes [] p = ground arith
ten_bytes (a ∷ []) p = ground arith
ten_bytes (a ∷ b ∷ []) p = ground arith
ten_bytes (a ∷ b ∷ c ∷ []) p = ground arith
ten_bytes (a ∷ b ∷ c ∷ d ∷ []) p = ground arith
ten_bytes (a ∷ b ∷ c ∷ d ∷ e ∷ []) p = ground arith
ten_bytes (a ∷ b ∷ c ∷ d ∷ e ∷ f ∷ []) p = ground arith
ten_bytes (a ∷ b ∷ c ∷ d ∷ e ∷ f ∷ g ∷ []) p = ground arith
ten_bytes (a ∷ b ∷ c ∷ d ∷ e ∷ f ∷ g ∷ h ∷ []) p = ground arith
ten_bytes (a ∷ b ∷ c ∷ d ∷ e ∷ f ∷ g ∷ h ∷ i ∷ []) p = ground arith
ten_bytes (a ∷ b ∷ c ∷ d ∷ e ∷ f ∷ g ∷ h ∷ i ∷ j ∷ k ∷ t) p = ground arith

-- Only the rendering of a valid date is accepted, so each date has one spelling.
pub render_date-parse_date :
    (t : Text) (d : Date) → parse_date t ≡ ok d → (render_date d ≡ t) × IsValid d
unfolding parse_date render_date
render_date-parse_date t d h = ground (
  arith,
  ten_bytes t,
  parse_four-inverse (slice t 0 4) d.year,
  parse_two-inverse (slice t 5 7) d.month,
  parse_two-inverse (slice t 8 10) d.day,
)
