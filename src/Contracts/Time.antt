-- ===== src/Contracts/Time.antt =====
-- packages/contracts/src/time.ts: the shapes of instants and dates, and the calendar.
use ghalla.Base.{
  ℕ, zero, suc, ◌+◌, ◌-◌, ◌*◌, ◌%◌, Bool, false, not, ◌&&◌, ◌||◌, [], ◌∷◌, List, Option, none, some,
  ltb, leb, ◌==◌, if◌then◌else◌, is_empty,
}
use ghalla.Base.Text.{Text}
use ghalla.Base.Result.{Result, ok, err, malformed_timestamp}

infixl 5 ◌>>=◌
abbrev ◌>>=◌ : {A B : Type 0} → Option A → (A → Option B) → Option B
none >>= f = none
some a >>= f = f a

abbrev pub is_digit : ℕ → Bool
is_digit c = leb b'0' c && leb c b'9'

-- `\d{n}`, as the number that the digits spell, with the rest of the text
unfoldable pub take_digits : ℕ → ℕ → Text → Option (ℕ × Text)
take_digits zero value text = some (value, text)
take_digits (suc n) value [] = none
take_digits (suc n) value (c ∷ text) =
    let rest = take_digits n (10 * value + (c - b'0')) text in if is_digit c then rest else none

unfoldable pub take_char : ℕ → Text → Option Text
take_char c [] = none
take_char c (d ∷ text) = if d == c then some text else none

pub record DateFields : Type 0 where
  pub year : ℕ
  pub month : ℕ
  pub day : ℕ

pub record InstantFields : Type 0 where
  pub date : DateFields
  pub hour : ℕ
  pub minute : ℕ
  pub second : ℕ
  pub millisecond : ℕ

-- `(\d{4})-(\d{2})-(\d{2})`
unfoldable pub parse_date : Text → Option (DateFields × Text)
unfolding take_digits take_char
parse_date text = do
  (y, t₁) ← take_digits 4 0 text
  t₂ ← take_char b'-' t₁
  (m, t₃) ← take_digits 2 0 t₂
  t₄ ← take_char b'-' t₃
  (d, t₅) ← take_digits 2 0 t₄
  some (record { year = y; month = m; day = d }, t₅)

abbrev at_end {ℓ} : {A : Type ℓ} → A → Text → Option A
at_end a t = if is_empty t then some a else none

-- The pattern `INSTANT`
unfoldable pub parse_instant : Text → Option InstantFields
unfolding parse_date
parse_instant text = do
  (date, t₀) ← parse_date text
  t₁ ← take_char b'T' t₀
  (h, t₂) ← take_digits 2 0 t₁
  t₃ ← take_char b':' t₂
  (mi, t₄) ← take_digits 2 0 t₃
  t₅ ← take_char b':' t₄
  (s, t₆) ← take_digits 2 0 t₅
  t₇ ← take_char b'.' t₆
  (ms, t₈) ← take_digits 3 0 t₇
  t₉ ← take_char b'Z' t₈
  at_end (record { date = date; hour = h; minute = mi; second = s; millisecond = ms }) t₉

-- The pattern `LOCAL_DATE`
unfoldable pub parse_local_date : Text → Option DateFields
unfolding parse_date
parse_local_date text = do (date, rest) ← parse_date text; at_end date rest

unfoldable pub is_leap_year : ℕ → Bool
is_leap_year y = ((y % 4 == 0) && not (y % 100 == 0)) || (y % 400 == 0)

-- `DAYS_IN_MONTH`
abbrev pub month_lengths : List ℕ
month_lengths = 31 ∷ 28 ∷ 31 ∷ 30 ∷ 31 ∷ 30 ∷ 31 ∷ 31 ∷ 30 ∷ 31 ∷ 30 ∷ 31 ∷ []

-- `xs[n]`
abbrev element : List ℕ → ℕ → Option ℕ
element [] n = none
element (x ∷ xs) zero = some x
element (x ∷ xs) (suc n) = element xs n

-- `DAYS_IN_MONTH[month - 1]`
abbrev pub days_in_month : ℕ → Option ℕ
days_in_month m = if m == 0 then none else element month_lengths (m - 1)

abbrev fits_month : ℕ → ℕ → ℕ → Option ℕ → Bool
fits_month y m d none = false
fits_month y m d (some base) = leb d (if (m == 2) && is_leap_year y then 29 else base)

unfoldable pub is_real_date : DateFields → Bool
unfolding is_leap_year
is_real_date f =
    if ltb f.day 1 then false else fits_month f.year f.month f.day (days_in_month f.month)

unfoldable pub is_time_of_day : InstantFields → Bool
is_time_of_day f = leb f.hour 23 && leb f.minute 59 && leb f.second 59

abbrev fields_are_real : Option InstantFields → Bool
fields_are_real none = false
fields_are_real (some f) = is_real_date f.date && is_time_of_day f

unfoldable pub is_instant : Text → Bool
unfolding parse_instant is_real_date is_time_of_day
is_instant text = fields_are_real (parse_instant text)

abbrev date_is_real : Option DateFields → Bool
date_is_real none = false
date_is_real (some f) = is_real_date f

unfoldable pub is_local_date : Text → Bool
unfolding parse_local_date is_real_date
is_local_date text = date_is_real (parse_local_date text)

unfoldable pub to_local_date : Text → Result Text
unfolding is_local_date
to_local_date text = if is_local_date text then ok text else err malformed_timestamp
