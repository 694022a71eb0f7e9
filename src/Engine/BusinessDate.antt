-- ===== src/Engine/BusinessDate.antt =====
-- packages/core/src/engine/business-date.ts: the store-local date of an instant. The conversion to
-- a time zone is that of `Intl.DateTimeFormat`, over the time zone data of the platform: an
-- argument here, which returns the year, month and day as the code formats them, or nothing for a
-- zone that it does not know.
use ghalla.Base.{
  ℕ, ◌+◌, ◌-◌, ◌*◌, ◌/◌, Bool, ◌++◌, Option, none, some, leb, ltb, if◌then◌else◌, is_empty,
}
use ghalla.Base.Int.{ℤ, pos, negsuc, pos_part, ◌+ℤ◌, ◌-ℤ◌, ◌*ℤ◌}
use ghalla.Base.Text.{Text, lit}
use ghalla.Base.Result.{Result, ok, err, malformed_instant, invalid_timezone, ◌>>=◌}
use ghalla.Contracts.Time.{InstantFields, parse_instant, is_instant, to_local_date}
use ghalla.Engine.Diagnostics.Sort.{pad_start}

-- `Math.floor(n / d)`
abbrev pub floor_div : ℤ → ℕ → ℤ
floor_div (pos n) d = pos (n / d)
floor_div (negsuc n) d = negsuc (n / d)

-- `daysFromCivil`, for a month from 1 to 12
unfoldable pub days_from_civil : ℕ → ℕ → ℕ → ℤ
days_from_civil year month day =
    let y = pos year -ℤ pos (if leb month 2 then 1 else 0) in
    let era = floor_div y 400 in
    let year_of_era = pos_part (y -ℤ era *ℤ pos 400) in
    let day_of_year = (153 * (if ltb 2 month then month - 3 else month + 9) + 2) / 5 + day - 1 in
    let day_of_era = year_of_era * 365 + year_of_era / 4 - year_of_era / 100 + day_of_year in
    era *ℤ pos 146_097 +ℤ pos day_of_era -ℤ pos 719_468

abbrev millis_of : InstantFields → ℤ
millis_of f =
    days_from_civil f.date.year f.date.month f.date.day *ℤ pos 86_400_000
    +ℤ pos (f.hour * 3_600_000)
    +ℤ pos (f.minute * 60_000)
    +ℤ pos (f.second * 1_000)
    +ℤ pos f.millisecond

abbrev millis_if_real : Bool → Option InstantFields → Result ℤ
millis_if_real real none = err malformed_instant
millis_if_real real (some f) = if real then ok (millis_of f) else err malformed_instant

unfoldable pub epoch_millis : Text → Result ℤ
unfolding days_from_civil is_instant
epoch_millis instant = millis_if_real (is_instant instant) (parse_instant instant)

-- The parts that `formatToParts` returns for year, month and day.
pub record ZonedDate : Type 0 where
  pub year : Text
  pub month : Text
  pub day : Text

abbrev pub ZoneConversion : Type 0
ZoneConversion = Text → ℤ → Option ZonedDate

abbrev date_of_parts : Option ZonedDate → Result Text
date_of_parts none = err invalid_timezone
date_of_parts (some z) =
    to_local_date (pad_start 4 z.year ++ (lit "-" ++ (z.month ++ (lit "-" ++ z.day))))

unfoldable pub business_date_of : ZoneConversion → Text → Text → Result Text
unfolding to_local_date epoch_millis
business_date_of zone instant timezone =
    if is_empty timezone
    then err invalid_timezone
    else (epoch_millis instant >>= λ millis. date_of_parts (zone timezone millis))
