-- ===== src/Time/Calendar.antt =====
-- `init_time` counts the seconds since 1970 of the Gregorian calendar.
use destin_x.Prelude.{
  ℕ, zero, suc, ◌+◌, ◌-◌, ◌*◌, ◌/◌, ◌%◌, ◌^◌, ◌≤◌, ◌<◌, ◌≡◌, refl, ◌∙◌, inl, inr, Bool, true, false,
  not, ◌&&◌, ◌||◌, arith, leb, ◌==◌, if◌then◌else◌, add64, sub64, Bool-cases,
}
use destin_x.Prelude.Bits.{holds_upto, holds_upto-below}
use destin_x.Time.{RtcTime, early_months, julian_day, init_time}

abbrev pub leap : ℕ → Bool
leap y = ((y % 4) == 0) && (not ((y % 100) == 0) || ((y % 400) == 0))

abbrev pub extra : Bool → ℕ
extra true = 1
extra false = 0

-- The days of a month, in a leap year or not.
abbrev pub month_days : Bool → ℕ → ℕ
month_days b m =
    if m == 2
    then 28 + extra b
    else if (m == 4) || ((m == 6) || ((m == 9) || (m == 11)))
    then 30
    else 31

-- The days of the year before the first of month `m`.
unfoldable pub days_before : Bool → ℕ → ℕ
days_before b zero = 0
days_before b (suc m) = if m == 0 then 0 else days_before b m + month_days b m

-- The days from 1 January 1970 to 1 January `n` years later.
unfoldable pub years_before : ℕ → ℕ
years_before zero = 0
years_before (suc n) = years_before n + (365 + extra (leap (1970 + n)))

-- The leap days before the year `y`.
abbrev leap_days : ℕ → ℕ
leap_days y = (y - 1) / 4 - (y - 1) / 100 + (y - 1) / 400

leap_step : (y : ℕ) → 0 < y → leap_days (y + 1) ≡ leap_days y + extra (leap y)
leap_step y pos = ground arith

years_before_lem : (n : ℕ) → years_before n + 477 ≡ 365 * n + leap_days (1970 + n)
unfolding years_before
years_before_lem zero = refl
years_before_lem (suc n) =
    let e : 1970 + suc n ≡ (1970 + n) + 1 = omega arith in
    rw e (omega (arith, years_before_lem n, leap_step (1970 + n) (omega arith)))

month_row : Bool → ℕ → Bool
month_row b m =
    if m == 0
    then true
    else if leb m 2
    then days_before b m + 306 == (153 * (m + 9) + 2) / 5
    else days_before b m == (153 * (m - 3) + 2) / 5 + 59 + extra b

month_table : (b : Bool) → holds_upto (month_row b) 13 ≡ true
unfolding holds_upto month_row days_before
month_table true = refl
month_table false = refl

-- The formula without the wrap-around, for the year `y` that starts in March and its month `m`.
abbrev march_formula : (day m y : ℕ) → ℕ
march_formula day m y = day + (153 * m + 2) / 5 + 365 * y + y / 4 - y / 100 + y / 400 - 32045

julian_march :
    (day month year a y m : ℕ)
    → day ≤ 31
    → year ≤ 100000
    → m ≤ 11
    → early_months month ≡ a
    → y + a ≡ year + 4800
    → m + 3 ≡ month + 12 * a
    → a ≤ 1
    → julian_day day month year ≡ march_formula day m y
unfolding julian_day
julian_march day month year a y m hd hy hm ea ey em le =
    let y' : sub64 ((year + 4800) % 2 ^ 32) a ≡ y = omega arith in
    let m' : sub64 (add64 month (12 * a)) 3 ≡ m = omega arith in rw (ea, y', m') (omega arith)

module _ (day month n : ℕ) (d1 : 1 ≤ day) (d2 : day ≤ 31) where
  -- January and February belong to the year before.
  early_lem :
      1 ≤ month
      → month ≤ 2
      → n ≤ 10000
      → month_row (leap (1970 + n)) month ≡ true
      → julian_day day month (1970 + n)
        ≡ 2440588 + years_before n + days_before (leap (1970 + n)) month + (day - 1)
  unfolding month_row
  early_lem m1 m2 small row =
      let a : early_months month ≡ 1 = ground (arith, m1, m2) in
      let r : days_before (leap (1970 + n)) month + 306 ≡ (153 * (month + 9) + 2) / 5 =
        ground (arith, row, m1, m2) in
      julian_march day month (1970 + n) 1 (n + 6769) (month + 9) d2 (omega arith) (omega arith) a
        (omega arith) (omega arith) (omega arith)
      ∙ omega (arith, r, years_before_lem n)

  late_lem :
      3 ≤ month
      → month ≤ 12
      → n ≤ 10000
      → month_row (leap (1970 + n)) month ≡ true
      → julian_day day month (1970 + n)
        ≡ 2440588 + years_before n + days_before (leap (1970 + n)) month + (day - 1)
  unfolding month_row
  late_lem m1 m2 small row =
      let a : early_months month ≡ 0 = ground (arith, m1, m2) in
      let r : days_before (leap (1970 + n)) month
          ≡ (153 * (month - 3) + 2) / 5 + 59 + extra (leap (1970 + n)) =
        ground (arith, row, m1, m2) in
      julian_march day month (1970 + n) 0 (n + 6770) (month - 3) d2 (omega arith) (omega arith) a
        (omega arith) (omega arith) (omega arith)
      ∙ omega (arith, r, years_before_lem n, leap_step (1970 + n) (omega arith))

julian_day_lem :
    (day month n : ℕ)
    → 1 ≤ day
    → day ≤ 31
    → 1 ≤ month
    → month ≤ 12
    → n ≤ 10000
    → julian_day day month (1970 + n)
      ≡ 2440588 + years_before n + days_before (leap (1970 + n)) month + (day - 1)
julian_day_lem day month n d1 d2 m1 m2 small =
    let year = 1970 + n in
    let row : month_row (leap year) month ≡ true =
      holds_upto-below (month_row (leap year)) 13 (month_table (leap year)) month (omega arith) in
    elim (Bool-cases (leb month 2)) [
      | inl early ↦ early_lem day month n d1 d2 m1 (ground (arith, early)) small row
      | inr late ↦ late_lem day month n d1 d2 (ground (arith, late)) m2 small row
    ]

days_before-le : (b : Bool) (m : ℕ) → days_before b m ≤ 31 * m
unfolding days_before
days_before-le b zero = omega arith
days_before-le b (suc m) = month_le (days_before-le b m) b
  where
    month_le :
        {d : ℕ} → d ≤ 31 * m → (b : Bool) → (if m == 0 then 0 else d + month_days b m) ≤ 31 * suc m
    month_le le true = ground (arith, le)
    month_le le false = ground (arith, le)

no_wrap :
    (years months days h mi s : ℕ)
    → years ≤ 5000000
    → months ≤ 400
    → days ≤ 31
    → h < 256
    → mi < 256
    → s < 256
    → add64
        (add64
          (add64 (sub64 (2440588 + years + months + days) 2440588 * 86400) (h * 3600))
          (mi * 60))
        s
      ≡ (years + months + days) * 86400 + h * 3600 + mi * 60 + s
no_wrap years months days h mi s a b c d e f = omega arith

-- For a date of the years 1970 to 11970, with a month from 1 to 12, a day from 1 to 31, and a
-- time of day, `init_time` is the number of seconds since 1 January 1970: the days of
-- the years and months before, leap years of the Gregorian calendar included, and the days and the time since then.
pub init_time_lem :
    (n : ℕ) (t : RtcTime)
    → t.year ≡ 1970 + n
    → n ≤ 10000
    → 1 ≤ t.month
    → t.month ≤ 12
    → 1 ≤ t.day
    → t.day ≤ 31
    → t.hour < 256
    → t.minute < 256
    → t.second < 256
    → init_time t
      ≡ (years_before n + days_before (leap t.year) t.month + (t.day - 1)) * 86400
        + t.hour * 3600
        + t.minute * 60
        + t.second
unfolding init_time
init_time_lem n t e small m1 m2 d1 d2 h mi s =
    let j = julian_day_lem t.day t.month n d1 d2 m1 m2 small in
    let year : t.year ≡ 1970 + n = e in
    rw (year, j)
      (no_wrap (years_before n) (days_before (leap (1970 + n)) t.month) (t.day - 1) t.hour t.minute
        t.second (omega (arith, years_before_lem n))
        (omega (arith, days_before-le (leap (1970 + n)) t.month)) (omega arith) h mi s)
