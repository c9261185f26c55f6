-- ===== src/Time.antt =====
-- The clock: kernel/time/time.c and what arch/x86_64/drivers/rtc/rtc.c makes of the registers of the
-- real-time clock. The registers and the cycle counter are arguments.
pub mod Calendar
pub mod Decode
mod Tests
use destin_x.Prelude.{
  ℕ, zero, suc, ◌+◌, ◌-◌, ◌*◌, ◌/◌, ◌%◌, ◌^◌, ◌≤◌, ◌<◌, ◌≡◌, ◌≢◌, ◌↔◌, ◌⊎◌, refl, sym, ap, ◌∙◌, inl,
  inr, Bool, true, false, not, ◌&&◌, ◌||◌, Option, none, some, List, [], ◌∷◌, ◌++◌, map, arith, ltb,
  leb, ◌==◌, if◌then◌else◌, update, add64, sub64, Bool-cases, Option-cases, ==_iff, ==_self, ltb→lt,
  lt→ltb, length, get_elem?, length-append, bit_and, bit_or, bit_xor, has, ◌∈◌, ◌∉◌, has-append,
}

pub record RtcTime : Type 0 where
  pub second : ℕ
  pub minute : ℕ
  pub hour : ℕ
  pub day : ℕ
  pub month : ℕ
  pub year : ℕ

-- A byte in binary-coded decimal.
abbrev pub from_bcd : ℕ → ℕ
from_bcd x = (bit_and x 0x0F + x / 16 * 10) % 2 ^ 8

-- The hour keeps its highest bit, which marks the afternoon.
abbrev pub hour_from_bcd : ℕ → ℕ
hour_from_bcd h = bit_or (bit_and h 0x0F + bit_and h 0x70 / 16 * 10) (bit_and h 0x80) % 2 ^ 8

-- `read_rtc` from the six registers and register B on; `year` is a `uint32_t`.
unfoldable pub read_rtc : RtcTime → ℕ → RtcTime
read_rtc t register_b =
    let decimal : RtcTime = record {
      second = from_bcd t.second;
      minute = from_bcd t.minute;
      hour = hour_from_bcd t.hour;
      day = from_bcd t.day;
      month = from_bcd t.month;
      year = bit_and t.year 0x0F + t.year / 16 * 10;
    } in
    let t1 : RtcTime = if bit_and register_b 0x04 == 0 then decimal else t in
    let t2 : RtcTime =
      if (bit_and register_b 0x02 == 0) && not (bit_and t1.hour 0x80 == 0)
      then record t1 { hour = (bit_and t1.hour 0x7F + 12) % 24 }
      else t1 in
    record t2 { year = (t2.year + 2000) % 2 ^ 32 }

-- `(14 - boot_rtc.month) / 12` is an `int`, and becomes a `uint64_t`.
abbrev pub early_months : ℕ → ℕ
early_months month =
    if leb month 14 then (14 - month) / 12 else (2 ^ 64 - (month - 14) / 12) % 2 ^ 64

-- The Julian day number, `days` of `init_time`.
unfoldable pub julian_day : (day month year : ℕ) → ℕ
julian_day day month year =
    let a = early_months month in
    let y = sub64 ((year + 4800) % 2 ^ 32) a in
    let m = sub64 (add64 month (12 * a)) 3 in
    let d1 = add64 (add64 (add64 day (add64 (153 * m) 2 / 5)) (365 * y)) (y / 4) in
    sub64 (add64 (sub64 d1 (y / 100)) (y / 400)) 32045

-- `unix_boot_timestamp`, as `init_time` computes it from `boot_rtc`.
unfoldable pub init_time : RtcTime → ℕ
init_time t =
    let days_since_unix = sub64 (julian_day t.day t.month t.year) 2440588 in
    add64 (add64 (add64 (days_since_unix * 86400) (t.hour * 3600)) (t.minute * 60)) t.second

-- `time`, from the cycle counter now and the values that `init_time` has left.
unfoldable pub time : (tsc boot_tsc tsc_ticks_per_ms unix_boot_timestamp : ℕ) → ℕ
time tsc boot_tsc tsc_ticks_per_ms unix_boot_timestamp =
    add64 (sub64 tsc boot_tsc / tsc_ticks_per_ms / 1000) unix_boot_timestamp
