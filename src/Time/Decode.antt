-- ===== src/Time/Decode.antt =====
-- `read_rtc` undoes binary-coded decimal.
use destin_x.Prelude.{
  ℕ, ◌+◌, ◌*◌, ◌/◌, ◌%◌, ◌^◌, ◌<◌, ◌≡◌, ◌≢◌, refl, Bool, true, false, ◌&&◌, arith, ◌==◌, bit_and,
}
use destin_x.Prelude.Bits.{holds_upto, holds_upto-below}
use destin_x.Time.{RtcTime, from_bcd, hour_from_bcd, read_rtc}

abbrev pub to_bcd : ℕ → ℕ
to_bcd x = x / 10 * 16 + x % 10

-- The registers of a clock that shows `t` in binary-coded decimal with 24 hours.
abbrev pub registers_of : RtcTime → RtcTime
registers_of t = record {
  second = to_bcd t.second;
  minute = to_bcd t.minute;
  hour = to_bcd t.hour;
  day = to_bcd t.day;
  month = to_bcd t.month;
  year = to_bcd t.year;
}

byte_row : ℕ → Bool
byte_row x = (from_bcd (to_bcd x) == x) && (bit_and (to_bcd x) 0x0F + to_bcd x / 16 * 10 == x)

byte_table : holds_upto byte_row 100 ≡ true
unfolding holds_upto byte_row
byte_table = refl

hour_row : ℕ → Bool
hour_row x = hour_from_bcd (to_bcd x) == x

hour_table : holds_upto hour_row 24 ≡ true
unfolding holds_upto hour_row
hour_table = refl

byte_lem :
    (x : ℕ)
    → x < 100
    → (from_bcd (to_bcd x) ≡ x) × (bit_and (to_bcd x) 0x0F + to_bcd x / 16 * 10 ≡ x)
unfolding byte_row
byte_lem x small =
    let row : byte_row x ≡ true = holds_upto-below byte_row 100 byte_table x small in
    ground (arith, row)

hour_lem : (x : ℕ) → x < 24 → hour_from_bcd (to_bcd x) ≡ x
unfolding hour_row
hour_lem x small =
    let row : hour_row x ≡ true = holds_upto-below hour_row 24 hour_table x small in
    ground (arith, row)

-- Reading a clock that shows a time in binary-coded decimal with 24 hours, as bit 2 of register B clear and bit 1
-- set say whatever its other bits are, gives that time, in the century that starts with 2000.
pub read_rtc_lem :
    (t : RtcTime) (register_b : ℕ)
    → bit_and register_b 0x04 ≡ 0
    → bit_and register_b 0x02 ≢ 0
    → t.second < 60
    → t.minute < 60
    → t.hour < 24
    → t.day < 32
    → t.month < 13
    → t.year < 100
    → read_rtc (registers_of t) register_b ≡ record t { year = t.year + 2000 }
unfolding read_rtc
read_rtc_lem t register_b bcd hours s mi h d mo y =
    let s' = (byte_lem t.second (omega arith)).0 in
    let mi' = (byte_lem t.minute (omega arith)).0 in
    let h' = hour_lem t.hour h in
    let d' = (byte_lem t.day (omega arith)).0 in
    let mo' = (byte_lem t.month (omega arith)).0 in
    let y' = (byte_lem t.year y).1 in
    let y2 : (t.year + 2000) % 2 ^ 32 ≡ t.year + 2000 = omega arith in
    let decimal : (bit_and register_b 0x04 == 0) ≡ true = ground (arith, bcd) in
    let all_day : (bit_and register_b 0x02 == 0) ≡ false = ground (arith, hours) in
    rw (decimal, all_day, s', mi', h', d', mo', y', y2) refl
