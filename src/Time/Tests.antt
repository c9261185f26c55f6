-- ===== src/Time/Tests.antt =====
-- 1 March 2024, 12:30:15.
use destin_x.Prelude.{◌+◌, ◌*◌, ◌≡◌, refl, arith}
use destin_x.Time.{RtcTime, read_rtc, init_time}
use destin_x.Time.Calendar.{leap, days_before, years_before, init_time_lem}
use destin_x.Time.Decode.{registers_of, read_rtc_lem}

abbrev noon : RtcTime
noon = record { second = 15; minute = 30; hour = 12; day = 1; month = 3; year = 2024 }

-- The registers for that time in binary-coded decimal, with 24 hours.
abbrev registers : RtcTime
registers = record {
  second = 0x15;
  minute = 0x30;
  hour = 0x12;
  day = 0x01;
  month = 0x03;
  year = 0x24;
}

decoded : read_rtc registers 0x02 ≡ noon
unfolding read_rtc
decoded = refl

stamp : init_time noon ≡ 1709296215
unfolding init_time destin_x.Time.julian_day
stamp = refl

init_time_lem_example :
    init_time noon
    ≡ (years_before 54 + days_before (leap 2024) 3 + 0) * 86400 + 12 * 3600 + 30 * 60 + 15
init_time_lem_example =
    init_time_lem 54 noon refl (omega arith) (omega arith) (omega arith) (omega arith) (omega arith)
      (omega arith) (omega arith) (omega arith)

abbrev dial : RtcTime
dial = record { second = 15; minute = 30; hour = 12; day = 1; month = 3; year = 24 }

read_rtc_lem_example : read_rtc (registers_of dial) 0x0A ≡ noon
read_rtc_lem_example =
    read_rtc_lem dial 0x0A refl (λ e. omega (arith, e)) (omega arith) (omega arith) (omega arith)
      (omega arith) (omega arith) (omega arith)

-- Twelve hours: 12 in the afternoon is read as hour 0.
afternoon : (read_rtc (record registers { hour = 0x92 }) 0x00).hour ≡ 0
unfolding read_rtc
afternoon = refl
