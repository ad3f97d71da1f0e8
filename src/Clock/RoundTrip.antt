-- ===== src/Clock/RoundTrip.antt =====
-- The time conversions of cpmfs.c are inverse to each other, to the minute.
use cpmtools.Base.{
  ℕ, suc, ◌+◌, ◌-◌, ◌*◌, ◌≤◌, ◌<◌, ◌≡◌, inl, inr, refl, ap, ◌∙◌, false, ◌&&◌, Bool-cases, ◌==◌, ltb,
  if◌then◌else◌, arith,
}
use cpmtools.Super.{DsEntry}
use cpmtools.Clock.{
  Clock, bcd2bin, bin2bcd, days_in_year, split_days, day_number, cpm2unix_time, unix2cpm_time,
  ds2unix_time, unix2ds_time,
}
use cpmtools.Clock.Calendar.{bcd2bin-bin2bcd, bcd2bin-digits, IsDate, split_days-day_number}

-- What the C library promises of a time `t`: the ranges of `struct tm`, and that `mktime` counts the
-- days of a month and the seconds of a minute one by one.
pub record IsCalendar {S : Type 0} (clock : Clock S) (t : ℕ) : Type 0 where
  pub minute_range : (clock.localtime t).tm_min < 60
  pub hour_range : (clock.localtime t).tm_hour < 24
  pub day_range : (clock.localtime t).tm_yday < days_in_year (1900 + (clock.localtime t).tm_year)
  pub first_of_month :
      (mon day yday : ℕ)
      → IsDate
          (days_in_year (1900 + (clock.localtime t).tm_year))
          ((clock.localtime t).tm_yday + 1)
          mon
          day
      → clock.mktime_gmt (record (clock.localtime t) {
        tm_sec = 0;
        tm_mday = 1;
        month = suc mon;
        tm_yday = yday;
      })
          + (day - 1) * (24 * 3600)
          + (clock.localtime t).tm_sec
        ≡ clock.mktime_gmt (clock.localtime t)

-- The offset of local time from UTC is the same at two times.
abbrev pub SameOffset : {S : Type 0} → Clock S → ℕ → ℕ → Type 0
SameOffset clock t u =
    clock.mktime_gmt (clock.localtime t) + u ≡ clock.mktime_gmt (clock.localtime u) + t

-- A time of 1978 or later that is stored as a CP/M time and read back has lost its seconds and nothing
-- else, if local time has the same offset from UTC now as it had then.
pub cpm2unix_time-unix2cpm_time :
    {S : Type 0} (clock : Clock S) (t : ℕ) (s : S)
    → IsCalendar clock t
    → SameOffset clock t (clock.time s).0
    → 78 ≤ (clock.localtime t).tm_year
    → (cpm2unix_time clock
        (unix2cpm_time clock t).0
        (unix2cpm_time clock t).1
        (unix2cpm_time clock t).2
        s).0
      ≡ t - (clock.localtime t).tm_sec
unfolding cpm2unix_time unix2cpm_time
cpm2unix_time-unix2cpm_time clock t s calendar offset recent =
    let tm = clock.localtime t in
    let now = (clock.time s).0 in
    let date = split_days-day_number tm.tm_year tm.tm_yday recent calendar.day_range in
    let first =
      calendar.first_of_month (split_days (day_number tm.tm_year tm.tm_yday)).1
        (split_days (day_number tm.tm_year tm.tm_yday)).2 (clock.localtime now).tm_yday date.1 in
    rw
      (
        date.0,
        bcd2bin-digits tm.tm_min (omega (arith, calendar.minute_range)),
        bcd2bin-digits tm.tm_hour (omega (arith, calendar.hour_range)),
      )
      (omega (arith, first, offset, date.1.day_positive))

-- The year of a DateStamper date, since 1900.
abbrev full_year : ℕ → ℕ
full_year yr = if ltb yr 70 then yr + 100 else yr

ds2unix_time_lem :
    {S : Type 0} (clock : Clock S) (e : DsEntry)
    → 0 < e.day
    → ds2unix_time clock e
      ≡ clock.mktime (record {
        tm_sec = 0;
        tm_min = bcd2bin e.minute;
        tm_hour = bcd2bin e.hour;
        tm_mday = bcd2bin e.day;
        month = bcd2bin e.month;
        tm_year = full_year (bcd2bin e.year);
        tm_yday = 0;
      })
unfolding ds2unix_time
ds2unix_time_lem clock e h =
    let filled : (e.minute == 0 && e.hour == 0 && e.day == 0 && e.month == 0 && e.year == 0)
        ≡ false =
      ground (arith, h) in
    rw (filled, ds2unix_time) refl

unix2ds_time_lem :
    {S : Type 0} (clock : Clock S) (t : ℕ)
    → 0 < t
    → unix2ds_time clock t ≡ record {
      year = bin2bcd (
          if ltb 100 (clock.localtime t).tm_year
          then (clock.localtime t).tm_year - 100
          else (clock.localtime t).tm_year);
      month = bin2bcd (clock.localtime t).month;
      day = bin2bcd (clock.localtime t).tm_mday;
      hour = bin2bcd (clock.localtime t).tm_hour;
      minute = bin2bcd (clock.localtime t).tm_min;
    }
unfolding unix2ds_time
unix2ds_time_lem clock t h =
    let later : (t == 0) ≡ false = ground (arith, h) in rw (later, unix2ds_time) refl

bin2bcd-pos : (x : ℕ) → 0 < x → x < 160 → 0 < bin2bcd x
unfolding bin2bcd
bin2bcd-pos x h p = omega arith

full_year_lem :
    (y : ℕ)
    → 70 ≤ y
    → y < 170
    → full_year (bcd2bin (bin2bcd (if ltb 100 y then y - 100 else y))) ≡ y
full_year_lem y h p = elim (Bool-cases (ltb 100 y)) [
  | inl late ↦ rw (late, bcd2bin-bin2bcd (y - 100) (omega arith)) (ground (arith, late))
  | inr early ↦
      let small : y < 160 = ground (arith, early) in
      rw (early, bcd2bin-bin2bcd y small) (ground (arith, early))
]

-- A DateStamper time is kept to the minute: a time from 1970 to 2069, not the first second of
-- 1970, that is stored and read back is what `mktime` makes of its local date, hour and minute.
pub ds2unix_time-unix2ds_time :
    {S : Type 0} (clock : Clock S) (t : ℕ)
    → IsCalendar clock t
    → 0 < t
    → (clock.localtime t).month < 13
    → 0 < (clock.localtime t).tm_mday
    → (clock.localtime t).tm_mday < 32
    → 70 ≤ (clock.localtime t).tm_year
    → (clock.localtime t).tm_year < 170
    → ds2unix_time clock (unix2ds_time clock t)
      ≡ clock.mktime (record (clock.localtime t) { tm_sec = 0; tm_yday = 0 })
ds2unix_time-unix2ds_time clock t calendar h month day mday early late =
    let tm = clock.localtime t in
    ap (ds2unix_time clock) (unix2ds_time_lem clock t h)
    ∙ ds2unix_time_lem clock
        (record {
          year = bin2bcd (if ltb 100 tm.tm_year then tm.tm_year - 100 else tm.tm_year);
          month = bin2bcd tm.month;
          day = bin2bcd tm.tm_mday;
          hour = bin2bcd tm.tm_hour;
          minute = bin2bcd tm.tm_min;
        })
        (bin2bcd-pos tm.tm_mday day (omega arith))
    ∙ rw
        (
          full_year_lem tm.tm_year early late,
          bcd2bin-bin2bcd tm.month (omega arith),
          bcd2bin-bin2bcd tm.tm_mday (omega arith),
          bcd2bin-bin2bcd tm.tm_hour (omega (arith, calendar.hour_range)),
          bcd2bin-bin2bcd tm.tm_min (omega (arith, calendar.minute_range)),
        )
        refl
