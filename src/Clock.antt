-- ===== src/Clock.antt =====
-- src/cpmfs.c, "time conversions". The C library's clock and calendar are a parameter, `Clock`. A
-- time is the number of seconds since 1970; dates of CP/M begin in 1978, so no difference
-- below goes under 0.
pub mod Calendar
pub mod RoundTrip
use cpmtools.Base.{
  ℕ, zero, suc, ◌+◌, ◌-◌, ◌*◌, ◌/◌, ◌%◌, Bool, true, false, not, ◌&&◌, ◌||◌, List, [], ◌∷◌, ◌==◌,
  ltb, if◌then◌else◌, get_or,
}
use cpmtools.Super.{DsEntry}

-- The members of `struct tm` that the code uses; `month` is `tm_mon + 1`, since `ds2unix_time` makes
-- `tm_mon` -1 from a month 0.
pub record Tm : Type 0 where
  pub tm_sec : ℕ
  pub tm_min : ℕ
  pub tm_hour : ℕ
  pub tm_mday : ℕ
  pub month : ℕ
  pub tm_year : ℕ
  pub tm_yday : ℕ

-- `time`, `localtime`, `mktime`, and `mktime` with `environ` set to `TZ=GMT0`. A value of `S` is the
-- world outside the program; a call of `time` may change it.
pub record Clock (S : Type 0) : Type 0 where
  pub time : S → ℕ × S
  pub localtime : ℕ → Tm
  pub mktime : Tm → ℕ
  pub mktime_gmt : Tm → ℕ

-- `BCD2BIN`
unfoldable pub bcd2bin : ℕ → ℕ
bcd2bin x = x / 16 % 16 * 10 + x % 16

-- `BIN2BCD`
unfoldable pub bin2bcd : ℕ → ℕ
bin2bcd x = x / 10 % 16 * 16 + x % 10 % 16

unfoldable pub is_leap : ℕ → Bool
is_leap year = year % 4 == 0 && (not (year % 100 == 0) || year % 400 == 0)

unfoldable pub days_in_year : ℕ → ℕ
unfolding is_leap
days_in_year year = if is_leap year then 366 else 365

-- `days_per_month[mon]`
unfoldable pub days_in_month : ℕ → ℕ → ℕ
days_in_month days_per_year mon =
    if mon == 1
    then (if days_per_year == 366 then 29 else 28)
    else get_or (31 ∷ 0 ∷ 31 ∷ 30 ∷ 31 ∷ 30 ∷ 31 ∷ 31 ∷ 30 ∷ 31 ∷ 30 ∷ 31 ∷ []) mon 0

-- The loop over the years: the year, since 1900, and the days left. Each round takes a year of days
-- off, so the number of days is fuel enough.
pub year_loop : ℕ → ℕ → ℕ → ℕ × ℕ
year_loop zero tm_year days = (tm_year, days)
year_loop (suc fuel) tm_year days = elim (ltb (days_in_year (1900 + tm_year)) days) [
  | true ↦ year_loop fuel (suc tm_year) (days - days_in_year (1900 + tm_year))
  | false ↦ (tm_year, days)
]

-- The loop over the months. It ends in December, since the days left are at most those of the year;
-- so twelve rounds are fuel enough.
pub month_loop : ℕ → ℕ → ℕ → ℕ → ℕ × ℕ
month_loop zero days_per_year tm_mon days = (tm_mon, days)
month_loop (suc fuel) days_per_year tm_mon days =
    elim (ltb (days_in_month days_per_year tm_mon) days) [
      | true ↦
          month_loop fuel days_per_year (suc tm_mon) (days - days_in_month days_per_year tm_mon)
      | false ↦ (tm_mon, days)
    ]

-- The year, the month and the day of a day number, as `cpm2unix_time` works them out.
unfoldable pub split_days : ℕ → ℕ × ℕ × ℕ
unfolding year_loop month_loop
split_days days =
    let y = year_loop days 78 days in
    let m = month_loop 12 (days_in_year (1900 + y.0)) 0 y.1 in (y.0, m.0, m.1)

-- The loop `for (i = 1978, *days = 0; i < 1900 + tms->tm_year; ++i)`, for `n` rounds.
pub day_loop : ℕ → ℕ → ℕ → ℕ
day_loop zero i days = days
day_loop (suc n) i days =
    day_loop n (suc i)
      (if i % 4 == 0 && (not (i % 100 == 0) || i % 400 == 0) then days + 365 + 1 else days + 365)

-- The day number of a year, since 1900, and a day of the year.
unfoldable pub day_number : ℕ → ℕ → ℕ
unfolding day_loop
day_number tm_year tm_yday = day_loop (1900 + tm_year - 1978) 1978 0 + (tm_yday + 1)

module _ {S : Type 0} (clock : Clock S) where
  -- `cpm2unix_time`
  unfoldable pub cpm2unix_time : ℕ → ℕ → ℕ → S → ℕ × S
  cpm2unix_time days hour min s =
      let (now, s') = clock.time s in
      let (year, mon, day) = split_days days in
      let tms : Tm = record {
        tm_sec = 0;
        tm_min = bcd2bin min;
        tm_hour = bcd2bin hour;
        tm_mday = 1;
        month = suc mon;
        tm_year = year;
        tm_yday = (clock.localtime now).tm_yday;
      } in
      (
        clock.mktime_gmt tms
            + day * (24 * 3600)
            + now
            - 24 * 3600
            - clock.mktime_gmt (clock.localtime now),
        s',
      )

  -- `unix2cpm_time`: the days, the hour and the minute
  unfoldable pub unix2cpm_time : ℕ → ℕ × ℕ × ℕ
  unix2cpm_time now =
      let tms = clock.localtime now in
      (
        day_number tms.tm_year tms.tm_yday,
        tms.tm_hour / 10 * 16 + tms.tm_hour % 10,
        tms.tm_min / 10 * 16 + tms.tm_min % 10,
      )

  -- `ds2unix_time`
  unfoldable pub ds2unix_time : DsEntry → ℕ
  ds2unix_time entry =
      if entry.minute == 0
        && entry.hour == 0
        && entry.day == 0
        && entry.month == 0
        && entry.year == 0
      then 0
      else let yr = bcd2bin entry.year in
        clock.mktime (record {
          tm_sec = 0;
          tm_min = bcd2bin entry.minute;
          tm_hour = bcd2bin entry.hour;
          tm_mday = bcd2bin entry.day;
          month = bcd2bin entry.month;
          tm_year = if ltb yr 70 then yr + 100 else yr;
          tm_yday = 0;
        })

  -- `unix2ds_time`
  unfoldable pub unix2ds_time : ℕ → DsEntry
  unix2ds_time now =
      if now == 0
      then record { year = 0; month = 0; day = 0; hour = 0; minute = 0 }
      else let tms = clock.localtime now in
        let yr = if ltb 100 tms.tm_year then tms.tm_year - 100 else tms.tm_year in
        record {
          year = bin2bcd yr;
          month = bin2bcd tms.month;
          day = bin2bcd tms.tm_mday;
          hour = bin2bcd tms.tm_hour;
          minute = bin2bcd tms.tm_min;
        }
