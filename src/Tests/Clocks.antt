-- ===== src/Tests/Clocks.antt =====
-- Times in UTC, and the time stamps of a disk that keeps them.
use cpmtools.Base.{ap, ℕ, suc, ◌+◌, ◌-◌, ◌*◌, ◌/◌, ◌%◌, ◌≡◌, refl, [], ◌∷◌, arith}
use cpmtools.Entry.{Entry}
use cpmtools.Super.{Drive, has_flag}
use cpmtools.Inode.{Inode}
use cpmtools.Clock.{
  Tm, Clock, days_in_year, days_in_month, split_days, day_number, cpm2unix_time, unix2cpm_time,
}
use cpmtools.Clock.Calendar.{days_of, days_before}
use cpmtools.Clock.RoundTrip.{IsCalendar, SameOffset, cpm2unix_time-unix2cpm_time}
use cpmtools.Stamp.{stamp_offset, date_entry, update_time_stamps, read_time_stamps}
use cpmtools.Stamp.ReadBack.{IsStorable, xtime_of, read_time_stamps-update_time_stamps}
use cpmtools.Tests.Sample.{disk, foo0, foo1, bar, foo_inode}

-- `localtime` where local time is UTC, from 1978 on.
abbrev local_time : ℕ → Tm
local_time t =
    let n = t / 86400 - 2921 in
    let date = split_days n in
    record {
      tm_sec = t % 60;
      tm_min = t / 60 % 60;
      tm_hour = t / 3600 % 24;
      tm_mday = date.2;
      month = suc date.1;
      tm_year = date.0;
      tm_yday = n - day_number date.0 0;
    }

abbrev make_time : Tm → ℕ
make_time tm =
    (days_of (tm.tm_year - 70) 1970
        + days_before (days_in_year (1900 + tm.tm_year)) (tm.month - 1)
        + tm.tm_mday
        - 1)
      * 86400
    + tm.tm_hour * 3600
    + tm.tm_min * 60
    + tm.tm_sec

-- The clock shows the number of seconds that is the world's state.
abbrev pub utc : Clock ℕ
utc = record {
  time = λ s. (s, s + 1);
  localtime = local_time;
  mktime = make_time;
  mktime_gmt = make_time;
}

-- 9 September 2001, 1:46:40
abbrev billion : ℕ
billion = 1000000000

abbrev billion_tm : Tm
billion_tm = record {
  tm_sec = 40;
  tm_min = 46;
  tm_hour = 1;
  tm_mday = 9;
  month = 9;
  tm_year = 101;
  tm_yday = 251;
}

billion_local : local_time billion ≡ billion_tm
unfolding split_days day_number days_in_year days_in_month
billion_local = refl

billion-IsCalendar : IsCalendar utc billion
unfolding split_days day_number days_in_year days_in_month
billion-IsCalendar = record {
  minute_range = omega arith;
  hour_range = omega arith;
  day_range = omega arith;
  first_of_month = λ mon day yday date.
      let year = (utc.localtime billion).tm_year in
      let before =
        ap (days_before (days_in_year (1900 + year))) {x = suc mon - 1} {y = mon} (omega arith) in
      let years : days_of (year - 70) 1970 ≡ 11323 = refl in
      let total : utc.mktime_gmt (utc.localtime billion) ≡ billion = refl in
      omega (arith, date.adds_up, date.day_positive, before, years, total);
}

stored_billion : unix2cpm_time utc billion ≡ (8653, 1, 0x46)
unfolding unix2cpm_time split_days day_number days_in_year days_in_month
stored_billion = refl

-- A year later, the CP/M time is read back.
cpm2unix_time-unix2cpm_time_example :
    (cpm2unix_time utc
      (unix2cpm_time utc billion).0
      (unix2cpm_time utc billion).1
      (unix2cpm_time utc billion).2
      1031536000).0
    ≡ 999999960
unfolding split_days day_number days_in_year days_in_month
cpm2unix_time-unix2cpm_time_example =
    cpm2unix_time-unix2cpm_time utc billion 1031536000 billion-IsCalendar refl (omega arith)

-- An entry with stamps, and a disk of CP/M 3 of which it is the fourth entry.
abbrev dates : Entry
dates = record foo0 { status = 0x21 }

abbrev dated_disk : Drive
dated_disk = record disk { type = 2; dir = foo0 ∷ bar ∷ foo1 ∷ dates ∷ [] }

abbrev now_inode : Inode
now_inode = record foo_inode { mtime = billion; ctime = billion }

billion-IsStorable : (s : ℕ) → SameOffset utc billion s → IsStorable utc billion s
unfolding unix2cpm_time split_days day_number days_in_year days_in_month
billion-IsStorable s same = record {
  calendar = billion-IsCalendar;
  same_offset = same;
  recent = omega arith;
  two_bytes = omega arith;
}

read_time_stamps-update_time_stamps_example :
    let r =
      read_time_stamps utc (update_time_stamps utc dated_disk now_inode 0) foo_inode 0 1031536000 in
    (r.1.mtime ≡ 999999960) × (xtime_of dated_disk r.1 ≡ 999999960) × (r.0 ≡ 84)
unfolding date_entry stamp_offset has_flag split_days day_number days_in_year days_in_month
read_time_stamps-update_time_stamps_example =
    read_time_stamps-update_time_stamps utc dated_disk now_inode foo_inode 0 1031536000
      (record { name_length = refl; ext_length = refl; pointers_length = refl }) refl refl refl
      (billion-IsStorable 1031536000 refl) (billion-IsStorable 1031536001 refl)
