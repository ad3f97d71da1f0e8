-- ===== src/Clock/Calendar.antt =====
-- src/cpmfs.c: the loops of `cpm2unix_time` and `unix2cpm_time` over the years and the months agree.
use cpmtools.Base.{
  ℕ, zero, suc, ◌+◌, ◌-◌, ◌*◌, ◌/◌, ◌%◌, ◌≤◌, ◌<◌, ◌≡◌, ◌⊎◌, inl, inr, refl, ap, ◌∙◌, true, false,
  not, ◌&&◌, ◌||◌, Bool-cases, ◌==◌, ltb, if◌then◌else◌, arith,
}
use cpmtools.Clock.{
  bcd2bin, bin2bcd, is_leap, days_in_year, days_in_month, year_loop, month_loop, split_days,
  day_loop, day_number,
}

pub bcd2bin-bin2bcd : (x : ℕ) → x < 160 → bcd2bin (bin2bcd x) ≡ x
unfolding bcd2bin bin2bcd
bcd2bin-bin2bcd x h = omega arith

pub bcd2bin-digits : (x : ℕ) → x < 100 → bcd2bin (x / 10 * 16 + x % 10) ≡ x
unfolding bcd2bin
bcd2bin-digits x h = omega arith

-- The days of `n` years from `year` on.
abbrev pub days_of : ℕ → ℕ → ℕ
days_of zero year = 0
days_of (suc n) year = days_in_year year + days_of n (suc year)

one_year :
    (year days : ℕ)
    → (if year % 4 == 0 && (not (year % 100 == 0) || year % 400 == 0)
        then days + 365 + 1
        else days + 365)
      ≡ days + days_in_year year
unfolding days_in_year is_leap
one_year year days = ground arith

day_loop_lem : (n year days : ℕ) → day_loop n year days ≡ days + days_of n year
unfolding day_loop
day_loop_lem zero year days = omega arith
day_loop_lem (suc n) year days =
    ap (day_loop n (suc year)) (one_year year days)
    ∙ day_loop_lem n (suc year) (days + days_in_year year)
    ∙ omega arith

pair_eq : {a b c d : ℕ} → a ≡ b → c ≡ d → ◌≡◌ {A = ℕ × ℕ} (a, c) (b, d)
pair_eq {b = b} {c = c} e f = ap (λ x. (x, c)) e ∙ ap (λ y. (b, y)) f

year_loop_lem :
    (n fuel year first total days : ℕ)
    → n ≤ fuel
    → first ≡ 1900 + year
    → total ≡ days_of n first + days
    → 0 < days
    → days ≤ days_in_year (first + n)
    → year_loop fuel year total ≡ (year + n, days)
unfolding year_loop
year_loop_lem zero zero year first total days h e t low high = pair_eq (omega arith) (omega arith)
year_loop_lem zero (suc fuel) year first total days h e t low high =
    let same : first + 0 ≡ 1900 + year = omega arith in
    let small : total ≤ days_in_year (1900 + year) = omega (arith, t, high, ap days_in_year same) in
    let stop : ltb (days_in_year (1900 + year)) total ≡ false = ground (arith, small) in
    rw (stop, year_loop)
      (pair_eq {a = year} {b = year + 0} {c = total} {d = days} (omega arith) (omega arith))
year_loop_lem (suc n) zero year first total days h e t low high = absurd (omega arith)
year_loop_lem (suc n) (suc fuel) year first total days h e t low high =
    let same = ap days_in_year e in
    let more : ltb (days_in_year (1900 + year)) total ≡ true = ground (arith, t, same, low) in
    let last : days ≤ days_in_year (suc first + n) =
      omega (arith, high, ap days_in_year {x = first + suc n} {y = suc first + n} (omega arith)) in
    rw (more, year_loop)
      (year_loop_lem n fuel (suc year) (suc first) (total - days_in_year (1900 + year)) days
          (omega arith) (omega arith) (omega (arith, t, same)) low last
        ∙ pair_eq {a = suc year + n} {b = year + suc n} {c = days} {d = days} (omega arith) refl)

-- The days of the months before month `mon`.
abbrev pub days_before : ℕ → ℕ → ℕ
days_before days_per_year zero = 0
days_before days_per_year (suc mon) =
    days_before days_per_year mon + days_in_month days_per_year mon

-- A month, counted from 0, and a day of it that make up a day of the year.
pub record IsDate (days_per_year days mon day : ℕ) : Type 0 where
  pub month_range : mon < 12
  pub day_positive : 0 < day
  pub day_range : day ≤ days_in_month days_per_year mon
  pub adds_up : days_before days_per_year mon + day ≡ days

whole_year :
    (days_per_year : ℕ)
    → (days_per_year ≡ 365) ⊎ (days_per_year ≡ 366)
    → days_before days_per_year 12 ≡ days_per_year
unfolding days_in_month
whole_year days_per_year (inl e) = rw e refl
whole_year days_per_year (inr e) = rw e refl

month_loop_lem :
    (fuel days_per_year mon left days : ℕ)
    → (days_per_year ≡ 365) ⊎ (days_per_year ≡ 366)
    → mon + fuel ≡ 12
    → 0 < left
    → days_before days_per_year mon + left ≡ days
    → days ≤ days_per_year
    → let m = month_loop fuel days_per_year mon left in IsDate days_per_year days m.0 m.1
unfolding month_loop
month_loop_lem zero y mon left days kind e low sum high =
    absurd (omega (arith, whole_year y kind, ap (days_before y) {x = mon} {y = 12} (omega arith)))
month_loop_lem (suc fuel) y mon left days kind e low sum high =
    elim (Bool-cases (ltb (days_in_month y mon) left)) [
      | inl more ↦
          rw (more, month_loop)
            (month_loop_lem fuel y (suc mon) (left - days_in_month y mon) days kind (omega arith)
              (ground (arith, more)) (ground (arith, more, sum)) high)
      | inr done ↦
          rw (done, month_loop)
            (record {
              month_range = omega arith;
              day_positive = low;
              day_range = ground (arith, done);
              adds_up = sum;
            })
    ]

year_kind : (year : ℕ) → (days_in_year year ≡ 365) ⊎ (days_in_year year ≡ 366)
unfolding days_in_year
year_kind year = ground arith

days_of-ge : (n year : ℕ) → n ≤ days_of n year
days_of-ge zero year = omega arith
days_of-ge (suc n) year = omega (arith, days_of-ge n (suc year), year_kind year)

-- A day number is taken apart into the year that it was made from, and the month and day.
pub split_days-day_number :
    (tm_year tm_yday : ℕ)
    → 78 ≤ tm_year
    → tm_yday < days_in_year (1900 + tm_year)
    → ((split_days (day_number tm_year tm_yday)).0 ≡ tm_year)
      × IsDate
          (days_in_year (1900 + tm_year))
          (tm_yday + 1)
          (split_days (day_number tm_year tm_yday)).1
          (split_days (day_number tm_year tm_yday)).2
unfolding split_days day_number
split_days-day_number tm_year tm_yday h p =
    let n = 1900 + tm_year - 1978 in
    let days = day_loop n 1978 0 + (tm_yday + 1) in
    let sum = day_loop_lem n 1978 0 in
    let end : tm_yday + 1 ≤ days_in_year (1978 + n) =
      omega (arith, p, ap days_in_year {x = 1900 + tm_year} {y = 1978 + n} (omega arith)) in
    let e : year_loop days 78 days ≡ (tm_year, tm_yday + 1) =
      year_loop_lem n days 78 1978 days (tm_yday + 1) (omega (arith, sum, days_of-ge n 1978)) refl
        (omega (arith, sum)) (omega arith) end
      ∙ pair_eq {a = 78 + n} {b = tm_year} {c = tm_yday + 1} {d = tm_yday + 1} (omega arith) refl in
    rw (e, split_days)
      (
        refl,
        month_loop_lem 12 (days_in_year (1900 + tm_year)) 0 (tm_yday + 1) (tm_yday + 1)
            (year_kind (1900 + tm_year)) refl (omega arith) (omega arith) (omega arith),
      )
