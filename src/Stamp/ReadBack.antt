-- ===== src/Stamp/ReadBack.antt =====
-- The time stamps that `updateTimeStamps` of cpmfs.c stores are those that `readTimeStamps` reads.
use cpmtools.Base.{
  ℕ, ◌+◌, ◌-◌, ◌*◌, ◌/◌, ◌%◌, ◌≤◌, ◌<◌, ◌≡◌, ◌⊎◌, inl, inr, refl, sym, ap, ◌∙◌, true, arith, some,
  Option-cases, Bool-cases, ◌==◌, if◌then◌else◌, get_or, get_elem?, modify, get_elem?-modify_self,
}
use cpmtools.Entry.{Entry}
use cpmtools.Super.{Drive, has_flag, cpm3_dates}
use cpmtools.Inode.{Inode}
use cpmtools.Layout.{byte_at, with_bytes}
use cpmtools.Layout.Views.{
  HasShape, HasShape-with_bytes, byte_at-with_bytes_in, byte_at-with_bytes_out,
}
use cpmtools.Clock.{Clock, cpm2unix_time, unix2cpm_time}
use cpmtools.Clock.RoundTrip.{IsCalendar, SameOffset, cpm2unix_time-unix2cpm_time}
use cpmtools.Stamp.{
  is_reg, date_entry, stamp_offset, get_cpm_stamp_field, stamp_bytes, set_stamps,
  update_time_stamps, read_stamps, find_stamps, read_time_stamps,
}

-- A time that two bytes hold the day number of, and that the C library can bring back at `now`.
pub record IsStorable {S : Type 0} (clock : Clock S) (t now : ℕ) : Type 0 where
  pub calendar : IsCalendar clock t
  pub same_offset : SameOffset clock t now
  pub recent : 78 ≤ (clock.localtime t).tm_year
  pub two_bytes : (unix2cpm_time clock t).0 < 65536

-- The minute that a time lies in.
abbrev pub minute_of : {S : Type 0} → Clock S → ℕ → ℕ
minute_of clock t = t - (clock.localtime t).tm_sec

digits-lt :
    {S : Type 0} (clock : Clock S) (t : ℕ)
    → IsCalendar clock t
    → ((unix2cpm_time clock t).1 < 256) × ((unix2cpm_time clock t).2 < 256)
unfolding unix2cpm_time
digits-lt clock t c = (omega (arith, c.hour_range), omega (arith, c.minute_range))

module _ {S : Type 0} (clock : Clock S) where
  -- An entry whose bytes from `fld` on are a stamp.
  field_lem :
      (e : Entry) (fld t : ℕ) (s : S)
      → IsStorable clock t (clock.time s).0
      → ((i : ℕ) → i < 4 → byte_at e (fld + i) ≡ get_or (stamp_bytes clock t) i 0)
      → (get_cpm_stamp_field clock e fld s).0 ≡ minute_of clock t
  unfolding get_cpm_stamp_field stamp_bytes
  field_lem e fld t s v holds =
      let (h, m) = digits-lt clock t v.calendar in
      let b0 : byte_at e fld ≡ (unix2cpm_time clock t).0 % 256 =
        ap (byte_at e) (omega arith) ∙ holds 0 (omega arith) in
      let days : byte_at e fld + byte_at e (fld + 1) * 256 ≡ (unix2cpm_time clock t).0 =
        omega (arith, b0, holds 1 (omega arith), v.two_bytes) in
      let hour : byte_at e (fld + 2) ≡ (unix2cpm_time clock t).1 =
        holds 2 (omega arith) ∙ omega (arith, h) in
      let min : byte_at e (fld + 3) ≡ (unix2cpm_time clock t).2 =
        holds 3 (omega arith) ∙ omega (arith, m) in
      rw (days, hour, min) (cpm2unix_time-unix2cpm_time clock t s v.calendar v.same_offset v.recent)

  -- The world that reading a stamp leaves.
  after_field :
      (e : Entry) (fld : ℕ) (s : S) → (get_cpm_stamp_field clock e fld s).1 ≡ (clock.time s).1
  unfolding get_cpm_stamp_field cpm2unix_time
  after_field e fld s = refl

  read_stamps-set_stamps :
      (e : Entry) (fld mode x m : ℕ) (s : S)
      → HasShape e
      → fld + 8 ≤ 32
      → (mode < fld) ⊎ (fld + 8 ≤ mode)
      → IsStorable clock x (clock.time s).0
      → IsStorable clock m (clock.time (clock.time s).1).0
      → ((read_stamps clock (set_stamps clock fld x m e) fld mode s).0 ≡ minute_of clock x)
        × ((read_stamps clock (set_stamps clock fld x m e) fld mode s).1 ≡ minute_of clock m)
        × ((read_stamps clock (set_stamps clock fld x m e) fld mode s).2 ≡ byte_at e mode)
  unfolding read_stamps set_stamps stamp_bytes
  read_stamps-set_stamps e fld mode x m s v fits apart p q =
      let e1 = with_bytes e fld (stamp_bytes clock x) in
      let v1 = HasShape-with_bytes e fld (stamp_bytes clock x) v in
      let e2 = with_bytes e1 (fld + 4) (stamp_bytes clock m) in
      let first : (i : ℕ) → i < 4 → byte_at e2 (fld + i) ≡ get_or (stamp_bytes clock x) i 0 = λ i l.
        byte_at-with_bytes_out e1 (fld + 4) (stamp_bytes clock m) (fld + i) v1 (inl (omega arith))
        ∙ byte_at-with_bytes_in e fld (stamp_bytes clock x) i (fld + i) v (omega arith) l refl in
      let second : (i : ℕ) → i < 4 → byte_at e2 (fld + 4 + i) ≡ get_or (stamp_bytes clock m) i 0 =
        λ i l.
          byte_at-with_bytes_in e1 (fld + 4) (stamp_bytes clock m) i (fld + 4 + i) v1 (omega arith)
            l refl in
      let after = after_field e2 fld s in
      (
        field_lem e2 fld x s p first,
        ap (λ w. (get_cpm_stamp_field clock e2 (fld + 4) w).0) after
            ∙ field_lem e2 (fld + 4) m (clock.time s).1 q second,
        byte_at-with_bytes_out e1 (fld + 4) (stamp_bytes clock m) mode v1 (omega arith)
            ∙ byte_at-with_bytes_out e fld (stamp_bytes clock x) mode v (omega arith),
      )

  status-set_stamps :
      (e : Entry) (fld x m : ℕ)
      → HasShape e
      → 0 < fld
      → (set_stamps clock fld x m e).status ≡ e.status
  unfolding set_stamps
  status-set_stamps e fld x m v low =
      byte_at-with_bytes_out (with_bytes e fld (stamp_bytes clock x)) (fld + 4)
        (stamp_bytes clock m) 0 (HasShape-with_bytes e fld (stamp_bytes clock x) v)
        (inl (omega arith))
      ∙ byte_at-with_bytes_out e fld (stamp_bytes clock x) 0 v (inl low)

stamp_offset-bounds :
    (extent : ℕ) {fld : ℕ} → stamp_offset extent ≡ some fld → (0 < fld) × (fld + 8 ≤ 32)
unfolding stamp_offset
stamp_offset-bounds extent h = ground (arith, h)

-- What `date_entry` has found.
pub record IsDateEntry (d : Drive) (extent : ℕ) (date : Entry) : Type 0 where
  pub dated : has_flag d.type cpm3_dates ≡ true
  pub there : get_elem? d.dir (extent / 4 * 4 + 3) ≡ some date
  pub marked : date.status ≡ 0x21

pub date_entry-some :
    (d : Drive) (extent : ℕ) {date : Entry}
    → date_entry d extent ≡ some date
    → IsDateEntry d extent date
unfolding date_entry
date_entry-some d extent {date} h = elim (Bool-cases (has_flag d.type cpm3_dates)) [
  | inr without ↦ absurd (cc (sym (rw (without, date_entry) at h)))
  | inl dated ↦ elim (Option-cases (get_elem? d.dir (extent / 4 * 4 + 3))) [
    | inl nothing ↦ absurd (cc (sym (rw (dated, nothing, date_entry) at h)))
    | inr (e, there) ↦ elim (Bool-cases (e.status == 0x21)) [
      | inr other ↦ absurd (cc (sym (rw (dated, there, other, date_entry) at h)))
      | inl marked ↦
          let same : e ≡ date = cc (rw (dated, there, marked, date_entry) at h) in
          record {
            dated = dated;
            there = there ∙ ap some same;
            marked = ap (λ x. x.status) (sym same) ∙ ground (arith, marked);
          }
    ]
  ]
]

-- The time that CP/M keeps beside that of modification, of access or of creation.
abbrev pub xtime_of : Drive → Inode → ℕ
xtime_of d i = if d.cnotatime then i.ctime else i.atime

module _ {S : Type 0} (clock : Clock S) (d : Drive) (i : Inode) (extent : ℕ) where
  updated :
      {date : Entry} {fld : ℕ}
      → is_reg i.mode ≡ true
      → date_entry d extent ≡ some date
      → stamp_offset extent ≡ some fld
      → update_time_stamps clock d i extent ≡ record d {
        dirty_directory = true;
        dir = modify d.dir (extent / 4 * 4 + 3) (set_stamps clock fld (xtime_of d i) i.mtime);
      }
  unfolding update_time_stamps
  updated reg found place = rw (reg, found, place, update_time_stamps) refl

  date_entry-updated :
      {date : Entry} {fld : ℕ}
      → HasShape date
      → is_reg i.mode ≡ true
      → date_entry d extent ≡ some date
      → stamp_offset extent ≡ some fld
      → date_entry (update_time_stamps clock d i extent) extent
        ≡ some (set_stamps clock fld (xtime_of d i) i.mtime date)
  unfolding date_entry
  date_entry-updated {date} {fld} v reg found place =
      let r = date_entry-some d extent found in
      let stored = set_stamps clock fld (xtime_of d i) i.mtime in
      let there = get_elem?-modify_self d.dir (extent / 4 * 4 + 3) stored r.there in
      let low = (stamp_offset-bounds extent place).0 in
      let marked : ((stored date).status == 0x21) ≡ true =
        ground (arith, status-set_stamps clock date fld (xtime_of d i) i.mtime v low, r.marked) in
      ap (λ x. date_entry x extent) (updated reg found place)
      ∙ rw (r.dated, there, marked, date_entry) refl

-- The time stamps that `updateTimeStamps` stores in a CP/M 3 directory are those that
-- `readTimeStamps` reads, to the minute, for a regular file that is not the fourth of its group and
-- times that two bytes and the C library can keep; the password mode beside them stays as it was.
pub read_time_stamps-update_time_stamps :
    {S : Type 0} (clock : Clock S) (d : Drive) (i i' : Inode) (extent : ℕ) (s : S) {date : Entry}
    {fld : ℕ}
    → HasShape date
    → is_reg i.mode ≡ true
    → date_entry d extent ≡ some date
    → stamp_offset extent ≡ some fld
    → IsStorable clock (xtime_of d i) (clock.time s).0
    → IsStorable clock i.mtime (clock.time (clock.time s).1).0
    → let r = read_time_stamps clock (update_time_stamps clock d i extent) i' extent s in
      (r.1.mtime ≡ minute_of clock i.mtime)
      × (xtime_of d r.1 ≡ minute_of clock (xtime_of d i))
      × (r.0 ≡ byte_at date (fld + 8))
unfolding read_time_stamps find_stamps
read_time_stamps-update_time_stamps clock d i i' extent s {date} {fld} v reg found place p q =
    let low = stamp_offset-bounds extent place in
    let back =
      read_stamps-set_stamps clock date fld (fld + 8) (xtime_of d i) i.mtime s v low.1
        (inr (omega arith)) p q in
    let e : find_stamps clock (update_time_stamps clock d i extent) i' extent s
        ≡ read_stamps clock (set_stamps clock fld (xtime_of d i) i.mtime date) fld (fld + 8) s =
      rw (date_entry-updated clock d i extent v reg found place, place, find_stamps) refl in
    let flag = ap (λ x. x.cnotatime) (updated clock d i extent reg found place) in
    let kept : xtime_of d
          (read_time_stamps clock (update_time_stamps clock d i extent) i' extent s).1
        ≡ (find_stamps clock (update_time_stamps clock d i extent) i' extent s).0 =
      rw (flag, read_time_stamps)
        (elim (Bool-cases d.cnotatime) [ inl y ↦ rw y refl | inr n ↦ rw n refl ]) in
    (ap (λ r. r.1) e ∙ back.1, kept ∙ ap (λ r. r.0) e ∙ back.0, ap (λ r. r.2) e ∙ back.2)
