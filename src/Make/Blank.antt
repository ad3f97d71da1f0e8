-- ===== src/Make/Blank.antt =====
-- The directory that `mkfs` of mkfs.cpm.c writes on a disk without a label and without time stamps in the
-- directory: nothing but 0xe5.
use cpmtools.Base.{
  ℕ, zero, suc, ◌+◌, ◌-◌, ◌*◌, ◌/◌, ◌≤◌, ◌<◌, ◌≡◌, refl, ap, ◌∙◌, Bool, false, List, [], ◌∷◌, ◌++◌,
  arith, ◌==◌, if◌then◌else◌, length, get_or, take, drop, All,
}
use cpmtools.Super.{Drive}
use cpmtools.Dir.{unused}
use cpmtools.Clock.{Tm}
use cpmtools.Fsck.Special.{dr3}
use cpmtools.Posix.{over}
use cpmtools.Make.{
  system_sectors, directory_bytes, entry_record, in_directory, first_record, label_entry, records,
  directory_records, mkfs,
}
use cpmtools.Block.Splice.{length-take}
use cpmtools.Sync.Bytes.{length-append, length-drop}

abbrev pub IsUnused : ℕ → Type 0
IsUnused x = x ≡ unused

All-append : (xs ys : List ℕ) → All IsUnused xs → All IsUnused ys → All IsUnused (xs ++ ys)
All-append [] ys a b = b
All-append (x ∷ xs) ys a b = (a.0, All-append xs ys a.1 b)

get_or-All : (xs : List ℕ) (i : ℕ) → All IsUnused xs → i < length xs → get_or xs i 0 ≡ unused
get_or-All [] i a h = absurd (omega arith)
get_or-All (x ∷ xs) zero a h = a.0
get_or-All (x ∷ xs) (suc i) a h = get_or-All xs i a.1 (omega arith)

get_or-append_right : (xs ys : List ℕ) (i : ℕ) → get_or (xs ++ ys) (length xs + i) 0 ≡ get_or ys i 0
get_or-append_right [] ys i = ap (λ (k : ℕ). get_or ys k 0) {x = 0 + i} {y = i} (omega arith)
get_or-append_right (x ∷ xs) ys i =
    ap (λ (k : ℕ). get_or (x ∷ (xs ++ ys)) k 0) {x = suc (length xs) + i} {y = suc (length xs + i)}
      (omega arith)
    ∙ get_or-append_right xs ys i

get_or-over_inside :
    (s bytes : List ℕ) (i : ℕ) → i < length bytes → get_or (over s bytes) i 0 ≡ get_or bytes i 0
unfolding over
get_or-over_inside s [] i h = absurd (omega arith)
get_or-over_inside [] (b ∷ bs) zero h = refl
get_or-over_inside [] (b ∷ bs) (suc i) h = get_or-over_inside [] bs i (omega arith)
get_or-over_inside (x ∷ s) (b ∷ bs) zero h = refl
get_or-over_inside (x ∷ s) (b ∷ bs) (suc i) h = get_or-over_inside s bs i (omega arith)

length-system_sectors :
    (n len : ℕ) (boot_tracks : List ℕ)
    → n * len ≤ length boot_tracks
    → length (system_sectors n len boot_tracks) ≡ n * len
unfolding system_sectors
length-system_sectors zero len boot_tracks h = omega arith
length-system_sectors (suc n) len boot_tracks h =
    let first = length-take len boot_tracks (omega arith) in
    let behind = length-drop len boot_tracks in
    let rest = length-system_sectors n len (drop len boot_tracks) (omega (arith, behind)) in
    length-append (take len boot_tracks) (system_sectors n len (drop len boot_tracks))
    ∙ omega (arith, first, rest)

-- the record of four unused entries
abbrev blank : List ℕ
blank = entry_record false

blank-IsUnused : (length blank ≡ 128) × All IsUnused blank
unfolding entry_record
blank-IsUnused = (refl, omega arith)

records-IsUnused : (n : ℕ) → (length (records n blank) ≡ 128 * n) × All IsUnused (records n blank)
unfolding records
records-IsUnused zero = (omega arith, tt)
records-IsUnused (suc n) =
    let (len, all) = records-IsUnused n in
    let (len', all') = blank-IsUnused in
    (
      length-append blank (records n blank) ∙ omega (arith, len, len'),
      All-append blank (records n blank) all' all,
    )

directory_records-records : (n : ℕ) → directory_records n blank blank ≡ records n blank
unfolding directory_records records
directory_records-records zero = refl
directory_records-records (suc n) = refl

-- where the directory starts
abbrev pub system_bytes : Drive → ℕ
system_bytes d = d.sectrk * d.boottrk * d.sec_length

module _ (d : Drive) (label boot_tracks old : List ℕ) (stamps : Bool) (now : Tm) where
  abbrev record_count : ℕ
  record_count = (directory_bytes d + 127) / 128

  mkfs-blank :
      d.type == dr3 ≡ false
      → in_directory d stamps ≡ false
      → mkfs d label boot_tracks stamps now old
        ≡ over old (
            system_sectors (d.sectrk * d.boottrk) d.sec_length boot_tracks
            ++ records record_count blank)
  unfolding mkfs first_record
  mkfs-blank no_label no_stamps =
      let front = system_sectors (d.sectrk * d.boottrk) d.sec_length boot_tracks in
      let labelled = label_entry stamps label now in
      ap
        (λ (s : Bool). over old (
          front
          ++ directory_records record_count
              (if d.type == dr3 then labelled ++ drop 32 (entry_record s) else entry_record s)
              (entry_record s)))
        no_stamps
      ∙ ap
          (λ (t : Bool). over old (
            front
            ++ directory_records record_count (if t then labelled ++ drop 32 blank else blank)
                blank))
          no_label
      ∙ ap (λ (r : List ℕ). over old (front ++ r)) (directory_records-records record_count)

  -- Behind the system tracks the file holds 0xe5 up to the end of the directory.
  pub mkfs-unused :
      (i : ℕ)
      → d.type == dr3 ≡ false
      → in_directory d stamps ≡ false
      → system_bytes d ≤ length boot_tracks
      → system_bytes d ≤ i
      → i < system_bytes d + directory_bytes d
      → get_or (mkfs d label boot_tracks stamps now old) i 0 ≡ unused
  mkfs-unused i no_label no_stamps enough low high =
      let front = system_sectors (d.sectrk * d.boottrk) d.sec_length boot_tracks in
      let back = records record_count blank in
      let len = length-system_sectors (d.sectrk * d.boottrk) d.sec_length boot_tracks enough in
      let (len', all) = records-IsUnused record_count in
      let k = i - system_bytes d in
      let place : i ≡ length front + k = omega (arith, len) in
      let inside : k < length back = omega (arith, len') in
      let whole = length-append front back in
      ap (λ f. get_or f i 0) (mkfs-blank no_label no_stamps)
      ∙ get_or-over_inside old (front ++ back) i (omega (arith, whole))
      ∙ ap (λ j. get_or (front ++ back) j 0) place
      ∙ get_or-append_right front back k
      ∙ get_or-All back k all inside
