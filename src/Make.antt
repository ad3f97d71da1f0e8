-- ===== src/Make.antt =====
-- src/mkfs.cpm.c: the image file that `mkfs` writes. What the calls of `open` and `write` leave is the
-- list of the file's bytes; they succeed, and since the file is not cut, what an older, longer file
-- held behind the new image stays. The local time is a parameter. The file of DateStamper, which is
-- made through the file system, is left out.
pub mod Blank
pub mod Empty
pub mod Fresh
pub mod Places
use cpmtools.Base.{
  ℕ, zero, suc, ◌+◌, ◌-◌, ◌*◌, ◌/◌, ◌%◌, Bool, ◌&&◌, ◌||◌, List, [], ◌∷◌, ◌++◌, ◌==◌, if◌then◌else◌,
  take, drop, replicate,
}
use cpmtools.Super.{Drive}
use cpmtools.Name.{to_upper}
use cpmtools.Dir.{unused}
use cpmtools.Clock.{Tm, day_number}
use cpmtools.Fsck.Special.{p2dos, dr3}
use cpmtools.Posix.{over}

-- `trkbytes`
abbrev pub track_bytes : Drive → ℕ
track_bytes d = d.sec_length * d.sectrk

-- the loop that writes the system tracks, sector by sector
unfoldable pub system_sectors : ℕ → ℕ → List ℕ → List ℕ
system_sectors zero len boot_tracks = []
system_sectors (suc n) len boot_tracks =
    take len boot_tracks ++ system_sectors n len (drop len boot_tracks)

-- `bytes`: the directory, up to the end of its last track
unfoldable pub directory_bytes : Drive → ℕ
directory_bytes d =
    let bytes = d.maxdir * 32 in
    if bytes % track_bytes d == 0
    then bytes
    else (bytes + track_bytes d) / track_bytes d * track_bytes d

-- `buf`: four entries, of which the last may be one for time stamps
unfoldable pub entry_record : Bool → List ℕ
entry_record stamps = replicate 96 unused ++ (if stamps then 0x21 else unused) ∷ replicate 31 unused

-- the name of the label, in 11 characters
unfoldable pub label_chars : ℕ → List ℕ → List ℕ
unfolding to_upper
label_chars zero label = []
label_chars (suc n) [] = b' ' ∷ label_chars n []
label_chars (suc n) (c ∷ cs) = to_upper (c % 128) ∷ label_chars n cs

-- one of the two stamps of the label, which are the same
unfoldable pub label_stamp : Tm → List ℕ
label_stamp now =
    let days = day_number now.tm_year now.tm_yday in
    days % 256
    ∷ days / 256 % 256
    ∷ (now.tm_hour / 10 * 16 + now.tm_hour % 10)
    ∷ (now.tm_min / 10 * 16 + now.tm_min % 10)
    ∷ []

-- the label's entry
unfoldable pub label_entry : Bool → List ℕ → Tm → List ℕ
unfolding label_chars label_stamp
label_entry stamps label now =
    0x20
    ∷ (label_chars 11 label
        ++ (if stamps then 0x11 else 0x01)
          ∷ (replicate 11 0
              ++ (if stamps then label_stamp now ++ label_stamp now else replicate 8 unused)))

-- whether the directory has entries for time stamps
abbrev pub in_directory : Drive → Bool → Bool
in_directory d stamps = stamps && (d.type == p2dos || d.type == dr3)

-- `firstbuf`
unfoldable pub first_record : Drive → Bool → List ℕ → Tm → List ℕ
unfolding entry_record label_entry
first_record d stamps label now =
    let plain = entry_record (in_directory d stamps) in
    if d.type == dr3 then label_entry stamps label now ++ drop 32 plain else plain

-- the loop that writes a record, again and again
unfoldable pub records : ℕ → List ℕ → List ℕ
records zero buf = []
records (suc n) buf = buf ++ records n buf

-- the loop `for (i = 0; i < bytes; i += 128)`
unfoldable pub directory_records : ℕ → List ℕ → List ℕ → List ℕ
unfolding records
directory_records zero first buf = []
directory_records (suc n) first buf = first ++ records n buf

-- `mkfs`, over what the file held before
unfoldable pub mkfs : Drive → List ℕ → List ℕ → Bool → Tm → List ℕ → List ℕ
unfolding system_sectors directory_records directory_bytes first_record entry_record over
mkfs d label boot_tracks stamps now old = over old (
    system_sectors (d.sectrk * d.boottrk) d.sec_length boot_tracks
    ++ directory_records ((directory_bytes d + 127) / 128) (first_record d stamps label now)
        (entry_record (in_directory d stamps)))
