-- ===== src/Fsck/Fields.antt =====
-- src/fsck.cpm.c, phase 1: the checks of a directory entry of a file. A failed assertion is `none`.
use cpmtools.Base.{
  ℕ, zero, suc, ◌+◌, ◌-◌, ◌*◌, ◌/◌, ◌%◌, Bool, true, false, not, ◌&&◌, ◌||◌, List, [], ◌∷◌, map,
  Option, none, ◌==◌, ltb, leb, if◌then◌else◌, get_or,
}
use cpmtools.Entry.{Entry, is_file_char}
use cpmtools.Super.{Drive}
use cpmtools.Alv.{pointer_blocks}
use cpmtools.Fsck.Ask.{Case, repair_each, ◌>>=◌, remove}

abbrev pub is_lower_case : ℕ → Bool
is_lower_case c = leb b'a' c && leb c b'z'

unfoldable pub is_bad_char : Bool → ℕ → Bool
is_bad_char not_first c = not (is_file_char not_first (c % 128)) || is_lower_case (c % 128)

-- the tests of the loop over the name, or over the extension, where no character is the first
unfoldable pub bad_chars : Bool → List ℕ → List Bool
bad_chars not_first [] = []
bad_chars not_first (c ∷ cs) = is_bad_char not_first c ∷ bad_chars true cs

unfoldable pub check_name : Bool → Case → Option Case
unfolding repair_each bad_chars
check_name norepair c = repair_each norepair remove (bad_chars false c.entry.name) c

unfoldable pub check_ext : Bool → Case → Option Case
unfolding repair_each bad_chars
check_ext norepair c = repair_each norepair remove (bad_chars true c.entry.ext) c

unfoldable pub check_extnol : Bool → Case → Option Case
unfolding repair_each
check_extnol norepair c = repair_each norepair remove (ltb 0x1f c.entry.extnol ∷ []) c

unfoldable pub check_extnoh : Bool → Case → Option Case
unfolding repair_each
check_extnoh norepair c = repair_each norepair remove (ltb 0x3f c.entry.extnoh ∷ []) c

abbrev pub clear_lrc : Entry → Entry
clear_lrc e = record e { lrc = 0 }

unfoldable pub check_lrc : Bool → Case → Option Case
unfolding repair_each
check_lrc norepair c = repair_each norepair clear_lrc (ltb 128 c.entry.lrc ∷ []) c

abbrev pub is_bad_block : Drive → ℕ → Bool
is_bad_block d b = ltb 0 b && (ltb b d.dirblks || leb d.size b)

-- `sb->size > 256`
abbrev pub wide : Drive → Bool
wide d = ltb 256 d.size

unfoldable pub check_blocks : Bool → Drive → Case → Option Case
unfolding repair_each pointer_blocks
check_blocks norepair d c =
    repair_each norepair remove (map (is_bad_block d) (pointer_blocks (wide d) c.entry.pointers)) c

-- The loop that counts the used pointers from `i` up to `max`, with as many rounds as fuel. Behind the
-- array a byte counts as 0; the code reads there where pointers of two bytes begin at an odd index, which
-- the power of two up to 8 that a CP/M format has for extents rules out.
unfoldable pub count_used : ℕ → Bool → ℕ → ℕ → List ℕ → ℕ
count_used zero pairs i max pointers = 0
count_used (suc rounds) pairs i max pointers =
    let rest = count_used rounds pairs (if pairs then i + 2 else i + 1) max pointers in
    if not (ltb i max)
    then 0
    else if not (get_or pointers i 0 == 0) || (pairs && not (get_or pointers (i + 1) 0 == 0))
    then suc rest
    else rest

-- `min` and `max`, the part of the pointers that belongs to the entry's last logical extent
abbrev pub records_min : Drive → Entry → ℕ
records_min d e = e.extnol % d.extents * 16 / d.extents

abbrev pub records_max : Drive → Entry → ℕ
records_max d e = (e.extnol % d.extents + 1) * 16 / d.extents

-- `recordsInBlocks != used`
unfoldable pub is_bad_count : Drive → Entry → Bool
unfolding count_used
is_bad_count d e =
    let used = count_used 16 (wide d) (records_min d e) (records_max d e) e.pointers in
    not ((e.blkcnt * 128 + d.blksiz - 1) / d.blksiz == used)

unfoldable pub check_records : Bool → Drive → Case → Option Case
unfolding repair_each
check_records norepair d c =
    if ltb (records_min d c.entry) (records_max d c.entry)
    then repair_each norepair remove (is_bad_count d c.entry ∷ []) c
    else none

-- the checks of a directory entry of a file
unfoldable pub check_file : Bool → Drive → Case → Option Case
unfolding check_name check_ext check_extnol check_extnoh check_lrc check_blocks check_records
check_file norepair d c =
    check_name norepair c
    >>= check_ext norepair
    >>= check_extnol norepair
    >>= check_extnoh norepair
    >>= check_lrc norepair
    >>= check_blocks norepair d
    >>= check_records norepair d
