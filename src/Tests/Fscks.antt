-- ===== src/Tests/Fscks.antt =====
-- The check of a small directory with a wrong record count and a wrong last record byte count.
use cpmtools.Base.{◌≡◌, ◌↔◌, refl, true, false, [], ◌∷◌, none, some, arith, All}
use cpmtools.Super.{Drive, has_flag}
use cpmtools.Entry.{is_file_char}
use cpmtools.Fsck.Ask.{remove}
use cpmtools.Fsck.Fields.{is_bad_char, is_bad_count}
use cpmtools.Fsck.Phases.{Outcome, sort_of, fsck}
use cpmtools.Fsck.Answered.{yeses}
use cpmtools.Fsck.Connected.{HasNoShared, HasNoDuplicate}
use cpmtools.Fsck.Consistent.{IsGoodEntry, IsConsistent}
use cpmtools.Fsck.Correct.{fsck-IsConsistent, fsck_repairs, fsck_answered}
use cpmtools.Fsck.Unmodified.{fsck_unmodified}
use cpmtools.Tests.Sample.{disk, foo0, foo1, bar, blank}

abbrev worn : Drive
worn = record disk { dir = foo0 ∷ bar ∷ record foo1 { lrc = 200 } ∷ blank ∷ [] }

abbrev mended : Outcome
mended = record {
  dir = remove foo0 ∷ bar ∷ record foo1 { lrc = 0 } ∷ blank ∷ [];
  input = [];
  modified = true;
  broken = false;
}

-- The entry with the wrong count is removed, the last record byte count is cleared.
fsck-worn : fsck false worn (b'y' ∷ b'x' ∷ 10 ∷ []) ≡ some mended
unfolding fsck sort_of is_bad_count is_bad_char is_file_char has_flag
fsck-worn = refl

abbrev refused : Outcome
refused = record { dir = worn.dir; input = []; modified = false; broken = true }

fsck-refused : fsck false worn (b'N' ∷ b'n' ∷ []) ≡ some refused
unfolding fsck sort_of is_bad_count is_bad_char is_file_char has_flag
fsck-refused = refl

-- The input ends before the second answer.
fsck-over : fsck false worn (b'y' ∷ []) ≡ none
unfolding fsck sort_of is_bad_count is_bad_char is_file_char has_flag
fsck-over = refl

fsck-IsConsistent_example :
    (o : Outcome) × (fsck true worn [] ≡ some o)
    × (o.dir ≡ worn.dir)
    × (o.input ≡ [])
    × (o.modified ≡ false)
    × ((o.broken ≡ false) ↔ IsConsistent worn worn.dir)
fsck-IsConsistent_example = fsck-IsConsistent worn [] (omega arith) (omega arith)

fsck_repairs_example : IsConsistent worn mended.dir
fsck_repairs_example = fsck_repairs false worn (b'y' ∷ b'x' ∷ 10 ∷ []) mended fsck-worn refl

fsck_unmodified_example : refused.dir ≡ worn.dir
fsck_unmodified_example = fsck_unmodified false worn (b'N' ∷ b'n' ∷ []) refused fsck-refused refl

fsck_answered_example :
    (o : Outcome) × (fsck false worn (yeses 28) ≡ some o)
    × All (IsGoodEntry worn) o.dir
    × ((o.broken ≡ false) ↔ (HasNoShared worn o.dir × HasNoDuplicate worn o.dir))
fsck_answered_example = fsck_answered worn 28 (omega arith) (omega arith) (omega arith)
